-- ===== src/Base/Result.antt =====
-- Calls that fail with a message, as `bool f(..., std::string& error)` does, and the texts of the
-- messages and of the record formats.
use Prim.Native.Char.{code}
use Prim.Native.String.{String}
use mathlib.Core.List.{List, [], ◌∷◌}
use Prim.Native.Nat.{ℕ}

-- the bytes of an ASCII text
abbrev pub codes : String → List ℕ
codes String.[] = []
codes (String.◌∷◌ c s) = code c ∷ codes s

pub data Result {ℓ} (Value : Type ℓ) : Type ℓ where
  err : String → Result Value
  ok : Value → Result Value

-- the next step, unless an earlier one has failed
infixl 5 ◌>>=◌
abbrev pub ◌>>=◌ {ℓ κ} :
    {Value : Type ℓ} {Next : Type κ} → Result Value → (Value → Result Next) → Result Next
err message >>= step = err message
ok value >>= step = step value

-- a parsed value goes to its place
unfoldable pub set_to {ℓ κ} : {A : Type ℓ} {B : Type κ} → Result A → (A → B) → Result B
set_to (ok a) f = ok (f a)
set_to (err e) f = err e

-- what a call returns, if it returns
pub data AllOk {ℓ κ} {A : Type ℓ} (P : A → Type κ) : Result A → Type (ℓ ⊔ κ) where
  returns : {a : A} → P a → AllOk P (ok a)
  fails : {e : String} → AllOk P (err e)

pub AllOk-ok {ℓ κ} : {A : Type ℓ} {P : A → Type κ} {a : A} → AllOk P (ok a) → P a
AllOk-ok (returns p) = p

pub AllOk-any {ℓ} : {A : Type ℓ} (m : Result A) → AllOk (λ _. Unit {0}) m
AllOk-any (ok a) = returns tt
AllOk-any (err e) = fails

pub AllOk-set_to {ℓ κ ι o} :
    {A : Type ℓ} {B : Type κ} {Q : A → Type ι} {P : B → Type o} {m : Result A} (f : A → B)
    → AllOk Q m
    → ((a : A) → Q a → P (f a))
    → AllOk P (set_to m f)
unfolding set_to
AllOk-set_to f (returns q) k = returns (k _ q)
AllOk-set_to f fails k = fails

pub AllOk->>= {ℓ κ ι o} :
    {A : Type ℓ} {B : Type κ} {Q : A → Type ι} {P : B → Type o} {m : Result A} (f : A → Result B)
    → AllOk Q m
    → ((a : A) → Q a → AllOk P (f a))
    → AllOk P (m >>= f)
AllOk->>= f (returns q) k = k _ q
AllOk->>= f fails k = fails
