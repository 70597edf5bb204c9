-- ===== src/Codec.antt =====
-- Fixed-width integers and byte ranges as `std::memcpy` writes and reads them on a little-endian
-- machine, for the serialized objects of cas/commit.cpp and cas/tree_serialize.cpp. A read past the
-- end of the buffer is a fault of its own.
use context_fs.Base.{
  ℕ, zero, suc, ◌+◌, ◌*◌, ◌/◌, ◌%◌, ◌≤◌, ◌<◌, ◌≡◌, refl, ap, [], ◌∷◌, ◌++◌, leb, if◌then◌else◌,
  length, take, drop, take-append, drop-append, length-append, arith, ◌⊎◌, inl, inr, Bool-cases,
}
use context_fs.Base.Order.{Bytes}

-- the low `w` bytes of a number, lowest first
unfoldable pub le_bytes : ℕ → ℕ → Bytes
le_bytes zero n = []
le_bytes (suc w) n = (n % 256) ∷ le_bytes w (n / 256)

unfoldable pub from_le : Bytes → ℕ
from_le [] = 0
from_le (b ∷ s) = b + 256 * from_le s

-- how many numbers fit in `w` bytes
abbrev pub capacity : ℕ → ℕ
capacity zero = 1
capacity (suc w) = 256 * capacity w

pub length-le_bytes : (w n : ℕ) → length (le_bytes w n) ≡ w
unfolding le_bytes
length-le_bytes zero n = refl
length-le_bytes (suc w) n = ap suc (length-le_bytes w (n / 256))

pub from_le-le_bytes : (w n : ℕ) → n < capacity w → from_le (le_bytes w n) ≡ n
unfolding le_bytes from_le
from_le-le_bytes zero n h = omega arith
from_le-le_bytes (suc w) n h = omega (arith, from_le-le_bytes w (n / 256) (omega arith))

-- the outcome of reading a buffer: a value, a refusal, or a read past the end
pub data Parse {ℓ} (A : Type ℓ) : Type ℓ where
  parsed : A → Parse A
  rejected out_of_bounds : Parse A

infixl 5 ◌>>=◌ ◌>>◌
abbrev pub ◌>>=◌ {ℓ κ} : {A : Type ℓ} {B : Type κ} → Parse A → (A → Parse B) → Parse B
parsed a >>= f = f a
rejected >>= f = rejected
out_of_bounds >>= f = out_of_bounds

abbrev pub ◌>>◌ {ℓ} : {B : Type ℓ} → Parse (Unit {0}) → Parse B → Parse B
m >> k = m >>= λ _. k

-- `if (body.size() < pos + n) return false;`, where `s` is the buffer from `pos` on
abbrev pub require : ℕ → Bytes → Parse (Unit {0})
require n s = if leb n (length s) then parsed tt else rejected

-- `memcpy(out, body.data() + pos, n); pos += n;`
unfoldable pub grab : ℕ → Bytes → Parse (Bytes × Bytes)
grab n s = if leb n (length s) then parsed (take n s, drop n s) else out_of_bounds

pub grab-append : (n : ℕ) (xs ys : Bytes) → length xs ≡ n → grab n (xs ++ ys) ≡ parsed (xs, ys)
unfolding grab
grab-append n xs ys e =
    rw (← e, length-append xs ys, take-append xs ys, drop-append xs ys) (ground arith)

-- an integer field
unfoldable pub grab_int : ℕ → Bytes → Parse (ℕ × Bytes)
grab_int w s = do (field, rest) ← grab w s; parsed (from_le field, rest)

pub grab_int-le_bytes :
    (w n : ℕ) (ys : Bytes) → n < capacity w → grab_int w (le_bytes w n ++ ys) ≡ parsed (n, ys)
unfolding grab_int
grab_int-le_bytes w n ys h =
    rw (grab-append w (le_bytes w n) ys (length-le_bytes w n), from_le-le_bytes w n h)

pub grab_enough : (n : ℕ) (s : Bytes) → n ≤ length s → grab n s ≡ parsed (take n s, drop n s)
unfolding grab
grab_enough n s h = ground arith

pub grab_short : (n : ℕ) (s : Bytes) → length s < n → grab n s ≡ out_of_bounds
unfolding grab
grab_short n s h = ground arith

pub grab_int_enough :
    (w : ℕ) (s : Bytes) → w ≤ length s → grab_int w s ≡ parsed (from_le (take w s), drop w s)
unfolding grab_int
grab_int_enough w s h = rw (grab_enough w s h)

pub require-cases :
    (n : ℕ) (s : Bytes) → ((n ≤ length s) × (require n s ≡ parsed tt)) ⊎ (require n s ≡ rejected)
require-cases n s = elim (Bool-cases (leb n (length s))) [
  | inl e ↦ inl (ground (arith, e), rw e)
  | inr e ↦ inr (rw e)
]

pub require_ok : (n : ℕ) (s : Bytes) → n ≤ length s → require n s ≡ parsed tt
require_ok n s h = ground arith

pub length_ints : (w n : ℕ) (s : Bytes) → length (le_bytes w n ++ s) ≡ w + length s
length_ints w n s = omega (arith, length-append (le_bytes w n) s, length-le_bytes w n)
