-- ===== src/OrdMap.antt =====
-- `std::map` and `std::set`: an association list sorted by its keys, as iteration sees it.
-- The container is the language's; what is written here is what the program relies on.
pub mod Laws
pub mod Sorted
pub mod Every
use context_fs.Base.{
  ℕ, ◌+◌, ◌≡◌, Bool, true, false, Option, none, some, List, [], ◌∷◌, ◌++◌, Ordering, if◌then◌else◌,
}
use context_fs.Base.Order.{Ord, same, below}

abbrev pub OrdMap {ℓ κ} : Type ℓ → Type κ → Type (ℓ ⊔ κ)
OrdMap K V = List (K × V)

module _ {ℓ κ} {K : Type ℓ} {V : Type κ} ⦃o : Ord K⦄ where
  -- `m.find(k)`
  unfoldable pub find : K → OrdMap K V → Option V
  find k [] = none
  find k ((j, v) ∷ m) = if same k j then some v else find k m

  -- `m[k] = v`
  unfoldable pub insert : K → V → OrdMap K V → OrdMap K V
  insert k v [] = (k, v) ∷ []
  insert k v ((j, w) ∷ m) = elim (o.cmp k j) [
    | Ordering.lt ↦ (k, v) ∷ (j, w) ∷ m
    | Ordering.eq ↦ (k, v) ∷ m
    | Ordering.gt ↦ (j, w) ∷ insert k v m
  ]

  -- `m.erase(k)`
  unfoldable pub erase : K → OrdMap K V → OrdMap K V
  erase k [] = []
  erase k ((j, w) ∷ m) = if same k j then erase k m else (j, w) ∷ erase k m

  -- the keys ascend, so each stands once
  abbrev pub Above : K → OrdMap K V → Type 0
  Above k [] = Unit {0}
  Above k ((j, _) ∷ m) = o.cmp k j ≡ Ordering.lt

  abbrev pub IsSorted : OrdMap K V → Type 0
  IsSorted [] = Unit {0}
  IsSorted ((k, _) ∷ m) = Above k m × IsSorted m
