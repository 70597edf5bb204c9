-- ===== src/Base/Order.antt =====
-- The total orders by which `std::map` sorts its keys: numbers, and byte strings compared as
-- `std::string` compares them, byte by byte, a proper prefix first.
use Prim.Native.Nat.{ℕ, compare, Ordering}
use mathlib.Core.Path.{◌≡◌, refl}
use mathlib.Core.Logic.{◌⊎◌, inl, inr}
use mathlib.Core.Bool.{Bool, true, false}
use mathlib.Core.List.{List, [], ◌∷◌}
use native.Mathlib.Omega.{arith}

abbrev pub flip : Ordering → Ordering
flip Ordering.lt = Ordering.gt
flip Ordering.eq = Ordering.eq
flip Ordering.gt = Ordering.lt

pub Ordering-cases : (x : Ordering) → (x ≡ Ordering.lt) ⊎ (x ≡ Ordering.eq) ⊎ (x ≡ Ordering.gt)
Ordering-cases Ordering.lt = inl refl
Ordering-cases Ordering.eq = inr (inl refl)
Ordering-cases Ordering.gt = inr (inr refl)

-- A three-way comparison with the laws of a total order.
pub record Ord {ℓ} (K : Type ℓ) : Type ℓ where
  pub cmp : K → K → Ordering
  pub cmp_refl : (a : K) → cmp a a ≡ Ordering.eq
  pub cmp_eq : (a b : K) → cmp a b ≡ Ordering.eq → a ≡ b
  pub cmp_flip : (a b : K) → cmp b a ≡ flip (cmp a b)
  pub cmp_trans :
      (a b c : K) → cmp a b ≡ Ordering.lt → cmp b c ≡ Ordering.lt → cmp a c ≡ Ordering.lt

pub compare_refl : (a : ℕ) → compare a a ≡ Ordering.eq
compare_refl a = ground arith

pub compare_eq : (a b : ℕ) → compare a b ≡ Ordering.eq → a ≡ b
compare_eq a b h = ground arith

pub compare-flip : (a b : ℕ) → compare b a ≡ flip (compare a b)
compare-flip a b = ground arith

pub compare_trans :
    (a b c : ℕ) → compare a b ≡ Ordering.lt → compare b c ≡ Ordering.lt → compare a c ≡ Ordering.lt
compare_trans a b c h k = ground arith

instance abbrev pub nat_ord : Ord ℕ
nat_ord = record {
  cmp = compare;
  cmp_refl = compare_refl;
  cmp_eq = compare_eq;
  cmp_flip = compare-flip;
  cmp_trans = compare_trans;
}

abbrev pub Bytes : Type 0
Bytes = List ℕ

-- `a.compare(b)`
abbrev pub cmp_bytes : Bytes → Bytes → Ordering
cmp_bytes [] [] = Ordering.eq
cmp_bytes [] (_ ∷ _) = Ordering.lt
cmp_bytes (_ ∷ _) [] = Ordering.gt
cmp_bytes (a ∷ s) (b ∷ t) = elim (compare a b) [
  | Ordering.lt ↦ Ordering.lt
  | Ordering.gt ↦ Ordering.gt
  | Ordering.eq ↦ cmp_bytes s t
]

pub cmp_bytes_refl : (s : Bytes) → cmp_bytes s s ≡ Ordering.eq
cmp_bytes_refl [] = refl
cmp_bytes_refl (a ∷ s) = ground (arith, cmp_bytes_refl s)

pub cmp_bytes_eq : (s t : Bytes) → cmp_bytes s t ≡ Ordering.eq → s ≡ t
cmp_bytes_eq [] [] h = refl
cmp_bytes_eq [] (b ∷ t) h = cc
cmp_bytes_eq (a ∷ s) [] h = cc
cmp_bytes_eq (a ∷ s) (b ∷ t) h = ground (arith, cmp_bytes_eq s t)

pub cmp_bytes-flip : (s t : Bytes) → cmp_bytes t s ≡ flip (cmp_bytes s t)
cmp_bytes-flip [] [] = refl
cmp_bytes-flip [] (b ∷ t) = refl
cmp_bytes-flip (a ∷ s) [] = refl
cmp_bytes-flip (a ∷ s) (b ∷ t) = ground (arith, cmp_bytes-flip s t)

pub cmp_bytes_trans :
    (s t u : Bytes)
    → cmp_bytes s t ≡ Ordering.lt
    → cmp_bytes t u ≡ Ordering.lt
    → cmp_bytes s u ≡ Ordering.lt
cmp_bytes_trans [] t [] h k = ground arith
cmp_bytes_trans [] t (c ∷ u) h k = refl
cmp_bytes_trans (a ∷ s) [] u h k = cc
cmp_bytes_trans (a ∷ s) (b ∷ t) [] h k = cc
cmp_bytes_trans (a ∷ s) (b ∷ t) (c ∷ u) h k = ground (arith, cmp_bytes_trans s t u)

instance abbrev pub bytes_ord : Ord Bytes
bytes_ord = record {
  cmp = cmp_bytes;
  cmp_refl = cmp_bytes_refl;
  cmp_eq = cmp_bytes_eq;
  cmp_flip = cmp_bytes-flip;
  cmp_trans = cmp_bytes_trans;
}

-- Two keys are the same key of a map.
abbrev pub same {ℓ} : {K : Type ℓ} ⦃o : Ord K⦄ → K → K → Bool
same ⦃o⦄ a b = elim (o.cmp a b) [ Ordering.eq ↦ true | _ ↦ false ]

-- `a < b`
abbrev pub below {ℓ} : {K : Type ℓ} ⦃o : Ord K⦄ → K → K → Bool
below ⦃o⦄ a b = elim (o.cmp a b) [ Ordering.lt ↦ true | _ ↦ false ]

module _ {ℓ} {K : Type ℓ} ⦃o : Ord K⦄ where
  pub same→eq : (a b : K) → same a b ≡ true → a ≡ b
  same→eq a b h = ground (arith, o.cmp_eq a b)

  pub same_refl : (a : K) → same a a ≡ true
  same_refl a = ground (arith, o.cmp_refl a)

  pub eq→same : (a b : K) → a ≡ b → same a b ≡ true
  eq→same a b h = rw h (same_refl b)

  pub same_comm : (a b : K) → same a b ≡ same b a
  same_comm a b = ground (arith, o.cmp_flip a b)
