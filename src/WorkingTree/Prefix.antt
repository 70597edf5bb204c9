-- ===== src/WorkingTree/Prefix.antt =====
-- The range scans of cas/working_tree.cpp: from `lower_bound(prefix)` up to the first key without
-- the prefix stand exactly the keys that have it.
use context_fs.Base.{
  ◌≡◌, refl, true, false, none, if◌then◌else◌, arith, Bool-cases, ◌∙◌, inl, inr, [], ◌∷◌, Ordering,
}
use context_fs.Base.Order.{Bytes, bytes_ord, cmp_bytes, cmp_bytes_eq, cmp_bytes_trans, below}
use context_fs.OrdMap.{find, IsSorted, Above}
use context_fs.OrdMap.Laws.{find_below}
use context_fs.WorkingTree.{EntryMap, starts_with, lower_bound, take_prefix, prefix_range}

-- no key of the map stands below the bound
abbrev Floor : Bytes → EntryMap → Type 0
Floor p [] = Unit {0}
Floor p ((j, _) ∷ m) = below j p ≡ false

Floor-up : (p j : Bytes) (m : EntryMap) → below j p ≡ false → Above j m → Floor p m
Floor-up p j [] h a = tt
Floor-up p j ((i, e) ∷ m) h a = ground (arith, cmp_bytes_trans j i p)

starts_with-not_below : (s p : Bytes) → starts_with s p ≡ true → below s p ≡ false
unfolding starts_with
starts_with-not_below [] [] h = refl
starts_with-not_below (a ∷ s) [] h = refl
starts_with-not_below [] (b ∷ p) h = cc
starts_with-not_below (a ∷ s) (b ∷ p) h = ground (arith, starts_with-not_below s p)

-- what has the prefix stands before every larger key that lacks it
starts_with-before :
    (q j p : Bytes)
    → starts_with q p ≡ true
    → below j p ≡ false
    → starts_with j p ≡ false
    → cmp_bytes q j ≡ Ordering.lt
unfolding starts_with
starts_with-before q j [] h k l = cc
starts_with-before [] j (b ∷ p) h k l = cc
starts_with-before (c ∷ q) [] (b ∷ p) h k l = cc
starts_with-before (c ∷ q) (a ∷ j) (b ∷ p) h k l = ground (arith, starts_with-before q j p)

lower_bound-Floor : (k : Bytes) (m : EntryMap) → Floor k (lower_bound k m)
unfolding lower_bound
lower_bound-Floor k [] = tt
lower_bound-Floor k ((j, e) ∷ m) = elim (Bool-cases (below j k)) [
  | inl h ↦ rw (h, lower_bound) (lower_bound-Floor k m)
  | inr h ↦ rw (h, lower_bound) h
]

lower_bound-IsSorted : (k : Bytes) (m : EntryMap) → IsSorted m → IsSorted (lower_bound k m)
unfolding lower_bound
lower_bound-IsSorted k [] s = tt
lower_bound-IsSorted k ((j, e) ∷ m) s = elim (Bool-cases (below j k)) [
  | inl h ↦ rw (h, lower_bound) (lower_bound-IsSorted k m s.1)
  | inr h ↦ rw (h, lower_bound) s
]

find-lower_bound :
    (q k : Bytes) (m : EntryMap) → below q k ≡ false → find q (lower_bound k m) ≡ find q m
unfolding lower_bound find
find-lower_bound q k [] h = refl
find-lower_bound q k ((j, e) ∷ m) h = ground (arith, find-lower_bound q k m h, cmp_bytes_eq q j)

find-take_prefix :
    (q p : Bytes) (m : EntryMap)
    → IsSorted m
    → Floor p m
    → find q (take_prefix p m) ≡ (if starts_with q p then find q m else none)
unfolding take_prefix find
find-take_prefix q p [] s f = ground arith
find-take_prefix q p ((j, e) ∷ m) s f = elim (Bool-cases (starts_with j p)) [
  | inl h ↦
      rw (h, take_prefix)
        (ground (arith, find-take_prefix q p m s.1 (Floor-up p j m f s.0), cmp_bytes_eq q j, h))
  | inr h ↦
      rw (h, take_prefix) (ground (arith, starts_with-before q j p, find_below q ((j, e) ∷ m)))
]

Above-take_prefix : (k p : Bytes) (m : EntryMap) → Above k m → Above k (take_prefix p m)
unfolding take_prefix
Above-take_prefix k p [] a = tt
Above-take_prefix k p ((j, e) ∷ m) a = elim (Bool-cases (starts_with j p)) [
  | inl h ↦ rw (h, take_prefix) a
  | inr h ↦ rw (h, take_prefix) tt
]

take_prefix-IsSorted : (p : Bytes) (m : EntryMap) → IsSorted m → IsSorted (take_prefix p m)
unfolding take_prefix
take_prefix-IsSorted p [] s = tt
take_prefix-IsSorted p ((j, e) ∷ m) s = elim (Bool-cases (starts_with j p)) [
  | inl h ↦ rw (h, take_prefix) (Above-take_prefix j p m s.0, take_prefix-IsSorted p m s.1)
  | inr h ↦ rw (h, take_prefix) tt
]

pub prefix_range-IsSorted : (p : Bytes) (m : EntryMap) → IsSorted m → IsSorted (prefix_range p m)
unfolding prefix_range
prefix_range-IsSorted p m s = take_prefix-IsSorted p (lower_bound p m) (lower_bound-IsSorted p m s)

-- The scan of one layer finds every key with the prefix and no other.
pub find-prefix_range :
    (q p : Bytes) (m : EntryMap)
    → IsSorted m
    → find q (prefix_range p m) ≡ (if starts_with q p then find q m else none)
unfolding prefix_range
find-prefix_range q p m s =
    find-take_prefix q p (lower_bound p m) (lower_bound-IsSorted p m s) (lower_bound-Floor p m)
    ∙ ground (arith, starts_with-not_below q p, find-lower_bound q p m)
