-- ===== src/OrdMap/Laws.antt =====
-- What a lookup sees after an update, and that updates keep a map sorted.
use context_fs.Base.{
  ◌≡◌, refl, none, some, [], ◌∷◌, Ordering, if◌then◌else◌, arith, Bool-cases, subst, sym, inl, inr,
}
use context_fs.Base.Order.{Ord, same, Ordering-cases}
use context_fs.OrdMap.{OrdMap, find, insert, erase, Above, IsSorted}

module _ {ℓ κ} {K : Type ℓ} {V : Type κ} ⦃o : Ord K⦄ where
  pub find-insert :
      (q k : K) (v : V) (m : OrdMap K V)
      → find q (insert k v m) ≡ (if same q k then some v else find q m)
  unfolding find insert
  find-insert q k v [] = refl
  find-insert q k v ((j, w) ∷ m) = ground (
    arith,
    find-insert q k v m,
    o.cmp_eq k j,
    o.cmp_eq q k,
    o.cmp_refl j,
    o.cmp_refl q,
    o.cmp_eq q j,
  )

  pub find-erase :
      (q k : K) (m : OrdMap K V) → find q (erase k m) ≡ (if same q k then none else find q m)
  unfolding find erase
  find-erase q k [] = ground arith
  find-erase q k ((j, w) ∷ m) =
      ground (arith, find-erase q k m, o.cmp_eq k j, o.cmp_eq q k, o.cmp_refl j, o.cmp_eq q j)

  Above-insert :
      (l k : K) (v : V) (m : OrdMap K V)
      → o.cmp l k ≡ Ordering.lt
      → Above l m
      → Above l (insert k v m)
  unfolding insert
  Above-insert l k v [] h a = h
  Above-insert l k v ((j, w) ∷ m) h a = ground arith

  pub insert-IsSorted : (k : K) (v : V) (m : OrdMap K V) → IsSorted m → IsSorted (insert k v m)
  unfolding insert
  insert-IsSorted k v [] s = (tt, tt)
  insert-IsSorted k v ((j, w) ∷ m) s = elim (Ordering-cases (o.cmp k j)) [
    | inl e ↦ rw (e, insert) (e, s)
    | inr (inl e) ↦ rw (e, insert) (subst (λ i. Above i m) (sym (o.cmp_eq k j e)) s.0, s.1)
    | inr (inr e) ↦
        rw (e, insert)
          (Above-insert j k v m (ground (arith, o.cmp_flip k j)) s.0, insert-IsSorted k v m s.1)
  ]

  pub Above-trans : (l k : K) (m : OrdMap K V) → o.cmp l k ≡ Ordering.lt → Above k m → Above l m
  Above-trans l k [] h a = tt
  Above-trans l k ((j, w) ∷ m) h a = o.cmp_trans l k j h a

  pub Above-erase : (l k : K) (m : OrdMap K V) → Above l m → IsSorted m → Above l (erase k m)
  unfolding erase
  Above-erase l k [] a s = tt
  Above-erase l k ((j, w) ∷ m) a s = elim (Bool-cases (same k j)) [
    | inl e ↦ rw (e, erase) (Above-erase l k m (Above-trans l j m a s.0) s.1)
    | inr e ↦ rw (e, erase) a
  ]

  pub erase-IsSorted : (k : K) (m : OrdMap K V) → IsSorted m → IsSorted (erase k m)
  unfolding erase
  erase-IsSorted k [] s = tt
  erase-IsSorted k ((j, w) ∷ m) s = elim (Bool-cases (same k j)) [
    | inl e ↦ rw (e, erase) (erase-IsSorted k m s.1)
    | inr e ↦ rw (e, erase) (Above-erase j k m s.0 s.1, erase-IsSorted k m s.1)
  ]

  pub find_below : (q : K) (m : OrdMap K V) → Above q m → IsSorted m → find q m ≡ none
  unfolding find
  find_below q [] a s = refl
  find_below q ((j, w) ∷ m) a s = ground (arith, find_below q m (Above-trans q j m a s.0) s.1)
