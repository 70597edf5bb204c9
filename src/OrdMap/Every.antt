-- ===== src/OrdMap/Every.antt =====
-- A property of every entry of a map, across an update and at a lookup.
use context_fs.Base.{◌≡◌, sym, subst, some, [], ◌∷◌, All, Bool-cases, inl, inr, arith}
use context_fs.Base.Order.{Ord, same, same→eq, Ordering-cases}
use context_fs.OrdMap.{OrdMap, find, insert, erase}

module _ {ℓ κ ι} {K : Type ℓ} {V : Type κ} ⦃o : Ord K⦄ (P : K × V → Type ι) where
  pub All-insert : (k : K) (v : V) (m : OrdMap K V) → P (k, v) → All P m → All P (insert k v m)
  unfolding insert
  All-insert k v [] p a = (p, tt)
  All-insert k v ((j, w) ∷ m) p a = elim (Ordering-cases (o.cmp k j)) [
    | inl c ↦ rw (c, insert) (p, a)
    | inr (inl c) ↦ rw (c, insert) (p, a.1)
    | inr (inr c) ↦ rw (c, insert) (a.0, All-insert k v m p a.1)
  ]

  pub All-erase : (k : K) (m : OrdMap K V) → All P m → All P (erase k m)
  unfolding erase
  All-erase k [] a = tt
  All-erase k ((j, w) ∷ m) a = elim (Bool-cases (same k j)) [
    | inl e ↦ rw (e, erase) (All-erase k m a.1)
    | inr e ↦ rw (e, erase) (a.0, All-erase k m a.1)
  ]

  pub find-All : (k : K) (v : V) (m : OrdMap K V) → All P m → find k m ≡ some v → P (k, v)
  unfolding find
  find-All k v [] a e = cc e
  find-All k v ((j, w) ∷ m) a e = elim (Bool-cases (same k j)) [
    | inl t ↦
        let found : w ≡ v = ground (arith, rw t at e) in
        subst (λ x. P (x, v)) (sym (same→eq k j t)) (subst (λ y. P (j, y)) found a.0)
    | inr t ↦ find-All k v m a.1 (rw t at e)
  ]
