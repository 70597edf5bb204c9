-- ===== src/OrdMap/Sorted.antt =====
-- A sorted map is determined by its lookups.
use context_fs.Base.{◌≡◌, refl, sym, subst, some, [], ◌∷◌, Ordering, arith, inl, inr}
use context_fs.Base.Order.{Ord, Ordering-cases}
use context_fs.OrdMap.{OrdMap, find, IsSorted}
use context_fs.OrdMap.Laws.{find_below}

module _ {ℓ κ} {K : Type ℓ} {V : Type κ} ⦃o : Ord K⦄ where
  find_head : (k : K) (v : V) (m : OrdMap K V) → find k ((k, v) ∷ m) ≡ some v
  unfolding find
  find_head k v m = ground (arith, o.cmp_refl k)

  tails :
      (k : K) (v w : V) (m n : OrdMap K V)
      → IsSorted ((k, v) ∷ m)
      → IsSorted ((k, w) ∷ n)
      → ((q : K) → find q ((k, v) ∷ m) ≡ find q ((k, w) ∷ n))
      → (q : K) → find q m ≡ find q n
  unfolding find
  tails k v w m n s t h q =
      ground (arith, h q, o.cmp_eq q k, find_below k m s.0 s.1, find_below k n t.0 t.1)

  head_below :
      (k j : K) (v w : V) (m n : OrdMap K V)
      → o.cmp k j ≡ Ordering.lt
      → IsSorted ((j, w) ∷ n)
      → find k ((k, v) ∷ m) ≡ find k ((j, w) ∷ n)
      → ⊥
  head_below k j v w m n lt t h = cc (find_head k v m, find_below k ((j, w) ∷ n) lt t)

  ext_same :
      (k j : K) (v w : V) (m n : OrdMap K V)
      → k ≡ j
      → IsSorted ((k, v) ∷ m)
      → IsSorted ((j, w) ∷ n)
      → ((q : K) → find q ((k, v) ∷ m) ≡ find q ((j, w) ∷ n))
      → (((q : K) → find q m ≡ find q n) → m ≡ n)
      → (k, v) ∷ m ≡ (j, w) ∷ n
  ext_same k j v w m n e s t h rest =
      let t' : IsSorted ((k, w) ∷ n) = subst (λ i. IsSorted ((i, w) ∷ n)) (sym e) t in
      let h' : (q : K) → find q ((k, v) ∷ m) ≡ find q ((k, w) ∷ n) =
        subst (λ i. (q : K) → find q ((k, v) ∷ m) ≡ find q ((i, w) ∷ n)) (sym e) h in
      cc (find_head k v m, find_head k w n, h' k, rest (tails k v w m n s t' h'), e)

  pub ext : (m n : OrdMap K V) → IsSorted m → IsSorted n → ((q : K) → find q m ≡ find q n) → m ≡ n
  unfolding find
  ext [] [] s t h = refl
  ext [] ((j, w) ∷ n) s t h = cc (h j, find_head j w n)
  ext ((k, v) ∷ m) [] s t h = cc (h k, find_head k v m)
  ext ((k, v) ∷ m) ((j, w) ∷ n) s t h = elim (Ordering-cases (o.cmp k j)) [
    | inl lt ↦ absurd (head_below k j v w m n lt t (h k))
    | inr (inl e) ↦ ext_same k j v w m n (o.cmp_eq k j e) s t h (λ p. ext m n s.1 t.1 p)
    | inr (inr gt) ↦ absurd (head_below j k w v n m (ground (arith, o.cmp_flip k j)) s (sym (h j)))
  ]
