-- ===== src/BranchRouter/Rounds.antt =====
-- The loop over the ancestors of a cgroup in cas/branch_router.cpp ends.
use context_fs.Base.{
  ◌≡◌, refl, ℕ, zero, suc, ◌+◌, ◌≤◌, some, [], ◌∷◌, ◌==◌, length, take, leb, Bool-cases,
  Option-cases, inl, inr, arith, length-take,
}
use context_fs.Base.Order.{Bytes, bytes_ord, same}
use context_fs.BranchRouter.{cgroup_root, last_slash, parent_cgroup, walk, cgroup_path_ids}

last_slash_in_bounds : (s : Bytes) (i : ℕ) → last_slash s ≡ some i → i + 1 ≤ length s
unfolding last_slash
last_slash_in_bounds [] i = λ e. cc e
last_slash_in_bounds (c ∷ s) i = elim (Option-cases (last_slash s)) [
  | inr (j, e) ↦
      rw (e, last_slash)
        (λ f. let next : suc j ≡ i = cc f in omega (arith, next, last_slash_in_bounds s j e))
  | inl e ↦ elim (Bool-cases (c == b'/')) [
    | inl t ↦ rw (e, t, last_slash) (λ f. let first : 0 ≡ i = cc f in omega (arith, first))
    | inr t ↦ rw (e, t, last_slash) (λ f. cc f)
  ]
]

parent_cgroup_bounds :
    (path p : Bytes) → parent_cgroup path ≡ some p → (length p + 1 ≤ length path) × (1 ≤ length p)
unfolding parent_cgroup
parent_cgroup_bounds path p = elim (Bool-cases (same path cgroup_root)) [
  | inl e ↦ rw e (λ q. cc q)
  | inr e ↦ elim (Option-cases (last_slash path)) [
    | inl f ↦ rw (e, f) (λ q. cc q)
    | inr (i, f) ↦ elim (Bool-cases (leb i 14)) [
      | inl g ↦ rw (e, f, g) (λ q. cc q)
      | inr g ↦
          rw (e, f, g)
            (λ q.
              let front : take i path ≡ p = cc q in
              let bound = last_slash_in_bounds path i f in
              let size = length-take i path in
              rw⁻¹ front (ground (arith, g, bound, size), ground (arith, g, bound, size)))
    ]
  ]
]

walk_rounds :
    (cgroup_id : Bytes → ℕ) (f g id : ℕ) (path : Bytes)
    → length path ≤ f
    → length path ≤ g
    → 1 ≤ length path
    → walk cgroup_id f id path ≡ walk cgroup_id g id path
unfolding walk
walk_rounds cgroup_id zero g id path l k h = absurd (omega arith)
walk_rounds cgroup_id (suc f) zero id path l k h = absurd (omega arith)
walk_rounds cgroup_id (suc f) (suc g) id path l k h = elim (Option-cases (parent_cgroup path)) [
  | inl e ↦ rw (e, walk) refl
  | inr (p, e) ↦
      let (shorter, some_left) = parent_cgroup_bounds path p e in
      rw (e, walk)
        (rw (walk_rounds cgroup_id f g (cgroup_id p) p (omega arith) (omega arith) some_left) refl)
]

-- The loop over a cgroup's ancestors ends within as many rounds as the path has characters: more
-- rounds change nothing.
pub walk_fuel :
    (cgroup_id : Bytes → ℕ) (f id : ℕ) (path : Bytes)
    → length path ≤ f
    → 1 ≤ length path
    → walk cgroup_id f id path ≡ cgroup_path_ids cgroup_id path id
unfolding cgroup_path_ids
walk_fuel cgroup_id f id path l h = walk_rounds cgroup_id f (length path) id path l (omega arith) h
