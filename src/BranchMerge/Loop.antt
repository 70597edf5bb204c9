-- ===== src/BranchMerge/Loop.antt =====
-- The loop over the paths in cas/branch_merge.cpp: each path gets its merged state, or is a
-- conflict, whatever the order of the paths.
use context_fs.Base.{
  ◌≡◌, refl, ◌||◌, ◌&&◌, not, none, some, if◌then◌else◌, arith, inl, inr, [], ◌∷◌, ◌++◌, List,
  Bool-cases, Option-cases,
}
use context_fs.Base.Order.{Bytes, bytes_ord, same, same→eq}
use context_fs.OrdMap.{find, insert, IsSorted}
use context_fs.OrdMap.Laws.{find-insert, insert-IsSorted}
use context_fs.WorkingTree.{EntryMap, is_some}
use context_fs.BranchMerge.{EntryState, Progress, merge_at, merge_path, merge_paths}
use context_fs.BranchMerge.States.{mem, mem-append}

module _ (b s t : EntryMap) where
  pub merge_path-some :
      (path : Bytes) (p : Progress) (x : EntryState)
      → merge_at b s t path ≡ some x
      → merge_path b s t path p ≡ record p { merged_states = insert path x p.merged_states }
  unfolding merge_path
  merge_path-some path p x e = rw (e, merge_path)

  pub merge_path-none :
      (path : Bytes) (p : Progress)
      → merge_at b s t path ≡ none
      → merge_path b s t path p ≡ record p { conflicts = p.conflicts ++ path ∷ [] }
  unfolding merge_path
  merge_path-none path p e = rw (e, merge_path)

  find-merge_path :
      (q path : Bytes) (p : Progress)
      → find q (merge_path b s t path p).merged_states ≡ (
          if same q path && is_some (merge_at b s t q)
          then merge_at b s t q
          else find q p.merged_states)
  find-merge_path q path p = elim (Option-cases (merge_at b s t path)) [
    | inl e ↦
        rw (merge_path-none path p e)
          (elim (Bool-cases (same q path)) [ inl h ↦ rw (h, same→eq q path h, e) | inr h ↦ rw h ])
    | inr (x, e) ↦
        rw (merge_path-some path p x e, find-insert q path x p.merged_states)
          (elim (Bool-cases (same q path)) [ inl h ↦ rw (h, same→eq q path h, e) | inr h ↦ rw h ])
  ]

  mem-merge_path :
      (q path : Bytes) (p : Progress)
      → mem q (merge_path b s t path p).conflicts
        ≡ (mem q p.conflicts || (same q path && not (is_some (merge_at b s t q))))
  mem-merge_path q path p = elim (Option-cases (merge_at b s t path)) [
    | inl e ↦
        rw (merge_path-none path p e, mem-append q p.conflicts (path ∷ []))
          (elim (Bool-cases (same q path)) [ inl h ↦ rw (h, same→eq q path h, e) | inr h ↦ rw h ])
    | inr (x, e) ↦ rw (merge_path-some path p x e) (elim (Bool-cases (same q path)) [
      | inl h ↦ rw (h, same→eq q path h, e) (ground arith)
      | inr h ↦ rw h (ground arith)
    ])
  ]

  pub find-merge_paths :
      (q : Bytes) (paths : List Bytes) (p : Progress)
      → find q (merge_paths b s t paths p).merged_states ≡ (
          if mem q paths && is_some (merge_at b s t q)
          then merge_at b s t q
          else find q p.merged_states)
  unfolding merge_paths
  find-merge_paths q [] p = refl
  find-merge_paths q (path ∷ ps) p =
      rw (find-merge_paths q ps (merge_path b s t path p), find-merge_path q path p) (ground arith)

  pub mem-merge_paths :
      (q : Bytes) (paths : List Bytes) (p : Progress)
      → mem q (merge_paths b s t paths p).conflicts
        ≡ (mem q p.conflicts || (mem q paths && not (is_some (merge_at b s t q))))
  unfolding merge_paths
  mem-merge_paths q [] p = ground arith
  mem-merge_paths q (path ∷ ps) p =
      rw (mem-merge_paths q ps (merge_path b s t path p), mem-merge_path q path p) (ground arith)

  pub merge_paths-IsSorted :
      (paths : List Bytes) (p : Progress)
      → IsSorted p.merged_states
      → IsSorted (merge_paths b s t paths p).merged_states
  unfolding merge_paths
  merge_paths-IsSorted [] p h = h
  merge_paths-IsSorted (path ∷ ps) p h =
      merge_paths-IsSorted ps (merge_path b s t path p) (elim (Option-cases (merge_at b s t path)) [
        | inl e ↦ rw (merge_path-none path p e) h
        | inr (x, e) ↦ rw (merge_path-some path p x e) (insert-IsSorted path x p.merged_states h)
      ])
