-- ===== src/BranchMerge/Result.antt =====
-- What `merge_trees` of cas/branch_merge.cpp returns.
use context_fs.Base.{
  ◌≡◌, refl, true, false, ◌||◌, ◌&&◌, not, Option, none, some, if◌then◌else◌, arith, ◌∙◌, sym, inl,
  inr, [], ◌∷◌, List, Bool-cases,
}
use context_fs.Base.Order.{Bytes, bytes_ord, same, same→eq, same_refl}
use context_fs.OrdMap.{find, IsSorted}
use context_fs.OrdMap.Laws.{find_below}
use context_fs.WorkingTree.{WorkingTree, is_empty, is_some, empty_tree, lookup_raw, IsValid}
use context_fs.WorkingTree.Lookup.{lookup_raw_lem, lookup_raw-insert}
use context_fs.BranchMerge.{
  EntryState, States, Progress, merge_state, merge_at, merge_paths, start, all_paths, to_path_map,
  detect_structural_conflicts, path_conflict, sort_unique, apply_state, apply_states, finish_merge,
  merge_trees,
}
use context_fs.BranchMerge.States.{mem, mem-sort_unique, mem-all_paths, find-to_path_map}
use context_fs.BranchMerge.Loop.{find-merge_paths, mem-merge_paths, merge_paths-IsSorted}
use context_fs.BranchMerge.Structure.{detect_empty}

-- The entry that a state writes, or what was there.
abbrev pub written : Option EntryState → EntryState → EntryState
written (some (some e)) d = some e
written (some none) d = d
written none d = d

lookup_raw-apply_state :
    (w : WorkingTree) (q p : Bytes) (x : EntryState)
    → lookup_raw (apply_state w p x) q
      ≡ (if same q p then written (some x) (lookup_raw w q) else lookup_raw w q)
unfolding apply_state
lookup_raw-apply_state w q p none = ground arith
lookup_raw-apply_state w q p (some e) = lookup_raw-insert w p q e

lookup_raw-apply_states :
    (w : WorkingTree) (q : Bytes) (m : States)
    → IsSorted m
    → lookup_raw (apply_states w m) q ≡ written (find q m) (lookup_raw w q)
unfolding apply_states find
lookup_raw-apply_states w q [] s = refl
lookup_raw-apply_states w q ((p, x) ∷ m) s =
    rw (lookup_raw-apply_states (apply_state w p x) q m s.1, lookup_raw-apply_state w q p x)
      (elim (Bool-cases (same q p)) [
        | inl h ↦ rw (h, same→eq q p h, find_below p m s.0 s.1)
        | inr h ↦ rw h
      ])

sort_unique_empty : (ks : List Bytes) → is_empty (sort_unique ks) ≡ true → is_empty ks ≡ true
sort_unique_empty [] h = refl
sort_unique_empty (k ∷ ks) h =
    go (sort_unique (k ∷ ks)) h (mem-sort_unique k (k ∷ ks) ∙ rw (same_refl k))
  where
    go : (xs : List Bytes) → is_empty xs ≡ true → mem k xs ≡ true → false ≡ true
    go [] e f = f
    go (x ∷ xs) e f = e

abbrev pub conflicts_of : Progress → List Bytes
conflicts_of p = detect_structural_conflicts p.merged_states p.conflicts

finish_ok :
    (p : Progress)
    → (finish_merge p).ok ≡ true
    → (is_empty (conflicts_of p) ≡ true)
      × ((finish_merge p).merged ≡ apply_states empty_tree p.merged_states)
unfolding finish_merge
finish_ok p h = elim (Bool-cases (is_empty (sort_unique (conflicts_of p)))) [
  | inl e ↦ (sort_unique_empty (conflicts_of p) e, rw (e, finish_merge))
  | inr e ↦ cc (rw (e, finish_merge) at h)
]

pub nowhere : merge_state none none none ≡ some none
unfolding merge_state
nowhere = refl

module _ (base source target : WorkingTree) (vb : IsValid base) (vs : IsValid source)
    (vt : IsValid target) where
  abbrev pub progress : Progress
  progress =
      let b = to_path_map base in
      let s = to_path_map source in
      let t = to_path_map target in merge_paths b s t (all_paths b s t) start

  abbrev pub three_way : Bytes → Option EntryState
  three_way q = merge_state (lookup_raw base q) (lookup_raw source q) (lookup_raw target q)

  at_three_way :
      (q : Bytes)
      → merge_at (to_path_map base) (to_path_map source) (to_path_map target) q ≡ three_way q
  unfolding merge_at
  at_three_way q =
      rw (find-to_path_map base q vb, find-to_path_map source q vs, find-to_path_map target q vt)

  pub somewhere :
      (q : Bytes)
      → mem q (all_paths (to_path_map base) (to_path_map source) (to_path_map target)) ≡ (
          is_some (lookup_raw base q)
          || (is_some (lookup_raw source q) || is_some (lookup_raw target q)))
  somewhere q = rw (
    mem-all_paths q (to_path_map base) (to_path_map source) (to_path_map target),
    find-to_path_map base q vb,
    find-to_path_map source q vs,
    find-to_path_map target q vt,
  )

  pub merged_state_lem :
      (q : Bytes)
      → find q progress.merged_states ≡ (
          if is_some (lookup_raw base q)
            || (is_some (lookup_raw source q) || is_some (lookup_raw target q))
          then three_way q
          else none)
  merged_state_lem q =
      rw
        (
          find-merge_paths (to_path_map base) (to_path_map source) (to_path_map target) q
              (all_paths (to_path_map base) (to_path_map source) (to_path_map target)) start,
          at_three_way q,
          somewhere q,
        )
        (unfold find in ground arith)

  pub conflict_lem :
      (q : Bytes)
      → mem q progress.conflicts ≡ (
          (is_some (lookup_raw base q)
            || (is_some (lookup_raw source q) || is_some (lookup_raw target q)))
          && not (is_some (three_way q)))
  conflict_lem q = rw (
    mem-merge_paths (to_path_map base) (to_path_map source) (to_path_map target) q
        (all_paths (to_path_map base) (to_path_map source) (to_path_map target)) start,
    at_three_way q,
    somewhere q,
  )

  merged : WorkingTree
  merged = (merge_trees base source target).merged

  no_conflict : (merge_trees base source target).ok ≡ true → is_empty (conflicts_of progress) ≡ true
  unfolding merge_trees
  no_conflict h = (finish_ok progress h).0

  merged_states :
      (q : Bytes)
      → (merge_trees base source target).ok ≡ true
      → lookup_raw merged q ≡ written (find q progress.merged_states) none
  unfolding merge_trees merged
  merged_states q h =
      rw
        (
          (finish_ok progress h).1,
          lookup_raw-apply_states empty_tree q progress.merged_states (
              merge_paths-IsSorted (to_path_map base) (to_path_map source) (to_path_map target)
                (all_paths (to_path_map base) (to_path_map source) (to_path_map target)) start tt),
          lookup_raw_lem empty_tree q,
        )
        (unfold find in refl)

  pub clear_path :
      (q : Bytes) (x : EntryState)
      → (merge_trees base source target).ok ≡ true
      → find q progress.merged_states ≡ some x
      → path_conflict progress.merged_states q x ≡ none
  unfolding detect_structural_conflicts
  clear_path q x h =
      (detect_empty progress.merged_states progress.merged_states progress.conflicts
          (no_conflict h)).1
        q x

  mem_empty : (q : Bytes) (ks : List Bytes) → is_empty ks ≡ true → mem q ks ≡ false
  mem_empty q [] e = refl
  mem_empty q (k ∷ ks) e = cc

  not_conflict :
      (q : Bytes) → (merge_trees base source target).ok ≡ true → mem q progress.conflicts ≡ false
  unfolding detect_structural_conflicts
  not_conflict q h =
      mem_empty q progress.conflicts
        (detect_empty progress.merged_states progress.merged_states progress.conflicts
          (no_conflict h)).0

  pub lookup_raw-merged :
      (q : Bytes)
      → (merge_trees base source target).ok ≡ true
      → lookup_raw (merge_trees base source target).merged q
        ≡ written (find q progress.merged_states) none
  unfolding merged
  lookup_raw-merged q h = merged_states q h

  -- A merge that succeeds has at every path what the loop computes there.
  pub merge_trees-merge_state :
      (q : Bytes)
      → (merge_trees base source target).ok ≡ true
      → merge_state (lookup_raw base q) (lookup_raw source q) (lookup_raw target q)
        ≡ some (lookup_raw (merge_trees base source target).merged q)
  unfolding merged
  merge_trees-merge_state q h =
      rw (merged_states q h, merged_state_lem q)
        (settle (lookup_raw base q) (lookup_raw source q) (lookup_raw target q)
          (sym (conflict_lem q) ∙ not_conflict q h))
    where
      settle :
          (x y z : EntryState)
          → ((is_some x || (is_some y || is_some z)) && not (is_some (merge_state x y z))) ≡ false
          → merge_state x y z
            ≡ some (
                written
                  (if is_some x || (is_some y || is_some z) then merge_state x y z else none)
                  none)
      settle none none none k = nowhere
      settle x y z k = ground (arith, k)
