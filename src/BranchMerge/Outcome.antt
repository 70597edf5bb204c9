-- ===== src/BranchMerge/Outcome.antt =====
-- Success and failure of `merge_trees` in cas/branch_merge.cpp.
use context_fs.Base.{
  ◌≡◌, refl, true, false, ◌||◌, ◌&&◌, none, some, ◌∙◌, inl, inr, [], ◌∷◌, ◌++◌, List, Option-cases,
}
use context_fs.Base.Order.{Bytes, bytes_ord}
use context_fs.WorkingTree.{WorkingTree, is_empty, is_some, empty_tree, clear, lookup_raw, IsValid}
use context_fs.BranchMerge.{
  EntryState, States, merge_state, detect, detect_structural_conflicts, path_conflict, sort_unique,
  finish_merge, merge_trees, Progress,
}
use context_fs.BranchMerge.States.{mem, mem-sort_unique, mem-append}
use context_fs.BranchMerge.Result.{conflicts_of, progress, conflict_lem, nowhere}

mem-detect :
    (q : Bytes) (m rest : States) (cs : List Bytes)
    → mem q cs ≡ true
    → mem q (detect m rest cs) ≡ true
unfolding detect
mem-detect q m [] cs h = h
mem-detect q m ((p, x) ∷ rest) cs h = elim (Option-cases (path_conflict m p x)) [
  | inl e ↦ rw (e, detect) (mem-detect q m rest cs h)
  | inr (a, e) ↦
      rw (e, detect) (mem-detect q m rest (cs ++ a ∷ []) (rw (mem-append q cs (a ∷ []), h)))
]

not_empty : (ks : List Bytes) (q : Bytes) → mem q ks ≡ true → is_empty ks ≡ false
not_empty [] q h = cc
not_empty (k ∷ ks) q h = refl

conflicts-finish_merge :
    (p : Progress) (q : Bytes)
    → mem q (conflicts_of p) ≡ true
    → ((finish_merge p).ok ≡ false)
      × (mem q (finish_merge p).conflicts ≡ true)
      × ((finish_merge p).merged ≡ empty_tree)
      × ((finish_merge p).error ≡ "merge conflicts")
unfolding finish_merge clear
conflicts-finish_merge p q h =
    let here : mem q (sort_unique (conflicts_of p)) ≡ true =
      mem-sort_unique q (conflicts_of p) ∙ h in
    rw (not_empty (sort_unique (conflicts_of p)) q here, finish_merge) (refl, here, refl, refl)

-- A path on which both sides changed in different ways stops the merge and is reported; no tree is
-- returned then.
pub merge_trees_conflict :
    (base source target : WorkingTree) (vb : IsValid base) (vs : IsValid source)
    (vt : IsValid target) (q : Bytes)
    → merge_state (lookup_raw base q) (lookup_raw source q) (lookup_raw target q) ≡ none
    → let r = merge_trees base source target in
      (r.ok ≡ false)
      × (mem q r.conflicts ≡ true)
      × (r.merged ≡ empty_tree)
      × (r.error ≡ "merge conflicts")
unfolding merge_trees
merge_trees_conflict base source target vb vs vt q h =
    let p = progress base source target vb vs vt in
    conflicts-finish_merge p q (
      unfold detect_structural_conflicts in
      mem-detect q p.merged_states p.merged_states p.conflicts (
        conflict_lem base source target vb vs vt q
        ∙ rw h (settle (lookup_raw base q) (lookup_raw source q) (lookup_raw target q) h)))
  where
    settle :
        (x y z : EntryState)
        → merge_state x y z ≡ none
        → ((is_some x || (is_some y || is_some z)) && true) ≡ true
    settle none none none k = cc (nowhere, k)
    settle none none (some z) k = refl
    settle none (some y) z k = refl
    settle (some x) y z k = refl
