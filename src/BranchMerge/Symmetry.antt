-- ===== src/BranchMerge/Symmetry.antt =====
-- The merge of cas/branch_merge.cpp does not depend on which side is called the source.
use context_fs.Base.{
  ◌≡◌, refl, true, Option, none, some, arith, ap, ◌∙◌, sym, inl, inr, [], ◌∷◌, ◌++◌, List,
  Bool-cases,
}
use context_fs.Base.Order.{Bytes, bytes_ord}
use context_fs.OrdMap.{OrdMap, find, insert, IsSorted}
use context_fs.OrdMap.Laws.{insert-IsSorted}
use context_fs.OrdMap.Sorted.{ext}
use context_fs.WorkingTree.{WorkingTree, EntryMap, is_empty, is_some, lookup_raw, IsValid}
use context_fs.BranchMerge.{
  EntryState, Progress, same_merge_state, merge_state, merge_at, merge_path, merge_paths, keys,
  insert_all, sort_unique, all_paths, detect, detect_structural_conflicts, start, finish_merge,
  merge_trees, to_path_map,
}
use context_fs.BranchMerge.States.{mem, mem-append, mem-keys, mem-sort_unique}
use context_fs.BranchMerge.Loop.{merge_path-some, merge_path-none}
use context_fs.BranchMerge.Result.{merge_trees-merge_state, conflicts_of}
use context_fs.BranchMerge.Aligned.{
  AlikeIfAny, merge_state_swap, Aligned, Aligned-insert, detect-Aligned,
}

-- The same keys, whatever the order in which they come.
insert_all-IsSorted :
    (ks : List Bytes) (s : OrdMap Bytes (Unit {0})) → IsSorted s → IsSorted (insert_all ks s)
unfolding insert_all
insert_all-IsSorted [] s h = h
insert_all-IsSorted (k ∷ ks) s h = insert_all-IsSorted ks (insert k tt s) (insert-IsSorted k tt s h)

units : (a b : Option (Unit {0})) → is_some a ≡ is_some b → a ≡ b
units none none h = refl
units none (some y) h = cc
units (some x) none h = cc
units (some x) (some y) h = refl

sort_unique_ext :
    (xs ys : List Bytes) → ((q : Bytes) → mem q xs ≡ mem q ys) → sort_unique xs ≡ sort_unique ys
unfolding sort_unique
sort_unique_ext xs ys h = ap keys (
    ext (insert_all xs []) (insert_all ys []) (insert_all-IsSorted xs [] tt)
      (insert_all-IsSorted ys [] tt)
      λ q. units _ _ (
        sym (mem-keys q (insert_all xs []))
        ∙ (mem-sort_unique q xs ∙ h q ∙ sym (mem-sort_unique q ys))
        ∙ mem-keys q (insert_all ys [])))

all_paths_swap : (b s t : EntryMap) → all_paths b s t ≡ all_paths b t s
unfolding all_paths
all_paths_swap b s t =
    sort_unique_ext (keys b ++ (keys s ++ keys t)) (keys b ++ (keys t ++ keys s)) λ q.
      rw
        (
          mem-append q (keys b) (keys s ++ keys t),
          mem-append q (keys s) (keys t),
          mem-append q (keys b) (keys t ++ keys s),
          mem-append q (keys t) (keys s),
        )
        (ground arith)

module _ (b s t : EntryMap) where
  -- two runs in step
  InStep : Progress → Progress → Type 0
  InStep p r = Aligned p.merged_states r.merged_states × (p.conflicts ≡ r.conflicts)

  merge_path_swap :
      (path : Bytes) (p r : Progress)
      → InStep p r
      → InStep (merge_path b s t path p) (merge_path b t s path r)
  unfolding InStep
  merge_path_swap path p r h =
      go (merge_at b s t path) (merge_at b t s path) refl refl
        (unfold merge_at in merge_state_swap (find path b) (find path s) (find path t))
    where
      go :
          (x y : Option EntryState)
          → merge_at b s t path ≡ x
          → merge_at b t s path ≡ y
          → AlikeIfAny x y
          → InStep (merge_path b s t path p) (merge_path b t s path r)
      go none none e f a =
          rw (merge_path-none b s t path p e, merge_path-none b t s path r f)
            (h.0, ap (λ c. c ++ path ∷ []) h.1)
      go none (some y) e f a = absurd a
      go (some x) none e f a = absurd a
      go (some x) (some y) e f a =
          rw (merge_path-some b s t path p x e, merge_path-some b t s path r y f)
            (Aligned-insert path x y p.merged_states r.merged_states a h.0, h.1)

  merge_paths_swap :
      (paths : List Bytes) (p r : Progress)
      → InStep p r
      → InStep (merge_paths b s t paths p) (merge_paths b t s paths r)
  unfolding merge_paths
  merge_paths_swap [] p r h = h
  merge_paths_swap (path ∷ ps) p r h =
      merge_paths_swap ps (merge_path b s t path p) (merge_path b t s path r)
        (merge_path_swap path p r h)

  conflicts_swap :
      (paths : List Bytes)
      → conflicts_of (merge_paths b s t paths start) ≡ conflicts_of (merge_paths b t s paths start)
  unfolding detect_structural_conflicts InStep
  conflicts_swap paths =
      let (al, e) = merge_paths_swap paths start start (tt, refl) in
      let m = (merge_paths b s t paths start).merged_states in
      let n = (merge_paths b t s paths start).merged_states in
      ap (detect m m) e ∙ detect-Aligned m n m n (merge_paths b t s paths start).conflicts al al

finish_swap :
    (p r : Progress)
    → conflicts_of p ≡ conflicts_of r
    → ((finish_merge p).ok ≡ (finish_merge r).ok)
      × ((finish_merge p).conflicts ≡ (finish_merge r).conflicts)
unfolding finish_merge
finish_swap p r h = elim (Bool-cases (is_empty (sort_unique (conflicts_of r)))) [
  | inl e ↦ rw (h, e, finish_merge) (refl, refl)
  | inr e ↦ rw (h, e, finish_merge) (refl, refl)
]

one_state :
    (m n : Option EntryState) {x y : EntryState}
    → m ≡ some x
    → n ≡ some y
    → AlikeIfAny m n
    → same_merge_state x y ≡ true
one_state none n e f a = cc
one_state (some u) none e f a = cc
one_state (some u) (some v) {x = x} {y = y} e f a =
    let ux : u ≡ x = cc in let vy : v ≡ y = cc in rw (vy, ux) at a.2

-- Swapping the two sides changes neither whether the merge succeeds nor the reported conflicts. Where
-- it succeeds, every path is gone from both results (missing or a whiteout), or has an entry of the
-- same kind and mode in both, with the same hash unless it is a directory: the hashes of directories
-- may differ.
pub merge_trees_comm :
    (base source target : WorkingTree)
    → IsValid base
    → IsValid source
    → IsValid target
    → let r = merge_trees base source target in
      let r' = merge_trees base target source in
      (r.ok ≡ r'.ok)
      × (r.conflicts ≡ r'.conflicts)
      × ((q : Bytes)
          → r.ok ≡ true
          → same_merge_state (lookup_raw r.merged q) (lookup_raw r'.merged q) ≡ true)
unfolding merge_trees
merge_trees_comm base source target vb vs vt =
    let b = to_path_map base in
    let s = to_path_map source in
    let t = to_path_map target in
    let swap =
      finish_swap (merge_paths b s t (all_paths b s t) start)
        (merge_paths b t s (all_paths b t s) start)
        (conflicts_swap b s t (all_paths b s t)
          ∙ ap (λ ps. conflicts_of (merge_paths b t s ps start)) (all_paths_swap b s t)) in
    (swap.0, swap.1, λ q ok. agree q ok (sym swap.0 ∙ ok))
  where
    agree :
        (q : Bytes)
        → (merge_trees base source target).ok ≡ true
        → (merge_trees base target source).ok ≡ true
        → same_merge_state
            (lookup_raw (merge_trees base source target).merged q)
            (lookup_raw (merge_trees base target source).merged q)
          ≡ true
    agree q ok ok' =
        one_state (merge_state (lookup_raw base q) (lookup_raw source q) (lookup_raw target q))
          (merge_state (lookup_raw base q) (lookup_raw target q) (lookup_raw source q))
          (merge_trees-merge_state base source target vb vs vt q ok)
          (merge_trees-merge_state base target source vb vt vs q ok')
          (merge_state_swap (lookup_raw base q) (lookup_raw source q) (lookup_raw target q))
