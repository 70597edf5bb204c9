-- ===== src/WorkingTree/Listing.antt =====
-- `list_dir` of cas/working_tree.cpp shows the live direct children and nothing else.
use context_fs.Base.{
  ◌≡◌, refl, Option, none, some, if◌then◌else◌, arith, Bool-cases, inl, inr, [], ◌∷◌, ◌&&◌, not,
  length, drop,
}
use context_fs.Base.Order.{Bytes, bytes_ord, cmp_bytes_eq}
use context_fs.OrdMap.{find, IsSorted, Above}
use context_fs.OrdMap.Laws.{find_below, Above-trans}
use context_fs.WorkingTree.{
  WorkingTree, EntryMap, is_deleted, base_find, base_or_empty, or_base, lookup_raw, live, lookup,
  starts_with, prefix_range, with_slash, has_slash, emit, list_dir, IsValid,
}
use context_fs.WorkingTree.Lookup.{lookup_raw_lem}
use context_fs.WorkingTree.Iterate.{find-merge, merge-IsSorted}
use context_fs.WorkingTree.Prefix.{find-prefix_range, prefix_range-IsSorted}

Above-emit : (k p : Bytes) (m : EntryMap) → Above k m → IsSorted m → Above k (emit p m)
unfolding emit
Above-emit k p [] a s = tt
Above-emit k p ((j, e) ∷ m) a s =
    let below = Above-emit k p m (Above-trans k j m a s.0) s.1 in
    elim (Bool-cases (is_deleted e.kind)) [
      | inl d ↦ rw (d, emit) below
      | inr d ↦ elim (Bool-cases (has_slash (drop (length p) j))) [
        | inl h ↦ rw (d, h, emit) below
        | inr h ↦ rw (d, h, emit) a
      ]
    ]

emit-IsSorted : (p : Bytes) (m : EntryMap) → IsSorted m → IsSorted (emit p m)
unfolding emit
emit-IsSorted p [] s = tt
emit-IsSorted p ((j, e) ∷ m) s =
    let rest = emit-IsSorted p m s.1 in
    elim (Bool-cases (is_deleted e.kind)) [
      | inl d ↦ rw (d, emit) rest
      | inr d ↦ elim (Bool-cases (has_slash (drop (length p) j))) [
        | inl h ↦ rw (d, h, emit) rest
        | inr h ↦ rw (d, h, emit) (Above-emit j p m s.0 s.1, rest)
      ]
    ]

find-emit :
    (q p : Bytes) (m : EntryMap)
    → IsSorted m
    → find q (emit p m) ≡ (if has_slash (drop (length p) q) then none else live (find q m))
unfolding emit find
find-emit q p [] s = ground arith
find-emit q p ((j, e) ∷ m) s =
    ground (arith, find-emit q p m s.1, find_below j m s.0 s.1, cmp_bytes_eq q j)

base_find_lem : (b : Option EntryMap) (q : Bytes) → find q (base_or_empty b) ≡ base_find b q
unfolding find
base_find_lem none q = refl
base_find_lem (some m) q = refl

-- both layers restricted to the prefix, merged
pub find_ranges :
    (w : WorkingTree) (p q : Bytes)
    → IsValid w
    → or_base (find q (prefix_range p w.delta)) (find q (prefix_range p (base_or_empty w.base)))
      ≡ (if starts_with q p then lookup_raw w q else none)
find_ranges w p q v =
    rw
      (
        find-prefix_range q p w.delta v.1,
        find-prefix_range q p (base_or_empty w.base) v.0,
        lookup_raw_lem w q,
        base_find_lem w.base q,
      )
      (ground arith)

-- A path is listed under a directory exactly when it is a direct child that `lookup` finds, with
-- that entry, and the list ascends.
pub list_dir_lem :
    (w : WorkingTree) (dir : Bytes)
    → IsValid w
    → IsSorted (list_dir w dir)
      × ((q : Bytes)
          → find q (list_dir w dir) ≡ (
              if starts_with q (with_slash dir)
                && not (has_slash (drop (length (with_slash dir)) q))
              then lookup w q
              else none))
unfolding list_dir lookup
list_dir_lem w dir v =
    let p = with_slash dir in
    let s = prefix_range-IsSorted p (base_or_empty w.base) v.0 in
    let t = prefix_range-IsSorted p w.delta v.1 in
    let u = merge-IsSorted _ _ s t in
    (
      emit-IsSorted p _ u,
      λ q. rw (find-emit q p _ u, find-merge q _ _ s t, find_ranges w p q v) (ground arith),
    )
