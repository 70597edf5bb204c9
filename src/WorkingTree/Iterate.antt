-- ===== src/WorkingTree/Iterate.antt =====
-- `merged_for_each_locked` of cas/working_tree.cpp: the two-pointer merge agrees with lookups.
use context_fs.Base.{
  ◌≡◌, refl, Option, none, some, arith, Bool-cases, subst, sym, ap, ◌∙◌, inl, inr, [], ◌∷◌,
  Ordering,
}
use context_fs.Base.Order.{
  Bytes, bytes_ord, cmp_bytes, cmp_bytes_eq, cmp_bytes-flip, Ordering-cases,
}
use context_fs.OrdMap.{find, Above, IsSorted}
use context_fs.OrdMap.Laws.{find_below, Above-trans}
use context_fs.WorkingTree.{
  WorkingTree, WorkingTreeEntry, EntryMap, is_deleted, base_find, base_or_empty, or_base,
  lookup_raw, live, lookup, merge, for_each_including_deleted, drop_deleted, for_each, IsValid,
}
use context_fs.WorkingTree.Lookup.{lookup_raw_lem}

pub Above-merge : (k : Bytes) (b d : EntryMap) → Above k b → Above k d → Above k (merge b d)
unfolding merge
Above-merge k [] d x y = y
Above-merge k ((j, v) ∷ b) [] x y = x
Above-merge k ((i, v) ∷ b) ((j, w) ∷ d) x y = elim (Ordering-cases (cmp_bytes j i)) [
  | inl e ↦ rw (e, merge) y
  | inr (inl e) ↦ rw (e, merge) y
  | inr (inr e) ↦ rw (e, merge) x
]

-- the head of the merge is the smaller head
pub merge-IsSorted : (b d : EntryMap) → IsSorted b → IsSorted d → IsSorted (merge b d)
unfolding merge
merge-IsSorted [] d s t = t
merge-IsSorted ((i, v) ∷ b) [] s t = s
merge-IsSorted ((i, v) ∷ b) ((j, w) ∷ d) s t = elim (Ordering-cases (cmp_bytes j i)) [
  | inl e ↦ rw (e, merge) (Above-merge j ((i, v) ∷ b) d e t.0, merge-IsSorted ((i, v) ∷ b) d s t.1)
  | inr (inl e) ↦
      rw (e, merge)
        (
          Above-merge j b d (subst (λ k. Above k b) (sym (cmp_bytes_eq j i e)) s.0) t.0,
          merge-IsSorted b d s.1 t.1,
        )
  | inr (inr e) ↦
      rw (e, merge)
        (
          Above-merge i b ((j, w) ∷ d) s.0 (ground (arith, cmp_bytes-flip j i)),
          merge-IsSorted b ((j, w) ∷ d) s.1 t,
        )
]

-- Below both heads there is nothing.
find_past :
    (q k : Bytes) (v : WorkingTreeEntry) (m : EntryMap)
    → IsSorted ((k, v) ∷ m)
    → cmp_bytes q k ≡ Ordering.lt
    → find q ((k, v) ∷ m) ≡ none
find_past q k v m s h = find_below q ((k, v) ∷ m) h s

pub find-merge :
    (q : Bytes) (b d : EntryMap)
    → IsSorted b
    → IsSorted d
    → find q (merge b d) ≡ or_base (find q d) (find q b)
unfolding merge find
find-merge q [] d s t = ground arith
find-merge q ((i, v) ∷ b) [] s t = refl
find-merge q ((i, v) ∷ b) ((j, w) ∷ d) s t = elim (Ordering-cases (cmp_bytes j i)) [
  | inl e ↦ rw (e, merge) (ground (arith, find-merge q ((i, v) ∷ b) d s t.1))
  | inr (inl e) ↦ rw (e, merge) (ground (arith, find-merge q b d s.1 t.1, cmp_bytes_eq j i))
  | inr (inr e) ↦
      rw (e, merge)
        (ground (
          arith,
          find-merge q b ((j, w) ∷ d) s.1 t,
          cmp_bytes-flip j i,
          cmp_bytes_eq q i,
          find_below i ((j, w) ∷ d),
        ))
]

-- Iteration shows each path once, in order, with the entry that `lookup_raw` finds there.
pub find-for_each_including_deleted :
    (w : WorkingTree) (q : Bytes)
    → IsValid w
    → find q (for_each_including_deleted w) ≡ lookup_raw w q
unfolding for_each_including_deleted
find-for_each_including_deleted w q v =
    rw (find-merge q (base_or_empty w.base) w.delta v.0 v.1, lookup_raw_lem w q)
      (base_find_lem w.base)
  where
    base_find_lem :
        (b : Option EntryMap)
        → or_base (find q w.delta) (find q (base_or_empty b))
          ≡ or_base (find q w.delta) (base_find b q)
    base_find_lem none = unfold find in refl
    base_find_lem (some m) = refl

Above-drop_deleted : (k : Bytes) (m : EntryMap) → Above k m → IsSorted m → Above k (drop_deleted m)
unfolding drop_deleted
Above-drop_deleted k [] a s = tt
Above-drop_deleted k ((j, e) ∷ m) a s = elim (Bool-cases (is_deleted e.kind)) [
  | inl d ↦ rw (d, drop_deleted) (Above-drop_deleted k m (Above-trans k j m a s.0) s.1)
  | inr d ↦ rw (d, drop_deleted) a
]

pub drop_deleted-IsSorted : (m : EntryMap) → IsSorted m → IsSorted (drop_deleted m)
unfolding drop_deleted
drop_deleted-IsSorted [] s = tt
drop_deleted-IsSorted ((j, e) ∷ m) s = elim (Bool-cases (is_deleted e.kind)) [
  | inl d ↦ rw (d, drop_deleted) (drop_deleted-IsSorted m s.1)
  | inr d ↦ rw (d, drop_deleted) (Above-drop_deleted j m s.0 s.1, drop_deleted-IsSorted m s.1)
]

find-drop_deleted :
    (q : Bytes) (m : EntryMap) → IsSorted m → find q (drop_deleted m) ≡ live (find q m)
unfolding find drop_deleted
find-drop_deleted q [] s = refl
find-drop_deleted q ((j, e) ∷ m) s =
    ground (arith, find-drop_deleted q m s.1, find_below j m s.0 s.1, cmp_bytes_eq q j)

-- The public iteration shows exactly what `lookup` finds, in ascending order.
pub for_each-lookup :
    (w : WorkingTree)
    → IsValid w
    → IsSorted (for_each w) × ((q : Bytes) → find q (for_each w) ≡ lookup w q)
unfolding for_each for_each_including_deleted lookup
for_each-lookup w v =
    let sorted = merge-IsSorted (base_or_empty w.base) w.delta v.0 v.1 in
    (
      drop_deleted-IsSorted _ sorted,
      λ q. find-drop_deleted q _ sorted ∙ ap live (find-for_each_including_deleted w q v),
    )
