-- ===== src/BranchMerge/States.antt =====
-- Sets of paths, and the maps that the merge of cas/branch_merge.cpp reads.
use context_fs.Base.{
  ◌≡◌, refl, Bool, true, false, ◌||◌, if◌then◌else◌, arith, ap, inl, inr, [], ◌∷◌, ◌++◌, List,
  Bool-cases,
}
use context_fs.Base.Order.{Bytes, bytes_ord, same}
use context_fs.OrdMap.{OrdMap, find, insert}
use context_fs.OrdMap.Laws.{find-insert}
use context_fs.WorkingTree.{
  WorkingTree, EntryMap, is_some, lookup_raw, for_each_including_deleted, IsValid, base_or_empty,
}
use context_fs.WorkingTree.Iterate.{find-for_each_including_deleted, merge-IsSorted}
use context_fs.WorkingTree.Fold.{find-overlay}
use context_fs.BranchMerge.{to_path_map, keys, insert_all, sort_unique, all_paths}

-- the path occurs in the list
abbrev pub mem : Bytes → List Bytes → Bool
mem q [] = false
mem q (k ∷ ks) = if same q k then true else mem q ks

pub mem-append : (q : Bytes) (xs ys : List Bytes) → mem q (xs ++ ys) ≡ (mem q xs || mem q ys)
mem-append q [] ys = refl
mem-append q (k ∷ xs) ys = ground (arith, mem-append q xs ys)

pub mem-keys {ℓ} :
    {V : Type ℓ} (q : Bytes) (m : OrdMap Bytes V) → mem q (keys m) ≡ is_some (find q m)
unfolding find
mem-keys q [] = refl
mem-keys q ((k, v) ∷ m) = elim (Bool-cases (same q k)) [
  | inl e ↦ rw (e, find)
  | inr e ↦ rw (e, find) (mem-keys q m)
]

mem-keys-insert_all :
    (q : Bytes) (ks : List Bytes) (s : OrdMap Bytes (Unit {0}))
    → is_some (find q (insert_all ks s)) ≡ (mem q ks || is_some (find q s))
unfolding insert_all
mem-keys-insert_all q [] s = refl
mem-keys-insert_all q (k ∷ ks) s =
    rw (mem-keys-insert_all q ks (insert k tt s), find-insert q k tt s) (ground arith)

pub mem-sort_unique : (q : Bytes) (ks : List Bytes) → mem q (sort_unique ks) ≡ mem q ks
unfolding sort_unique
mem-sort_unique q ks =
    rw (mem-keys q (insert_all ks []), mem-keys-insert_all q ks []) (unfold find in ground arith)

pub find-to_path_map :
    (w : WorkingTree) (q : Bytes) → IsValid w → find q (to_path_map w) ≡ lookup_raw w q
unfolding to_path_map
find-to_path_map w q v =
    rw
      (
        find-overlay q [] (for_each_including_deleted w) (
            unfold for_each_including_deleted in
            merge-IsSorted (base_or_empty w.base) w.delta v.0 v.1),
        find-for_each_including_deleted w q v,
      )
      (unfold find in ground arith)

pub mem-all_paths :
    (q : Bytes) (b s t : EntryMap)
    → mem q (all_paths b s t) ≡ (is_some (find q b) || (is_some (find q s) || is_some (find q t)))
unfolding all_paths
mem-all_paths q b s t = rw (
  mem-sort_unique q (keys b ++ (keys s ++ keys t)),
  mem-append q (keys b) (keys s ++ keys t),
  mem-append q (keys s) (keys t),
  mem-keys q b,
  mem-keys q s,
  mem-keys q t,
)

-- an element of a list that is empty
pub mem_nonempty : (q : Bytes) (ks : List Bytes) → mem q ks ≡ true → ks ≡ [] → ⊥
mem_nonempty q ks h e = cc (ap (mem q) e, h)
