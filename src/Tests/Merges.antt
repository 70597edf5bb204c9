-- ===== src/Tests/Merges.antt =====
-- The merge of cas/branch_merge.cpp at small trees.
use context_fs.Base.{◌≡◌, refl, true, false, Option, none, some, [], ◌∷◌, replicate}
use context_fs.Base.Order.{Bytes, bytes_ord}
use context_fs.OrdMap.{find, insert}
use context_fs.WorkingTree.{
  WorkingTree, EntryMap, deleted, empty_tree, lookup, lookup_raw, IsValid, insert_entry,
  for_each_including_deleted,
}
use context_fs.BranchMerge.{merge_trees, merge_state, same_merge_state, EntryState}
use context_fs.Tests.Data.{file_a, dir_d, file_x, file_of, a_dir}
use context_fs.BranchMerge.States.{mem}
use context_fs.BranchMerge.Result.{three_way}
use context_fs.BranchMerge.ThreeWay.{Merged, merge_trees_ok}
use context_fs.BranchMerge.Outcome.{merge_trees_conflict}
use context_fs.BranchMerge.Symmetry.{merge_trees_comm}

abbrev tree_of : EntryMap → WorkingTree
tree_of m = record {
  base = some m;
  delta = [];
  source_origin_paths = [];
  base_authoritative = true;
}

abbrev base_tree : WorkingTree
base_tree = tree_of ((file_a, file_of 1) ∷ [])

abbrev edited : WorkingTree
edited = tree_of ((file_a, file_of 2) ∷ [])

abbrev extended : WorkingTree
extended = tree_of ((file_a, file_of 1) ∷ (dir_d, a_dir) ∷ (file_x, file_of 3) ∷ [])

abbrev rewritten : WorkingTree
rewritten = tree_of ((file_a, file_of 4) ∷ [])

base_tree-IsValid : IsValid base_tree
base_tree-IsValid = ((tt, tt), tt)

edited-IsValid : IsValid edited
edited-IsValid = ((tt, tt), tt)

extended-IsValid : IsValid extended
extended-IsValid = ((refl, (refl, (tt, tt))), tt)

rewritten-IsValid : IsValid rewritten
rewritten-IsValid = ((tt, tt), tt)

program : Unit {0}
unfolding merge_trees merge_state lookup_raw lookup for_each_including_deleted insert find
    insert_entry
program = tt

merges : (merge_trees base_tree edited extended).ok ≡ true
unfolding program
merges = refl

merge_trees_ok_example :
    Merged
      (lookup_raw base_tree file_a)
      (lookup_raw edited file_a)
      (lookup_raw extended file_a)
      (lookup_raw (merge_trees base_tree edited extended).merged file_a)
merge_trees_ok_example =
    merge_trees_ok base_tree edited extended base_tree-IsValid edited-IsValid extended-IsValid
      file_a merges

disagree :
    merge_state
      (lookup_raw base_tree file_a)
      (lookup_raw edited file_a)
      (lookup_raw rewritten file_a)
    ≡ none
unfolding program
disagree = refl

merge_trees_conflict_example :
    let r = merge_trees base_tree edited rewritten in
    (r.ok ≡ false)
    × (mem file_a r.conflicts ≡ true)
    × (r.merged ≡ empty_tree)
    × (r.error ≡ "merge conflicts")
merge_trees_conflict_example =
    merge_trees_conflict base_tree edited rewritten base_tree-IsValid edited-IsValid
      rewritten-IsValid file_a disagree

-- one side deletes the directory under which the other adds a file
abbrev with_dir : WorkingTree
with_dir = tree_of ((dir_d, a_dir) ∷ [])

abbrev without_dir : WorkingTree
without_dir = tree_of ((dir_d, record { kind = deleted; hash = replicate 32 0; mode = 0 }) ∷ [])

abbrev with_file : WorkingTree
with_file = tree_of ((dir_d, a_dir) ∷ (file_x, file_of 3) ∷ [])

with_dir-IsValid : IsValid with_dir
with_dir-IsValid = ((tt, tt), tt)

without_dir-IsValid : IsValid without_dir
without_dir-IsValid = ((tt, tt), tt)

with_file-IsValid : IsValid with_file
with_file-IsValid = ((refl, (tt, tt)), tt)

abbrev at_d : Option EntryState
at_d =
    three_way with_dir without_dir with_file with_dir-IsValid without_dir-IsValid with_file-IsValid
      dir_d

merge_trees_comm_example :
    let r = merge_trees base_tree edited extended in
    let r' = merge_trees base_tree extended edited in
    (r.ok ≡ r'.ok)
    × (r.conflicts ≡ r'.conflicts)
    × ((q : Bytes)
        → r.ok ≡ true
        → same_merge_state (lookup_raw r.merged q) (lookup_raw r'.merged q) ≡ true)
merge_trees_comm_example =
    merge_trees_comm base_tree edited extended base_tree-IsValid edited-IsValid extended-IsValid
