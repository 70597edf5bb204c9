-- ===== src/BranchMerge/Reported.antt =====
-- The conflicts that are reported by `merge_trees` in cas/branch_merge.cpp.
use context_fs.Base.{◌≡◌, true, false, some}
use context_fs.Base.Order.{Bytes, bytes_ord}
use context_fs.OrdMap.{find}
use context_fs.WorkingTree.{WorkingTree}
use context_fs.BranchMerge.{EntryState, States, not_tree_state, is_absent}
use context_fs.BranchMerge.Structure.{IsAncestor}

-- A live path of the map with `q` above it, where `q` is in the map and no tree.
abbrev Hides : States → Bytes → Type 0
Hides m q =
    (p : Bytes) × (x : EntryState) × (find p m ≡ some x)
    × (is_absent x ≡ false)
    × IsAncestor q p
    × (not_tree_state (find q m) ≡ true)
