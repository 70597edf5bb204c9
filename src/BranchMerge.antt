-- ===== src/BranchMerge.antt =====
-- cas/branch_merge.cpp: the three-way merge of working trees.
pub mod States
pub mod Loop
pub mod Structure
pub mod Result
pub mod ThreeWay
pub mod Outcome
pub mod Reported
pub mod Aligned
pub mod Symmetry
pub mod Unchanged
use Prim.Native.String.{String}
use context_fs.Base.{
  ℕ, zero, suc, Bool, true, false, ◌&&◌, ◌||◌, not, Option, none, some, List, [], ◌∷◌, ◌++◌, ◌==◌,
  if◌then◌else◌, length, take, map,
}
use context_fs.Base.Order.{Bytes, bytes_ord, same}
use context_fs.OrdMap.{OrdMap, find, insert}
use context_fs.WorkingTree.{
  WorkingTree, WorkingTreeEntry, EntryMap, EntryKind, blob, unnamed, tree, symlink, deleted,
  is_deleted, is_empty, overlay, for_each_including_deleted, insert_entry, empty_tree, clear, slash,
}

abbrev pub EntryState : Type 0
EntryState = Option WorkingTreeEntry

-- `out[path] = entry` for each entry in turn
unfoldable pub to_path_map : WorkingTree → EntryMap
unfolding overlay
to_path_map w = overlay [] (for_each_including_deleted w)

abbrev pub same_kind : EntryKind → EntryKind → Bool
same_kind blob blob = true
same_kind tree tree = true
same_kind symlink symlink = true
same_kind deleted deleted = true
same_kind (unnamed a) (unnamed b) = a == b
same_kind _ _ = false

abbrev pub is_tree_kind : EntryKind → Bool
is_tree_kind tree = true
is_tree_kind _ = false

unfoldable pub same_entry : EntryState → EntryState → Bool
same_entry none none = true
same_entry none (some _) = false
same_entry (some _) none = false
same_entry (some a) (some b) =
    if not (same_kind a.kind b.kind) || not (a.mode == b.mode)
    then false
    else if is_tree_kind a.kind
    then true
    else same a.hash b.hash

unfoldable pub is_absent : EntryState → Bool
is_absent none = true
is_absent (some e) = is_deleted e.kind

unfoldable pub same_merge_state : EntryState → EntryState → Bool
unfolding is_absent same_entry
same_merge_state a b = if is_absent a && is_absent b then true else same_entry a b

abbrev pub has_deleted : EntryState → Bool
has_deleted none = false
has_deleted (some e) = is_deleted e.kind

abbrev pub or_state : EntryState → EntryState → EntryState
or_state none b = b
or_state (some e) b = some e

unfoldable pub equivalent_merge_state : EntryState → EntryState → EntryState
equivalent_merge_state a b = if has_deleted a then a else if has_deleted b then b else or_state a b

-- The body of the loop at one path: `none` is a conflict.
unfoldable pub merge_state : EntryState → EntryState → EntryState → Option EntryState
unfolding same_entry same_merge_state equivalent_merge_state
merge_state base source target =
    let source_changed = not (same_entry base source) in
    let target_changed = not (same_entry base target) in
    if not source_changed && not target_changed
    then some base
    else if not source_changed
    then some target
    else if not target_changed
    then some source
    else if same_merge_state source target
    then some (equivalent_merge_state source target)
    else none

abbrev pub States : Type 0
States = OrdMap Bytes EntryState

pub record Progress : Type 0 where
  pub merged_states : States
  pub conflicts : List Bytes

abbrev pub keys {ℓ} : {V : Type ℓ} → OrdMap Bytes V → List Bytes
keys [] = []
keys ((k, _) ∷ m) = k ∷ keys m

-- `std::sort` followed by erasing repeats, as insertion into a sorted set
unfoldable pub insert_all : List Bytes → OrdMap Bytes (Unit {0}) → OrdMap Bytes (Unit {0})
insert_all [] s = s
insert_all (k ∷ ks) s = insert_all ks (insert k tt s)

unfoldable pub sort_unique : List Bytes → List Bytes
unfolding insert_all
sort_unique ks = keys (insert_all ks [])

module _ (base source target : EntryMap) where
  unfoldable pub merge_at : Bytes → Option EntryState
  unfolding merge_state
  merge_at path = merge_state (find path base) (find path source) (find path target)

  unfoldable pub merge_path : Bytes → Progress → Progress
  unfolding merge_at
  merge_path path p = elim (merge_at path) [
    | some state ↦ record p { merged_states = insert path state p.merged_states }
    | none ↦ record p { conflicts = p.conflicts ++ path ∷ [] }
  ]

  unfoldable pub merge_paths : List Bytes → Progress → Progress
  unfolding merge_path
  merge_paths [] p = p
  merge_paths (path ∷ ps) p = merge_paths ps (merge_path path p)

-- `path.rfind('/')`
unfoldable pub rfind_slash : Bytes → Option ℕ
rfind_slash [] = none
rfind_slash (c ∷ s) = elim (rfind_slash s) [
  | some i ↦ some (suc i)
  | none ↦ if c == slash then some 0 else none
]

unfoldable pub parent_path : Bytes → Bytes
unfolding rfind_slash
parent_path path = elim (rfind_slash path) [
  | none ↦ []
  | some i ↦ elim i [ zero ↦ [] | suc j ↦ take (suc j) path ]
]

abbrev pub is_tree : EntryState → Bool
is_tree none = false
is_tree (some e) = is_tree_kind e.kind

abbrev pub not_tree_state : Option EntryState → Bool
not_tree_state none = false
not_tree_state (some state) = not (is_tree state)

-- The loop over the ancestors, from the nearest: the first that is in the map and is no tree.
-- Each round shortens the path, so its length is fuel enough.
unfoldable pub ancestor_conflict : ℕ → States → Bytes → Option Bytes
unfolding parent_path
ancestor_conflict zero m ancestor = none
ancestor_conflict (suc f) m [] = none
ancestor_conflict (suc f) m (c ∷ ancestor) = elim (not_tree_state (find (c ∷ ancestor) m)) [
  | true ↦ some (c ∷ ancestor)
  | false ↦ ancestor_conflict f m (parent_path (c ∷ ancestor))
]

unfoldable pub path_conflict : States → Bytes → EntryState → Option Bytes
unfolding is_absent ancestor_conflict
path_conflict m path state =
    if is_absent state then none else ancestor_conflict (length path) m (parent_path path)

unfoldable pub detect : States → States → List Bytes → List Bytes
unfolding path_conflict
detect m [] conflicts = conflicts
detect m ((path, state) ∷ rest) conflicts = detect m rest (elim (path_conflict m path state) [
  | none ↦ conflicts
  | some ancestor ↦ conflicts ++ ancestor ∷ []
])

unfoldable pub detect_structural_conflicts : States → List Bytes → List Bytes
unfolding detect
detect_structural_conflicts m conflicts = detect m m conflicts

unfoldable pub apply_state : WorkingTree → Bytes → EntryState → WorkingTree
apply_state w path none = w
apply_state w path (some e) = insert_entry w path e

unfoldable pub apply_states : WorkingTree → States → WorkingTree
unfolding apply_state
apply_states w [] = w
apply_states w ((path, state) ∷ m) = apply_states (apply_state w path state) m

pub record MergeResult : Type 0 where
  pub ok : Bool
  pub merged : WorkingTree
  pub conflicts : List Bytes
  pub error : String

-- everything after the loop over the paths
unfoldable pub finish_merge : Progress → MergeResult
unfolding detect_structural_conflicts sort_unique apply_states
finish_merge p =
    let conflicts = sort_unique (detect_structural_conflicts p.merged_states p.conflicts) in
    if is_empty conflicts
    then record {
      ok = true;
      merged = apply_states empty_tree p.merged_states;
      conflicts = [];
      error = "";
    }
    else record {
      ok = false;
      merged = clear empty_tree;
      conflicts = conflicts;
      error = "merge conflicts";
    }

abbrev pub start : Progress
start = record { merged_states = []; conflicts = [] }

unfoldable pub all_paths : EntryMap → EntryMap → EntryMap → List Bytes
unfolding sort_unique
all_paths base source target = sort_unique (keys base ++ (keys source ++ keys target))

unfoldable pub merge_trees : WorkingTree → WorkingTree → WorkingTree → MergeResult
unfolding to_path_map merge_paths finish_merge all_paths
merge_trees base source target =
    let b = to_path_map base in
    let s = to_path_map source in
    let t = to_path_map target in finish_merge (merge_paths b s t (all_paths b s t) start)
