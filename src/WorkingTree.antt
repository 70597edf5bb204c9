-- ===== src/WorkingTree.antt =====
-- cas/working_tree.h and working_tree.cpp: the two-level copy-on-write path map. Each method of
-- the class is a function from the tree, and the mutex makes each one a single step.
pub mod Lookup
pub mod Iterate
pub mod Fold
pub mod Prefix
pub mod Listing
pub mod Paths
pub mod Rename
pub mod Move
use context_fs.Base.{
  ℕ, suc, ◌+◌, Bool, true, false, ◌&&◌, not, Option, none, some, List, [], ◌∷◌, ◌++◌, Ordering,
  if◌then◌else◌, length, replicate, drop, ◌==◌,
}
use context_fs.Base.Order.{Bytes, bytes_ord, cmp_bytes, same, below}
use context_fs.OrdMap
use context_fs.OrdMap.{OrdMap, find, insert, erase}

-- `unnamed` is a value of the underlying byte that no enumerator names: reading a tree object casts
-- any byte.
pub data EntryKind : Type 0 where
  blob tree symlink deleted : EntryKind
  unnamed : ℕ → EntryKind

-- `Hash` is an array of 32 bytes.
abbrev pub Hash : Type 0
Hash = Bytes

abbrev pub zero_hash : Hash
zero_hash = replicate 32 0

pub record WorkingTreeEntry : Type 0 where
  pub kind : EntryKind
  pub hash : Hash
  pub mode : ℕ

abbrev pub EntryMap : Type 0
EntryMap = OrdMap Bytes WorkingTreeEntry

-- `base` is `none` for a null pointer; the set of source paths is a map into the unit type.
pub record WorkingTree : Type 0 where
  pub base : Option EntryMap
  pub delta : EntryMap
  pub source_origin_paths : OrdMap Bytes (Unit {0})
  pub base_authoritative : Bool

abbrev pub empty_tree : WorkingTree
empty_tree = record {
  base = none;
  delta = [];
  source_origin_paths = [];
  base_authoritative = false;
}

abbrev pub is_deleted : EntryKind → Bool
is_deleted deleted = true
is_deleted _ = false

abbrev pub is_empty {ℓ} : {A : Type ℓ} → List A → Bool
is_empty [] = true
is_empty (_ ∷ _) = false

-- what `base_->find` sees, a null base included
abbrev pub base_find : Option EntryMap → Bytes → Option WorkingTreeEntry
base_find none p = none
base_find (some m) p = find p m

abbrev pub or_base : Option WorkingTreeEntry → Option WorkingTreeEntry → Option WorkingTreeEntry
or_base none b = b
or_base (some e) b = some e

unfoldable pub lookup_raw : WorkingTree → Bytes → Option WorkingTreeEntry
lookup_raw w p = or_base (if is_empty w.delta then none else find p w.delta) (base_find w.base p)

-- hides a whiteout
abbrev pub live : Option WorkingTreeEntry → Option WorkingTreeEntry
live none = none
live (some e) = if is_deleted e.kind then none else some e

unfoldable pub lookup : WorkingTree → Bytes → Option WorkingTreeEntry
unfolding lookup_raw
lookup w p = live (lookup_raw w p)

unfoldable pub insert_entry : WorkingTree → Bytes → WorkingTreeEntry → WorkingTree
insert_entry w p e = record w { delta = insert p e w.delta }

unfoldable pub insert_source : WorkingTree → Bytes → WorkingTreeEntry → WorkingTree
insert_source w p e = record w {
  delta = insert p e w.delta;
  source_origin_paths =
      if w.base_authoritative then insert p tt w.source_origin_paths else w.source_origin_paths;
}

abbrev pub whiteout : WorkingTreeEntry
whiteout = record { kind = deleted; hash = zero_hash; mode = 0 }

abbrev pub is_some {ℓ} : {A : Type ℓ} → Option A → Bool
is_some none = false
is_some (some _) = true

-- the base, or the live source directory, still shows the path
unfoldable pub shows_through : WorkingTree → Bytes → Bool
shows_through w p =
    if is_some (live (base_find w.base p)) then true else is_some (find p w.source_origin_paths)

-- `remove_locked`, which `remove` calls under the lock
unfoldable pub remove : WorkingTree → Bytes → WorkingTree
unfolding shows_through
remove w p =
    if w.base_authoritative && not (shows_through w p)
    then record w { delta = erase p w.delta }
    else record w { delta = insert p whiteout w.delta }

-- The destination of a moved entry: a whiteout is removed there, any other entry is written.
unfoldable pub place : WorkingTree → Bytes → WorkingTreeEntry → WorkingTree
unfolding remove
place w p e = if is_deleted e.kind then remove w p else record w { delta = insert p e w.delta }

unfoldable pub rename_entry : WorkingTree → Bytes → Bytes → WorkingTree
unfolding lookup_raw place
rename_entry w old_path new_path = elim (lookup_raw w old_path) [
  | none ↦ w
  | some e ↦ place (remove w old_path) new_path e
]

unfoldable pub clear : WorkingTree → WorkingTree
clear w = empty_tree

unfoldable pub set_base : WorkingTree → EntryMap → WorkingTree
set_base w entries = record {
  base = some entries;
  delta = [];
  source_origin_paths = [];
  base_authoritative = true;
}

-- `for (auto& [k, v] : delta_) merged[k] = v;`
unfoldable pub overlay : EntryMap → EntryMap → EntryMap
overlay merged [] = merged
overlay merged ((k, v) ∷ d) = overlay (insert k v merged) d

unfoldable pub folded : Option EntryMap → EntryMap → EntryMap
unfolding overlay
folded none d = d
folded (some b) d = if is_empty b then d else overlay b d

unfoldable pub fold_into_base : WorkingTree → WorkingTree
unfolding folded
fold_into_base w = record {
  base = some (folded w.base w.delta);
  delta = [];
  source_origin_paths = [];
  base_authoritative = true;
}

unfoldable pub begin_source_walk : WorkingTree → WorkingTree
begin_source_walk w = record w { base_authoritative = false }

-- the copy shares the base, which nothing changes after it is published
unfoldable pub clone : WorkingTree → WorkingTree
clone w = record {
  base = w.base;
  delta = w.delta;
  source_origin_paths = w.source_origin_paths;
  base_authoritative = w.base_authoritative;
}

-- The calls of `merged_for_each_locked`, in order: a merge of two sorted maps, the delta first
-- where both have a key.
unfoldable pub merge : EntryMap → EntryMap → EntryMap
merge [] d = d
merge b [] = b
merge ((k, v) ∷ b) ((j, w) ∷ d) = elim (cmp_bytes j k) [
  | Ordering.lt ↦ (j, w) ∷ merge ((k, v) ∷ b) d
  | Ordering.gt ↦ (k, v) ∷ merge b ((j, w) ∷ d)
  | Ordering.eq ↦ (j, w) ∷ merge b d
]

abbrev pub base_or_empty : Option EntryMap → EntryMap
base_or_empty none = []
base_or_empty (some m) = m

unfoldable pub for_each_including_deleted : WorkingTree → EntryMap
unfolding merge
for_each_including_deleted w = merge (base_or_empty w.base) w.delta

unfoldable pub drop_deleted : EntryMap → EntryMap
drop_deleted [] = []
drop_deleted ((k, e) ∷ m) = if is_deleted e.kind then drop_deleted m else (k, e) ∷ drop_deleted m

unfoldable pub for_each : WorkingTree → EntryMap
unfolding for_each_including_deleted drop_deleted
for_each w = drop_deleted (for_each_including_deleted w)

unfoldable pub size : WorkingTree → ℕ
unfolding for_each
size w = length (for_each w)

-- `it->first.compare(0, prefix.size(), prefix) == 0`
unfoldable pub starts_with : Bytes → Bytes → Bool
starts_with s [] = true
starts_with [] (b ∷ p) = false
starts_with (a ∷ s) (b ∷ p) = a == b && starts_with s p

-- `lower_bound`, and the loop that stops at the first key without the prefix
unfoldable pub lower_bound : Bytes → EntryMap → EntryMap
lower_bound k [] = []
lower_bound k ((j, e) ∷ m) = if below j k then lower_bound k m else (j, e) ∷ m

unfoldable pub take_prefix : Bytes → EntryMap → EntryMap
take_prefix p [] = []
take_prefix p ((j, e) ∷ m) = if starts_with j p then (j, e) ∷ take_prefix p m else []

unfoldable pub prefix_range : Bytes → EntryMap → EntryMap
unfolding lower_bound take_prefix starts_with
prefix_range p m = take_prefix p (lower_bound p m)

-- `'/'`
abbrev pub slash : ℕ
slash = b'/'

-- `if (!p.empty() && p.back() != '/') p += '/'`
unfoldable pub with_slash : Bytes → Bytes
with_slash [] = []
with_slash (a ∷ []) = if a == slash then a ∷ [] else a ∷ slash ∷ []
with_slash (a ∷ b ∷ p) = a ∷ with_slash (b ∷ p)

unfoldable pub has_slash : Bytes → Bool
has_slash [] = false
has_slash (a ∷ s) = if a == slash then true else has_slash s

-- the callback `emit` of `list_dir`: live direct children only
unfoldable pub emit : Bytes → EntryMap → EntryMap
unfolding has_slash
emit prefix [] = []
emit prefix ((k, e) ∷ m) =
    if is_deleted e.kind
    then emit prefix m
    else if has_slash (drop (length prefix) k)
    then emit prefix m
    else (k, e) ∷ emit prefix m

unfoldable pub list_dir : WorkingTree → Bytes → EntryMap
unfolding emit merge prefix_range with_slash
list_dir w dir_path =
    let prefix = with_slash dir_path in
    emit prefix (merge (prefix_range prefix (base_or_empty w.base)) (prefix_range prefix w.delta))

-- `to_move`: the raw view under the prefix, and the directory's own entry
unfoldable pub to_move : WorkingTree → Bytes → EntryMap
unfolding prefix_range with_slash overlay lookup_raw
to_move w old_prefix =
    let scan = with_slash old_prefix in
    let under =
      overlay (overlay [] (prefix_range scan (base_or_empty w.base))) (prefix_range scan w.delta) in
    elim (lookup_raw w old_prefix) [ none ↦ under | some e ↦ insert old_prefix e under ]

-- where a moved path goes
unfoldable pub new_path : Bytes → Bytes → Bytes → Bytes
new_path old_prefix new_prefix path =
    if same path old_prefix then new_prefix else new_prefix ++ drop (length old_prefix) path

unfoldable pub move_all : Bytes → Bytes → EntryMap → WorkingTree → WorkingTree
unfolding place new_path
move_all old_prefix new_prefix [] w = w
move_all old_prefix new_prefix ((p, e) ∷ m) w =
    move_all old_prefix new_prefix m (place (remove w p) (new_path old_prefix new_prefix p) e)

unfoldable pub rename_dir : WorkingTree → Bytes → Bytes → WorkingTree
unfolding to_move move_all
rename_dir w old_prefix new_prefix = move_all old_prefix new_prefix (to_move w old_prefix) w

-- the keys of both layers ascend, as `std::map` keeps them
abbrev pub IsValid : WorkingTree → Type 0
IsValid w = OrdMap.IsSorted (base_or_empty w.base) × OrdMap.IsSorted w.delta
