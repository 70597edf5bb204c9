-- ===== src/ObjectStore/Pending.antt =====
-- The objects of cas/object_store.cpp that are not durable yet, and the removal of old objects.
use Prim.Native.String.{String}
use context_fs.Base.{
  ℕ, Bool, true, false, not, Option, none, some, List, [], ◌∷◌, length, leb, if◌then◌else◌,
}
use context_fs.Base.Order.{bytes_ord}
use context_fs.OrdMap.{OrdMap, find, insert, erase}
use context_fs.WorkingTree.{Hash}
use context_fs.ObjectStore.{ObjectStore, is_found}

abbrev pub names : OrdMap Hash (Unit {0}) → List Hash
names [] = []
names ((h, _) ∷ m) = h ∷ names m

unfoldable pub drain_pending : ObjectStore → List Hash × ObjectStore
drain_pending st = (names st.pending, record st { pending = [] })

abbrev pub insert_names : List Hash → OrdMap Hash (Unit {0}) → OrdMap Hash (Unit {0})
insert_names [] m = m
insert_names (h ∷ hs) m = insert_names hs (insert h tt m)

unfoldable pub restore_pending : List Hash → ObjectStore → ObjectStore
restore_pending hashes st = record st { pending = insert_names hashes st.pending }

unfoldable pub pending_snapshot : ObjectStore → List Hash
pending_snapshot st = names st.pending

unfoldable pub pending_count : ObjectStore → ℕ
pending_count st = length st.pending

abbrev pub erase_names : List Hash → OrdMap Hash (Unit {0}) → OrdMap Hash (Unit {0})
erase_names [] m = m
erase_names (h ∷ hs) m = erase_names hs (erase h m)

-- the two barriers answer whether they succeeded
unfoldable pub fsync_pending : List Hash → Bool → Bool → ObjectStore → Bool × ObjectStore
fsync_pending hashes objects_synced dirs_synced st =
    if not objects_synced
    then (false, st)
    else if not dirs_synced
    then (false, st)
    else (true, record st { pending = erase_names hashes st.pending })

pub data RemoveResult : Type 0 where
  removed skipped remove_error : RemoveResult

-- how `fs::remove` fails: a file that is not there any more is told apart
pub data RemoveFault : Type 0 where
  no_such_file : RemoveFault
  not_removed : String → RemoveFault

abbrev pub refusal : RemoveFault → RemoveResult
refusal no_such_file = skipped
refusal (not_removed e) = remove_error

abbrev pub removal : ℕ → ℕ → Option RemoveFault → Hash → ObjectStore → RemoveResult × ObjectStore
removal mtime fence fault hash st = if leb fence mtime then (skipped, st) else elim fault [
  | some e ↦ (refusal e, st)
  | none ↦ (removed, record st { objects = erase hash st.objects })
]

unfoldable pub remove_object_if_older_than :
    Hash → ℕ → Option String → Option RemoveFault → ObjectStore → RemoveResult × ObjectStore
remove_object_if_older_than hash fence stat_fault remove_fault st =
    if is_found (find hash st.pending) then (skipped, st) else elim stat_fault [
      | some e ↦ (remove_error, st)
      | none ↦ elim (find hash st.objects) [
        | none ↦ (skipped, st)
        | some f ↦ removal f.mtime fence remove_fault hash st
      ]
    ]
