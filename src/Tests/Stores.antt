-- ===== src/Tests/Stores.antt =====
-- The object store on a small directory.
use context_fs.Base.{
  ◌≡◌, length, ◌≢◌, ◌<◌, refl, ap, ◌∙◌, sym, true, false, none, some, [], ◌∷◌, ◌++◌, arith, ℕ,
}
use context_fs.Base.Order.{Bytes, bytes_ord}
use context_fs.Base.Result.{codes}
use context_fs.OrdMap.{find, insert, erase}
use context_fs.WorkingTree.{Hash, zero_hash}
use context_fs.Codec.{from_le, le_bytes}
use context_fs.ObjectStore.{
  ObjectStore, StoredFile, no_error, Answers, write_object, write_blob, blob_body, read_object,
  read_blob,
}
use context_fs.ObjectStore.Pending.{removed, remove_object_if_older_than}
use context_fs.ObjectStore.Views.{opened, view_of, ViewAnswers, blob_payload_size}
use context_fs.ObjectStore.Integrity.{IsIntact, write_object-IsIntact}
use context_fs.ObjectStore.Reading.{IsUnique, read_object-write_object, read_blob-write_blob}
use context_fs.ObjectStore.Removal.{remove_object-write_object, remove_object_lem}
use context_fs.ObjectStore.Sizes.{Calls, blob_payload_size_lem}

-- a hash function without collisions
abbrev pub digest : Bytes → Hash
digest x = 1 ∷ x

abbrev behead : Hash → Bytes
behead [] = []
behead (_ ∷ x) = x

pub digest-IsUnique : (x : Bytes) → IsUnique digest x
unfolding IsUnique
digest-IsUnique x y e = ap behead e

abbrev first_byte : Bytes → ℕ
first_byte [] = 0
first_byte (b ∷ _) = b

pub not_zero : (x : Bytes) → (h : Hash) → h ≡ digest x → h ≢ zero_hash
not_zero x h e z = let clash : 1 ≡ 0 = ap first_byte (sym e ∙ z) in omega (arith, clash)

abbrev pub same_store : ObjectStore → ObjectStore
same_store st = st

-- an old tree and a blob
abbrev old_tree : Bytes
old_tree = codes "tree" ++ (1 ∷ 2 ∷ [])

abbrev a_blob : Bytes
a_blob = codes "blob" ++ ((3 ∷ 0 ∷ 0 ∷ 0 ∷ 0 ∷ 0 ∷ 0 ∷ 0 ∷ []) ++ (7 ∷ 8 ∷ 9 ∷ []))

abbrev small_store : ObjectStore
small_store = record {
  objects =
      (1 ∷ a_blob, record { content = a_blob; mtime = 90 })
      ∷ (1 ∷ old_tree, record { content = old_tree; mtime = 40 })
      ∷ [];
  pending = [];
  last_error = no_error;
  size_cache = (1 ∷ a_blob, 3) ∷ [];
}

small_store-IsIntact : IsIntact digest small_store
unfolding IsIntact
small_store-IsIntact = (refl, (refl, tt))

abbrev pub all_well : Answers
all_well = record {
  first_time = 100;
  refresh_fault = none;
  shard_fault = none;
  open_fault = none;
  tag_fault = none;
  body_fault = none;
  second_time = 101;
  adopt_fault = none;
  rename_fault = none;
}

pub same_store-keeps : (s : ObjectStore) → IsIntact digest s → IsIntact digest (same_store s)
same_store-keeps s v = v

program : Unit {0}
unfolding write_object write_blob read_object read_blob remove_object_if_older_than
    blob_payload_size from_le le_bytes view_of find
program = tt

write_object-IsIntact_example :
    IsIntact digest (write_object digest (codes "tree") (5 ∷ []) all_well same_store small_store).1
write_object-IsIntact_example =
    write_object-IsIntact digest (codes "tree") (5 ∷ []) all_well same_store small_store
      small_store-IsIntact same_store-keeps

new_tree_written :
    (write_object digest (codes "tree") (5 ∷ []) all_well same_store small_store).0 ≢ zero_hash
unfolding program
new_tree_written = not_zero (codes "tree" ++ (5 ∷ [])) _ refl

read_object-write_object_example :
    read_object
      (write_object digest (codes "tree") (5 ∷ []) all_well same_store small_store).0
      (codes "tree")
      true
      (write_object digest (codes "tree") (5 ∷ []) all_well same_store small_store).1
    ≡ some (5 ∷ [])
read_object-write_object_example =
    read_object-write_object digest (codes "tree") (5 ∷ []) all_well same_store small_store
      (digest-IsUnique (codes "tree" ++ (5 ∷ []))) small_store-IsIntact same_store-keeps
      new_tree_written

blob_written : (write_blob digest (7 ∷ 8 ∷ 9 ∷ []) all_well same_store small_store).0 ≢ zero_hash
unfolding program
blob_written = not_zero a_blob _ refl

-- the blob is there before the write
read_blob-write_blob_example :
    read_blob
      (write_blob digest (7 ∷ 8 ∷ 9 ∷ []) all_well same_store small_store).0
      true
      (write_blob digest (7 ∷ 8 ∷ 9 ∷ []) all_well same_store small_store).1
    ≡ some (7 ∷ 8 ∷ 9 ∷ [])
read_blob-write_blob_example =
    read_blob-write_blob digest (7 ∷ 8 ∷ 9 ∷ []) all_well same_store small_store (digest-IsUnique _)
      small_store-IsIntact same_store-keeps (omega arith) blob_written

old_tree_written :
    (write_object digest (codes "tree") (1 ∷ 2 ∷ []) all_well same_store small_store).0 ≢ zero_hash
unfolding program
old_tree_written = not_zero old_tree _ refl

-- the old tree is refreshed by the write
remove_object-write_object_example :
    (remove_object_if_older_than
      (write_object digest (codes "tree") (1 ∷ 2 ∷ []) all_well same_store small_store).0
      60
      none
      none
      (write_object digest (codes "tree") (1 ∷ 2 ∷ []) all_well same_store small_store).1).1
    ≡ (write_object digest (codes "tree") (1 ∷ 2 ∷ []) all_well same_store small_store).1
remove_object-write_object_example =
    remove_object-write_object digest (codes "tree") (1 ∷ 2 ∷ []) all_well same_store small_store 60
      none none (digest-IsUnique (codes "tree" ++ (1 ∷ 2 ∷ []))) small_store-IsIntact
      same_store-keeps (omega arith) (omega arith) old_tree_written

old_tree_removed : (remove_object_if_older_than (1 ∷ old_tree) 60 none none small_store).0 ≡ removed
unfolding program
old_tree_removed = refl

remove_object_example :
    (f : StoredFile) × (find (1 ∷ old_tree) small_store.objects ≡ some f)
    × (f.mtime < 60)
    × (find (1 ∷ old_tree) small_store.pending ≡ none)
    × ((remove_object_if_older_than (1 ∷ old_tree) 60 none none small_store).1
        ≡ record small_store { objects = erase (1 ∷ old_tree) small_store.objects })
remove_object_example = remove_object_lem (1 ∷ old_tree) 60 none none small_store old_tree_removed

abbrev opens : ViewAnswers
opens = record { open_error = none; seek_fails = false; read_fails = false }

-- the store as it is opened, and after a write, a size query and another write
abbrev opened_store : ObjectStore
opened_store = record small_store { size_cache = [] }

abbrev tree_added : ObjectStore
tree_added = (write_object digest (codes "tree") (5 ∷ []) all_well same_store opened_store).1

abbrev size_asked : ObjectStore
size_asked = (blob_payload_size (1 ∷ a_blob) opens tree_added).1

abbrev used_store : ObjectStore
used_store =
    (write_object digest (codes "blob") (blob_body digest (7 ∷ [])) all_well same_store
      size_asked).1

used_store-Calls : Calls digest opened_store used_store
used_store-Calls =
    Calls.write (codes "blob") (blob_body digest (7 ∷ [])) all_well same_store (λ t. Calls.done)
      (Calls.size (1 ∷ a_blob) opens
        (Calls.write (codes "tree") (5 ∷ []) all_well same_store (λ t. Calls.done) Calls.done))

blob_size_told : (blob_payload_size (1 ∷ a_blob) opens used_store).0 ≡ opened 3
unfolding program insert
blob_size_told = refl

blob_payload_size_example :
    (content : Bytes) × (read_blob (1 ∷ a_blob) true used_store ≡ some content)
    × (length content ≡ 3)
blob_payload_size_example =
    blob_payload_size_lem digest opened_store used_store (1 ∷ a_blob) opens 3 refl used_store-Calls
      blob_size_told
