-- ===== src/ObjectStore.antt =====
-- cas/object_store.h and object_store.cpp: objects as files named by the hash of their contents.
-- `objects` is the directory tree objects/, a map from ids to files; no two ids share a path. What
-- the operating system answers to a call is an argument. The mutex makes each locked block one
-- step, and what other threads do between the two blocks of a write is an argument as well.
pub mod Pending
pub mod Views
pub mod Outcome
pub mod Integrity
pub mod Reading
pub mod Removal
pub mod Cache
pub mod Sizes
pub mod Records
use Prim.Native.String.{String}
use context_fs.Base.{
  ℕ, zero, suc, ◌+◌, ◌-◌, ◌^◌, Bool, true, false, ◌&&◌, not, Option, none, some, List, [], ◌∷◌,
  ◌++◌, length, take, drop, ltb, leb, ◌==◌, if◌then◌else◌,
}
use context_fs.Base.Order.{Bytes, bytes_ord, same}
use context_fs.Base.Result.{codes}
use context_fs.OrdMap.{OrdMap, find, insert, erase}
use context_fs.WorkingTree.{Hash, zero_hash}
use context_fs.Codec.{le_bytes, from_le}

pub record StoredFile : Type 0 where
  pub content : Bytes
  pub mtime : ℕ

abbrev pub Objects : Type 0
Objects = OrdMap Hash StoredFile

-- what `last_error` says; the texts also name the paths
pub data StoreError : Type 0 where
  no_error : StoreError
  refresh_failed shard_failed open_failed write_failed rename_failed : String → StoreError
  view_failed : String → StoreError

pub record ObjectStore : Type 0 where
  pub objects : Objects
  pub pending : OrdMap Hash (Unit {0})
  pub last_error : StoreError
  pub size_cache : OrdMap Hash ℕ

unfoldable pub set_last_error : ObjectStore → StoreError → ObjectStore
set_last_error st e = record st { last_error = e }

-- `fs::last_write_time(target, now)`, whose failure on a missing file is told apart
pub data Touched : Type 0 where
  refreshed : Objects → Touched
  missing : Touched
  refused : String → Touched

unfoldable pub touch : Hash → ℕ → Option String → Objects → Touched
touch hash now fault objects = elim fault [
  | some e ↦ refused e
  | none ↦ elim (find hash objects) [
    | none ↦ missing
    | some f ↦ refreshed (insert hash (record f { mtime = now }) objects)
  ]
]

-- the answers to the calls of one write, `none` being success
pub record Answers : Type 0 where
  pub first_time : ℕ
  pub refresh_fault : Option String
  pub shard_fault : Option String
  pub open_fault : Option String
  pub tag_fault : Option String
  pub body_fault : Option String
  pub second_time : ℕ
  pub adopt_fault : Option String
  pub rename_fault : Option String

abbrev pub first_fault : Option String → Option String → Option String
first_fault (some e) f = some e
first_fault none f = f

abbrev pub if_nonempty : Bytes → Option String → Option String
if_nonempty [] f = none
if_nonempty (_ ∷ _) f = f

-- The second locked block: adopt an object that appeared meanwhile, or rename the temporary file.
unfoldable pub publish : Hash → Bytes → Answers → ObjectStore → Hash × ObjectStore
unfolding touch set_last_error
publish hash content a st = elim (touch hash a.second_time a.adopt_fault st.objects) [
  | refreshed objects ↦ (hash, record st { objects = objects })
  | refused e ↦ (zero_hash, set_last_error st (refresh_failed e))
  | missing ↦ elim a.rename_fault [
    | some e ↦ (zero_hash, set_last_error st (rename_failed e))
    | none ↦ (
      hash,
      record st {
        objects = insert hash (record { content = content; mtime = a.second_time }) st.objects;
        pending = insert hash tt st.pending;
      },
    )
  ]
]

-- the temporary file, outside the lock
unfoldable pub write_temporary : Bytes → Answers → Option StoreError
write_temporary body a = elim a.shard_fault [
  | some e ↦ some (shard_failed e)
  | none ↦ elim a.open_fault [
    | some e ↦ some (open_failed e)
    | none ↦ elim (first_fault a.tag_fault (if_nonempty body a.body_fault)) [
      | some e ↦ some (write_failed e)
      | none ↦ none
    ]
  ]
]

-- BLAKE3 is the parameter `blake3`.
module _ (blake3 : Bytes → Hash) where
  unfoldable pub write_object :
      Bytes → Bytes → Answers → (ObjectStore → ObjectStore) → ObjectStore → Hash × ObjectStore
  unfolding touch publish write_temporary set_last_error
  write_object tag body a others st =
      let hash = blake3 (tag ++ body) in
      let st₁ = set_last_error st no_error in
      elim (touch hash a.first_time a.refresh_fault st₁.objects) [
        | refreshed objects ↦ (hash, record st₁ { objects = objects })
        | refused e ↦ (zero_hash, set_last_error st₁ (refresh_failed e))
        | missing ↦ elim (write_temporary body a) [
          | some e ↦ (zero_hash, set_last_error (others st₁) e)
          | none ↦ publish hash (tag ++ body) a (others st₁)
        ]
      ]

  abbrev pub blob_body : Bytes → Bytes
  blob_body content = le_bytes 8 (length content) ++ content

  unfoldable pub write_blob :
      Bytes → Answers → (ObjectStore → ObjectStore) → ObjectStore → Hash × ObjectStore
  unfolding write_object
  write_blob content = write_object (codes "blob") (blob_body content)

  unfoldable pub write_tree :
      Bytes → Answers → (ObjectStore → ObjectStore) → ObjectStore → Hash × ObjectStore
  unfolding write_object
  write_tree = write_object (codes "tree")

  unfoldable pub write_commit :
      Bytes → Answers → (ObjectStore → ObjectStore) → ObjectStore → Hash × ObjectStore
  unfolding write_object
  write_commit = write_object (codes "commit")

-- the bytes behind a tag
unfoldable pub strip_tag : Bytes → Bytes → Option Bytes
strip_tag tag raw =
    if ltb (length raw) (length tag)
    then none
    else if same (take (length tag) raw) tag
    then some (drop (length tag) raw)
    else none

abbrev pub strip_file : Bytes → Option StoredFile → Option Bytes
strip_file tag none = none
strip_file tag (some f) = strip_tag tag f.content

-- `readable` is false if a call of the operating system fails
unfoldable pub read_object : Hash → Bytes → Bool → ObjectStore → Option Bytes
unfolding strip_tag
read_object hash tag readable st = if readable then strip_file tag (find hash st.objects) else none

unfoldable pub blob_payload : Bytes → Option Bytes
blob_payload body =
    if ltb (length body) 8
    then none
    else if length body - 8 == from_le (take 8 body)
    then some (drop 8 body)
    else none

abbrev pub and_then_payload : Option Bytes → Option Bytes
and_then_payload none = none
and_then_payload (some body) = blob_payload body

unfoldable pub read_blob : Hash → Bool → ObjectStore → Option Bytes
unfolding read_object blob_payload
read_blob hash readable st = and_then_payload (read_object hash (codes "blob") readable st)

unfoldable pub read_tree : Hash → Bool → ObjectStore → Option Bytes
unfolding read_object
read_tree hash = read_object hash (codes "tree")

unfoldable pub read_commit : Hash → Bool → ObjectStore → Option Bytes
unfolding read_object
read_commit hash = read_object hash (codes "commit")

abbrev pub is_found {ℓ} : {A : Type ℓ} → Option A → Bool
is_found none = false
is_found (some _) = true

unfoldable pub object_exists : Hash → Bool → ObjectStore → Bool
object_exists hash readable st = readable && is_found (find hash st.objects)
