-- ===== src/ObjectStore/Records.antt =====
-- What the functions that keep records as blobs of the object store share, in cas/runtime_state.cpp
-- and cas/agent_state.cpp: the error they report and what they return.
use Prim.Native.String.{String}
use context_fs.Base.{Bool, true, false, Option, if◌then◌else◌}
use context_fs.WorkingTree.{Hash}
use context_fs.ObjectStore.{
  ObjectStore, StoreError, no_error, refresh_failed, shard_failed, open_failed, write_failed,
  rename_failed, view_failed,
}

-- what `error` says: what the store reported, a text of the function's own, or a reader's text
-- behind one
pub data RecordError : Type 0 where
  store_error : StoreError → RecordError
  message : String → RecordError
  invalid_record : String → RecordError

abbrev pub is_silent : StoreError → Bool
is_silent no_error = true
is_silent (refresh_failed _) = false
is_silent (shard_failed _) = false
is_silent (open_failed _) = false
is_silent (write_failed _) = false
is_silent (rename_failed _) = false
is_silent (view_failed _) = false

-- `error = store.last_error(); if (error.empty()) error = ...`
unfoldable pub store_failure : String → ObjectStore → RecordError
store_failure text st = if is_silent st.last_error then message text else store_error st.last_error

-- the hash that is returned, the caller's record, the store and `error`
pub record WriteResult (Record : Type 0) : Type 0 where
  pub hash : Hash
  pub state : Record
  pub store : ObjectStore
  pub error : Option RecordError

pub data ReadResult (Record : Type 0) : Type 0 where
  read_ok : Record → ReadResult Record
  read_failed : RecordError → ReadResult Record
