-- ===== src/AgentState/Stored.antt =====
-- write_agent_state_record and read_agent_state_record of cas/agent_state.cpp: the records as blobs
-- of the object store.
pub mod Refused
pub mod Reading
use Prim.Native.String.{String}
use context_fs.Base.{
  ◌≡◌, ◌≢◌, refl, Bool, true, false, not, Option, none, some, List, [], ◌∷◌, ◌++◌, ℕ, ◌^◌, ◌<◌,
  if◌then◌else◌, Bool-cases, inl, inr, length, sym, ◌∙◌,
}
use context_fs.Base.Order.{Bytes, bytes_ord, same, same_refl, eq→same}
use context_fs.Base.Result.{Result, ok, err, codes}
use context_fs.WorkingTree.{Hash, zero_hash}
use context_fs.Codec.{le_bytes}
use context_fs.Text.{hash_to_hex}
use context_fs.ObjectStore.{ObjectStore, Answers, write_blob, read_blob, read_object}
use context_fs.ObjectStore.Pending.{fsync_pending}
use context_fs.ObjectStore.Records.{
  store_failure, message, invalid_record, WriteResult, ReadResult, read_ok, read_failed,
}
use context_fs.ObjectStore.Integrity.{IsIntact}
use context_fs.ObjectStore.Reading.{IsUnique, read_blob-write_blob}
use context_fs.AgentState.{
  AgentStateRecord, serialize_agent_state_record, deserialize_agent_state_record,
}
use context_fs.AgentState.RoundTrip.{IsRecord, deserialize-serialize_agent_state_record}

unfoldable pub has_zero : List Hash → Bool
has_zero [] = false
has_zero (h ∷ hs) = let rest = has_zero hs in if same h zero_hash then true else rest

-- the record that is written
abbrev pub persisted : AgentStateRecord → List Hash → AgentStateRecord
persisted state deps = record state { dependency_hashes = deps }

abbrev pub stamped : AgentStateRecord → List Hash → Hash → AgentStateRecord
stamped state deps hash = record state { dependency_hashes = deps; state_id = hash_to_hex hash }

-- `fsync_pending` of the dependencies and the record, its two barriers being answered; without
-- `sync` it is left out
unfoldable pub publish_all : Bool → List Hash → Bool → Bool → ObjectStore → Bool × ObjectStore
publish_all sync hashes objects_synced dirs_synced st =
    if sync then fsync_pending hashes objects_synced dirs_synced st else (true, st)

-- behind the write of the blob
unfoldable pub finish_write :
    AgentStateRecord
    → List Hash
    → Bool
    → Bool
    → Bool
    → Hash
    → ObjectStore
    → WriteResult AgentStateRecord
unfolding publish_all store_failure
finish_write state deps sync objects_synced dirs_synced hash st =
    if same hash zero_hash
    then record {
      hash = zero_hash;
      state = state;
      store = st;
      error = some (store_failure "object store write_blob failed" st);
    }
    else let (synced, st') = publish_all sync (deps ++ hash ∷ []) objects_synced dirs_synced st in
      if synced
      then record { hash = hash; state = stamped state deps hash; store = st'; error = none }
      else record {
        hash = zero_hash;
        state = state;
        store = st';
        error = some (
            message (
              if objects_synced
              then "failed to fsync pending object shard dirs"
              else "failed to fsync pending objects"));
      }

module _ (blake3 : Bytes → Hash) (a : Answers) (others : ObjectStore → ObjectStore) where
  -- behind the check of the text that is written
  unfoldable pub write_checked :
      Result AgentStateRecord
      → AgentStateRecord
      → List Hash
      → Bool
      → Bool
      → Bool
      → ObjectStore
      → WriteResult AgentStateRecord
  unfolding finish_write
  write_checked (err e) state deps sync objects_synced dirs_synced st = record {
    hash = zero_hash;
    state = state;
    store = st;
    error = some (invalid_record e);
  }
  write_checked (ok _) state deps sync objects_synced dirs_synced st =
      let (hash, st') =
        write_blob blake3 (serialize_agent_state_record (persisted state deps)) a others st in
      finish_write state deps sync objects_synced dirs_synced hash st'

  unfoldable pub write_agent_state_record :
      AgentStateRecord → List Hash → Bool → Bool → Bool → ObjectStore → WriteResult AgentStateRecord
  unfolding write_checked has_zero
  write_agent_state_record state deps sync objects_synced dirs_synced st =
      if has_zero deps
      then record {
        hash = zero_hash;
        state = state;
        store = st;
        error = some (message "agent state dependency hash is ZERO_HASH");
      }
      else write_checked
          (deserialize_agent_state_record (serialize_agent_state_record (persisted state deps)))
          state deps sync objects_synced dirs_synced st

abbrev pub read_state : Result AgentStateRecord → Hash → ReadResult AgentStateRecord
read_state (ok state) id = read_ok (record state { state_id = hash_to_hex id })
read_state (err e) id = read_failed (message e)

unfoldable pub read_agent_state_record : Hash → Bool → ObjectStore → ReadResult AgentStateRecord
unfolding store_failure
read_agent_state_record id readable st = elim (read_blob id readable st) [
  | none ↦ read_failed (store_failure "object store read_blob failed" st)
  | some body ↦ read_state (deserialize_agent_state_record body) id
]
