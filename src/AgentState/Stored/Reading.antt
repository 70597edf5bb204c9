-- ===== src/AgentState/Stored/Reading.antt =====
-- Reading back the agent states that were written, in cas/agent_state.cpp.
use context_fs.Base.{
  ◌≡◌, ◌≢◌, refl, Bool, true, false, some, List, [], ◌∷◌, ◌++◌, ◌^◌, ◌<◌, Bool-cases, inl, inr,
  length, ◌∙◌,
}
use context_fs.Base.Order.{Bytes, bytes_ord, same}
use context_fs.Base.Result.{Result, ok, err, codes}
use context_fs.WorkingTree.{Hash, zero_hash}
use context_fs.Codec.{le_bytes}
use context_fs.Text.{hash_to_hex}
use context_fs.ObjectStore.{ObjectStore, Answers, write_blob, read_blob, read_object}
use context_fs.ObjectStore.Pending.{fsync_pending}
use context_fs.ObjectStore.Records.{read_ok}
use context_fs.ObjectStore.Integrity.{IsIntact}
use context_fs.ObjectStore.Reading.{IsUnique, read_blob-write_blob}
use context_fs.AgentState.{
  AgentStateRecord, serialize_agent_state_record, deserialize_agent_state_record,
}
use context_fs.AgentState.RoundTrip.{IsRecord, deserialize-serialize_agent_state_record}
use context_fs.AgentState.Stored.{
  has_zero, persisted, publish_all, finish_write, write_checked, write_agent_state_record,
  read_agent_state_record,
}

-- a record without its id, which is not written
abbrev pub unnamed : AgentStateRecord → AgentStateRecord
unnamed state = record state { state_id = [] }

deserialize-serialize_unnamed :
    (state : AgentStateRecord)
    → IsRecord (unnamed state)
    → deserialize_agent_state_record (serialize_agent_state_record state) ≡ ok (unnamed state)
unfolding serialize_agent_state_record
deserialize-serialize_unnamed state v = deserialize-serialize_agent_state_record (unnamed state) v

publish_all-objects :
    (sync : Bool) (hashes : List Hash) (objects_synced dirs_synced : Bool) (st : ObjectStore)
    → (publish_all sync hashes objects_synced dirs_synced st).1.objects ≡ st.objects
unfolding publish_all fsync_pending
publish_all-objects false hashes o d st = refl
publish_all-objects true hashes false d st = refl
publish_all-objects true hashes true false st = refl
publish_all-objects true hashes true true st = refl

read_blob_objects :
    (id : Hash) (st st' : ObjectStore)
    → st'.objects ≡ st.objects
    → read_blob id true st' ≡ read_blob id true st
unfolding read_blob read_object
read_blob_objects id st st' e = rw e refl

read_stored :
    (state : AgentStateRecord) (id : Hash) (st : ObjectStore)
    → IsRecord (unnamed state)
    → read_blob id true st ≡ some (serialize_agent_state_record state)
    → read_agent_state_record id true st ≡ read_ok (record state { state_id = hash_to_hex id })
unfolding read_agent_state_record
read_stored state id st v e =
    rw (e, read_agent_state_record) (rw (deserialize-serialize_unnamed state v) refl)

read-finish_write :
    (state : AgentStateRecord) (deps : List Hash) (sync objects_synced dirs_synced : Bool)
    (hash : Hash) (st : ObjectStore)
    → IsRecord (unnamed (persisted state deps))
    → (hash ≢ zero_hash
        → read_blob hash true st ≡ some (serialize_agent_state_record (persisted state deps)))
    → (finish_write state deps sync objects_synced dirs_synced hash st).hash ≢ zero_hash
    → read_agent_state_record
        (finish_write state deps sync objects_synced dirs_synced hash st).hash
        true
        (finish_write state deps sync objects_synced dirs_synced hash st).store
      ≡ read_ok (finish_write state deps sync objects_synced dirs_synced hash st).state
unfolding finish_write
read-finish_write state deps sync objects_synced dirs_synced hash st v stored =
    elim (Bool-cases (same hash zero_hash)) [
      | inl e ↦ rw e (λ success. absurd (success refl))
      | inr e ↦
          elim (Bool-cases (publish_all sync (deps ++ hash ∷ []) objects_synced dirs_synced st).0) [
            | inl s ↦
                rw (e, s)
                  (λ success. read_stored (persisted state deps) hash _ v (
                    read_blob_objects hash st _
                      (publish_all-objects sync (deps ++ hash ∷ []) objects_synced dirs_synced st)
                    ∙ stored success))
            | inr s ↦ rw (e, s) (λ success. absurd (success refl))
          ]
    ]

module _ (blake3 : Bytes → Hash) (a : Answers) (others : ObjectStore → ObjectStore) where
  read-write_checked :
      (checked : Result AgentStateRecord) (state : AgentStateRecord) (deps : List Hash)
      (sync objects_synced dirs_synced : Bool) (st : ObjectStore)
      → IsRecord (unnamed (persisted state deps))
      → length (serialize_agent_state_record (persisted state deps)) < 2 ^ 64
      → IsUnique blake3 (
          codes "blob"
          ++ (le_bytes 8 (length (serialize_agent_state_record (persisted state deps)))
              ++ serialize_agent_state_record (persisted state deps)))
      → IsIntact blake3 st
      → ((s : ObjectStore) → IsIntact blake3 s → IsIntact blake3 (others s))
      → (write_checked blake3 a others checked state deps sync objects_synced dirs_synced st).hash
        ≢ zero_hash
      → read_agent_state_record
          (write_checked blake3 a others checked state deps sync objects_synced dirs_synced st).hash
          true
          (write_checked blake3 a others checked state deps sync objects_synced dirs_synced
            st).store
        ≡ read_ok
            (write_checked blake3 a others checked state deps sync objects_synced dirs_synced
              st).state
  unfolding write_checked
  read-write_checked (err e) state deps sync o d st v size unique intact keep success =
      absurd (success refl)
  read-write_checked (ok _) state deps sync o d st v size unique intact keep success =
      let out =
        write_blob blake3 (serialize_agent_state_record (persisted state deps)) a others st in
      read-finish_write state deps sync o d out.0 out.1 v
        (read_blob-write_blob blake3 (serialize_agent_state_record (persisted state deps)) a others
          st unique intact keep size)
        success

  -- An agent state that was written with success is read back under the returned id as the caller's
  -- record, which now has that id and the published dependencies.
  pub read-write_agent_state_record :
      (state : AgentStateRecord) (deps : List Hash) (sync objects_synced dirs_synced : Bool)
      (st : ObjectStore)
      → IsRecord (unnamed (persisted state deps))
      → length (serialize_agent_state_record (persisted state deps)) < 2 ^ 64
      → IsUnique blake3 (
          codes "blob"
          ++ (le_bytes 8 (length (serialize_agent_state_record (persisted state deps)))
              ++ serialize_agent_state_record (persisted state deps)))
      → IsIntact blake3 st
      → ((s : ObjectStore) → IsIntact blake3 s → IsIntact blake3 (others s))
      → (write_agent_state_record blake3 a others state deps sync objects_synced dirs_synced
          st).hash
        ≢ zero_hash
      → read_agent_state_record
          (write_agent_state_record blake3 a others state deps sync objects_synced dirs_synced
            st).hash
          true
          (write_agent_state_record blake3 a others state deps sync objects_synced dirs_synced
            st).store
        ≡ read_ok
            (write_agent_state_record blake3 a others state deps sync objects_synced dirs_synced
              st).state
  unfolding write_agent_state_record
  read-write_agent_state_record state deps sync o d st v size unique intact keep =
      elim (Bool-cases (has_zero deps)) [
        | inl e ↦ rw e (λ success. absurd (success refl))
        | inr e ↦ rw e (
            read-write_checked
              (deserialize_agent_state_record (serialize_agent_state_record (persisted state deps)))
              state deps sync o d st v size unique intact keep)
      ]
