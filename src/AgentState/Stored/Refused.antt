-- ===== src/AgentState/Stored/Refused.antt =====
-- Writes of agent states that fail, in cas/agent_state.cpp.
use context_fs.Base.{◌≡◌, ◌≢◌, refl, Bool, none, List, [], ◌∷◌, ◌++◌, Bool-cases, inl, inr, arith}
use context_fs.Base.Order.{Bytes, bytes_ord, same, eq→same}
use context_fs.Base.Result.{Result, ok, err}
use context_fs.WorkingTree.{Hash, zero_hash}
use context_fs.ObjectStore.{ObjectStore, Answers, write_blob}
use context_fs.ObjectStore.Records.{WriteResult}
use context_fs.AgentState.{
  AgentStateRecord, serialize_agent_state_record, deserialize_agent_state_record,
}
use context_fs.AgentState.Stored.{
  has_zero, persisted, publish_all, finish_write, write_checked, write_agent_state_record,
}

-- What a write returns with the zero hash leaves the caller's record alone and says why.
Refuses : AgentStateRecord → WriteResult AgentStateRecord → Type 0
Refuses state r = (r.state ≡ state) × (r.error ≢ none)

finish_write-Refuses :
    (state : AgentStateRecord) (deps : List Hash) (sync objects_synced dirs_synced : Bool)
    (hash : Hash) (st : ObjectStore)
    → (finish_write state deps sync objects_synced dirs_synced hash st).hash ≡ zero_hash
    → Refuses state (finish_write state deps sync objects_synced dirs_synced hash st)
unfolding finish_write Refuses
finish_write-Refuses state deps sync objects_synced dirs_synced hash st =
    elim (Bool-cases (same hash zero_hash)) [
      | inl e ↦ rw e (λ z. (refl, λ n. cc n))
      | inr e ↦
          elim (Bool-cases (publish_all sync (deps ++ hash ∷ []) objects_synced dirs_synced st).0) [
            | inl s ↦ rw (e, s) (λ z. absurd (ground (arith, eq→same hash zero_hash z, e)))
            | inr s ↦ rw (e, s) (λ z. (refl, λ n. cc n))
          ]
    ]

module _ (blake3 : Bytes → Hash) (a : Answers) (others : ObjectStore → ObjectStore) where
  write_checked-Refuses :
      (checked : Result AgentStateRecord) (state : AgentStateRecord) (deps : List Hash)
      (sync objects_synced dirs_synced : Bool) (st : ObjectStore)
      → (write_checked blake3 a others checked state deps sync objects_synced dirs_synced st).hash
        ≡ zero_hash
      → Refuses state
          (write_checked blake3 a others checked state deps sync objects_synced dirs_synced st)
  unfolding write_checked Refuses
  write_checked-Refuses (err e) state deps sync objects_synced dirs_synced st z = (refl, λ n. cc n)
  write_checked-Refuses (ok _) state deps sync objects_synced dirs_synced st z =
      let out =
        write_blob blake3 (serialize_agent_state_record (persisted state deps)) a others st in
      finish_write-Refuses state deps sync objects_synced dirs_synced out.0 out.1 z

  -- A write that returns the zero hash, for whatever reason, leaves the caller's record as it was and
  -- reports an error.
  pub write_agent_state_record_fails :
      (state : AgentStateRecord) (deps : List Hash) (sync objects_synced dirs_synced : Bool)
      (st : ObjectStore)
      → (write_agent_state_record blake3 a others state deps sync objects_synced dirs_synced
          st).hash
        ≡ zero_hash
      → ((write_agent_state_record blake3 a others state deps sync objects_synced dirs_synced
            st).state
          ≡ state)
        × ((write_agent_state_record blake3 a others state deps sync objects_synced dirs_synced
              st).error
            ≢ none)
  unfolding write_agent_state_record Refuses
  write_agent_state_record_fails state deps sync objects_synced dirs_synced st =
      elim (Bool-cases (has_zero deps)) [
        | inl e ↦ rw e (λ z. (refl, λ n. cc n))
        | inr e ↦ rw e (
            write_checked-Refuses
              (deserialize_agent_state_record (serialize_agent_state_record (persisted state deps)))
              state deps sync objects_synced dirs_synced st)
      ]
