-- ===== src/RuntimeState/Stored.antt =====
-- write_union_runtime_state and read_union_runtime_state of cas/runtime_state.cpp: the records as
-- blobs of the object store.
use context_fs.Base.{
  ◌≡◌, ◌≢◌, refl, Bool, true, Option, none, some, [], ◌++◌, ℕ, ◌^◌, ◌<◌, if◌then◌else◌, Bool-cases,
  inl, inr, length,
}
use context_fs.Base.Order.{Bytes, bytes_ord, same}
use context_fs.Base.Result.{Result, ok, err, codes}
use context_fs.WorkingTree.{Hash, zero_hash}
use context_fs.Codec.{le_bytes}
use context_fs.Text.{hash_to_hex}
use context_fs.ObjectStore.{ObjectStore, Answers, write_blob, read_blob}
use context_fs.ObjectStore.Records.{
  store_failure, message, WriteResult, ReadResult, read_ok, read_failed,
}
use context_fs.ObjectStore.Integrity.{IsIntact}
use context_fs.ObjectStore.Reading.{IsUnique, read_blob-write_blob}
use context_fs.RuntimeState.{
  UnionRuntimeState, serialize_union_runtime_state, deserialize_union_runtime_state,
}
use context_fs.RuntimeState.Fields.{ScansDigits}
use context_fs.RuntimeState.RoundTrip.{IsState, deserialize-serialize_union_runtime_state}

abbrev pub stamped : (UnionRuntimeState) → Hash → UnionRuntimeState
stamped state hash = record state { union_state_id = hash_to_hex hash }

unfoldable pub write_union_runtime_state :
    (Bytes → Hash)
    → UnionRuntimeState
    → Answers
    → (ObjectStore → ObjectStore)
    → ObjectStore
    → WriteResult UnionRuntimeState
unfolding store_failure
write_union_runtime_state blake3 state a others st =
    let (hash, st') = write_blob blake3 (serialize_union_runtime_state state) a others st in
    if same hash zero_hash
    then record {
      hash = zero_hash;
      state = state;
      store = st';
      error = some (store_failure "object store write_blob failed" st');
    }
    else record { hash = hash; state = stamped state hash; store = st'; error = none }

abbrev pub read_state : Result UnionRuntimeState → Hash → ReadResult UnionRuntimeState
read_state (ok state) id = read_ok (stamped state id)
read_state (err e) id = read_failed (message e)

unfoldable pub read_union_runtime_state :
    (Bytes → Option ℕ) → Hash → Bool → ObjectStore → ReadResult UnionRuntimeState
unfolding store_failure
read_union_runtime_state scan id readable st = elim (read_blob id readable st) [
  | none ↦ read_failed (store_failure "object store read_blob failed" st)
  | some body ↦ read_state (deserialize_union_runtime_state scan body) id
]

-- a record without its id, which is not written
abbrev pub unnamed : UnionRuntimeState → UnionRuntimeState
unnamed state = record state { union_state_id = [] }

deserialize-serialize_unnamed :
    (scan : Bytes → Option ℕ) (state : UnionRuntimeState)
    → ScansDigits scan
    → IsState (unnamed state)
    → deserialize_union_runtime_state scan (serialize_union_runtime_state state)
      ≡ ok (unnamed state)
unfolding serialize_union_runtime_state
deserialize-serialize_unnamed scan state scans v =
    deserialize-serialize_union_runtime_state scan scans (unnamed state) v

read_stored :
    (scan : Bytes → Option ℕ) (state : UnionRuntimeState) (id : Hash) (st : ObjectStore)
    → ScansDigits scan
    → IsState (unnamed state)
    → read_blob id true st ≡ some (serialize_union_runtime_state state)
    → read_union_runtime_state scan id true st ≡ read_ok (stamped state id)
unfolding read_union_runtime_state
read_stored scan state id st scans v e =
    rw (e, read_union_runtime_state) (rw (deserialize-serialize_unnamed scan state scans v) refl)

-- A runtime state that was written with success is read back under the returned id as the caller's
-- record, which now has that id.
pub read-write_union_runtime_state :
    (blake3 : Bytes → Hash) (scan : Bytes → Option ℕ) (state : UnionRuntimeState) (a : Answers)
    (others : ObjectStore → ObjectStore) (st : ObjectStore)
    → ScansDigits scan
    → IsState (unnamed state)
    → length (serialize_union_runtime_state state) < 2 ^ 64
    → IsUnique blake3 (
        codes "blob"
        ++ (le_bytes 8 (length (serialize_union_runtime_state state))
            ++ serialize_union_runtime_state state))
    → IsIntact blake3 st
    → ((s : ObjectStore) → IsIntact blake3 s → IsIntact blake3 (others s))
    → (write_union_runtime_state blake3 state a others st).hash ≢ zero_hash
    → read_union_runtime_state scan
        (write_union_runtime_state blake3 state a others st).hash
        true
        (write_union_runtime_state blake3 state a others st).store
      ≡ read_ok (write_union_runtime_state blake3 state a others st).state
unfolding write_union_runtime_state
read-write_union_runtime_state blake3 scan state a others st scans v size unique intact keep =
    let body = serialize_union_runtime_state state in
    elim (Bool-cases (same (write_blob blake3 body a others st).0 zero_hash)) [
      | inl e ↦ rw e (λ success. absurd (success refl))
      | inr e ↦ rw e (λ success.
          read_stored scan state _ _ scans v
            (read_blob-write_blob blake3 body a others st unique intact keep size success))
    ]
