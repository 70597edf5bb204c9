-- ===== src/AgentState/RoundTrip.antt =====
-- An agent state record survives writing and reading.
use Prim.Native.String.{String}
use context_fs.Base.{
  ℕ, ◌^◌, ◌<◌, ◌≡◌, refl, ap, ◌∙◌, sym, Bool, true, false, List, [], ◌∷◌, ◌++◌, All, append-nil,
  append_assoc, if◌then◌else◌,
}
use context_fs.Base.Order.{Bytes, bytes_ord, same}
use context_fs.Base.Result.{ok, codes, set_to}
use context_fs.WorkingTree.{Hash, zero_hash}
use context_fs.Text.{hash_to_hex, percent_encode}
use context_fs.Text.Hex.{IsHash, hex_to_hash_strict-hash_to_hex}
use context_fs.Record.{to_decimal, field, split_first, split_lines, read_lines}
use context_fs.Record.Lines.{IsKey, read_field, read_record-append}
use context_fs.Record.Decimal.{parse_u32-to_decimal, parse_u64-to_decimal, LacksChar-to_decimal}
use context_fs.Record.Values.{
  decode-percent_encode, LacksChar-percent_encode, LacksChar-hash_to_hex,
}
use context_fs.AgentState.{
  AgentStateRecord, default_record, assign_field, assign_state_id_field, append_dependency_hash,
  agent_state_kind_label, is_valid_state_id, dependency_lines, serialize_agent_state_record,
  deserialize_agent_state_record,
}
use context_fs.AgentState.Kinds.{
  parse_agent_state_kind-agent_state_kind_label, LacksChar-agent_state_kind_label,
}

-- a dependency is the id of an object
pub record IsDependency (h : Hash) : Type 0 where
  pub is_hash : IsHash h
  pub nonzero : same h zero_hash ≡ false

-- The integers fit their types, the ids are empty or full, and the record has no id of its own,
-- which is not written.
pub record IsRecord (st : AgentStateRecord) : Type 0 where
  pub record_version : st.record_version < 2 ^ 32
  pub no_id : st.state_id ≡ []
  pub parent_state_id : is_valid_state_id st.parent_state_id ≡ true
  pub snapshot_base_state_id : is_valid_state_id st.snapshot_base_state_id ≡ true
  pub fs_commit : IsHash st.fs_commit
  pub union_state_id : is_valid_state_id st.union_state_id ≡ true
  pub sequence : st.sequence < 2 ^ 64
  pub payload_ref : is_valid_state_id st.payload_ref ≡ true
  pub dependency_hashes : All IsDependency st.dependency_hashes
  pub timestamp_ns : st.timestamp_ns < 2 ^ 64

text_field :
    (st next : AgentStateRecord) (key : String) (text rest : Bytes)
    → IsKey key
    → assign_field st (codes key) (percent_encode text) ≡ ok next
    → read_lines assign_field st (split_lines (field key (percent_encode text) ++ rest))
      ≡ read_lines assign_field next (split_lines rest)
text_field st next key text rest k e =
    read_field assign_field st next key (percent_encode text) rest k (LacksChar-percent_encode text)
      e

number_field :
    (st next : AgentStateRecord) (key : String) (n : ℕ) (rest : Bytes)
    → IsKey key
    → assign_field st (codes key) (to_decimal n) ≡ ok next
    → read_lines assign_field st (split_lines (field key (to_decimal n) ++ rest))
      ≡ read_lines assign_field next (split_lines rest)
number_field st next key n rest k e =
    read_field assign_field st next key (to_decimal n) rest k (LacksChar-to_decimal n) e

hash_field :
    (st next : AgentStateRecord) (key : String) (h : Hash) (rest : Bytes)
    → IsKey key
    → IsHash h
    → assign_field st (codes key) (hash_to_hex h) ≡ ok next
    → read_lines assign_field st (split_lines (field key (hash_to_hex h) ++ rest))
      ≡ read_lines assign_field next (split_lines rest)
hash_field st next key h rest k v e =
    read_field assign_field st next key (hash_to_hex h) rest k (LacksChar-hash_to_hex h v.bytes) e

state_id :
    (message : String) (text : Bytes)
    → is_valid_state_id text ≡ true
    → assign_state_id_field message (percent_encode text) ≡ ok text
unfolding assign_state_id_field
state_id message text v = rw (decode-percent_encode text, v)

append_dependency_hash_lem :
    (st : AgentStateRecord) (h : Hash)
    → IsDependency h
    → append_dependency_hash st (hash_to_hex h)
      ≡ ok (record st { dependency_hashes = st.dependency_hashes ++ h ∷ [] })
unfolding append_dependency_hash
append_dependency_hash_lem st h v =
    rw (hex_to_hash_strict-hash_to_hex h v.is_hash, v.nonzero, append_dependency_hash)

read_dependencies :
    (st : AgentStateRecord) (hs : List Hash) (rest : Bytes)
    → All IsDependency hs
    → read_lines assign_field st (split_lines (dependency_lines hs ++ rest))
      ≡ read_lines assign_field
          (record st { dependency_hashes = st.dependency_hashes ++ hs })
          (split_lines rest)
unfolding dependency_lines assign_field
read_dependencies st [] rest v =
    ap (λ hs. read_lines assign_field (record st { dependency_hashes = hs }) (split_lines rest))
      (sym (append-nil st.dependency_hashes))
read_dependencies st (h ∷ hs) rest v =
    let next = record st { dependency_hashes = st.dependency_hashes ++ h ∷ [] } in
    let line = field "dependency_hash" (hash_to_hex h) in
    ap (λ s. read_lines assign_field st (split_lines s))
      (append_assoc line (dependency_lines hs) rest)
    ∙ (hash_field st next "dependency_hash" h (dependency_lines hs ++ rest) (refl, refl) v.0.is_hash
          (append_dependency_hash_lem st h v.0)
        ∙ (read_dependencies next hs rest v.1
            ∙ ap
                (λ hs'.
                  read_lines assign_field (record st { dependency_hashes = hs' })
                    (split_lines rest))
                (append_assoc st.dependency_hashes (h ∷ []) hs)))

flag_field :
    (st : AgentStateRecord) (b : Bool)
    → read_lines assign_field st (split_lines (field "boundary" (codes (if b then "1" else "0"))))
      ≡ ok (record st { boundary = b })
unfolding assign_field set_to read_lines split_lines split_first
flag_field st true = refl
flag_field st false = refl

-- A record whose ids are empty or full and whose integers fit survives writing and reading,
-- whatever texts it holds.
pub deserialize-serialize_agent_state_record :
    (st : AgentStateRecord)
    → IsRecord st
    → deserialize_agent_state_record (serialize_agent_state_record st) ≡ ok st
unfolding deserialize_agent_state_record serialize_agent_state_record assign_field set_to
    default_record
deserialize-serialize_agent_state_record st v =
    let s0 = default_record in
    let s1 = record s0 { record_version = st.record_version } in
    let s2 = record s1 { parent_state_id = st.parent_state_id } in
    let s3 = record s2 { snapshot_base_state_id = st.snapshot_base_state_id } in
    let s4 = record s3 { branch = st.branch } in
    let s5 = record s4 { fs_commit = st.fs_commit } in
    let s6 = record s5 { union_state_id = st.union_state_id } in
    let s7 = record s6 { runtime_id = st.runtime_id } in
    let s8 = record s7 { agent_id = st.agent_id } in
    let s9 = record s8 { sequence = st.sequence } in
    let s10 = record s9 { kind = st.kind } in
    let s11 = record s10 { payload_schema = st.payload_schema } in
    let s12 = record s11 { payload_inline = st.payload_inline } in
    let s13 = record s12 { payload_ref = st.payload_ref } in
    let s14 = record s13 { dependency_hashes = st.dependency_hashes } in
    let s15 = record s14 { timestamp_ns = st.timestamp_ns } in
    let r15 = field "boundary" (codes (if st.boundary then "1" else "0")) in
    let r14 = field "timestamp_ns" (to_decimal st.timestamp_ns) ++ r15 in
    let r13 = dependency_lines st.dependency_hashes ++ r14 in
    let r12 = field "payload_ref" (percent_encode st.payload_ref) ++ r13 in
    let r11 = field "payload_inline" (percent_encode st.payload_inline) ++ r12 in
    let r10 = field "payload_schema" (percent_encode st.payload_schema) ++ r11 in
    let r9 = field "kind" (agent_state_kind_label st.kind) ++ r10 in
    let r8 = field "sequence" (to_decimal st.sequence) ++ r9 in
    let r7 = field "agent_id" (percent_encode st.agent_id) ++ r8 in
    let r6 = field "runtime_id" (percent_encode st.runtime_id) ++ r7 in
    let r5 = field "union_state_id" (percent_encode st.union_state_id) ++ r6 in
    let r4 = field "fs_commit" (hash_to_hex st.fs_commit) ++ r5 in
    let r3 = field "branch" (percent_encode st.branch) ++ r4 in
    let r2 = field "snapshot_base_state_id" (percent_encode st.snapshot_base_state_id) ++ r3 in
    let r1 = field "parent_state_id" (percent_encode st.parent_state_id) ++ r2 in
    let r0 = field "record_version" (to_decimal st.record_version) ++ r1 in
    read_record-append assign_field _ _ _ _ _ s0 r0
    ∙ (number_field s0 s1 "record_version" st.record_version r1 (refl, refl)
          (rw (parse_u32-to_decimal st.record_version v.record_version))
        ∙ (text_field s1 s2 "parent_state_id" st.parent_state_id r2 (refl, refl)
              (rw (state_id "invalid parent_state_id hash" st.parent_state_id v.parent_state_id))
            ∙ (text_field s2 s3 "snapshot_base_state_id" st.snapshot_base_state_id r3 (refl, refl)
                  (rw (
                    state_id "invalid snapshot_base_state_id hash" st.snapshot_base_state_id
                      v.snapshot_base_state_id))
                ∙ (text_field s3 s4 "branch" st.branch r4 (refl, refl)
                      (rw (decode-percent_encode st.branch))
                    ∙ (hash_field s4 s5 "fs_commit" st.fs_commit r5 (refl, refl) v.fs_commit
                          (rw (hex_to_hash_strict-hash_to_hex st.fs_commit v.fs_commit))
                        ∙ (text_field s5 s6 "union_state_id" st.union_state_id r6 (refl, refl)
                              (rw (
                                state_id "invalid union_state_id hash" st.union_state_id
                                  v.union_state_id))
                            ∙ (text_field s6 s7 "runtime_id" st.runtime_id r7 (refl, refl)
                                  (rw (decode-percent_encode st.runtime_id))
                                ∙ (text_field s7 s8 "agent_id" st.agent_id r8 (refl, refl)
                                      (rw (decode-percent_encode st.agent_id))
                                    ∙ (number_field s8 s9 "sequence" st.sequence r9 (refl, refl)
                                          (rw (parse_u64-to_decimal st.sequence v.sequence))
                                        ∙ (read_field assign_field s9 s10 "kind"
                                              (agent_state_kind_label st.kind) r10 (refl, refl)
                                              (LacksChar-agent_state_kind_label st.kind)
                                              (rw (
                                                parse_agent_state_kind-agent_state_kind_label
                                                  st.kind))
                                            ∙ (text_field s10 s11 "payload_schema" st.payload_schema
                                                  r11 (refl, refl)
                                                  (rw (decode-percent_encode st.payload_schema))
                                                ∙ (text_field s11 s12 "payload_inline"
                                                      st.payload_inline r12 (refl, refl)
                                                      (rw (decode-percent_encode st.payload_inline))
                                                    ∙ (text_field s12 s13 "payload_ref"
                                                          st.payload_ref r13 (refl, refl)
                                                          (rw (
                                                            state_id "invalid payload_ref hash"
                                                            st.payload_ref v.payload_ref))
                                                        ∙ (read_dependencies s13
                                                            st.dependency_hashes r14
                                                            v.dependency_hashes
                                                            ∙ (number_field s14 s15 "timestamp_ns"
                                                            st.timestamp_ns r15 (refl, refl)
                                                            (rw (
                                                            parse_u64-to_decimal st.timestamp_ns
                                                            v.timestamp_ns))
                                                            ∙ (flag_field s15 st.boundary
                                                            ∙ ap
                                                            (λ i. ok (record st { state_id = i }))
                                                            (sym v.no_id)))))))))))))))))
