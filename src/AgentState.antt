-- ===== src/AgentState.antt =====
-- cas/agent_state.h and agent_state.cpp: the record of one state of an agent.
pub mod Kinds
pub mod RoundTrip
pub mod Valid
pub mod Stored
use Prim.Native.String.{String}
use context_fs.Base.{
  ℕ, Bool, true, false, Option, none, some, List, [], ◌∷◌, ◌++◌, ◌==◌, ◌||◌, if◌then◌else◌,
}
use context_fs.Base.Order.{Bytes, bytes_ord, same}
use context_fs.Base.Result.{Result, ok, err, ◌>>=◌, set_to, codes}
use context_fs.WorkingTree.{Hash, zero_hash}
use context_fs.Text.{hash_to_hex, percent_encode, is_hex_hash, hex_to_hash_strict}
use context_fs.Record.{decode, to_decimal, parse_u32, parse_u64, field, read_record}

pub data AgentStateKind : Type 0 where
  session execution tool_call runtime_resource : AgentStateKind
  external_handle fs_link runtime_snapshot : AgentStateKind

pub record AgentStateRecord : Type 0 where
  pub record_version : ℕ
  pub state_id : Bytes
  pub parent_state_id : Bytes
  pub snapshot_base_state_id : Bytes
  pub branch : Bytes
  pub fs_commit : Hash
  pub union_state_id : Bytes
  pub runtime_id : Bytes
  pub agent_id : Bytes
  pub sequence : ℕ
  pub kind : AgentStateKind
  pub payload_schema : Bytes
  pub payload_inline : Bytes
  pub payload_ref : Bytes
  pub dependency_hashes : List Hash
  pub timestamp_ns : ℕ
  pub boundary : Bool

-- `AgentStateRecord{}`
unfoldable pub default_record : AgentStateRecord
default_record = record {
  record_version = 1;
  state_id = [];
  parent_state_id = [];
  snapshot_base_state_id = [];
  branch = codes "main";
  fs_commit = zero_hash;
  union_state_id = [];
  runtime_id = [];
  agent_id = [];
  sequence = 0;
  kind = session;
  payload_schema = [];
  payload_inline = [];
  payload_ref = [];
  dependency_hashes = [];
  timestamp_ns = 0;
  boundary = false;
}

unfoldable pub parse_agent_state_kind : Bytes → Option AgentStateKind
parse_agent_state_kind text =
    if same text (codes "session")
    then some session
    else if same text (codes "execution")
    then some execution
    else if same text (codes "tool_call")
    then some tool_call
    else if same text (codes "runtime_resource")
    then some runtime_resource
    else if same text (codes "external_handle")
    then some external_handle
    else if same text (codes "fs_link")
    then some fs_link
    else if same text (codes "runtime_snapshot")
    then some runtime_snapshot
    else none

unfoldable pub agent_state_kind_label : AgentStateKind → Bytes
agent_state_kind_label session = codes "session"
agent_state_kind_label execution = codes "execution"
agent_state_kind_label tool_call = codes "tool_call"
agent_state_kind_label runtime_resource = codes "runtime_resource"
agent_state_kind_label external_handle = codes "external_handle"
agent_state_kind_label fs_link = codes "fs_link"
agent_state_kind_label runtime_snapshot = codes "runtime_snapshot"

abbrev pub is_nil : Bytes → Bool
is_nil [] = true
is_nil (_ ∷ _) = false

unfoldable pub is_valid_state_id : Bytes → Bool
is_valid_state_id s = if is_nil s then true else is_hex_hash s

-- the message names the field
unfoldable pub assign_state_id_field : String → Bytes → Result Bytes
unfolding is_valid_state_id
assign_state_id_field message value =
    decode value >>= λ decoded. if is_valid_state_id decoded then ok decoded else err message

unfoldable pub append_dependency_hash : AgentStateRecord → Bytes → Result AgentStateRecord
append_dependency_hash state value = elim (hex_to_hash_strict value) [
  | none ↦ err "invalid dependency_hash"
  | some dependency ↦
      if same dependency zero_hash
      then err "invalid dependency_hash"
      else ok (record state { dependency_hashes = state.dependency_hashes ++ dependency ∷ [] })
]

abbrev pub require_some {ℓ} : {A : Type ℓ} → String → Option A → Result A
require_some message none = err message
require_some message (some a) = ok a

unfoldable pub parse_boundary : Bytes → Result Bool
parse_boundary value =
    if same value (codes "1")
    then ok true
    else if same value (codes "0")
    then ok false
    else err "boundary flag must be 0 or 1"

-- The chain of tests `if (key == ...) return ...;`, in the order of the source: each key with what it
-- returns.
abbrev pub Dispatch : Type 0
Dispatch = List (Bytes × Result AgentStateRecord)

unfoldable pub dispatch : Bytes → Dispatch → Result AgentStateRecord → Result AgentStateRecord
dispatch key [] otherwise = otherwise
dispatch key ((k, action) ∷ rest) otherwise =
    if same key k then action else dispatch key rest otherwise

abbrev pub field_actions : AgentStateRecord → Bytes → Dispatch
field_actions state value =
    (codes "record_version", set_to (parse_u32 value) (λ v. record state { record_version = v }))
    ∷ (
      codes "parent_state_id",
      set_to (assign_state_id_field "invalid parent_state_id hash" value)
          (λ v. record state { parent_state_id = v }),
    )
    ∷ (
      codes "snapshot_base_state_id",
      set_to (assign_state_id_field "invalid snapshot_base_state_id hash" value)
          (λ v. record state { snapshot_base_state_id = v }),
    )
    ∷ (codes "branch", set_to (decode value) (λ v. record state { branch = v }))
    ∷ (
      codes "fs_commit",
      set_to (require_some "invalid fs_commit hash" (hex_to_hash_strict value))
          (λ v. record state { fs_commit = v }),
    )
    ∷ (
      codes "union_state_id",
      set_to (assign_state_id_field "invalid union_state_id hash" value)
          (λ v. record state { union_state_id = v }),
    )
    ∷ (codes "runtime_id", set_to (decode value) (λ v. record state { runtime_id = v }))
    ∷ (codes "agent_id", set_to (decode value) (λ v. record state { agent_id = v }))
    ∷ (codes "sequence", set_to (parse_u64 value) (λ v. record state { sequence = v }))
    ∷ (
      codes "kind",
      set_to (require_some "invalid agent state kind" (parse_agent_state_kind value))
          (λ v. record state { kind = v }),
    )
    ∷ (codes "payload_schema", set_to (decode value) (λ v. record state { payload_schema = v }))
    ∷ (codes "payload_inline", set_to (decode value) (λ v. record state { payload_inline = v }))
    ∷ (
      codes "payload_ref",
      set_to (assign_state_id_field "invalid payload_ref hash" value)
          (λ v. record state { payload_ref = v }),
    )
    ∷ (codes "dependency_hash", append_dependency_hash state value)
    ∷ (codes "timestamp_ns", set_to (parse_u64 value) (λ v. record state { timestamp_ns = v }))
    ∷ (codes "boundary", set_to (parse_boundary value) (λ v. record state { boundary = v }))
    ∷ []

-- an unknown key is passed over
unfoldable pub assign_field : AgentStateRecord → Bytes → Bytes → Result AgentStateRecord
unfolding dispatch parse_agent_state_kind assign_state_id_field append_dependency_hash
    parse_boundary
assign_field state key value = dispatch key (field_actions state value) (ok state)

abbrev pub header : Bytes
header = codes "agentvfs.agent_state.v1\n"

-- On a failure the reader leaves a part of the fields in `out`, which no caller looks at.
unfoldable pub deserialize_agent_state_record : Bytes → Result AgentStateRecord
unfolding assign_field
deserialize_agent_state_record =
    read_record assign_field "empty agent state body" "agent state body shorter than header"
      "missing or incorrect agent state header" header default_record

unfoldable pub dependency_lines : List Hash → Bytes
dependency_lines [] = []
dependency_lines (h ∷ hs) = field "dependency_hash" (hash_to_hex h) ++ dependency_lines hs

unfoldable pub serialize_agent_state_record : AgentStateRecord → Bytes
unfolding agent_state_kind_label dependency_lines
serialize_agent_state_record st =
    codes "agentvfs.agent_state.v1\n"
    ++ (field "record_version" (to_decimal st.record_version)
        ++ (field "parent_state_id" (percent_encode st.parent_state_id)
            ++ (field "snapshot_base_state_id" (percent_encode st.snapshot_base_state_id)
                ++ (field "branch" (percent_encode st.branch)
                    ++ (field "fs_commit" (hash_to_hex st.fs_commit)
                        ++ (field "union_state_id" (percent_encode st.union_state_id)
                            ++ (field "runtime_id" (percent_encode st.runtime_id)
                                ++ (field "agent_id" (percent_encode st.agent_id)
                                    ++ (field "sequence" (to_decimal st.sequence)
                                        ++ (field "kind" (agent_state_kind_label st.kind)
                                            ++ (field "payload_schema"
                                                  (percent_encode st.payload_schema)
                                                ++ (field "payload_inline"
                                                      (percent_encode st.payload_inline)
                                                    ++ (field "payload_ref"
                                                          (percent_encode st.payload_ref)
                                                        ++ (dependency_lines st.dependency_hashes
                                                            ++ (field "timestamp_ns"
                                                            (to_decimal st.timestamp_ns)
                                                            ++ field "boundary" (
                                                            codes (
                                                            if st.boundary
                                                            then "1"
                                                            else "0")))))))))))))))))
