-- ===== src/Tests/Records.antt =====
-- The records of runtime states and agent states at concrete records.
use context_fs.Base.{
  ◌≡◌, ◌↔◌, ◌<◌, refl, true, Option, none, some, [], ◌∷◌, replicate, arith, ℕ, zero, suc, ◌*◌, ◌+◌,
  All,
}
use context_fs.Base.Order.{Bytes}
use context_fs.Base.Result.{ok, codes}
use context_fs.Text.{hex_value}
use context_fs.Text.Hex.{IsHash}
use context_fs.RuntimeState.{
  UnionRuntimeState, serialize_union_runtime_state, deserialize_union_runtime_state,
}
use context_fs.RuntimeState.Fields.{ScansDigits}
use context_fs.RuntimeState.RoundTrip.{IsState, deserialize-serialize_union_runtime_state}
use context_fs.AgentState.{
  AgentStateRecord, tool_call, fs_link, is_valid_state_id, parse_agent_state_kind,
  agent_state_kind_label, serialize_agent_state_record, deserialize_agent_state_record,
}
use context_fs.AgentState.Kinds.{parse_agent_state_kind_lem}
use context_fs.AgentState.RoundTrip.{IsRecord, deserialize-serialize_agent_state_record}
use context_fs.AgentState.Valid.{IsWellFormed, deserialize_agent_state_record-IsWellFormed}

-- a scanner of two digits
abbrev pair : Option ℕ → Option ℕ → Option ℕ
pair none lo = none
pair (some hi) none = some hi
pair (some hi) (some lo) = some (16 * hi + lo)

abbrev pub scan_two : Bytes → Option ℕ
scan_two [] = none
scan_two (a ∷ []) = hex_value a
scan_two (a ∷ b ∷ rest) = pair (hex_value a) (hex_value b)

pub scan_two-ScansDigits : ScansDigits scan_two
unfolding ScansDigits
scan_two-ScansDigits a b hi lo rest e f = rw (e, f) refl

All-replicate : (n b : ℕ) → b < 256 → All (λ c. c < 256) (replicate n b)
All-replicate zero b l = tt
All-replicate (suc n) b l = (l, All-replicate n b l)

-- an id of one repeated byte
repeated-IsHash : (b : ℕ) → b < 256 → IsHash (replicate 32 b)
repeated-IsHash b l = record { size = refl; bytes = All-replicate 32 b l }

abbrev pub forked : UnionRuntimeState
forked = record {
  record_version = 1;
  union_state_id = [];
  parent_union_state_id = codes "a=b";
  branch = codes "line\nbreak";
  fs_commit = replicate 32 17;
  agent_state_id = [];
  runtime_id = codes "r|1";
  runtime_generation = 4096;
  template_id = codes "100%";
  template_kind = codes "live_fork";
  boundary_kind = [];
  command_ref = [];
  resource_manifest_ref = [];
  timestamp_ns = 1700000000;
  warnings =
      record { kind = codes "socket"; description = codes "left | open"; blocker = true } ∷ [];
}

pub forked-IsState : IsState forked
forked-IsState = record {
  record_version = omega arith;
  no_id = refl;
  fs_commit = repeated-IsHash 17 (omega arith);
  runtime_generation = omega arith;
  timestamp_ns = omega arith;
}

deserialize-serialize_union_runtime_state_example :
    deserialize_union_runtime_state scan_two (serialize_union_runtime_state forked) ≡ ok forked
deserialize-serialize_union_runtime_state_example =
    deserialize-serialize_union_runtime_state scan_two scan_two-ScansDigits forked forked-IsState

abbrev pub called : AgentStateRecord
called = record {
  record_version = 1;
  state_id = [];
  parent_state_id = [];
  snapshot_base_state_id = [];
  branch = codes "main";
  fs_commit = replicate 32 17;
  union_state_id = [];
  runtime_id = codes "r|1";
  agent_id = codes "a=b";
  sequence = 65536;
  kind = tool_call;
  payload_schema = codes "text\n";
  payload_inline = codes "100%";
  payload_ref = [];
  dependency_hashes = replicate 32 17 ∷ replicate 32 18 ∷ [];
  timestamp_ns = 1700000000;
  boundary = true;
}

pub called-IsRecord : IsRecord called
unfolding is_valid_state_id
called-IsRecord = record {
  record_version = omega arith;
  no_id = refl;
  parent_state_id = refl;
  snapshot_base_state_id = refl;
  fs_commit = repeated-IsHash 17 (omega arith);
  union_state_id = refl;
  sequence = omega arith;
  payload_ref = refl;
  dependency_hashes = (
    record { is_hash = repeated-IsHash 17 (omega arith); nonzero = refl },
    (record { is_hash = repeated-IsHash 18 (omega arith); nonzero = refl }, tt),
  );
  timestamp_ns = omega arith;
}

deserialize-serialize_agent_state_record_example :
    deserialize_agent_state_record (serialize_agent_state_record called) ≡ ok called
deserialize-serialize_agent_state_record_example =
    deserialize-serialize_agent_state_record called called-IsRecord

parse_agent_state_kind_example :
    (parse_agent_state_kind (codes "fs_link") ≡ some fs_link)
    ↔ (codes "fs_link" ≡ agent_state_kind_label fs_link)
parse_agent_state_kind_example = parse_agent_state_kind_lem (codes "fs_link") fs_link

deserialize_agent_state_record_example : IsWellFormed called
deserialize_agent_state_record_example =
    deserialize_agent_state_record-IsWellFormed (serialize_agent_state_record called) called
      deserialize-serialize_agent_state_record_example
