-- ===== src/Tests/Stored.antt =====
-- The records of runtime states and agent states in an empty object store.
use context_fs.Base.{◌≡◌, ◌≢◌, refl, Bool, true, false, none, [], arith, ◌^◌, ◌<◌, length}
use context_fs.Base.Order.{bytes_ord}
use context_fs.Base.Result.{set_to}
use context_fs.WorkingTree.{zero_hash}
use context_fs.Codec.{le_bytes}
use context_fs.Text.{
  percent_encode, percent_decode, hash_to_hex, hex_digit, all_hex, hex_to_hash_strict,
}
use context_fs.Record.{to_decimal, decode, parse_u32, read_record, split_lines, split_first}
use context_fs.OrdMap.{find}
use context_fs.ObjectStore.{ObjectStore, no_error, write_object, write_blob}
use context_fs.ObjectStore.Pending.{fsync_pending}
use context_fs.ObjectStore.Records.{read_ok, WriteResult}
use context_fs.ObjectStore.Integrity.{IsIntact}
use context_fs.RuntimeState.{serialize_union_runtime_state, warning_lines, warning_value}
use context_fs.RuntimeState.Stored.{
  write_union_runtime_state, read_union_runtime_state, read-write_union_runtime_state,
}
use context_fs.AgentState.{
  AgentStateRecord, serialize_agent_state_record, deserialize_agent_state_record,
  agent_state_kind_label, dependency_lines,
}
use context_fs.AgentState.Stored.{persisted, write_agent_state_record, read_agent_state_record}
use context_fs.AgentState.Stored.Refused.{write_agent_state_record_fails}
use context_fs.AgentState.Stored.Reading.{read-write_agent_state_record}
use context_fs.Tests.Stores.{
  digest, digest-IsUnique, not_zero, all_well, same_store, same_store-keeps,
}
use context_fs.Tests.Records.{
  scan_two, scan_two-ScansDigits, forked, forked-IsState, called, called-IsRecord,
}

abbrev empty_store : ObjectStore
empty_store = record { objects = []; pending = []; last_error = no_error; size_cache = [] }

empty_store-IsIntact : IsIntact digest empty_store
unfolding IsIntact
empty_store-IsIntact = tt

program : Unit {0}
unfolding write_union_runtime_state write_agent_state_record write_object write_blob le_bytes
    serialize_union_runtime_state serialize_agent_state_record percent_encode hash_to_hex to_decimal
    warning_lines warning_value find agent_state_kind_label dependency_lines
    deserialize_agent_state_record read_record split_lines split_first set_to parse_u32 decode
    percent_decode hex_digit hex_to_hash_strict all_hex fsync_pending
program = tt

forked_size : length (serialize_union_runtime_state forked) < 2 ^ 64
unfolding program
forked_size = omega arith

forked_written :
    (write_union_runtime_state digest forked all_well same_store empty_store).hash ≢ zero_hash
unfolding program
forked_written = not_zero _ _ refl

read-write_union_runtime_state_example :
    read_union_runtime_state scan_two
      (write_union_runtime_state digest forked all_well same_store empty_store).hash
      true
      (write_union_runtime_state digest forked all_well same_store empty_store).store
    ≡ read_ok (write_union_runtime_state digest forked all_well same_store empty_store).state
read-write_union_runtime_state_example =
    read-write_union_runtime_state digest scan_two forked all_well same_store empty_store
      scan_two-ScansDigits forked-IsState forked_size (digest-IsUnique _) empty_store-IsIntact
      same_store-keeps forked_written

-- the write of `called`, whose barriers both succeed
abbrev write_called : Bool → WriteResult AgentStateRecord
write_called synced =
    write_agent_state_record digest all_well same_store called called.dependency_hashes true synced
      true empty_store

called_size :
    length (serialize_agent_state_record (persisted called called.dependency_hashes)) < 2 ^ 64
unfolding program
called_size = omega arith

called_written : (write_called true).hash ≢ zero_hash
unfolding program
called_written = not_zero _ _ refl

read-write_agent_state_record_example :
    read_agent_state_record (write_called true).hash true (write_called true).store
    ≡ read_ok (write_called true).state
read-write_agent_state_record_example =
    read-write_agent_state_record digest all_well same_store called called.dependency_hashes true
      true true empty_store called-IsRecord called_size (digest-IsUnique _) empty_store-IsIntact
      same_store-keeps called_written

called_refused : (write_called false).hash ≡ zero_hash
unfolding program
called_refused = refl

write_agent_state_record_fails_example :
    ((write_called false).state ≡ called) × ((write_called false).error ≢ none)
write_agent_state_record_fails_example =
    write_agent_state_record_fails digest all_well same_store called called.dependency_hashes true
      false true empty_store called_refused
