-- ===== src/RuntimeState.antt =====
-- cas/runtime_state.h and runtime_state.cpp: the record of one state of a runtime.
pub mod Fields
pub mod RoundTrip
pub mod Stored
use Prim.Native.String.{String}
use context_fs.Base.{
  ℕ, zero, suc, ◌%◌, Bool, true, false, Option, none, some, List, [], ◌∷◌, ◌++◌, length, take, drop,
  ltb, ◌==◌, if◌then◌else◌,
}
use context_fs.Base.Order.{Bytes, bytes_ord, same}
use context_fs.Base.Result.{Result, ok, err, ◌>>=◌, set_to, codes}
use context_fs.WorkingTree.{Hash, zero_hash}
use context_fs.Text.{hash_to_hex, percent_encode, cons_byte}
use context_fs.Record.{decode, to_decimal, parse_u32, parse_u64, field, split_first, read_record}

pub data RestoreEligibility : Type 0 where
  live_runtime_restorable fs_only metadata_only : RestoreEligibility

unfoldable pub restore_eligibility_to_string : RestoreEligibility → Bytes
restore_eligibility_to_string live_runtime_restorable = codes "live_runtime_restorable"
restore_eligibility_to_string fs_only = codes "fs_only"
restore_eligibility_to_string metadata_only = codes "metadata_only"

unfoldable pub restore_eligibility_from_string : Bytes → Option RestoreEligibility
restore_eligibility_from_string text =
    if same text (codes "live_runtime_restorable")
    then some live_runtime_restorable
    else if same text (codes "fs_only")
    then some fs_only
    else if same text (codes "metadata_only")
    then some metadata_only
    else none

pub record ResourceWarning : Type 0 where
  pub kind : Bytes
  pub description : Bytes
  pub blocker : Bool

pub record UnionRuntimeState : Type 0 where
  pub record_version : ℕ
  pub union_state_id : Bytes
  pub parent_union_state_id : Bytes
  pub branch : Bytes
  pub fs_commit : Hash
  pub agent_state_id : Bytes
  pub runtime_id : Bytes
  pub runtime_generation : ℕ
  pub template_id : Bytes
  pub template_kind : Bytes
  pub boundary_kind : Bytes
  pub command_ref : Bytes
  pub resource_manifest_ref : Bytes
  pub timestamp_ns : ℕ
  pub warnings : List ResourceWarning

-- `UnionRuntimeState{}`
unfoldable pub default_state : UnionRuntimeState
default_state = record {
  record_version = 1;
  union_state_id = [];
  parent_union_state_id = [];
  branch = codes "main";
  fs_commit = zero_hash;
  agent_state_id = [];
  runtime_id = [];
  runtime_generation = 0;
  template_id = [];
  template_kind = codes "live_fork";
  boundary_kind = [];
  command_ref = [];
  resource_manifest_ref = [];
  timestamp_ns = 0;
  warnings = [];
}

abbrev pub bar : ℕ
bar = b'|'

unfoldable pub parse_flag : Bytes → Result Bool
parse_flag flag =
    if same flag (codes "1")
    then ok true
    else if same flag (codes "0")
    then ok false
    else err "warning blocker flag must be 0 or 1"

unfoldable pub parse_parts : Bytes → Bytes → Bytes → Result ResourceWarning
unfolding parse_flag
parse_parts kind_text flag description_text = do
  kind ← decode kind_text
  blocker ← parse_flag flag
  description ← decode description_text
  ok (record { kind = kind; description = description; blocker = blocker })

-- `value = encoded_kind | flag | encoded_description`
unfoldable pub parse_warning : Bytes → Result ResourceWarning
unfolding parse_parts
parse_warning value = elim (split_first bar value) [
  | none ↦ err "warning line missing field separators"
  | some (kind_text, rest) ↦ elim (split_first bar rest) [
    | none ↦ err "warning line missing description separator"
    | some (flag, description_text) ↦ parse_parts kind_text flag description_text
  ]
]

unfoldable pub assign_warning : UnionRuntimeState → Bytes → Result UnionRuntimeState
assign_warning state value =
    set_to (parse_warning value) (λ w. record state { warnings = state.warnings ++ w ∷ [] })

-- the part of a text that `c_str()` shows, up to a zero byte
unfoldable pub c_string : Bytes → Bytes
c_string [] = []
c_string (c ∷ s) = let rest = c_string s in if c == 0 then [] else c ∷ rest

-- `sscanf` of the library with `%2x` is the parameter `scan`, a failure being `none`.
module _ (scan : Bytes → Option ℕ) where
  abbrev pub low_byte : Option ℕ → Option ℕ
  low_byte none = none
  low_byte (some val) = some (val % 256)

  unfoldable pub scan_bytes : ℕ → Bytes → Option Hash
  scan_bytes zero s = some []
  scan_bytes (suc n) s = cons_byte (low_byte (scan s)) (scan_bytes n (drop 2 s))

  unfoldable pub hex_to_hash : Bytes → Option Hash
  unfolding c_string scan_bytes
  hex_to_hash hex =
      let text = c_string hex in if ltb (length text) 64 then none else scan_bytes 32 text

  -- an unknown key is passed over
  unfoldable pub assign_field : UnionRuntimeState → Bytes → Bytes → Result UnionRuntimeState
  unfolding assign_warning set_to
  assign_field state key value =
      if same key (codes "record_version")
      then set_to (parse_u32 value) (λ v. record state { record_version = v })
      else if same key (codes "parent_union_state_id")
      then set_to (decode value) (λ v. record state { parent_union_state_id = v })
      else if same key (codes "branch")
      then set_to (decode value) (λ v. record state { branch = v })
      else if same key (codes "fs_commit")
      then elim (hex_to_hash value) [
        | none ↦ err "invalid fs_commit hash"
        | some h ↦ ok (record state { fs_commit = h })
      ]
      else if same key (codes "agent_state_id")
      then set_to (decode value) (λ v. record state { agent_state_id = v })
      else if same key (codes "runtime_id")
      then set_to (decode value) (λ v. record state { runtime_id = v })
      else if same key (codes "runtime_generation")
      then set_to (parse_u64 value) (λ v. record state { runtime_generation = v })
      else if same key (codes "template_id")
      then set_to (decode value) (λ v. record state { template_id = v })
      else if same key (codes "template_kind")
      then set_to (decode value) (λ v. record state { template_kind = v })
      else if same key (codes "boundary_kind")
      then set_to (decode value) (λ v. record state { boundary_kind = v })
      else if same key (codes "command_ref")
      then set_to (decode value) (λ v. record state { command_ref = v })
      else if same key (codes "resource_manifest_ref")
      then set_to (decode value) (λ v. record state { resource_manifest_ref = v })
      else if same key (codes "timestamp_ns")
      then set_to (parse_u64 value) (λ v. record state { timestamp_ns = v })
      else if same key (codes "warning")
      then assign_warning state value
      else ok state

  abbrev pub header : Bytes
  header = codes "agentvfs.union_runtime_state.v1\n"

  -- On a failure the reader leaves a part of the fields in `out`, which no caller looks at.
  unfoldable pub deserialize_union_runtime_state : Bytes → Result UnionRuntimeState
  unfolding assign_field
  deserialize_union_runtime_state =
      read_record assign_field "empty union runtime state body"
        "union runtime state body shorter than header"
        "missing or incorrect union runtime state header" header default_state

unfoldable pub warning_value : ResourceWarning → Bytes
warning_value w =
    percent_encode w.kind
    ++ bar ∷ (codes (if w.blocker then "1" else "0") ++ bar ∷ percent_encode w.description)

unfoldable pub warning_lines : List ResourceWarning → Bytes
warning_lines [] = []
warning_lines (w ∷ ws) = field "warning" (warning_value w) ++ warning_lines ws

unfoldable pub serialize_union_runtime_state : UnionRuntimeState → Bytes
unfolding default_state
serialize_union_runtime_state st =
    codes "agentvfs.union_runtime_state.v1\n"
    ++ (field "record_version" (to_decimal st.record_version)
        ++ (field "parent_union_state_id" (percent_encode st.parent_union_state_id)
            ++ (field "branch" (percent_encode st.branch)
                ++ (field "fs_commit" (hash_to_hex st.fs_commit)
                    ++ (field "agent_state_id" (percent_encode st.agent_state_id)
                        ++ (field "runtime_id" (percent_encode st.runtime_id)
                            ++ (field "runtime_generation" (to_decimal st.runtime_generation)
                                ++ (field "template_id" (percent_encode st.template_id)
                                    ++ (field "template_kind" (percent_encode st.template_kind)
                                        ++ (field "boundary_kind" (percent_encode st.boundary_kind)
                                            ++ (field "command_ref" (percent_encode st.command_ref)
                                                ++ (field "resource_manifest_ref"
                                                      (percent_encode st.resource_manifest_ref)
                                                    ++ (field "timestamp_ns"
                                                          (to_decimal st.timestamp_ns)
                                                        ++ warning_lines st.warnings)))))))))))))
