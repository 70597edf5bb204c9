-- ===== src/RuntimeState/RoundTrip.antt =====
-- A runtime state record survives writing and reading.
use Prim.Native.String.{String}
use context_fs.Base.{
  ℕ, ◌^◌, ◌<◌, ◌≡◌, refl, ap, ◌∙◌, sym, Option, List, [], ◌∷◌, ◌++◌, append-nil, append_assoc,
}
use context_fs.Base.Order.{Bytes, bytes_ord}
use context_fs.Base.Result.{ok, codes, set_to}
use context_fs.WorkingTree.{Hash}
use context_fs.Text.{hash_to_hex, percent_encode}
use context_fs.Text.Hex.{IsHash}
use context_fs.Record.{to_decimal, field, split_lines, read_lines}
use context_fs.Record.Lines.{IsKey, read_field, read_record-append}
use context_fs.Record.Decimal.{parse_u32-to_decimal, parse_u64-to_decimal, LacksChar-to_decimal}
use context_fs.RuntimeState.{
  ResourceWarning, UnionRuntimeState, default_state, assign_warning, assign_field, warning_value,
  warning_lines, serialize_union_runtime_state, deserialize_union_runtime_state,
}
use context_fs.Record.Values.{
  decode-percent_encode, LacksChar-percent_encode, LacksChar-hash_to_hex,
}
use context_fs.RuntimeState.Fields.{
  ScansDigits, hex_to_hash-hash_to_hex, LacksChar-warning_value, parse_warning-warning_value,
}

-- The integers fit their types, the commit is an id, and the record has no id of its own, which is
-- not written.
pub record IsState (st : UnionRuntimeState) : Type 0 where
  pub record_version : st.record_version < 2 ^ 32
  pub no_id : st.union_state_id ≡ []
  pub fs_commit : IsHash st.fs_commit
  pub runtime_generation : st.runtime_generation < 2 ^ 64
  pub timestamp_ns : st.timestamp_ns < 2 ^ 64

module _ (scan : Bytes → Option ℕ) (scans : ScansDigits scan) where
  -- a field of each of the four kinds of value
  text_field :
      (st next : UnionRuntimeState) (key : String) (text rest : Bytes)
      → IsKey key
      → assign_field scan st (codes key) (percent_encode text) ≡ ok next
      → read_lines (assign_field scan) st (split_lines (field key (percent_encode text) ++ rest))
        ≡ read_lines (assign_field scan) next (split_lines rest)
  text_field st next key text rest k e =
      read_field (assign_field scan) st next key (percent_encode text) rest k
        (LacksChar-percent_encode text) e

  number_field :
      (st next : UnionRuntimeState) (key : String) (n : ℕ) (rest : Bytes)
      → IsKey key
      → assign_field scan st (codes key) (to_decimal n) ≡ ok next
      → read_lines (assign_field scan) st (split_lines (field key (to_decimal n) ++ rest))
        ≡ read_lines (assign_field scan) next (split_lines rest)
  number_field st next key n rest k e =
      read_field (assign_field scan) st next key (to_decimal n) rest k (LacksChar-to_decimal n) e

  commit_field :
      (st next : UnionRuntimeState) (h : Hash) (rest : Bytes)
      → IsHash h
      → assign_field scan st (codes "fs_commit") (hash_to_hex h) ≡ ok next
      → read_lines (assign_field scan) st (split_lines (field "fs_commit" (hash_to_hex h) ++ rest))
        ≡ read_lines (assign_field scan) next (split_lines rest)
  commit_field st next h rest v e =
      read_field (assign_field scan) st next "fs_commit" (hash_to_hex h) rest (refl, refl)
        (LacksChar-hash_to_hex h v.bytes) e

  read_warnings :
      (st : UnionRuntimeState) (ws : List ResourceWarning)
      → read_lines (assign_field scan) st (split_lines (warning_lines ws))
        ≡ ok (record st { warnings = st.warnings ++ ws })
  unfolding warning_lines assign_field set_to
  read_warnings st [] =
      unfold read_lines split_lines in
      ap (λ ws. ok (record st { warnings = ws })) (sym (append-nil st.warnings))
  read_warnings st (w ∷ ws) =
      let next = record st { warnings = st.warnings ++ w ∷ [] } in
      read_field (assign_field scan) st next "warning" (warning_value w) (warning_lines ws)
        (refl, refl) (LacksChar-warning_value w)
        (rw (parse_warning-warning_value w, assign_warning))
      ∙ (read_warnings next ws
          ∙ ap (λ x. ok (record st { warnings = x })) (append_assoc st.warnings (w ∷ []) ws))

  -- A record whose fields fit their types survives writing and reading, whatever texts it holds.
  pub deserialize-serialize_union_runtime_state :
      (st : UnionRuntimeState)
      → IsState st
      → deserialize_union_runtime_state scan (serialize_union_runtime_state st) ≡ ok st
  unfolding deserialize_union_runtime_state serialize_union_runtime_state assign_field default_state
      set_to
  deserialize-serialize_union_runtime_state st v =
      let s0 = default_state in
      let s1 = record s0 { record_version = st.record_version } in
      let s2 = record s1 { parent_union_state_id = st.parent_union_state_id } in
      let s3 = record s2 { branch = st.branch } in
      let s4 = record s3 { fs_commit = st.fs_commit } in
      let s5 = record s4 { agent_state_id = st.agent_state_id } in
      let s6 = record s5 { runtime_id = st.runtime_id } in
      let s7 = record s6 { runtime_generation = st.runtime_generation } in
      let s8 = record s7 { template_id = st.template_id } in
      let s9 = record s8 { template_kind = st.template_kind } in
      let s10 = record s9 { boundary_kind = st.boundary_kind } in
      let s11 = record s10 { command_ref = st.command_ref } in
      let s12 = record s11 { resource_manifest_ref = st.resource_manifest_ref } in
      let s13 = record s12 { timestamp_ns = st.timestamp_ns } in
      let r13 = warning_lines st.warnings in
      let r12 = field "timestamp_ns" (to_decimal st.timestamp_ns) ++ r13 in
      let r11 = field "resource_manifest_ref" (percent_encode st.resource_manifest_ref) ++ r12 in
      let r10 = field "command_ref" (percent_encode st.command_ref) ++ r11 in
      let r9 = field "boundary_kind" (percent_encode st.boundary_kind) ++ r10 in
      let r8 = field "template_kind" (percent_encode st.template_kind) ++ r9 in
      let r7 = field "template_id" (percent_encode st.template_id) ++ r8 in
      let r6 = field "runtime_generation" (to_decimal st.runtime_generation) ++ r7 in
      let r5 = field "runtime_id" (percent_encode st.runtime_id) ++ r6 in
      let r4 = field "agent_state_id" (percent_encode st.agent_state_id) ++ r5 in
      let r3 = field "fs_commit" (hash_to_hex st.fs_commit) ++ r4 in
      let r2 = field "branch" (percent_encode st.branch) ++ r3 in
      let r1 = field "parent_union_state_id" (percent_encode st.parent_union_state_id) ++ r2 in
      let r0 = field "record_version" (to_decimal st.record_version) ++ r1 in
      read_record-append (assign_field scan) _ _ _ _ _ s0 r0
      ∙ (number_field s0 s1 "record_version" st.record_version r1 (refl, refl)
            (rw (parse_u32-to_decimal st.record_version v.record_version))
          ∙ (text_field s1 s2 "parent_union_state_id" st.parent_union_state_id r2 (refl, refl)
                (rw (decode-percent_encode st.parent_union_state_id))
              ∙ (text_field s2 s3 "branch" st.branch r3 (refl, refl)
                    (rw (decode-percent_encode st.branch))
                  ∙ (commit_field s3 s4 st.fs_commit r4 v.fs_commit
                        (rw (hex_to_hash-hash_to_hex scan scans st.fs_commit v.fs_commit))
                      ∙ (text_field s4 s5 "agent_state_id" st.agent_state_id r5 (refl, refl)
                            (rw (decode-percent_encode st.agent_state_id))
                          ∙ (text_field s5 s6 "runtime_id" st.runtime_id r6 (refl, refl)
                                (rw (decode-percent_encode st.runtime_id))
                              ∙ (number_field s6 s7 "runtime_generation" st.runtime_generation r7
                                    (refl, refl)
                                    (rw (
                                      parse_u64-to_decimal st.runtime_generation
                                        v.runtime_generation))
                                  ∙ (text_field s7 s8 "template_id" st.template_id r8 (refl, refl)
                                        (rw (decode-percent_encode st.template_id))
                                      ∙ (text_field s8 s9 "template_kind" st.template_kind r9
                                            (refl, refl)
                                            (rw (decode-percent_encode st.template_kind))
                                          ∙ (text_field s9 s10 "boundary_kind" st.boundary_kind r10
                                                (refl, refl)
                                                (rw (decode-percent_encode st.boundary_kind))
                                              ∙ (text_field s10 s11 "command_ref" st.command_ref r11
                                                    (refl, refl)
                                                    (rw (decode-percent_encode st.command_ref))
                                                  ∙ (text_field s11 s12 "resource_manifest_ref"
                                                        st.resource_manifest_ref r12 (refl, refl)
                                                        (rw (
                                                          decode-percent_encode
                                                            st.resource_manifest_ref))
                                                      ∙ (number_field s12 s13 "timestamp_ns"
                                                            st.timestamp_ns r13 (refl, refl)
                                                            (rw (
                                                            parse_u64-to_decimal st.timestamp_ns
                                                            v.timestamp_ns))
                                                          ∙ (read_warnings s13 st.warnings
                                                            ∙ ap
                                                            (λ i.
                                                            ok (record st { union_state_id = i }))
                                                            (sym v.no_id)))))))))))))))
