-- ===== src/AgentState/Valid.antt =====
-- What every agent state record that is read from the store satisfies.
use Prim.Native.String.{String}
use context_fs.Base.{
  ◌-◌, ◌^◌, ◌<◌, ◌≡◌, refl, true, false, List, [], ◌∷◌, ◌++◌, All, arith, Bool-cases, subst, leb,
  ltb, Option-cases, inl, inr,
}
use context_fs.Base.Order.{Bytes, bytes_ord, same}
use context_fs.Base.Result.{
  Result, ok, set_to, AllOk, returns, fails, AllOk-ok, AllOk-any, AllOk-set_to, AllOk->>=,
}
use context_fs.WorkingTree.{Hash, zero_hash}
use context_fs.Text.{hex_to_hash_strict}
use context_fs.Record.{decode, parse_u32, parse_u64, decimal_value, all_digits}
use context_fs.Record.Invariant.{read_record-AllOk}
use context_fs.AgentState.{
  AgentStateRecord, default_record, is_valid_state_id, assign_state_id_field,
  append_dependency_hash, Dispatch, dispatch, field_actions, assign_field, header,
  deserialize_agent_state_record,
}

-- Every reference is empty or a full id, no dependency is the zero id, and the integers fit.
pub record IsWellFormed (st : AgentStateRecord) : Type 0 where
  pub no_id : st.state_id ≡ []
  pub record_version : st.record_version < 2 ^ 32
  pub parent_state_id : is_valid_state_id st.parent_state_id ≡ true
  pub snapshot_base_state_id : is_valid_state_id st.snapshot_base_state_id ≡ true
  pub union_state_id : is_valid_state_id st.union_state_id ≡ true
  pub payload_ref : is_valid_state_id st.payload_ref ≡ true
  pub sequence : st.sequence < 2 ^ 64
  pub dependency_hashes : All (λ h. same h zero_hash ≡ false) st.dependency_hashes
  pub timestamp_ns : st.timestamp_ns < 2 ^ 64

parse_u64_bound : (s : Bytes) → AllOk (λ n. n < 2 ^ 64) (parse_u64 s)
unfolding parse_u64
parse_u64_bound [] = fails
parse_u64_bound (c ∷ s) = elim (Bool-cases (all_digits (c ∷ s))) [
  | inl e ↦ elim (Bool-cases (leb (2 ^ 64) (decimal_value 0 (c ∷ s)))) [
    | inl f ↦ rw (e, f) fails
    | inr f ↦ rw (e, f) (returns (ground (arith, f)))
  ]
  | inr e ↦ rw e fails
]

parse_u32_bound : (s : Bytes) → AllOk (λ n. n < 2 ^ 32) (parse_u32 s)
unfolding parse_u32
parse_u32_bound s = AllOk->>= _ (parse_u64_bound s) (λ n _. elim (Bool-cases (ltb (2 ^ 32 - 1) n)) [
  | inl e ↦ rw e fails
  | inr e ↦ rw e (returns (ground (arith, e)))
])

abbrev IsStateId : Bytes → Type 0
IsStateId s = is_valid_state_id s ≡ true

assign_state_id_field-IsStateId :
    (message : String) (value : Bytes) → AllOk IsStateId (assign_state_id_field message value)
unfolding assign_state_id_field
assign_state_id_field-IsStateId message value = AllOk->>= _ (AllOk-any (decode value)) (λ s _.
    elim (Bool-cases (is_valid_state_id s)) [ inl e ↦ rw e (returns e) | inr e ↦ rw e fails ])

All-snoc :
    (hs : List Hash) (h : Hash)
    → All (λ h. same h zero_hash ≡ false) hs
    → same h zero_hash ≡ false
    → All (λ h. same h zero_hash ≡ false) (hs ++ h ∷ [])
All-snoc [] h v e = (e, tt)
All-snoc (x ∷ hs) h v e = (v.0, All-snoc hs h v.1 e)

append_dependency_hash-IsWellFormed :
    (st : AgentStateRecord) (value : Bytes)
    → IsWellFormed st
    → AllOk IsWellFormed (append_dependency_hash st value)
unfolding append_dependency_hash
append_dependency_hash-IsWellFormed st value v = elim (Option-cases (hex_to_hash_strict value)) [
  | inl e ↦ rw (e, append_dependency_hash) fails
  | inr (h, e) ↦ elim (Bool-cases (same h zero_hash)) [
    | inl f ↦ rw (e, f, append_dependency_hash) fails
    | inr f ↦
        rw (e, f, append_dependency_hash)
          (returns (ground (arith, v, All-snoc st.dependency_hashes h v.dependency_hashes f)))
  ]
]

-- a value that is not constrained
free {ℓ} :
    {A : Type ℓ} (m : Result A) (f : A → AgentStateRecord)
    → ((a : A) → IsWellFormed (f a))
    → AllOk IsWellFormed (set_to m f)
free m f k = AllOk-set_to f (AllOk-any m) (λ a _. k a)

dispatch-AllOk :
    (P : AgentStateRecord → Type 0) (key : Bytes) (actions : Dispatch)
    (otherwise : Result AgentStateRecord)
    → All (λ (k, action). AllOk P action) actions
    → AllOk P otherwise
    → AllOk P (dispatch key actions otherwise)
unfolding dispatch
dispatch-AllOk P key [] otherwise v o = o
dispatch-AllOk P key ((k, action) ∷ rest) otherwise v o = elim (Bool-cases (same key k)) [
  | inl e ↦ rw e v.0
  | inr e ↦ rw e (dispatch-AllOk P key rest otherwise v.1 o)
]

assign_field-IsWellFormed :
    (st : AgentStateRecord) (key value : Bytes)
    → IsWellFormed st
    → AllOk IsWellFormed (assign_field st key value)
unfolding assign_field
assign_field-IsWellFormed st key value v =
    dispatch-AllOk IsWellFormed key (field_actions st value) (ok st)
      (
        AllOk-set_to _ (parse_u32_bound value) (λ a q. ground (arith, v, q)),
        (
          AllOk-set_to _ (assign_state_id_field-IsStateId _ value) (λ a q. ground (arith, v, q)),
          (
            AllOk-set_to _ (assign_state_id_field-IsStateId _ value) (λ a q. ground (arith, v, q)),
            (
              free _ _ (λ a. ground (arith, v)),
              (
                free _ _ (λ a. ground (arith, v)),
                (
                  AllOk-set_to _ (assign_state_id_field-IsStateId _ value)
                      (λ a q. ground (arith, v, q)),
                  (
                    free _ _ (λ a. ground (arith, v)),
                    (
                      free _ _ (λ a. ground (arith, v)),
                      (
                        AllOk-set_to _ (parse_u64_bound value) (λ a q. ground (arith, v, q)),
                        (
                          free _ _ (λ a. ground (arith, v)),
                          (
                            free _ _ (λ a. ground (arith, v)),
                            (
                              free _ _ (λ a. ground (arith, v)),
                              (
                                AllOk-set_to _ (assign_state_id_field-IsStateId _ value)
                                    (λ a q. ground (arith, v, q)),
                                (
                                  append_dependency_hash-IsWellFormed st value v,
                                  (
                                    AllOk-set_to _ (parse_u64_bound value)
                                        (λ a q. ground (arith, v, q)),
                                    (free _ _ (λ a. ground (arith, v)), tt),
                                  ),
                                ),
                              ),
                            ),
                          ),
                        ),
                      ),
                    ),
                  ),
                ),
              ),
            ),
          ),
        ),
      )
      (returns v)

-- Every body that is accepted, whoever wrote it, gives a record whose references are empty or full
-- ids, whose dependencies are not the zero id and whose integers fit their types.
pub deserialize_agent_state_record-IsWellFormed :
    (body : Bytes) (st : AgentStateRecord)
    → deserialize_agent_state_record body ≡ ok st
    → IsWellFormed st
unfolding deserialize_agent_state_record default_record
deserialize_agent_state_record-IsWellFormed body st e =
    let start : IsWellFormed default_record =
      unfold is_valid_state_id in
      record {
        no_id = refl;
        record_version = omega arith;
        parent_state_id = refl;
        snapshot_base_state_id = refl;
        union_state_id = refl;
        payload_ref = refl;
        sequence = omega arith;
        dependency_hashes = tt;
        timestamp_ns = omega arith;
      } in
    AllOk-ok (
      subst (AllOk IsWellFormed) e (
        read_record-AllOk assign_field IsWellFormed assign_field-IsWellFormed _ _ _ header
          default_record body start))
