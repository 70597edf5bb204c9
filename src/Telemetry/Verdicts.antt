-- ===== src/Telemetry/Verdicts.antt =====
-- The verdict of an event in cas/telemetry_registry.cpp.
use context_fs.Base.{
  ◌≡◌, refl, sym, ◌∙◌, ap, subst, ℕ, ◌≤◌, true, Option, none, some, List, [], ◌∷◌, ◌++◌, All,
  append-nil, append_assoc, Bool-cases, Option-cases, inl, inr, arith, ltb, ◌⊎◌,
}
use context_fs.Telemetry.{
  Verdict, allow, soft_watch, deny, rank, TelemetryEvent, TelemetryRegistry, max_verdict,
  merge_from, merge_verdicts, run_processors, active_processor_snapshot, is_live_source, state_for,
  on_event,
}

-- the events that leave the processors, one after another
pub data Chain (process : ℕ → TelemetryEvent → Option TelemetryEvent)
    : List ℕ → TelemetryEvent → List Verdict → TelemetryEvent → Type 0 where
  finished : {event : TelemetryEvent} → Chain process [] event [] event
  skipped :
      {b : ℕ} {bs : List ℕ} {event last : TelemetryEvent} {vs : List Verdict}
      → process b event ≡ none
      → Chain process bs event vs last
      → Chain process (b ∷ bs) event vs last
  processed :
      {b : ℕ} {bs : List ℕ} {event next last : TelemetryEvent} {vs : List Verdict}
      → process b event ≡ some next
      → Chain process bs next vs last
      → Chain process (b ∷ bs) event (next.verdict ∷ vs) last

abbrev pub IsAtMost : Verdict → Verdict → Type 0
IsAtMost w v = rank v ≤ rank w

abbrev pub IsOneOf : Verdict → List Verdict → Type 0
IsOneOf v [] = ⊥
IsOneOf v (w ∷ ws) = (v ≡ w) ⊎ IsOneOf v ws

allow-max_verdict : (v : Verdict) → max_verdict allow v ≡ v
allow-max_verdict allow = refl
allow-max_verdict soft_watch = refl
allow-max_verdict deny = refl

max_verdict_bounds :
    (m v : Verdict)
    → (rank m ≤ rank (max_verdict m v))
      × (rank v ≤ rank (max_verdict m v))
      × ((max_verdict m v ≡ m) ⊎ (max_verdict m v ≡ v))
max_verdict_bounds m v = elim (Bool-cases (ltb (rank m) (rank v))) [
  | inl e ↦ rw e (ground (arith, e), omega arith, inr refl)
  | inr e ↦ rw e (omega arith, ground (arith, e), inl refl)
]

All-IsAtMost :
    (low high : Verdict) (vs : List Verdict)
    → rank low ≤ rank high
    → All (IsAtMost low) vs
    → All (IsAtMost high) vs
All-IsAtMost low high [] l a = tt
All-IsAtMost low high (v ∷ vs) l a = (omega (arith, l, a.0), All-IsAtMost low high vs l a.1)

merge_from_bounds :
    (m : Verdict) (vs : List Verdict)
    → All (IsAtMost (merge_from m vs)) (m ∷ vs) × IsOneOf (merge_from m vs) (m ∷ vs)
unfolding merge_from
merge_from_bounds m [] = ((omega arith, tt), inl refl)
merge_from_bounds m (v ∷ vs) =
    let next = max_verdict m v in
    let (low, high, from) = max_verdict_bounds m v in
    let (above, one) = merge_from_bounds next vs in
    let top = rank (merge_from next vs) in
    (
      (omega (arith, low, above.0), (omega (arith, high, above.0), above.1)),
      elim one [
        | inr later ↦ inr (inr later)
        | inl e ↦ elim from [ inl f ↦ inl (e ∙ f) | inr f ↦ inr (inl (e ∙ f)) ]
      ],
    )

abbrev or_else {ℓ} : {A : Type ℓ} → A → Option A → A
or_else a none = a
or_else a (some b) = b

some_injective {ℓ} : {A : Type ℓ} {a b : A} → some a ≡ some b → a ≡ b
some_injective {a = a} e = ap (or_else a) e

-- What leaves the chain of the processors `bs` and goes to the drain: the last event, with a verdict
-- that is one of those of the event and of all that were returned, and the strictest of them.
pub record IsDrained (process : ℕ → TelemetryEvent → Option TelemetryEvent) (bs : List ℕ)
    (event drained : TelemetryEvent) : Type 0 where
  pub verdicts : List Verdict
  pub last : TelemetryEvent
  pub chain : Chain process bs event verdicts last
  pub keeps_last : drained ≡ record last { verdict = drained.verdict }
  pub strictest : All (IsAtMost drained.verdict) (event.verdict ∷ verdicts)
  pub one : IsOneOf drained.verdict (event.verdict ∷ verdicts)

module _ (process : ℕ → TelemetryEvent → Option TelemetryEvent) where
  run_processors-Chain :
      (bs : List ℕ) (event : TelemetryEvent) (verdicts : List Verdict)
      → (vs : List Verdict) × (Chain process bs event vs
          (run_processors process bs event verdicts).0)
        × ((run_processors process bs event verdicts).1 ≡ verdicts ++ vs)
  unfolding run_processors
  run_processors-Chain [] event verdicts = ([], finished, sym (append-nil verdicts))
  run_processors-Chain (b ∷ bs) event verdicts = elim (Option-cases (process b event)) [
    | inl e ↦
        let (vs, chain, same_list) = run_processors-Chain bs event verdicts in
        rw (e, run_processors) (vs, skipped e chain, same_list)
    | inr (next, e) ↦
        let (vs, chain, same_list) = run_processors-Chain bs next (verdicts ++ next.verdict ∷ []) in
        rw (e, run_processors)
          (
            next.verdict ∷ vs,
            processed e chain,
            same_list ∙ append_assoc verdicts (next.verdict ∷ []) vs,
          )
  ]

  merge_verdicts_first :
      (v : Verdict) (vs : List Verdict) → merge_verdicts (v ∷ vs) ≡ merge_from v vs
  unfolding merge_verdicts merge_from
  merge_verdicts_first v vs = ap (λ m. merge_from m vs) (allow-max_verdict v)

  -- An event that reaches the drain comes from a started source. It is the last event of the chain of
  -- started processors, each of which got what the one before it returned and is passed over if it
  -- throws; and its verdict is the strictest of those of the event and of all that were returned.
  pub on_event_lem :
      (source : ℕ) (event drained : TelemetryEvent) (r : TelemetryRegistry)
      → on_event process source event r ≡ some drained
      → (is_live_source (state_for source r.states) ≡ true)
        × IsDrained process (active_processor_snapshot r.states) event drained
  unfolding on_event
  on_event_lem source event drained r =
      elim (Bool-cases (is_live_source (state_for source r.states))) [
        | inr e ↦ rw (e, on_event) (λ q. cc q)
        | inl e ↦
            let bs = active_processor_snapshot r.states in
            let last = (run_processors process bs event (event.verdict ∷ [])).0 in
            let (vs, chain, verdicts) = run_processors-Chain bs event (event.verdict ∷ []) in
            let merged = merge_from event.verdict vs in
            let strictest = ap merge_verdicts verdicts ∙ merge_verdicts_first event.verdict vs in
            let (above, one) = merge_from_bounds event.verdict vs in
            let out : IsDrained process bs event (record last { verdict = merged }) = record {
              verdicts = vs;
              last = last;
              chain = chain;
              keeps_last = refl;
              strictest = above;
              one = one;
            } in
            elim (Bool-cases r.has_drain) [
              | inr f ↦ rw (e, f, on_event) (λ q. cc q)
              | inl f ↦
                  rw (e, f, on_event)
                    (λ q.
                      let sent : some (record last { verdict = merged }) ≡ some drained =
                        ap (λ v. some (record last { verdict = v })) (sym strictest) ∙ q in
                      (refl, subst (λ d. IsDrained process bs event d) (some_injective sent) out))
            ]
      ]
