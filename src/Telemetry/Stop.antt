-- ===== src/Telemetry/Stop.antt =====
-- TelemetryRegistry::stop_all of cas/telemetry_registry.cpp.
use context_fs.Base.{
  ◌≡◌, refl, ◌∙◌, ap, ℕ, ◌+◌, true, false, ◌&&◌, ◌||◌, not, List, [], ◌∷◌, ◌++◌, ◌==◌,
  if◌then◌else◌, Bool-cases, Option-cases, inl, inr, arith, ==_iff,
}
use context_fs.Telemetry.{
  BackendState, TelemetryRegistry, stopped, Call, start_call, stop_call, state_for, set_state,
  configured_snapshot, stop_backends, stop_all,
}
use context_fs.Telemetry.Live.{is_registered, is_live, mem, is_live-set_state, is_registered-mem}

-- how often a backend's `stop` is called
abbrev pub count_stops : ℕ → List Call → ℕ
count_stops q [] = 0
count_stops q (start_call b ∷ calls) = count_stops q calls
count_stops q (stop_call b ∷ calls) =
    let rest = count_stops q calls in if b == q then rest + 1 else rest

pub count_stops-append :
    (q : ℕ) (xs ys : List Call) → count_stops q (xs ++ ys) ≡ count_stops q xs + count_stops q ys
count_stops-append q [] ys = omega arith
count_stops-append q (start_call b ∷ xs) ys = count_stops-append q xs ys
count_stops-append q (stop_call b ∷ xs) ys = ground (arith, count_stops-append q xs ys)

-- a started backend is on one of the two sides
is_live-mem :
    (q : ℕ) (ss : List BackendState)
    → is_live q ss ≡ true
    → (mem q (configured_snapshot true ss) || mem q (configured_snapshot false ss)) ≡ true
is_live-mem q ss h = is_registered-mem q ss (registered h)
  where
    registered : is_live q ss ≡ true → is_registered q ss ≡ true
    registered = elim (Option-cases (state_for q ss)) [
      | inl e ↦ rw e (λ h. h)
      | inr (s, e) ↦ rw e (λ h. refl)
    ]

same_live : (b q : ℕ) (ss : List BackendState) → (b == q) ≡ true → is_live b ss ≡ is_live q ss
same_live b q ss e = ap (λ i. is_live i ss) ((==_iff b q).0 e)

is_live-stop_backends :
    (q : ℕ) (bs : List ℕ) (ss : List BackendState)
    → is_live q (stop_backends bs ss).0 ≡ (not (mem q bs) && is_live q ss)
unfolding stop_backends
is_live-stop_backends q [] ss = refl
is_live-stop_backends q (b ∷ bs) ss =
    let step = is_live-set_state q b false stopped ss in
    elim (Bool-cases (is_live b ss)) [
      | inl e ↦ rw e (
          is_live-stop_backends q bs (set_state b false stopped ss)
          ∙ ground (arith, step, e, same_live b q ss))
      | inr e ↦ rw e (is_live-stop_backends q bs ss ∙ ground (arith, e, same_live b q ss))
    ]

count_stops-stop_backends :
    (q : ℕ) (bs : List ℕ) (ss : List BackendState)
    → count_stops q (stop_backends bs ss).1 ≡ (if mem q bs && is_live q ss then 1 else 0)
unfolding stop_backends
count_stops-stop_backends q [] ss = refl
count_stops-stop_backends q (b ∷ bs) ss =
    let step = is_live-set_state q b false stopped ss in
    let rest = count_stops-stop_backends q bs (set_state b false stopped ss) in
    elim (Bool-cases (is_live b ss)) [
      | inl e ↦ rw e (ground (arith, step, rest, e, same_live b q ss))
      | inr e ↦ rw e (count_stops-stop_backends q bs ss ∙ ground (arith, e, same_live b q ss))
    ]

-- When a started registry is stopped, each backend that is started is told to stop exactly once and
-- no other backend is, and none is started afterwards.
pub stop_all_lem :
    (q : ℕ) (r : TelemetryRegistry)
    → r.is_started ≡ true
    → (count_stops q (stop_all r).1 ≡ (if is_live q r.states then 1 else 0))
      × (is_live q (stop_all r).0.states ≡ false)
unfolding stop_all
stop_all_lem q r started =
    let sources = configured_snapshot true r.states in
    let processors = configured_snapshot false r.states in
    let states = (stop_backends sources r.states).0 in
    let count₁ = count_stops-stop_backends q sources r.states in
    let count₂ = count_stops-stop_backends q processors states in
    let live₁ = is_live-stop_backends q sources r.states in
    let live₂ = is_live-stop_backends q processors states in
    let calls =
      count_stops-append q (stop_backends sources r.states).1 (stop_backends processors states).1 in
    let side = is_live-mem q r.states in
    rw started
      (ground (arith, calls, count₁, count₂, live₁, side), ground (arith, live₁, live₂, side))
