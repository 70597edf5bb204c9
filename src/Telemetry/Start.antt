-- ===== src/Telemetry/Start.antt =====
-- TelemetryRegistry::start_all of cas/telemetry_registry.cpp, and what stop_all does behind it.
use context_fs.Base.{
  ◌≡◌, refl, ◌∙◌, ap, ℕ, Bool, true, false, ◌&&◌, List, [], ◌∷◌, ◌==◌, if◌then◌else◌, arith, ==_iff,
}
use context_fs.Telemetry.{
  BackendState, TelemetryRegistry, starting, started, start_failed, set_state, configured_snapshot,
  start_backend, start_backends, start_all, reset_states,
}
use context_fs.Telemetry.Live.{
  is_registered, is_live, mem, is_live-set_state, is_registered-set_state, is_registered-mem,
  is_live-reset_states, is_registered-reset_states,
}

is_registered-start_backend :
    (q b : ℕ) (ok : Bool) (ss : List BackendState)
    → is_registered q (start_backend ok b ss).0 ≡ is_registered q ss
unfolding start_backend
is_registered-start_backend q b ok ss =
    is_registered-set_state q b ok (if ok then started else start_failed)
      (set_state b true starting ss)
    ∙ is_registered-set_state q b true starting ss

is_live-start_backend :
    (q b : ℕ) (ok : Bool) (ss : List BackendState)
    → is_live q (start_backend ok b ss).0
      ≡ (if b == q then is_registered q ss && ok else is_live q ss)
unfolding start_backend
is_live-start_backend q b ok ss =
    let before = set_state b true starting ss in
    ground (
      arith,
      is_live-set_state q b ok (if ok then started else start_failed) before,
      is_live-set_state q b true starting ss,
      is_registered-set_state q b true starting ss,
    )

is_registered-start_backends :
    (starts : ℕ → Bool) (q : ℕ) (bs : List ℕ) (ss : List BackendState)
    → is_registered q (start_backends starts bs ss).0 ≡ is_registered q ss
unfolding start_backends
is_registered-start_backends starts q [] ss = refl
is_registered-start_backends starts q (b ∷ bs) ss =
    is_registered-start_backends starts q bs (start_backend (starts b) b ss).0
    ∙ is_registered-start_backend q b (starts b) ss

is_live-start_backends :
    (starts : ℕ → Bool) (q : ℕ) (bs : List ℕ) (ss : List BackendState)
    → is_live q (start_backends starts bs ss).0
      ≡ (if mem q bs then is_registered q ss && starts q else is_live q ss)
unfolding start_backends
is_live-start_backends starts q [] ss = refl
is_live-start_backends starts q (b ∷ bs) ss =
    let next = (start_backend (starts b) b ss).0 in
    let answer : (b == q) ≡ true → starts b ≡ starts q = λ e. ap starts ((==_iff b q).0 e) in
    is_live-start_backends starts q bs next
    ∙ ground (
      arith,
      answer,
      is_live-start_backend q b (starts b) ss,
      is_registered-start_backend q b (starts b) ss,
    )

-- Starting a registry that is not started starts the registered backends whose `start` succeeds, and
-- no others.
pub is_live-start_all :
    (starts : ℕ → Bool) (q : ℕ) (r : TelemetryRegistry)
    → r.is_started ≡ false
    → is_live q (start_all starts r).0.states ≡ (is_registered q r.states && starts q)
unfolding start_all
is_live-start_all starts q r idle =
    let states = reset_states r.states in
    let sources = configured_snapshot true states in
    let processors = configured_snapshot false states in
    let half = (start_backends starts processors states).0 in
    let side = is_registered-mem q states in
    let none_live = is_live-reset_states q r.states in
    let kept = is_registered-reset_states q r.states in
    let kept₁ = is_registered-start_backends starts q processors states in
    let live₁ = is_live-start_backends starts q processors states in
    let live₂ = is_live-start_backends starts q sources half in
    rw idle (ground (arith, side, none_live, kept, kept₁, live₁, live₂))
