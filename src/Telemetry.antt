-- ===== src/Telemetry.antt =====
-- cas/telemetry_registry.h and telemetry_registry.cpp: the backends of the telemetry, which produce
-- events or process them. A backend is a parameter: a number for its address, its capabilities, and
-- what its methods answer. The calls of `start` and `stop` are listed in their order.
pub mod Live
pub mod Stop
pub mod Start
pub mod Verdicts
use Prim.Native.String.{String}
use context_fs.Base.{
  ℕ, Bool, true, false, ◌&&◌, ◌||◌, not, Option, none, some, List, [], ◌∷◌, ◌++◌, ◌==◌, ltb,
  if◌then◌else◌,
}

pub data Verdict : Type 0 where
  allow soft_watch deny : Verdict

-- the number of an enumerator
abbrev pub rank : Verdict → ℕ
rank allow = 0
rank soft_watch = 1
rank deny = 2

pub record TelemetryEvent : Type 0 where
  pub timestamp_ns : ℕ
  pub session_id : ℕ
  pub branch_id : ℕ
  pub policy_version : ℕ
  pub op : ℕ
  pub verdict : Verdict
  pub dev : ℕ
  pub ino : ℕ
  pub i_generation : ℕ
  pub path : String
  pub pid : ℕ
  pub uid : ℕ
  pub gid : ℕ
  pub bytes : ℕ
  pub latency_ns : ℕ
  pub backend : String
  pub extra : List (String × String)

pub record Capabilities : Type 0 where
  pub supported_ops : ℕ
  pub pre_op_verdicts : Bool
  pub requires_cgroup : Bool
  pub requires_root : Bool

pub data Status : Type 0 where
  not_started starting started start_failed stopped : Status

pub record BackendState : Type 0 where
  pub backend : ℕ
  pub capabilities : Capabilities
  pub is_source : Bool
  pub is_started : Bool
  pub status : Status

-- `backends_` has the same backends as `states_`
pub record TelemetryRegistry : Type 0 where
  pub states : List BackendState
  pub is_started : Bool
  pub start_attempted : Bool
  pub has_drain : Bool

-- `has_drain` is false for a null callback
unfoldable pub new_registry : Bool → TelemetryRegistry
new_registry has_drain = record {
  states = [];
  is_started = false;
  start_attempted = false;
  has_drain = has_drain;
}

abbrev pub new_state : ℕ → Capabilities → BackendState
new_state backend caps = record {
  backend = backend;
  capabilities = caps;
  is_source = not (caps.supported_ops == 0);
  is_started = false;
  status = not_started;
}

-- a null pointer is `none`; a late call is refused, and stops a build with assertions
unfoldable pub add : Option (ℕ × Capabilities) → TelemetryRegistry → TelemetryRegistry
add none r = r
add (some (backend, caps)) r =
    if r.start_attempted then r else record r { states = r.states ++ new_state backend caps ∷ [] }

-- the three snapshots
unfoldable pub configured_snapshot : Bool → List BackendState → List ℕ
configured_snapshot source [] = []
configured_snapshot source (s ∷ ss) =
    let rest = configured_snapshot source ss in
    let same_side = if s.is_source then source else not source in
    if same_side then s.backend ∷ rest else rest

unfoldable pub active_backend_snapshot : Bool → List BackendState → List ℕ
active_backend_snapshot start_attempted [] = []
active_backend_snapshot start_attempted (s ∷ ss) =
    let rest = active_backend_snapshot start_attempted ss in
    if not start_attempted || s.is_started then s.backend ∷ rest else rest

unfoldable pub active_processor_snapshot : List BackendState → List ℕ
active_processor_snapshot [] = []
active_processor_snapshot (s ∷ ss) =
    let rest = active_processor_snapshot ss in
    if not s.is_source && s.is_started then s.backend ∷ rest else rest

-- `state_for_locked`, to read and to write
unfoldable pub state_for : ℕ → List BackendState → Option BackendState
state_for backend [] = none
state_for backend (s ∷ ss) =
    let rest = state_for backend ss in if s.backend == backend then some s else rest

unfoldable pub set_state : ℕ → Bool → Status → List BackendState → List BackendState
set_state backend is_started status [] = []
set_state backend is_started status (s ∷ ss) =
    let rest = set_state backend is_started status ss in
    if s.backend == backend
    then record s { is_started = is_started; status = status } ∷ ss
    else s ∷ rest

pub data Call : Type 0 where
  start_call stop_call : ℕ → Call

-- `start_backend`, `ok` being what its `start` returns
unfoldable pub start_backend : Bool → ℕ → List BackendState → List BackendState × List Call
unfolding set_state
start_backend ok backend states =
    let starting_states = set_state backend true starting states in
    let done = set_state backend ok (if ok then started else start_failed) starting_states in
    (done, start_call backend ∷ (if ok then [] else stop_call backend ∷ []))

unfoldable pub start_backends :
    (ℕ → Bool) → List ℕ → List BackendState → List BackendState × List Call
unfolding start_backend
start_backends starts [] states = (states, [])
start_backends starts (b ∷ bs) states =
    let (states', calls) = start_backend (starts b) b states in
    let (states'', rest) = start_backends starts bs states' in (states'', calls ++ rest)

unfoldable pub reset_states : List BackendState → List BackendState
reset_states [] = []
reset_states (s ∷ ss) = record s { is_started = false; status = not_started } ∷ reset_states ss

unfoldable pub start_all : (ℕ → Bool) → TelemetryRegistry → TelemetryRegistry × List Call
unfolding start_backends configured_snapshot reset_states
start_all starts r =
    if r.is_started
    then (r, [])
    else let states = reset_states r.states in
      let processors = configured_snapshot false states in
      let sources = configured_snapshot true states in
      let (states₁, calls₁) = start_backends starts processors states in
      let (states₂, calls₂) = start_backends starts sources states₁ in
      (record r { states = states₂; is_started = true; start_attempted = true }, calls₁ ++ calls₂)

abbrev pub should_stop : Option BackendState → Bool
should_stop none = false
should_stop (some s) = s.is_started

unfoldable pub stop_backends : List ℕ → List BackendState → List BackendState × List Call
unfolding state_for set_state
stop_backends [] states = (states, [])
stop_backends (b ∷ bs) states =
    let stops = should_stop (state_for b states) in
    let states' = if stops then set_state b false stopped states else states in
    let (states'', calls) = stop_backends bs states' in
    (states'', if stops then stop_call b ∷ calls else calls)

unfoldable pub stop_all : TelemetryRegistry → TelemetryRegistry × List Call
unfolding stop_backends configured_snapshot
stop_all r =
    if not r.is_started
    then (r, [])
    else let (states₁, calls₁) = stop_backends (configured_snapshot true r.states) r.states in
      let (states₂, calls₂) = stop_backends (configured_snapshot false r.states) states₁ in
      (record r { states = states₂; is_started = false }, calls₁ ++ calls₂)

-- `ok = backend->...(...) && ok` over the active backends, in both calls of a session
unfoldable pub all_answer : (ℕ → Bool) → Bool → List ℕ → Bool
all_answer answers ok [] = ok
all_answer answers ok (b ∷ bs) = all_answer answers (answers b && ok) bs

unfoldable pub register_session : (ℕ → Bool) → TelemetryRegistry → Bool
unfolding all_answer active_backend_snapshot
register_session answers r =
    all_answer answers true (active_backend_snapshot r.start_attempted r.states)

unfoldable pub unregister_session : (ℕ → Bool) → TelemetryRegistry → Bool
unfolding all_answer active_backend_snapshot
unregister_session answers r =
    all_answer answers true (active_backend_snapshot r.start_attempted r.states)

-- the backends whose `install_policy` is called
unfoldable pub install_policy : TelemetryRegistry → List ℕ
unfolding active_backend_snapshot
install_policy r = active_backend_snapshot r.start_attempted r.states

abbrev pub max_verdict : Verdict → Verdict → Verdict
max_verdict a b = if ltb (rank a) (rank b) then b else a

unfoldable pub merge_from : Verdict → List Verdict → Verdict
merge_from merged [] = merged
merge_from merged (v ∷ vs) = merge_from (max_verdict merged v) vs

unfoldable pub merge_verdicts : List Verdict → Verdict
unfolding merge_from
merge_verdicts verdicts = merge_from allow verdicts

abbrev pub is_live_source : Option BackendState → Bool
is_live_source none = false
is_live_source (some s) = s.is_started && s.is_source

-- `process` is `process_event` of the backends, `none` being an exception: the event stays as it was
-- before the call, and no verdict is added.
module _ (process : ℕ → TelemetryEvent → Option TelemetryEvent) where
  unfoldable pub run_processors :
      List ℕ → TelemetryEvent → List Verdict → TelemetryEvent × List Verdict
  run_processors [] event verdicts = (event, verdicts)
  run_processors (b ∷ bs) event verdicts = elim (process b event) [
    | none ↦ run_processors bs event verdicts
    | some event' ↦ run_processors bs event' (verdicts ++ event'.verdict ∷ [])
  ]

  -- what goes to the drain
  unfoldable pub on_event : ℕ → TelemetryEvent → TelemetryRegistry → Option TelemetryEvent
  unfolding run_processors merge_verdicts active_processor_snapshot state_for
  on_event source event r =
      if not (is_live_source (state_for source r.states))
      then none
      else let (last, verdicts) =
          run_processors (active_processor_snapshot r.states) event (event.verdict ∷ []) in
        if r.has_drain then some (record last { verdict = merge_verdicts verdicts }) else none
