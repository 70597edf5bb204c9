-- ===== src/Tests/Registries.antt =====
-- The registry of the telemetry with a source and two processors.
use context_fs.Base.{
  ◌≡◌, refl, true, false, not, Option, some, [], ◌∷◌, ◌==◌, ℕ, Bool, if◌then◌else◌,
}
use context_fs.Telemetry.{
  allow, soft_watch, deny, TelemetryEvent, Capabilities, TelemetryRegistry, started, not_started,
  start_all, on_event, is_live_source, state_for, active_processor_snapshot,
}
use context_fs.Telemetry.Verdicts.{IsDrained, on_event_lem}

abbrev producing : Capabilities
producing = record {
  supported_ops = 3;
  pre_op_verdicts = true;
  requires_cgroup = false;
  requires_root = false;
}

abbrev processing : Capabilities
processing = record producing { supported_ops = 0 }

-- the source 1, and the processors 2 and 3
abbrev idle_registry : TelemetryRegistry
idle_registry = record {
  states =
      record {
        backend = 1;
        capabilities = producing;
        is_source = true;
        is_started = false;
        status = not_started;
      }
      ∷ record {
        backend = 2;
        capabilities = processing;
        is_source = false;
        is_started = false;
        status = not_started;
      }
      ∷ record {
        backend = 3;
        capabilities = processing;
        is_source = false;
        is_started = false;
        status = not_started;
      }
      ∷ [];
  is_started = false;
  start_attempted = false;
  has_drain = true;
}

-- the second processor does not start
abbrev starts : ℕ → Bool
starts b = not (b == 3)

abbrev an_event : TelemetryEvent
an_event = record {
  timestamp_ns = 5;
  session_id = 1;
  branch_id = 2;
  policy_version = 1;
  op = 0;
  verdict = soft_watch;
  dev = 0;
  ino = 9;
  i_generation = 0;
  path = "/a";
  pid = 41;
  uid = 0;
  gid = 0;
  bytes = 3;
  latency_ns = 0;
  backend = "fuse";
  extra = [];
}

-- 2 denies, and 3 would allow
abbrev judge : ℕ → TelemetryEvent → Option TelemetryEvent
judge b event = some (record event { verdict = if b == 2 then deny else allow })

abbrev all_start : ℕ → Bool
all_start b = true

abbrev running : TelemetryRegistry
running = record {
  states =
      record {
        backend = 1;
        capabilities = producing;
        is_source = true;
        is_started = true;
        status = started;
      }
      ∷ record {
        backend = 2;
        capabilities = processing;
        is_source = false;
        is_started = true;
        status = started;
      }
      ∷ record {
        backend = 3;
        capabilities = processing;
        is_source = false;
        is_started = true;
        status = started;
      }
      ∷ [];
  is_started = true;
  start_attempted = true;
  has_drain = true;
}

program : Unit {0}
unfolding start_all on_event
program = tt

all_started : (start_all all_start idle_registry).0 ≡ running
unfolding program
all_started = refl

denied : on_event judge 1 an_event running ≡ some (record an_event { verdict = deny })
unfolding program
denied = refl

on_event_example :
    (is_live_source (state_for 1 running.states) ≡ true)
    × IsDrained judge
        (active_processor_snapshot running.states)
        an_event
        (record an_event { verdict = deny })
on_event_example = on_event_lem judge 1 an_event (record an_event { verdict = deny }) running denied
