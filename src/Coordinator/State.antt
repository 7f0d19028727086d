-- ===== src/Coordinator/State.antt =====
-- internal/coordinator/runner.go and the types of internal/coordinator/service.go.
-- A zero `time.Time` is `none`. A set of worker ids is a list without repetitions. Each send
-- channel is known by a number; `chans` holds what is buffered. `timers` holds what the program
-- leaves to `time.AfterFunc` and to the goroutine of `stopAggregatorAfterGrace`.
use loadify.Prelude.{
  ℕ, ◌-◌, Bool, true, false, String, List, [], ◌∷◌, ◌++◌, Option, none, some, ltb, leb,
  if◌then◌else◌, length, sum_of, nat_eq, string_eq, ◌==◌,
}
use loadify.Platform.{Platform, Float, float}
use loadify.Wire.{Protocol, RunStatus, running, queued, CoordinatorMessage, StartRunRequest}
use loadify.Scheduler.{RampStage}
use loadify.Dict.{lookup, insert}
use loadify.Breaker.{Reason, none_given}
use loadify.Aggregator.{Aggregator, or_empty}
use loadify.Registry.{Registry}
use loadify.Registry

abbrev pub assign_grace_ms : ℕ
assign_grace_ms = 2000

abbrev pub stop_grace_ms : ℕ
stop_grace_ms = 8000

abbrev pub orphan_grace_ms : ℕ
orphan_grace_ms = 30_000

abbrev pub agg_drain_grace_ms : ℕ
agg_drain_grace_ms = 3000

-- The buffer of a worker's send channel.
abbrev pub send_cap : ℕ
send_cap = 64

unfoldable pub member : String → List String → Bool
member a [] = false
member a (x ∷ xs) = let rest = member a xs in if x == a then true else rest

-- m[a] = true
unfoldable pub add_member : String → List String → List String
add_member a xs = if member a xs then xs else xs ++ a ∷ []

-- delete(m, a)
unfoldable pub drop_member : String → List String → List String
drop_member a [] = []
drop_member a (x ∷ xs) = if x == a then drop_member a xs else x ∷ drop_member a xs

abbrev pub is_running : RunStatus → Bool
is_running running = true
is_running _ = false

abbrev pub is_queued : RunStatus → Bool
is_queued queued = true
is_queued _ = false

abbrev pub is_zero : Option ℕ → Bool
is_zero none = true
is_zero (some t) = false

-- The planned duration of a ramp.
unfoldable pub ramp_duration_ms : List RampStage → ℕ
ramp_duration_ms ramp = sum_of (λ st. st.duration_ms) ramp

pub data Timer : Type 0 where
  cancel_aggregator force_finalize : (run_id : String) (due_ms : ℕ) → Timer

module _ ⦃p : Platform⦄ where
  -- `agg_live` says that the aggregator's goroutine has not been cancelled.
  pub record RunState : Type 0 where
    pub run_id : String
    pub protocol : Protocol
    pub agg : Option Aggregator
    pub agg_live : Bool
    pub assigned : List String
    pub finished : List String
    pub status : RunStatus
    pub reason : Reason
    pub started_at : Option ℕ
    pub ended_at : Option ℕ
    pub planned_ms : ℕ
    pub abort_at : Option ℕ
    pub workers_lost_at : Option ℕ
    pub slot_held : Bool
    pub dropped_iterations : ℕ
    pub dropped_metrics : ℕ
    pub peak_cpu_pct : Float

  pub record Service : Type 0 where
    pub reg : Registry
    pub writer : Bool
    pub runs : List (String × RunState)
    pub queue : List StartRunRequest
    pub running : ℕ
    pub max_runs : ℕ
    pub cpu_max : Float
    pub mem_max : Float
    pub chans : List (ℕ × List CoordinatorMessage)
    pub timers : List Timer

  -- New
  unfoldable pub new : Bool → Service
  new writer = record {
    reg = Registry.new 6000;
    writer = writer;
    runs = [];
    queue = [];
    running = 0;
    max_runs = 64;
    cpu_max = float 85;
    mem_max = float 85;
    chans = [];
    timers = [];
  }

  -- SetLimits
  unfoldable pub set_limits : Service → ℕ → Float → Float → Service
  set_limits s max_concurrent cpu_max_pct mem_max_pct = record s {
    max_runs = if ltb 0 max_concurrent then max_concurrent else s.max_runs;
    cpu_max = cpu_max_pct;
    mem_max = mem_max_pct;
  }

  -- A run state as StartRun, dispatchLocked and rehydrate create it, but for what they fill in.
  unfoldable pub fresh_run : String → Protocol → RunStatus → RunState
  fresh_run run_id proto status = record {
    run_id = run_id;
    protocol = proto;
    agg = none;
    agg_live = false;
    assigned = [];
    finished = [];
    status = status;
    reason = none_given;
    started_at = none;
    ended_at = none;
    planned_ms = 0;
    abort_at = none;
    workers_lost_at = none;
    slot_held = false;
    dropped_iterations = 0;
    dropped_metrics = 0;
    peak_cpu_pct = float 0;
  }

  -- runState.remainingMs
  unfoldable pub remaining_ms : RunState → ℕ → ℕ
  remaining_ms rs now = elim rs.started_at [
    | none ↦ 0
    | some started ↦ if leb rs.planned_ms 0 then 0 else rs.planned_ms - (now - started)
  ]

  -- A send that does not block: `none` where the buffer is full.
  unfoldable pub try_send :
      List (ℕ × List CoordinatorMessage)
      → ℕ
      → CoordinatorMessage
      → Option (List (ℕ × List CoordinatorMessage))
  try_send chans c msg =
      let buffer : List CoordinatorMessage = or_empty (lookup c chans) in
      if ltb (length buffer) send_cap then some (insert c (buffer ++ msg ∷ []) chans) else none
