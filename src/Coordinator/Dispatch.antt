-- ===== src/Coordinator/Dispatch.antt =====
-- internal/coordinator/service.go: `dispatchLocked`, `canDispatchLocked` and `drainLocked`.
use loadify.Prelude.{
  ℕ, ◌+◌, ◌*◌, ◌/◌, Bool, true, false, ◌&&◌, String, List, [], ◌∷◌, none, some, ltb, if◌then◌else◌,
  length, get_or, nat_eq, string_eq,
}
use loadify.Platform.{Platform}
use loadify.Plan.{Plan, AutoStopConfig, auto_stop_or_default, auto_stop_enabled, request_timeout_ms}
use loadify.Wire.{Protocol, running, CoordinatorMessage, assignment, StartRunRequest}
use loadify.Scheduler.{RampStage, slice_ramp, pick_workers}
use loadify.Dict.{insert}
use loadify.Aggregator.{Aggregator, set_auto_stop, set_stall_sec}
use loadify.Aggregator
use loadify.Registry.{Worker, available}
use loadify.Coordinator.State.{
  RunState, Service, fresh_run, ramp_duration_ms, add_member, drop_member, try_send,
  assign_grace_ms,
}

pub data Error : Type 0 where
  invalid_argument failed_precondition unavailable not_found : Error

pub data Result {ℓ} (A : Type ℓ) : Type ℓ where
  ok : A → Result A
  err : Error → Result A

module _ ⦃p : Platform⦄ where
  -- canDispatchLocked
  unfoldable pub can_dispatch : Service → Protocol → ℕ → Bool
  can_dispatch s proto now =
      ltb s.running s.max_runs && ltb 0 (length (available s.reg proto s.cpu_max s.mem_max now))

  -- The seconds of the stall breaker: three request timeouts, a minute at least.
  unfoldable pub stall_seconds : Plan → ℕ
  stall_seconds plan =
      let sec = 3 * request_timeout_ms plan / 1000 in if ltb sec 60 then 60 else sec

  -- The aggregator of a new run, its circuit breaker armed from the plan.
  unfoldable pub armed_aggregator : Service → StartRunRequest → Aggregator
  unfolding stall_seconds
  armed_aggregator s req =
      let agg : Aggregator = Aggregator.new req.run_id req.protocol s.writer in
      elim req.payload.plan [
        | none ↦ agg
        | some plan ↦
            let cfg : AutoStopConfig = auto_stop_or_default plan in
            if auto_stop_enabled cfg
            then set_stall_sec (set_auto_stop agg cfg) (stall_seconds plan)
            else set_auto_stop agg cfg
      ]

  -- The assignment of worker `i`.
  unfoldable pub to_assignment :
      StartRunRequest → List (List RampStage) → ℕ → ℕ → CoordinatorMessage
  to_assignment req slices start_at i = assignment (record {
    run_id = req.run_id;
    protocol = req.protocol;
    payload = req.payload;
    ramp = get_or slices i [];
    start_at_unix_ms = start_at;
    seed = i;
  })

  -- The loop over the workers, from index `i` on: the workers assigned and the channels.
  unfoldable pub assign_loop :
      StartRunRequest
      → List (List RampStage)
      → ℕ
      → ℕ
      → List Worker
      → List String
      → List (ℕ × List CoordinatorMessage)
      → List String × List (ℕ × List CoordinatorMessage)
  assign_loop req slices start_at i [] assigned chans = (assigned, chans)
  assign_loop req slices start_at i (w ∷ workers) assigned chans =
      let with_w = add_member w.id assigned in
      elim (try_send chans w.send (to_assignment req slices start_at i)) [
        | none ↦ assign_loop req slices start_at (i + 1) workers (drop_member w.id with_w) chans
        | some chans' ↦ assign_loop req slices start_at (i + 1) workers with_w chans'
      ]

  -- The run state that a dispatch stores.
  unfoldable pub dispatched : Service → StartRunRequest → List String → ℕ → RunState
  unfolding fresh_run
  dispatched s req assigned now =
      let rs : RunState = fresh_run req.run_id req.protocol running in
      record rs {
        agg = some (armed_aggregator s req);
        agg_live = true;
        assigned = assigned;
        started_at = some now;
        planned_ms = ramp_duration_ms req.ramp;
        slot_held = true;
      }

  -- The end of `dispatchLocked`: without an assigned worker the run is not stored.
  unfoldable pub store_dispatched :
      Service
      → StartRunRequest
      → List String
      → List (ℕ × List CoordinatorMessage)
      → ℕ
      → Service × Result ℕ
  store_dispatched s req [] chans now = (record s { chans = chans }, err unavailable)
  store_dispatched s req (a ∷ assigned) chans now = (
    record s {
      chans = chans;
      runs = insert req.run_id (dispatched s req (a ∷ assigned) now) s.runs;
      running = s.running + 1;
    },
    ok (length (a ∷ assigned)),
  )

  abbrev pub is_empty {ℓ} : {A : Type ℓ} → List A → Bool
  is_empty [] = true
  is_empty (x ∷ xs) = false

  -- dispatchLocked
  unfoldable pub dispatch : Service → StartRunRequest → ℕ → Service × Result ℕ
  dispatch s req now =
      let candidates : List Worker = available s.reg req.protocol s.cpu_max s.mem_max now in
      let workers : List Worker = pick_workers candidates req.desired_workers in
      let slices = slice_ramp req.ramp (length workers) in
      let (assigned, chans) = assign_loop req slices (now + assign_grace_ms) 0 workers [] s.chans in
      if is_empty candidates
      then (s, err failed_precondition)
      else store_dispatched s req assigned chans now

  -- drainLocked, by recursion on the queue: every round takes its head or stops.
  unfoldable pub drain_loop : List StartRunRequest → Service → ℕ → Service
  drain_loop [] s now = record s { queue = [] }
  drain_loop (req ∷ rest) s now = elim (can_dispatch s req.protocol now) [
    | false ↦ record s { queue = req ∷ rest }
    | true ↦
        let (s', r) = dispatch (record s { queue = rest }) req now in
        elim r [ ok n ↦ drain_loop rest s' now | err e ↦ record s' { queue = req ∷ rest } ]
  ]

  unfoldable pub drain : Service → ℕ → Service
  unfolding drain_loop
  drain s now = drain_loop s.queue s now
