-- ===== src/Coordinator/Lifecycle.antt =====
-- internal/coordinator/service.go: starting, finishing and stopping runs.
-- The clock is an argument. Log lines are left out.
use loadify.Prelude.{
  ℕ, ◌+◌, ◌-◌, Bool, true, false, not, ◌||◌, String, List, [], ◌∷◌, ◌++◌, none, some, leb,
  if◌then◌else◌, length, nat_eq, string_eq, ◌==◌,
}
use loadify.Platform.{Platform}
use loadify.Wire.{
  RunStatus, completed, aborted, queued, CoordinatorMessage, stop, StartRunRequest, RunFinished,
}
use loadify.Dict.{lookup, insert}
use loadify.Breaker.{Reason, none_given, stopped_by_user}
use loadify.Registry.{Registry, Worker}
use loadify.Registry
use loadify.Coordinator.State.{
  RunState, Service, fresh_run, ramp_duration_ms, add_member, try_send, is_running, is_zero,
  cancel_aggregator, force_finalize, stop_grace_ms, agg_drain_grace_ms,
}
use loadify.Coordinator.Dispatch.{
  Result, ok, err, invalid_argument, not_found, can_dispatch, dispatch, drain,
}

module _ ⦃p : Platform⦄ where
  -- A response of StartRun.
  pub record Started : Type 0 where
    pub assigned_workers : ℕ
    pub status : String
    pub queue_position : ℕ

  -- StartRun
  unfoldable pub start_run : Service → StartRunRequest → ℕ → Service × Result Started
  start_run s req now =
      if req.run_id == "" then (s, err invalid_argument) else elim (lookup req.run_id s.runs) [
        | some rs ↦ (
          s,
          ok (record {
            assigned_workers = length rs.assigned;
            status = if is_running rs.status then "running" else "queued";
            queue_position = 0;
          }),
        )
        | none ↦ elim (can_dispatch s req.protocol now) [
          | true ↦
              let (s', r) = dispatch s req now in
              (
                s',
                elim r [
                  | ok n ↦
                      ok (record { assigned_workers = n; status = "running"; queue_position = 0 })
                  | err e ↦ err e
                ],
              )
          | false ↦
              let waiting : RunState = fresh_run req.run_id req.protocol queued in
              (
                record s {
                  queue = s.queue ++ req ∷ [];
                  runs =
                      insert req.run_id (record waiting { planned_ms = ramp_duration_ms req.ramp })
                        s.runs;
                },
                ok (record {
                  assigned_workers = 0;
                  status = "queued";
                  queue_position = length (s.queue ++ req ∷ []);
                }),
              )
        ]
      ]

  -- What finalizeLocked writes into a run that has not ended.
  unfoldable pub ended_run : RunState → RunStatus → ℕ → RunState
  ended_run rs fallback now = record rs {
    status = if is_running rs.status then fallback else rs.status;
    ended_at = some now;
    slot_held = false;
  }

  abbrev pub has_agg : RunState → Bool
  has_agg rs = elim rs.agg [ none ↦ false | some agg ↦ true ]

  -- finalizeLocked for the run stored under an id; the flag says that a cancel is returned.
  -- `running` is positive where it is lowered, since the run holds a slot.
  unfoldable pub finalize_locked : Service → String → RunStatus → ℕ → Service × Bool
  finalize_locked s id fallback now = elim (lookup id s.runs) [
    | none ↦ (s, false)
    | some rs ↦
        if not (is_zero rs.ended_at)
        then (s, false)
        else let stored = record s { runs = insert id (ended_run rs fallback now) s.runs } in
          if rs.slot_held
          then (drain (record stored { running = s.running - 1 }) now, has_agg rs)
          else (stored, has_agg rs)
  ]

  -- stopAggregatorAfterGrace, where there is a cancel.
  unfoldable pub stop_aggregator_after_grace : Service × Bool → String → ℕ → Service
  stop_aggregator_after_grace (s, cancel) id now =
      if cancel
      then record s { timers = s.timers ++ cancel_aggregator id (now + agg_drain_grace_ms) ∷ [] }
      else s

  -- What a RunFinished message writes into its run.
  unfoldable pub reported : RunState → RunFinished → RunState
  reported rs f = record rs {
    finished = add_member f.worker_id rs.finished;
    dropped_iterations = rs.dropped_iterations + f.dropped_iterations;
    dropped_metrics = rs.dropped_metrics + f.dropped_metrics;
  }

  -- workerFinished
  unfoldable pub worker_finished : Service → RunFinished → ℕ → Service
  worker_finished s f now = elim (lookup f.run_id s.runs) [
    | none ↦ s
    | some rs ↦
        let rs' : RunState = reported rs f in
        let s' = record s { runs = insert f.run_id rs' s.runs } in
        if leb (length rs'.assigned) (length rs'.finished)
        then stop_aggregator_after_grace (finalize_locked s' f.run_id completed now) f.run_id now
        else s'
  ]

  abbrev pub is_none_given : Reason → Bool
  is_none_given none_given = true
  is_none_given _ = false

  -- Only a dispatched run that has not ended is forced.
  unfoldable pub is_forceable : RunState → Bool
  is_forceable rs = not (not (is_zero rs.ended_at) || not rs.slot_held)

  -- What forceFinalize writes into a run before it finalizes it.
  unfoldable pub forced : RunState → Reason → RunState
  forced rs default_reason = record rs {
    reason = if is_none_given rs.reason then default_reason else rs.reason;
  }

  -- forceFinalize
  unfoldable pub force_finalize_run : Service → String → Reason → ℕ → Service
  force_finalize_run s id default_reason now = elim (lookup id s.runs) [
    | none ↦ s
    | some rs ↦
        if is_forceable rs
        then stop_aggregator_after_grace
            (finalize_locked (record s { runs = insert id (forced rs default_reason) s.runs }) id
              aborted now)
            id now
        else s
  ]

  -- The stop messages of StopRun, to each assigned worker that is connected.
  unfoldable pub signal_stop :
      Registry
      → String
      → Bool
      → List String
      → List (ℕ × List CoordinatorMessage)
      → List (ℕ × List CoordinatorMessage)
  signal_stop reg run_id graceful [] chans = chans
  signal_stop reg run_id graceful (id ∷ ids) chans =
      signal_stop reg run_id graceful ids (elim (Registry.get reg id) [
        | none ↦ chans
        | some w ↦ elim (try_send chans w.send (stop run_id graceful)) [
          | none ↦ chans
          | some chans' ↦ chans'
        ]
      ])

  -- What StopRun writes into its run.
  unfoldable pub stopped_run : RunState → ℕ → RunState
  stopped_run rs now = record rs {
    status = if is_running rs.status then aborted else rs.status;
    reason = if is_running rs.status then stopped_by_user else rs.reason;
    abort_at = if is_zero rs.abort_at then some now else rs.abort_at;
  }

  -- StopRun
  unfoldable pub stop_run : Service → String → Bool → ℕ → Service × Result (Unit {0})
  stop_run s id graceful now = elim (lookup id s.runs) [
    | none ↦ (s, err not_found)
    | some rs ↦ (
      record s {
        runs = insert id (stopped_run rs now) s.runs;
        chans = signal_stop s.reg id graceful rs.assigned s.chans;
        timers = s.timers ++ force_finalize id (now + stop_grace_ms) ∷ [];
      },
      ok tt,
    )
  ]

  -- autoStopRun, the circuit breaker's callback.
  unfoldable pub auto_stop_run : Service → String → Reason → ℕ → Service
  auto_stop_run s id reason now =
      let s' : Service = elim (lookup id s.runs) [
        | none ↦ s
        | some rs ↦ record s {
          runs = insert id (record rs { status = aborted; reason = reason }) s.runs;
        }
      ] in
      (stop_run s' id true now).0
