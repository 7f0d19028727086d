-- ===== src/Coordinator/Streams.antt =====
-- internal/coordinator/service.go: what arrives on the workers' streams (`Connect` and its
-- handlers), the ticks of the aggregators, and the timers. `none` is a nil dereference.
use loadify.Prelude.{
  ℕ, ◌+◌, true, false, not, ◌&&◌, String, List, [], ◌∷◌, ◌++◌, Option, none, some, ltb,
  if◌then◌else◌, length, drop, nat_eq, string_eq, ◌==◌,
}
use loadify.Platform.{Platform, Float}
use loadify.Wire.{
  running, CoordinatorMessage, register_ack, RegisterRequest, ActiveRun, RunFinished, MetricBatch,
}
use loadify.Dict.{lookup, insert, update}
use loadify.Aggregator.{Aggregator, ingest, finalize, drain_all, or_empty}
use loadify.Aggregator
use loadify.Breaker.{Reason, not_acknowledged}
use loadify.Registry.{Registry, Stats}
use loadify.Registry
use loadify.Coordinator.State.{
  RunState, Service, fresh_run, add_member, member, is_running, send_cap, Timer, cancel_aggregator,
  force_finalize,
}
use loadify.Coordinator.Dispatch.{drain}
use loadify.Coordinator.Lifecycle.{worker_finished, force_finalize_run, auto_stop_run}

module _ ⦃p : Platform⦄ where
  -- The run that rehydrate creates.
  unfoldable pub rehydrated : Service → String → ActiveRun → ℕ → RunState
  rehydrated s worker_id ar now =
      let rs : RunState = fresh_run ar.run_id ar.protocol running in
      record rs {
        agg = some (Aggregator.new ar.run_id ar.protocol s.writer);
        agg_live = true;
        assigned = worker_id ∷ [];
        started_at = some now;
        slot_held = true;
      }

  -- One reported run.
  unfoldable pub rehydrate_run : Service → String → ActiveRun → ℕ → Service
  rehydrate_run s worker_id ar now =
      let created = record s {
        runs = insert ar.run_id (rehydrated s worker_id ar now) s.runs;
        running = s.running + 1;
      } in
      elim (lookup ar.run_id s.runs) [
        | none ↦ created
        | some rs ↦ elim rs.agg [
          | none ↦ created
          | some agg ↦ record s {
            runs =
                insert ar.run_id (record rs { assigned = add_member worker_id rs.assigned }) s.runs;
          }
        ]
      ]

  -- rehydrate
  unfoldable pub rehydrate : Service → String → List ActiveRun → ℕ → Service
  rehydrate s worker_id [] now = s
  rehydrate s worker_id (ar ∷ active) now =
      rehydrate (rehydrate_run s worker_id ar now) worker_id active now

  unfoldable pub raise_peak : String → Float → RunState → RunState
  raise_peak worker_id util rs =
      if is_running rs.status && member worker_id rs.assigned && p.lt_float rs.peak_cpu_pct util
      then record rs { peak_cpu_pct = util }
      else rs

  -- recordPeakCPU
  unfoldable pub record_peak_cpu : Service → String → Service
  unfolding raise_peak
  record_peak_cpu s worker_id = elim (Registry.utilization s.reg worker_id) [
    | none ↦ s
    | some util ↦ record s { runs = update (raise_peak worker_id util) s.runs }
  ]

  -- ingest
  unfoldable pub ingest_batch : Service → MetricBatch → Option Service
  ingest_batch s b = elim (lookup b.run_id s.runs) [
    | none ↦ some s
    | some rs ↦ elim rs.agg [
      | none ↦ none
      | some agg ↦
          some
            (record s { runs = insert b.run_id (record rs { agg = some (ingest agg b) }) s.runs })
    ]
  ]

  -- A send that blocks: where the buffer is full the sender goroutine takes a message out first.
  unfoldable pub blocking_send :
      List (ℕ × List CoordinatorMessage)
      → ℕ
      → CoordinatorMessage
      → List (ℕ × List CoordinatorMessage)
  blocking_send chans c msg =
      let buffer : List CoordinatorMessage = or_empty (lookup c chans) in
      insert c ((if ltb (length buffer) send_cap then buffer else drop 1 buffer) ++ msg ∷ []) chans

  -- The sender goroutine of a stream takes a message.
  unfoldable pub send_next : Service → ℕ → Service
  send_next s c = record s { chans = insert c (drop 1 (or_empty (lookup c s.chans))) s.chans }

  -- What a worker sends.
  pub data WorkerMessage : Type 0 where
    register : RegisterRequest → WorkerMessage
    heartbeat : (worker_id : String) → Stats → WorkerMessage
    metrics : MetricBatch → WorkerMessage
    finished : RunFinished → WorkerMessage

  -- A register message on the stream whose send channel is `send`.
  unfoldable pub register_worker : Service → RegisterRequest → ℕ → ℕ → Service
  register_worker s reg send now =
      let added = record s { reg = Registry.add s.reg reg send now } in
      let known : Service = rehydrate added reg.worker_id reg.active_runs now in
      drain
        (record known { chans = blocking_send known.chans send (register_ack reg.worker_id 2000) })
        now

  -- The body of the receive loop of Connect.
  unfoldable pub receive : Service → ℕ → WorkerMessage → ℕ → Option Service
  unfolding register_worker
  receive s send (register reg) now = some (register_worker s reg send now)
  receive s send (heartbeat worker_id stats) now =
      some (record_peak_cpu (record s { reg = Registry.touch s.reg worker_id stats now }) worker_id)
  receive s send (metrics b) now = ingest_batch s b
  receive s send (finished f) now = some (worker_finished s f now)

  -- The deferred teardown of Connect, with the id registered on the stream, if any.
  unfoldable pub disconnect : Service → String → ℕ → Service
  disconnect s worker_id send =
      if worker_id == "" then s else record s { reg = (Registry.remove s.reg worker_id send).0 }

  abbrev pub call_on_stop : Service → String → Option Reason → ℕ → Service
  call_on_stop s id none now = s
  call_on_stop s id (some reason) now = auto_stop_run s id reason now

  -- The aggregator of a run finalizes: every second while it is live.
  unfoldable pub tick_run : Service → String → ℕ → Service
  tick_run s id now = elim (lookup id s.runs) [
    | none ↦ s
    | some rs ↦ elim rs.agg [
      | none ↦ s
      | some agg ↦
          if not rs.agg_live
          then s
          else let (agg', out, reason) = finalize agg now in
            call_on_stop (record s { runs = insert id (record rs { agg = some agg' }) s.runs }) id
              reason now
    ]
  ]

  -- The aggregator of a run is cancelled: it drains, and its goroutine ends.
  unfoldable pub cancel_run : Service → String → ℕ → Service
  cancel_run s id now = elim (lookup id s.runs) [
    | none ↦ s
    | some rs ↦ elim rs.agg [
      | none ↦ s
      | some agg ↦
          if not rs.agg_live
          then s
          else let (agg', out, reason) = drain_all agg now in
            call_on_stop
              (record s {
                runs = insert id (record rs { agg = some agg'; agg_live = false }) s.runs;
              })
              id reason now
    ]
  ]

  -- A timer fires.
  unfoldable pub fire : Service → Timer → ℕ → Service
  fire s (cancel_aggregator id due) now = cancel_run s id now
  fire s (force_finalize id due) now = force_finalize_run s id not_acknowledged now
