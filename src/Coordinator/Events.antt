-- ===== src/Coordinator/Events.antt =====
-- The coordinator as a step relation: API calls, messages on the workers' streams, aggregator
-- ticks, timers and the watchdog in any order, each under the service's lock.
use loadify.Prelude.{
  ℕ, ◌≡◌, refl, subst, inl, inr, Bool, String, Option, none, some, arith, All, string_eq, ◌==◌,
  Bool-cases, Option-cases,
}
use mathlib.Core.Option.{some-injective}
use loadify.Platform.{Platform, Float}
use loadify.Wire.{StartRunRequest, RegisterRequest, MetricBatch}
use loadify.Dict.{lookup, insert}
use loadify.Breaker.{Reason}
use loadify.Aggregator.{ingest, finalize, drain_all}
use loadify.Registry.{Stats}
use loadify.Registry
use loadify.Coordinator.State.{
  RunState, Service, Timer, cancel_aggregator, force_finalize, set_limits,
}
use loadify.Coordinator.State
use loadify.Coordinator.Dispatch.{drain}
use loadify.Coordinator.Lifecycle.{start_run, stop_run}
use loadify.Coordinator.Watchdog.{reap_once}
use loadify.Coordinator.Streams.{
  rehydrate, raise_peak, record_peak_cpu, ingest_batch, register_worker, receive, WorkerMessage,
  register, heartbeat, metrics, finished, send_next, disconnect, tick_run, cancel_run, fire,
  call_on_stop,
}
use loadify.Coordinator.Queries.{stream_live}
use loadify.Coordinator.Slots.{Inv, drain_loop-Slots}
use loadify.Coordinator.Accounting.{
  Slots-same, start_run-Inv, stop_run-Inv, auto_stop_run-Inv, worker_finished-Inv,
  force_finalize-Inv,
}
use loadify.Coordinator.Rehydration.{Dispatched, rehydrate-Inv}
use loadify.Coordinator.Reaping.{Slots-update, reap_once-Inv}

module _ ⦃p : Platform⦄ where
  -- A worker message reports no run that waits in the queue.
  abbrev pub ReportsNoQueued : Service → WorkerMessage → Type 0
  ReportsNoQueued s (register reg) = All (Dispatched s.runs) reg.active_runs
  ReportsNoQueued s (heartbeat worker_id stats) = Unit
  ReportsNoQueued s (metrics b) = Unit
  ReportsNoQueued s (finished f) = Unit

  pub data Step (s : Service) : Service → Type 0 where
    starts : (req : StartRunRequest) (now : ℕ) → Step s (start_run s req now).0
    stops : (id : String) (graceful : Bool) (now : ℕ) → Step s (stop_run s id graceful now).0
    limits : (n : ℕ) (cpu mem : Float) → Step s (set_limits s n cpu mem)
    subscribes : (id : String) → Step s (stream_live s id).0
    receives :
        {t : Service} (send : ℕ) (m : WorkerMessage) (now : ℕ)
        → ReportsNoQueued s m
        → receive s send m now ≡ some t
        → Step s t
    sends : (c : ℕ) → Step s (send_next s c)
    disconnects : (worker_id : String) (send : ℕ) → Step s (disconnect s worker_id send)
    ticks : (id : String) (now : ℕ) → Step s (tick_run s id now)
    fires : (timer : Timer) (now : ℕ) → Step s (fire s timer now)
    reaps : (now : ℕ) → Step s (reap_once s now)

  -- The service as it starts, and what it can become.
  pub data Reachable : Service → Type 0 where
    initial : (writer : Bool) → Reachable (State.new writer)
    next : {s t : Service} → Reachable s → Step s t → Reachable t

  raise_peak-slot :
      (w : String) (util : Float) (rs : RunState) → (raise_peak w util rs).slot_held ≡ rs.slot_held
  unfolding raise_peak
  raise_peak-slot w util rs = ground arith

  record_peak_cpu-Inv : (s : Service) (w : String) → Inv s → Inv (record_peak_cpu s w)
  unfolding record_peak_cpu
  record_peak_cpu-Inv s w v = elim (Option-cases (Registry.utilization s.reg w)) [
    | inl e ↦ rw (e, record_peak_cpu) v
    | inr (util, e) ↦
        rw (e, record_peak_cpu)
          (Slots-update (raise_peak w util) (raise_peak-slot w util) s.running s.runs s.queue v)
  ]

  register_worker-Inv :
      (s : Service) (reg : RegisterRequest) (send now : ℕ)
      → All (Dispatched s.runs) reg.active_runs
      → Inv s
      → Inv (register_worker s reg send now)
  unfolding register_worker drain
  register_worker-Inv s reg send now d v =
      let added = record s { reg = Registry.add s.reg reg send now } in
      let known = rehydrate added reg.worker_id reg.active_runs now in
      drain_loop-Slots known.queue _ now (rehydrate-Inv reg.active_runs added reg.worker_id now d v)

  ingest_batch-Inv : (s t : Service) (b : MetricBatch) → Inv s → ingest_batch s b ≡ some t → Inv t
  unfolding ingest_batch
  ingest_batch-Inv s t b v e = elim (Option-cases (lookup b.run_id s.runs)) [
    | inl unknown ↦ let same : s ≡ t = ground (arith, e, unknown) in subst Inv same v
    | inr (rs, found) ↦ elim (Option-cases rs.agg) [
      | inl missing ↦ absurd (ground (arith, e, found, missing))
      | inr (agg, has) ↦
          let rs' = record rs { agg = some (ingest agg b) } in
          let same : record s { runs = insert b.run_id rs' s.runs } ≡ t =
            ground (arith, e, found, has) in
          subst Inv same (Slots-same s.running s.runs s.queue b.run_id rs rs' found refl v)
    ]
  ]

  receive-Inv :
      (s t : Service) (send : ℕ) (m : WorkerMessage) (now : ℕ)
      → ReportsNoQueued s m
      → receive s send m now ≡ some t
      → Inv s
      → Inv t
  unfolding receive
  receive-Inv s t send (register reg) now d e v =
      subst Inv (some-injective _ _ e) (register_worker-Inv s reg send now d v)
  receive-Inv s t send (heartbeat w stats) now d e v =
      subst Inv (some-injective _ _ e) (record_peak_cpu-Inv _ w v)
  receive-Inv s t send (metrics b) now d e v = ingest_batch-Inv s t b v e
  receive-Inv s t send (finished f) now d e v =
      subst Inv (some-injective _ _ e) (worker_finished-Inv s f now v)

  -- Behind an aggregator's finalization: the callback is called or not.
  call_on_stop-Inv :
      (s : Service) (id : String) (reason : Option Reason) (now : ℕ)
      → Inv s
      → Inv (call_on_stop s id reason now)
  call_on_stop-Inv s id none now v = v
  call_on_stop-Inv s id (some reason) now v = auto_stop_run-Inv s id reason now v

  tick_run-Inv : (s : Service) (id : String) (now : ℕ) → Inv s → Inv (tick_run s id now)
  unfolding tick_run
  tick_run-Inv s id now v = elim (Option-cases (lookup id s.runs)) [
    | inl e ↦ rw (e, tick_run) v
    | inr (rs, e) ↦ elim (Option-cases rs.agg) [
      | inl missing ↦ rw (e, tick_run) (simp missing v)
      | inr (agg, has) ↦ elim (Bool-cases rs.agg_live) [
        | inl live ↦
            rw (e, tick_run)
              (simp (has, live)
                (call_on_stop-Inv _ id (finalize agg now).2 now
                  (Slots-same s.running s.runs s.queue id rs _ e refl v)))
        | inr dead ↦ rw (e, tick_run) (simp (has, dead) v)
      ]
    ]
  ]

  cancel_run-Inv : (s : Service) (id : String) (now : ℕ) → Inv s → Inv (cancel_run s id now)
  unfolding cancel_run
  cancel_run-Inv s id now v = elim (Option-cases (lookup id s.runs)) [
    | inl e ↦ rw (e, cancel_run) v
    | inr (rs, e) ↦ elim (Option-cases rs.agg) [
      | inl missing ↦ rw (e, cancel_run) (simp missing v)
      | inr (agg, has) ↦ elim (Bool-cases rs.agg_live) [
        | inl live ↦
            rw (e, cancel_run)
              (simp (has, live)
                (call_on_stop-Inv _ id (drain_all agg now).2 now
                  (Slots-same s.running s.runs s.queue id rs _ e refl v)))
        | inr dead ↦ rw (e, cancel_run) (simp (has, dead) v)
      ]
    ]
  ]

  stream_live-Inv : (s : Service) (id : String) → Inv s → Inv (stream_live s id).0
  unfolding stream_live
  stream_live-Inv s id v = elim (Option-cases (lookup id s.runs)) [
    | inl e ↦ rw (e, stream_live) v
    | inr (rs, e) ↦ elim (Option-cases rs.agg) [
      | inl missing ↦ rw (e, stream_live) (simp missing v)
      | inr (agg, has) ↦
          rw (e, stream_live) (simp has (Slots-same s.running s.runs s.queue id rs _ e refl v))
    ]
  ]

  pub Step-Inv : {s t : Service} → Step s t → Inv s → Inv t
  unfolding set_limits send_next disconnect fire
  Step-Inv {s} (starts req now) v = start_run-Inv s req now v
  Step-Inv {s} (stops id graceful now) v = stop_run-Inv s id graceful now v
  Step-Inv (limits n cpu mem) v = v
  Step-Inv {s} (subscribes id) v = stream_live-Inv s id v
  Step-Inv {s} {t} (receives send m now d e) v = receive-Inv s t send m now d e v
  Step-Inv (sends c) v = v
  Step-Inv {s} (disconnects w send) v = elim (Bool-cases (w == "")) [
    | inl nameless ↦ rw nameless v
    | inr named ↦ rw named v
  ]
  Step-Inv {s} (ticks id now) v = tick_run-Inv s id now v
  Step-Inv {s} (fires (cancel_aggregator id due) now) v = cancel_run-Inv s id now v
  Step-Inv {s} (fires (force_finalize id due) now) v = force_finalize-Inv s id _ now v
  Step-Inv {s} (reaps now) v = reap_once-Inv s now v

  -- In every state that the coordinator reaches, as long as no reconnecting worker reports a run
  -- that waits in the queue: the number of slots taken is the number of runs that hold one, and
  -- each queued request stands once and is for a stored run that holds none.
  pub Reachable-Inv : {s : Service} → Reachable s → Inv s
  Reachable-Inv (initial writer) =
      unfold State.new in record { exact = refl; waiting = tt; unique = tt }
  Reachable-Inv (next r st) = Step-Inv st (Reachable-Inv r)
