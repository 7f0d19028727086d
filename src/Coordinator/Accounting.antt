-- ===== src/Coordinator/Accounting.antt =====
-- Every operation of the coordinator keeps the accounting of slots.
use loadify.Prelude.{
  ℕ, ◌-◌, ◌≤◌, ◌≡◌, ◌≢◌, refl, sym, ◌∙◌, inl, inr, Bool, true, false, String, List, [], ◌∷◌, ◌++◌,
  none, some, arith, All, All-append, nat_eq, string_eq, ◌==◌, ==_iff, Bool-cases, Option-cases,
}
use loadify.Platform.{Platform}
use loadify.Wire.{RunStatus, completed, aborted, StartRunRequest, RunFinished}
use loadify.Dict.{lookup, insert, total-insert, lookup-insert}
use loadify.Breaker.{Reason}
use loadify.Coordinator.State.{RunState, Service, Timer, fresh_run}
use loadify.Coordinator.Dispatch.{dispatch, dispatched, drain, can_dispatch}
use loadify.Coordinator.Lifecycle.{
  start_run, ended_run, finalize_locked, reported, worker_finished, force_finalize_run, forced,
  stopped_run, stop_run, auto_stop_run,
}
use loadify.Coordinator.Cases.{
  finalize_cases, worker_finished_cases, force_finalize_cases, stop_cases, auto_stop_cases,
}
use loadify.Coordinator.Slots.{
  Runs, held, Parked, Absent, Unique, Slots, Inv, Parked-insert, drain_loop-Slots, dispatch_cases,
  fails, starts, Slots-take, Slots-at, dispatched_holds,
}

module _ ⦃p : Platform⦄ where
  -- Storing a run anew that keeps its slot or lack of one, or that gives its slot up.
  Parked-same :
      (id : String) (rs rs' : RunState) (runs : Runs) (queue : List StartRunRequest)
      → lookup id runs ≡ some rs
      → (rs'.slot_held ≡ true → rs.slot_held ≡ true)
      → All (Parked runs) queue
      → All (Parked (insert id rs' runs)) queue
  Parked-same id rs rs' runs [] e h w = tt
  Parked-same id rs rs' runs (req ∷ queue) e h w = (
    ground (arith, e, lookup-insert id req.run_id rs' runs, ==_iff id req.run_id, w.0),
    Parked-same id rs rs' runs queue e h w.1,
  )

  pub Slots-same :
      (running : ℕ) (runs : Runs) (queue : List StartRunRequest) (id : String) (rs rs' : RunState)
      → lookup id runs ≡ some rs
      → rs'.slot_held ≡ rs.slot_held
      → Slots running runs queue
      → Slots running (insert id rs' runs) queue
  Slots-same running runs queue id rs rs' e h v = record {
    exact = ground (arith, total-insert held id rs' runs, v.exact, e);
    waiting = Parked-same id rs rs' runs queue e (λ x. sym h ∙ x) v.waiting;
    unique = v.unique;
  }

  Slots-release :
      (running : ℕ) (runs : Runs) (queue : List StartRunRequest) (id : String) (rs rs' : RunState)
      → lookup id runs ≡ some rs
      → rs.slot_held ≡ true
      → rs'.slot_held ≡ false
      → Slots running runs queue
      → (1 ≤ running) × Slots (running - 1) (insert id rs' runs) queue
  Slots-release running runs queue id rs rs' e h h' v = (
    ground (arith, total-insert held id rs' runs, v.exact, e),
    record {
      exact = ground (arith, total-insert held id rs' runs, v.exact, e);
      waiting = Parked-same id rs rs' runs queue e (λ x. h) v.waiting;
      unique = v.unique;
    },
  )

  drain-Inv : (s : Service) (now : ℕ) → Inv s → Inv (drain s now)
  unfolding drain
  drain-Inv s now v = drain_loop-Slots s.queue s now v

  pub finalize_locked-Inv :
      (s : Service) (id : String) (fallback : RunStatus) (now : ℕ)
      → Inv s
      → Inv (finalize_locked s id fallback now).0
  unfolding ended_run
  finalize_locked-Inv s id fallback now v =
      finalize_cases Inv s id fallback now v
        (λ rs e open' h.
          drain-Inv _ now
            (Slots-release s.running s.runs s.queue id rs (ended_run rs fallback now) e h refl v).1)
        (λ rs e open' h.
          Slots-same s.running s.runs s.queue id rs (ended_run rs fallback now) e (sym h) v)

  timers-Inv : (s : Service) (ts : List Timer) → Inv s → Inv (record s { timers = ts })
  timers-Inv s ts v = v

  pub worker_finished-Inv :
      (s : Service) (f : RunFinished) (now : ℕ) → Inv s → Inv (worker_finished s f now)
  unfolding reported
  worker_finished-Inv s f now v = worker_finished_cases Inv timers-Inv s f now v λ rs e.
      let kept = Slots-same s.running s.runs s.queue f.run_id rs (reported rs f) e refl v in
      (kept, finalize_locked-Inv _ f.run_id completed now kept)

  pub force_finalize-Inv :
      (s : Service) (id : String) (reason : Reason) (now : ℕ)
      → Inv s
      → Inv (force_finalize_run s id reason now)
  unfolding forced
  force_finalize-Inv s id reason now v =
      force_finalize_cases Inv timers-Inv s id reason now v λ rs e can.
        finalize_locked-Inv _ id aborted now
          (Slots-same s.running s.runs s.queue id rs (forced rs reason) e refl v)

  pub stop_run-Inv :
      (s : Service) (id : String) (graceful : Bool) (now : ℕ)
      → Inv s
      → Inv (stop_run s id graceful now).0
  unfolding stopped_run
  stop_run-Inv s id graceful now v =
      stop_cases Inv s id graceful now v
        λ rs e. Slots-same s.running s.runs s.queue id rs (stopped_run rs now) e refl v

  pub auto_stop_run-Inv :
      (s : Service) (id : String) (reason : Reason) (now : ℕ)
      → Inv s
      → Inv (auto_stop_run s id reason now)
  auto_stop_run-Inv s id reason now v =
      auto_stop_cases Inv s id reason now (stop_run-Inv s id true now v) λ rs e.
        stop_run-Inv _ id true now (
          Slots-same s.running s.runs s.queue id rs
            (record rs { status = aborted; reason = reason }) e refl v)

  -- A run that is not stored is not queued.
  pub unknown-Absent :
      (id : String) (runs : Runs) (queue : List StartRunRequest)
      → lookup id runs ≡ none
      → All (Parked runs) queue
      → Absent id queue
  unknown-Absent id runs [] e w = tt
  unknown-Absent id runs (req ∷ queue) e w =
      (λ same. ground (arith, same, e, w.0), unknown-Absent id runs queue e w.1)

  Unique-append :
      (queue : List StartRunRequest) (req : StartRunRequest)
      → Absent req.run_id queue
      → Unique queue
      → Unique (queue ++ req ∷ [])
  Unique-append [] req a u = (tt, tt)
  Unique-append (r ∷ queue) req a u = (
    All-append (λ (q : StartRunRequest). q.run_id ≢ r.run_id) queue (req ∷ []) u.0
        (λ same. a.0 (sym same), tt),
    Unique-append queue req a.1 u.1,
  )

  Slots-queue :
      (running : ℕ) (runs : Runs) (queue : List StartRunRequest) (req : StartRunRequest)
      (rs : RunState)
      → lookup req.run_id runs ≡ none
      → rs.slot_held ≡ false
      → Slots running runs queue
      → Slots running (insert req.run_id rs runs) (queue ++ req ∷ [])
  Slots-queue running runs queue req rs e h v =
      let absent = unknown-Absent req.run_id runs queue e v.waiting in
      record {
        exact = ground (arith, total-insert held req.run_id rs runs, v.exact, e);
        waiting =
            All-append (Parked (insert req.run_id rs runs)) queue (req ∷ [])
              (Parked-insert req.run_id rs runs queue absent v.waiting)
              (
                ground (
                  arith,
                  lookup-insert req.run_id req.run_id rs runs,
                  ==_iff req.run_id req.run_id,
                ),
                tt,
              );
        unique = Unique-append queue req absent v.unique;
      }

  dispatch-Inv :
      (s : Service) (req : StartRunRequest) (now : ℕ)
      → lookup req.run_id s.runs ≡ none
      → Inv s
      → Inv (dispatch s req now).0
  dispatch-Inv s req now e v = elim (dispatch_cases s req now) [
    | fails err' r runs' running' queue' ↦ rw queue' (Slots-at s.queue running' runs' v)
    | starts assigned r some_worker runs' running' queue' ↦ rw queue' (
        Slots-at s.queue running' runs' (
          Slots-take s.running s.runs s.queue req.run_id (dispatched s req assigned now) v
            (ground (arith, e)) (dispatched_holds s req assigned now)
            (unknown-Absent req.run_id s.runs s.queue e v.waiting)))
  ]

  pub start_run-Inv :
      (s : Service) (req : StartRunRequest) (now : ℕ) → Inv s → Inv (start_run s req now).0
  unfolding start_run
  start_run-Inv s req now v = elim (Bool-cases (req.run_id == "")) [
    | inl nameless ↦ rw nameless v
    | inr named ↦ elim (Option-cases (lookup req.run_id s.runs)) [
      | inr (rs, e) ↦ rw (named, start_run, e) v
      | inl e ↦ elim (Bool-cases (can_dispatch s req.protocol now)) [
        | inl can ↦ rw (named, start_run, e, can) (dispatch-Inv s req now e v)
        | inr cannot ↦
            rw (named, start_run, e, cannot)
              (Slots-queue s.running s.runs s.queue req _ e (unfold fresh_run in refl) v)
      ]
    ]
  ]
