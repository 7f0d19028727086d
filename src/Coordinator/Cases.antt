-- ===== src/Coordinator/Cases.antt =====
-- The operations that finish and stop runs, case by case: what is to be shown of a property of
-- the service for it to hold behind the operation.
use loadify.Prelude.{
  ℕ, ◌+◌, ◌-◌, ◌≡◌, inl, inr, Bool, true, false, String, List, [], ◌∷◌, ◌++◌, some, leb, length,
  string_eq, Bool-cases, Option-cases,
}
use loadify.Platform.{Platform}
use loadify.Wire.{RunStatus, completed, aborted, RunFinished}
use loadify.Dict.{lookup, insert}
use loadify.Breaker.{Reason}
use loadify.Coordinator.State.{RunState, Service, Timer, force_finalize, is_zero, stop_grace_ms}
use loadify.Coordinator.Dispatch.{drain}
use loadify.Coordinator.Lifecycle.{
  ended_run, finalize_locked, stop_aggregator_after_grace, reported, worker_finished,
  force_finalize_run, is_forceable, forced, signal_stop, stopped_run, stop_run, auto_stop_run,
}

module _ ⦃p : Platform⦄ (P : Service → Type 0) where
  pub finalize_cases :
      (s : Service) (id : String) (fallback : RunStatus) (now : ℕ)
      → P s
      → ((rs : RunState)
          → lookup id s.runs ≡ some rs
          → is_zero rs.ended_at ≡ true
          → rs.slot_held ≡ true
          → P (
              drain
                (record s {
                  runs = insert id (ended_run rs fallback now) s.runs;
                  running = s.running - 1;
                })
                now))
      → ((rs : RunState)
          → lookup id s.runs ≡ some rs
          → is_zero rs.ended_at ≡ true
          → rs.slot_held ≡ false
          → P (record s { runs = insert id (ended_run rs fallback now) s.runs }))
      → P (finalize_locked s id fallback now).0
  unfolding finalize_locked
  finalize_cases s id fallback now same freed stored = elim (Option-cases (lookup id s.runs)) [
    | inl e ↦ rw (e, finalize_locked) same
    | inr (rs, e) ↦ elim (Bool-cases (is_zero rs.ended_at)) [
      | inl open' ↦ elim (Bool-cases rs.slot_held) [
        | inl h ↦ rw (e, finalize_locked, open') (simp h (freed rs e open' h))
        | inr h ↦ rw (e, finalize_locked, open') (simp h (stored rs e open' h))
      ]
      | inr over ↦ rw (e, finalize_locked, over) same
    ]
  ]

  -- The property does not depend on the timers.
  module _
      (timers_free : (s : Service) (ts : List Timer) → P s → P (record s { timers = ts })) where
    after_grace :
        (r : Service × Bool) (id : String) (now : ℕ)
        → P r.0
        → P (stop_aggregator_after_grace r id now)
    unfolding stop_aggregator_after_grace
    after_grace (s, true) id now h = timers_free s _ h
    after_grace (s, false) id now h = h

    pub worker_finished_cases :
        (s : Service) (f : RunFinished) (now : ℕ)
        → P s
        → ((rs : RunState)
            → lookup f.run_id s.runs ≡ some rs
            → let s' = record s { runs = insert f.run_id (reported rs f) s.runs } in
              P s' × P (finalize_locked s' f.run_id completed now).0)
        → P (worker_finished s f now)
    unfolding worker_finished
    worker_finished_cases s f now same done = elim (Option-cases (lookup f.run_id s.runs)) [
      | inl e ↦ rw (e, worker_finished) same
      | inr (rs, e) ↦
          let rs' = reported rs f in
          let (kept, ended) = done rs e in
          elim (Bool-cases (leb (length rs'.assigned) (length rs'.finished))) [
            | inl all' ↦ rw (e, worker_finished, all') (after_grace _ f.run_id now ended)
            | inr some' ↦ rw (e, worker_finished, some') kept
          ]
    ]

    pub force_finalize_cases :
        (s : Service) (id : String) (reason : Reason) (now : ℕ)
        → P s
        → ((rs : RunState)
            → lookup id s.runs ≡ some rs
            → is_forceable rs ≡ true
            → P
                (finalize_locked
                  (record s { runs = insert id (forced rs reason) s.runs })
                  id
                  aborted
                  now).0)
        → P (force_finalize_run s id reason now)
    unfolding force_finalize_run
    force_finalize_cases s id reason now same done = elim (Option-cases (lookup id s.runs)) [
      | inl e ↦ rw (e, force_finalize_run) same
      | inr (rs, e) ↦ elim (Bool-cases (is_forceable rs)) [
        | inl can ↦ rw (e, force_finalize_run, can) (after_grace _ id now (done rs e can))
        | inr cannot ↦ rw (e, force_finalize_run, cannot) same
      ]
    ]

  pub stop_cases :
      (s : Service) (id : String) (graceful : Bool) (now : ℕ)
      → P s
      → ((rs : RunState)
          → lookup id s.runs ≡ some rs
          → P (record s {
            runs = insert id (stopped_run rs now) s.runs;
            chans = signal_stop s.reg id graceful rs.assigned s.chans;
            timers = s.timers ++ force_finalize id (now + stop_grace_ms) ∷ [];
          }))
      → P (stop_run s id graceful now).0
  unfolding stop_run
  stop_cases s id graceful now same stopped = elim (Option-cases (lookup id s.runs)) [
    | inl e ↦ rw (e, stop_run) same
    | inr (rs, e) ↦ rw (e, stop_run) (stopped rs e)
  ]

  pub auto_stop_cases :
      (s : Service) (id : String) (reason : Reason) (now : ℕ)
      → P (stop_run s id true now).0
      → ((rs : RunState)
          → lookup id s.runs ≡ some rs
          → P
              (stop_run
                (record s {
                  runs = insert id (record rs { status = aborted; reason = reason }) s.runs;
                })
                id
                true
                now).0)
      → P (auto_stop_run s id reason now)
  unfolding auto_stop_run
  auto_stop_cases s id reason now same stopped = elim (Option-cases (lookup id s.runs)) [
    | inl e ↦ rw (e, auto_stop_run) same
    | inr (rs, e) ↦ rw (e, auto_stop_run) (stopped rs e)
  ]
