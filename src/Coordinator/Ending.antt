-- ===== src/Coordinator/Ending.antt =====
-- The end of a run: `finalizeLocked` writes its verdict once, and a stopped run that its workers
-- do not report is ended as aborted when the stop's grace has passed.
use loadify.Prelude.{
  ℕ, ◌+◌, ◌++◌, length, drop, ◌≡◌, refl, sym, ap, ◌∙◌, inl, inr, Bool, true, false, String, List,
  [], ◌∷◌, some, arith, All, if◌then◌else◌, string_eq, ==_iff, Bool-cases,
}
use loadify.Platform.{Platform}
use loadify.Wire.{RunStatus, aborted, StartRunRequest}
use loadify.Dict.{lookup, insert, lookup-insert}
use loadify.Breaker.{Reason, stopped_by_user, not_acknowledged}
use loadify.Coordinator.State.{
  RunState, Service, is_running, is_zero, Timer, cancel_aggregator, force_finalize, stop_grace_ms,
}
use loadify.Coordinator.Streams.{fire}
use loadify.Coordinator.Lifecycle.{
  ended_run, finalize_locked, stop_run, stopped_run, force_finalize_run, forced, is_forceable,
  stop_aggregator_after_grace,
}
use loadify.Coordinator.Slots.{Runs, Absent, Parked, parked, Inv}
use loadify.Coordinator.Queueing.{drain_untouched}

module _ ⦃p : Platform⦄ where
  drop_append_length : {A : Type 0} (xs ys : List A) → drop (length xs) (xs ++ ys) ≡ ys
  drop_append_length [] ys = refl
  drop_append_length (x ∷ xs) ys = drop_append_length xs ys

  -- A stored run that holds a slot is not in the queue.
  pub held-Absent :
      (id : String) (rs : RunState) (runs : Runs) (queue : List StartRunRequest)
      → lookup id runs ≡ some rs
      → rs.slot_held ≡ true
      → All (Parked runs) queue
      → Absent id queue
  held-Absent id rs runs [] e h w = tt
  held-Absent id rs runs (req ∷ queue) e h w = (
    λ same. cc (sym w.0 ∙ ap (λ i. parked (lookup i runs)) same ∙ ap parked e, h),
    held-Absent id rs runs queue e h w.1,
  )

  pub lookup-insert_same :
      (id : String) (rs : RunState) (runs : Runs) → lookup id (insert id rs runs) ≡ some rs
  lookup-insert_same id rs runs = ground (arith, lookup-insert id id rs runs, ==_iff id id)

  -- A run that has not ended and is not in the queue.
  lookup-finalize_locked :
      (s : Service) (id : String) (fallback : RunStatus) (now : ℕ) (rs : RunState)
      → Absent id s.queue
      → lookup id s.runs ≡ some rs
      → is_zero rs.ended_at ≡ true
      → lookup id (finalize_locked s id fallback now).0.runs ≡ some (ended_run rs fallback now)
  unfolding finalize_locked
  lookup-finalize_locked s id fallback now rs a e live = elim (Bool-cases rs.slot_held) [
    | inl h ↦
        rw (e, finalize_locked, live)
          (simp h
            (drain_untouched _ now id a ∙ lookup-insert_same id (ended_run rs fallback now) s.runs))
    | inr h ↦
        rw (e, finalize_locked, live)
          (simp h (lookup-insert_same id (ended_run rs fallback now) s.runs))
  ]

  pub lookup-stop_run :
      (s : Service) (id : String) (graceful : Bool) (now : ℕ) (rs : RunState)
      → lookup id s.runs ≡ some rs
      → lookup id (stop_run s id graceful now).0.runs ≡ some (stopped_run rs now)
  unfolding stop_run
  lookup-stop_run s id graceful now rs e =
      rw (e, stop_run) (lookup-insert_same id (stopped_run rs now) s.runs)

  lookup-after_grace :
      (r : Service × Bool) (id j : String) (now : ℕ)
      → lookup j (stop_aggregator_after_grace r id now).runs ≡ lookup j r.0.runs
  unfolding stop_aggregator_after_grace
  lookup-after_grace (s, true) id j now = refl
  lookup-after_grace (s, false) id j now = refl

  pub lookup-force_finalize_run :
      (s : Service) (id : String) (reason : Reason) (now : ℕ) (rs : RunState)
      → Absent id s.queue
      → lookup id s.runs ≡ some rs
      → is_forceable rs ≡ true
      → is_zero rs.ended_at ≡ true
      → lookup id (force_finalize_run s id reason now).runs
        ≡ some (ended_run (forced rs reason) aborted now)
  unfolding force_finalize_run
  lookup-force_finalize_run s id reason now rs a e can live =
      rw (e, force_finalize_run, can)
        (lookup-after_grace _ id id now
          ∙ lookup-finalize_locked (record s { runs = insert id (forced rs reason) s.runs }) id
              aborted now (forced rs reason) a (lookup-insert_same id (forced rs reason) s.runs)
              (unfold forced in live))

  stopped_run-forceable :
      (rs : RunState) (now : ℕ)
      → rs.slot_held ≡ true
      → is_zero rs.ended_at ≡ true
      → is_forceable (stopped_run rs now) ≡ true
  unfolding stopped_run is_forceable
  stopped_run-forceable rs now h live = ground (arith, h, live)

  -- The run that a stop and its force leave.
  abbrev pub stopped_and_forced : RunState → ℕ → ℕ → RunState
  stopped_and_forced rs now later = record rs {
    status = aborted;
    reason = stopped_by_user;
    abort_at = if is_zero rs.abort_at then some now else rs.abort_at;
    ended_at = some later;
    slot_held = false;
  }

  verdict :
      (rs : RunState) (reason : Reason) (now later : ℕ)
      → is_running rs.status ≡ true
      → ended_run (forced (stopped_run rs now) reason) aborted later
        ≡ stopped_and_forced rs now later
  unfolding ended_run forced stopped_run
  verdict rs reason now later h = simp h refl

  abbrev due_of : Timer → ℕ
  due_of (cancel_aggregator id due) = due
  due_of (force_finalize id due) = due

  -- Timers fire one after the other, each with a delay behind the time that it is set to.
  unfoldable pub fire_all : List Timer → ℕ → Service → Service
  fire_all [] delay s = s
  fire_all (timer ∷ timers) delay s = fire_all timers delay (fire s timer (due_of timer + delay))

  stop_run-timers :
      (s : Service) (id : String) (graceful : Bool) (now : ℕ) (rs : RunState)
      → lookup id s.runs ≡ some rs
      → drop (length s.timers) (stop_run s id graceful now).0.timers
        ≡ force_finalize id (now + stop_grace_ms) ∷ []
  unfolding stop_run
  stop_run-timers s id graceful now rs e =
      rw (e, stop_run) (drop_append_length s.timers (force_finalize id (now + stop_grace_ms) ∷ []))

  -- Where the slots are accounted for, a running run that holds a slot, has not ended and is stopped
  -- by the user: in every later state with the same accounting in which its workers have not
  -- reported it, so that it is stored as the stop left it, the timers that the stop has set end it
  -- when they fire, at the end of the stop's grace or later. It is then stored as aborted with the
  -- user's reason, ended at that time and without a slot.
  pub stop_then_force :
      (s u : Service) (id : String) (graceful : Bool) (now delay : ℕ) (rs : RunState)
      → Inv s
      → Inv u
      → lookup id s.runs ≡ some rs
      → rs.slot_held ≡ true
      → is_running rs.status ≡ true
      → is_zero rs.ended_at ≡ true
      → lookup id u.runs ≡ lookup id (stop_run s id graceful now).0.runs
      → lookup id
          (fire_all (drop (length s.timers) (stop_run s id graceful now).0.timers) delay u).runs
        ≡ some (stopped_and_forced rs now (now + stop_grace_ms + delay))
  unfolding fire fire_all
  stop_then_force s u id graceful now delay rs v w e h runs' live same =
      let left = same ∙ lookup-stop_run s id graceful now rs e in
      let later = now + stop_grace_ms + delay in
      let held : (stopped_run rs now).slot_held ≡ true = unfold stopped_run in h in
      ap (λ ts. lookup id (fire_all ts delay u).runs) (stop_run-timers s id graceful now rs e)
      ∙ lookup-force_finalize_run u id not_acknowledged later (stopped_run rs now)
          (held-Absent id (stopped_run rs now) u.runs u.queue left held w.waiting) left
          (stopped_run-forceable rs now h live) (unfold stopped_run in live)
      ∙ ap some (verdict rs not_acknowledged now later runs')
