-- ===== src/Coordinator/Slots.antt =====
-- The accounting of admission slots: `running` is the number of runs that hold one, and a queued
-- request holds none. The invariant is kept by a dispatch and by the drain of the queue.
use loadify.Prelude.{
  ℕ, ◌+◌, ◌<◌, ◌≡◌, ◌≢◌, refl, ◌⊎◌, inl, inr, Bool, true, false, not, String, List, [], ◌∷◌, Option,
  none, some, arith, if◌then◌else◌, All, length, nat_eq, string_eq, ==_iff, Bool-cases,
}
use loadify.Platform.{Platform}
use loadify.Wire.{StartRunRequest, CoordinatorMessage}
use loadify.Scheduler.{slice_ramp, pick_workers}
use loadify.Dict.{lookup, insert, total, measure, total-insert, lookup-insert}
use loadify.Registry.{available}
use loadify.Coordinator.State.{RunState, Service, assign_grace_ms}
use loadify.Coordinator.Dispatch.{
  ok, err, Error, failed_precondition, unavailable, is_empty, dispatch, dispatched,
  store_dispatched, assign_loop, drain_loop, can_dispatch,
}

pub List-cases {ℓ} :
    {A : Type ℓ} (xs : List A) → (xs ≡ []) ⊎ ((a : A) × (rest : List A) × (xs ≡ a ∷ rest))
List-cases [] = inl refl
List-cases (a ∷ rest) = inr (a, rest, refl)

module _ ⦃p : Platform⦄ where
  abbrev pub Runs : Type 0
  Runs = List (String × RunState)

  -- 1 for a run that holds a slot.
  abbrev pub held : RunState → ℕ
  held rs = if rs.slot_held then 1 else 0

  -- A run is stored and holds no slot.
  abbrev pub parked : Option RunState → Bool
  parked none = false
  parked (some rs) = not rs.slot_held

  abbrev pub Parked : Runs → StartRunRequest → Type 0
  Parked runs req = parked (lookup req.run_id runs) ≡ true

  -- No request of the list is for this run.
  abbrev pub Absent : String → List StartRunRequest → Type 0
  Absent id queue = All (λ req. req.run_id ≢ id) queue

  abbrev pub Unique : List StartRunRequest → Type 0
  Unique [] = Unit
  Unique (req ∷ queue) = Absent req.run_id queue × Unique queue

  -- The slots taken are those of the runs that hold one, and each queued request stands once and
  -- is for a stored run that holds none.
  pub record Slots (running : ℕ) (runs : Runs) (queue : List StartRunRequest) : Type 0 where
    pub exact : running ≡ total held runs
    pub waiting : All (Parked runs) queue
    pub unique : Unique queue

  abbrev pub Inv : Service → Type 0
  Inv s = Slots s.running s.runs s.queue

  -- Storing a run of another id keeps the requests parked.
  pub Parked-insert :
      (id : String) (rs : RunState) (runs : Runs) (queue : List StartRunRequest)
      → Absent id queue
      → All (Parked runs) queue
      → All (Parked (insert id rs runs)) queue
  Parked-insert id rs runs [] a w = tt
  Parked-insert id rs runs (req ∷ queue) a w = (
    ground (arith, lookup-insert id req.run_id rs runs, ==_iff id req.run_id, a.0, w.0),
    Parked-insert id rs runs queue a.1 w.1,
  )

  -- What a dispatch does to the slots: nothing if it fails, and one slot for the run otherwise.
  pub data Dispatches (s : Service) (req : StartRunRequest) (now : ℕ) : Type 0 where
    fails :
        (e : Error)
        → (dispatch s req now).1 ≡ err e
        → (dispatch s req now).0.runs ≡ s.runs
        → (dispatch s req now).0.running ≡ s.running
        → (dispatch s req now).0.queue ≡ s.queue
        → Dispatches s req now
    starts :
        (assigned : List String)
        → (dispatch s req now).1 ≡ ok (length assigned)
        → 0 < length assigned
        → (dispatch s req now).0.runs ≡ insert req.run_id (dispatched s req assigned now) s.runs
        → (dispatch s req now).0.running ≡ s.running + 1
        → (dispatch s req now).0.queue ≡ s.queue
        → Dispatches s req now

  abbrev pub attempt :
      Service → StartRunRequest → ℕ → List String × List (ℕ × List CoordinatorMessage)
  attempt s req now =
      let workers =
        pick_workers (available s.reg req.protocol s.cpu_max s.mem_max now) req.desired_workers in
      assign_loop req (slice_ramp req.ramp (length workers)) (now + assign_grace_ms) 0 workers []
        s.chans

  pub dispatch_cases : (s : Service) (req : StartRunRequest) (now : ℕ) → Dispatches s req now
  unfolding dispatch store_dispatched
  dispatch_cases s req now =
      let cs = available s.reg req.protocol s.cpu_max s.mem_max now in
      elim (Bool-cases (is_empty cs)) [
        | inl nobody ↦
            fails failed_precondition (ground (arith, nobody)) (ground (arith, nobody))
              (ground (arith, nobody)) (ground (arith, nobody))
        | inr some_worker ↦ elim (List-cases (attempt s req now).0) [
          | inl none_sent ↦
              fails unavailable (ground (arith, some_worker, none_sent))
                (ground (arith, some_worker, none_sent)) (ground (arith, some_worker, none_sent))
                (ground (arith, some_worker, none_sent))
          | inr (a, rest, sent) ↦
              starts (a ∷ rest) (ground (arith, some_worker, sent)) (omega arith)
                (ground (arith, some_worker, sent)) (ground (arith, some_worker, sent))
                (ground (arith, some_worker, sent))
        ]
      ]

  pub dispatched_holds :
      (s : Service) (req : StartRunRequest) (assigned : List String) (now : ℕ)
      → (dispatched s req assigned now).slot_held ≡ true
  unfolding dispatched
  dispatched_holds s req assigned now = refl

  -- A run that holds no slot takes one.
  pub Slots-take :
      (running : ℕ) (runs : Runs) (queue : List StartRunRequest) (id : String) (rs : RunState)
      → Slots running runs queue
      → measure held (lookup id runs) ≡ 0
      → rs.slot_held ≡ true
      → Absent id queue
      → Slots (running + 1) (insert id rs runs) queue
  Slots-take running runs queue id rs v free holds absent = record {
    exact = ground (arith, total-insert held id rs runs, v.exact);
    waiting = Parked-insert id rs runs queue absent v.waiting;
    unique = v.unique;
  }

  parked-free : (o : Option RunState) → parked o ≡ true → measure held o ≡ 0
  parked-free none h = absurd (cc h)
  parked-free (some rs) h = ground arith

  pub Slots-at :
      {running running' : ℕ} {runs runs' : Runs} (queue : List StartRunRequest)
      → running' ≡ running
      → runs' ≡ runs
      → Slots running runs queue
      → Slots running' runs' queue
  Slots-at queue e f v = rw (e, f) v

  -- The drain of a queue keeps the accounting.
  pub drain_loop-Slots :
      (queue : List StartRunRequest) (s : Service) (now : ℕ)
      → Slots s.running s.runs queue
      → Inv (drain_loop queue s now)
  unfolding drain_loop
  drain_loop-Slots [] s now v = v
  drain_loop-Slots (req ∷ rest) s now v =
      let s0 = record s { queue = rest } in
      elim (Bool-cases (can_dispatch s req.protocol now)) [
        | inl can ↦ elim (dispatch_cases s0 req now) [
          | fails e r runs' running' queue' ↦
              rw (can, drain_loop, r) (Slots-at (req ∷ rest) running' runs' v)
          | starts assigned r some_worker runs' running' queue' ↦
              rw (can, drain_loop, r)
                (drain_loop-Slots rest (dispatch s0 req now).0 now (
                  Slots-at rest running' runs' (
                    Slots-take s.running s.runs rest req.run_id (dispatched s0 req assigned now)
                      (record { exact = v.exact; waiting = v.waiting.1; unique = v.unique.1 })
                      (parked-free (lookup req.run_id s.runs) v.waiting.0)
                      (dispatched_holds s0 req assigned now) v.unique.0)))
        ]
        | inr cannot ↦ rw (cannot, drain_loop) v
      ]
