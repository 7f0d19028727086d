-- ===== src/Executor/Arrival.antt =====
-- internal/worker/executor/arrival.go: the open model, which starts iterations at the rate of the
-- ramp. The job channel is its length; the workers are counted by where they stand in `worker`,
-- and an operation is one load, store, send or receive of the code, so that any interleaving of
-- the pacer and the workers is a sequence of them. The timer of an idle worker fires at any time.
pub mod Counts
pub mod Ending
pub mod Ticks
use loadify.Prelude.{
  ℕ, zero, suc, ◌+◌, ◌-◌, ◌*◌, Bool, true, false, ◌&&◌, ◌||◌, not, Option, none, some, List, [],
  ◌∷◌, ltb, eqb, if◌then◌else◌, ℤ, pos, negsuc, min,
}
use loadify.Platform.{Platform, Float}
use loadify.Executor.Ramp.{Ramp, rate_at, peak_rps}
use loadify.Executor.Limits.{clamp_vus}

-- A signed MaxVUs that is not positive asks for a default.
unfoldable pub requested : ℤ → ℕ
requested (pos n) = n
requested (negsuc n) = 0

-- The branches of `worker`; a branch that no worker can take gives `none`.
pub data Work : Type 0 where
  take_job : Work
  begin : Work
  finish : Work
  retire : Work
  quit : Work
  leave : Work

-- A step of the run: of the pacer while it has not closed the channel, of the context, or of a
-- worker.
pub data Move : Type 0 where
  paces : Ramp → ℕ → Move
  offers : Move
  measures : Move
  grows : Move
  cancels : Move
  closes : Move
  works : Work → Move

module _ ⦃p : Platform⦄ where
  -- ArrivalExecutor with the variables of Run: `due` is what is left of the pacer's loop, `need`
  -- its last reading of the demand. Of the workers, `idle` wait in the select, `holding` have
  -- received a job, `running` work on one, and `leaving` have returned from the loop. `scheduled`
  -- and `iterations` count the iterations asked for and ended.
  pub record Arrivals : Type 0 where
    pub max_vus : ℕ
    pub busy : ℕ
    pub dropped : ℕ
    pub jobs : ℕ
    pub pool : ℕ
    pub acc : p.Float
    pub due : ℕ
    pub need : ℕ
    pub idle : ℕ
    pub holding : ℕ
    pub running : ℕ
    pub leaving : ℕ
    pub scheduled : ℕ
    pub iterations : ℕ
    pub cancelled : Bool
    pub closed : Bool

  -- The pool's ceiling of NewArrival; `limit` is maxVUsPerWorker.
  unfoldable pub arrival_max_vus : Ramp → ℤ → ℤ → ℕ
  arrival_max_vus ramp wish limit =
      let derived = peak_rps ramp * 5 + 100 in
      clamp_vus (if eqb (requested wish) 0 then derived else requested wish) limit

  -- spawn
  unfoldable pub spawn : Arrivals → Arrivals
  spawn a = record a { pool = a.pool + 1; idle = a.idle + 1 }

  -- Run, up to its loop
  unfoldable pub start : ℕ → Arrivals
  unfolding spawn
  start max_vus = spawn record {
    max_vus = max_vus;
    busy = 0;
    dropped = 0;
    jobs = 0;
    pool = 0;
    acc = p.of_int 0;
    due = 0;
    need = 0;
    idle = 0;
    holding = 0;
    running = 0;
    leaving = 0;
    scheduled = 0;
    iterations = 0;
    cancelled = false;
    closed = false;
  }

  -- pacerInterval.Seconds()
  abbrev pub pacer_seconds : p.Float
  pacer_seconds = p.add_float (p.of_int 0) (p.div_float (p.of_int 50000000) (p.of_int 1000000000))

  -- What is due at a tick.
  unfoldable pub pace : Ramp → ℕ → Arrivals → Arrivals
  pace ramp elapsed a =
      let acc = p.add_float a.acc (p.mul_float (rate_at ramp elapsed) pacer_seconds) in
      let n = p.to_int acc in
      record a { acc = p.sub_float acc (p.of_int n); due = n; scheduled = a.scheduled + n }

  -- One round of the loop that sends what is due; a full channel drops it.
  unfoldable pub offer : Arrivals → Arrivals
  offer a =
      if eqb a.due 0
      then a
      else if ltb a.jobs a.max_vus
      then record a { due = a.due - 1; jobs = a.jobs + 1 }
      else record a { due = a.due - 1; dropped = a.dropped + 1 }

  -- The demand: in flight, backlog and one, within the ceiling.
  unfoldable pub measure_need : Arrivals → Arrivals
  measure_need a = record a { need = min (a.busy + a.jobs + 1) a.max_vus }

  -- One round of the loop that grows the pool.
  unfoldable pub grow : Arrivals → Arrivals
  unfolding spawn
  grow a = if ltb a.pool a.need then spawn a else a

  unfoldable pub work : Arrivals → Work → Option Arrivals
  work a take_job =
      if ltb 0 a.jobs && ltb 0 a.idle
      then some (record a { jobs = a.jobs - 1; idle = a.idle - 1; holding = a.holding + 1 })
      else none
  work a begin =
      if ltb 0 a.holding
      then some (record a { holding = a.holding - 1; running = a.running + 1; busy = a.busy + 1 })
      else none
  work a finish =
      if ltb 0 a.running
      then some (record a {
        running = a.running - 1;
        busy = a.busy - 1;
        idle = a.idle + 1;
        iterations = a.iterations + 1;
      })
      else none
  work a retire =
      if ltb 0 a.idle && ltb 1 a.pool
      then some (record a { idle = a.idle - 1; leaving = a.leaving + 1 })
      else none
  work a quit =
      if ltb 0 a.idle && (a.cancelled || (a.closed && eqb a.jobs 0))
      then some (record a { idle = a.idle - 1; leaving = a.leaving + 1 })
      else none
  work a leave =
      if ltb 0 a.leaving
      then some (record a { leaving = a.leaving - 1; pool = a.pool - 1 })
      else none

  unfoldable pub pacer : Arrivals → Arrivals → Arrivals
  pacer a b = if a.closed then a else b

  unfoldable pub move : Arrivals → Move → Arrivals
  unfolding pace offer measure_need grow work pacer
  move a (paces ramp elapsed) = pacer a (if eqb a.due 0 then pace ramp elapsed a else a)
  move a offers = pacer a (offer a)
  move a measures = pacer a (measure_need a)
  move a grows = pacer a (grow a)
  move a cancels = record a { cancelled = true }
  move a closes = if eqb a.due 0 then record a { closed = true } else a
  move a (works w) = elim (work a w) [ none ↦ a | some b ↦ b ]

  unfoldable pub moves : Arrivals → List Move → Arrivals
  unfolding move
  moves a [] = a
  moves a (m ∷ ms) = moves (move a m) ms

  -- Steps of the workers alone, each by a worker that can take it.
  unfoldable pub works_all : Arrivals → List Work → Option Arrivals
  unfolding work
  works_all a [] = some a
  works_all a (w ∷ ws) = elim (work a w) [ none ↦ none | some b ↦ works_all b ws ]

  -- The two loops of a tick that no worker interrupts.
  unfoldable pub offer_loop : ℕ → Arrivals → Arrivals
  unfolding offer
  offer_loop zero a = a
  offer_loop (suc n) a = offer_loop n (offer a)

  unfoldable pub grow_loop : ℕ → Arrivals → Arrivals
  unfolding grow
  grow_loop zero a = a
  grow_loop (suc n) a = grow_loop n (grow a)

  unfoldable pub tick : Ramp → ℕ → Arrivals → Arrivals
  unfolding pace offer_loop measure_need grow_loop
  tick ramp elapsed a =
      let paced = pace ramp elapsed a in
      let asked = measure_need (offer_loop paced.due paced) in
      grow_loop (asked.need - asked.pool) asked
