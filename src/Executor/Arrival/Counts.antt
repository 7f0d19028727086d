-- ===== src/Executor/Arrival/Counts.antt =====
-- Where the iterations and the workers of the open model are.
use loadify.Prelude.{ℕ, ◌+◌, ◌≤◌, ◌≡◌, refl, some, List, [], ◌∷◌, arith}
use loadify.Platform.{Platform}
use loadify.Executor.Arrival.{
  Arrivals, spawn, start, pace, offer, measure_need, grow, Work, take_job, begin, finish, retire,
  quit, leave, work, Move, paces, offers, measures, grows, cancels, closes, works, pacer, move,
  moves,
}

module _ ⦃p : Platform⦄ where
  -- Every iteration asked for is due, dropped, in the channel, with a worker or ended; every worker
  -- of the pool stands somewhere; and the channel and the pool are within the ceiling.
  pub record IsCounted (a : Arrivals) : Type 0 where
    pub iterations_kept :
        a.scheduled ≡ a.due + a.dropped + a.jobs + a.holding + a.running + a.iterations
    pub workers_kept : a.pool ≡ a.idle + a.holding + a.running + a.leaving
    pub busy_running : a.busy ≡ a.running
    pub jobs_within : a.jobs ≤ a.max_vus
    pub pool_within : a.pool ≤ a.max_vus
    pub need_within : a.need ≤ a.max_vus

  pub work-IsCounted : (a b : Arrivals) (w : Work) → IsCounted a → work a w ≡ some b → IsCounted b
  unfolding work
  work-IsCounted a b take_job i e = ground (arith, e)
  work-IsCounted a b begin i e = ground (arith, e)
  work-IsCounted a b finish i e = ground (arith, e)
  work-IsCounted a b retire i e = ground (arith, e)
  work-IsCounted a b quit i e = ground (arith, e)
  work-IsCounted a b leave i e = ground (arith, e)

  move-IsCounted : (a : Arrivals) (m : Move) → IsCounted a → IsCounted (move a m)
  unfolding move pacer pace offer measure_need grow spawn
  move-IsCounted a (paces ramp elapsed) i = ground arith
  move-IsCounted a offers i = ground arith
  move-IsCounted a measures i = ground arith
  move-IsCounted a grows i = ground arith
  move-IsCounted a cancels i = ground arith
  move-IsCounted a closes i = ground arith
  move-IsCounted a (works w) i = ground (arith, work-IsCounted a)

  moves-IsCounted : (a : Arrivals) (ms : List Move) → IsCounted a → IsCounted (moves a ms)
  unfolding moves
  moves-IsCounted a [] i = i
  moves-IsCounted a (m ∷ ms) i = moves-IsCounted (move a m) ms (move-IsCounted a m i)

  -- Whatever the pacer and the workers do, and in whatever order, every iteration asked for is due,
  -- dropped and counted, in the channel, with a worker or ended; the pool's counter is the number
  -- of workers and the busy counter that of the running ones; and neither the channel nor the pool
  -- goes beyond the ceiling, however the rate grows.
  pub moves-start-IsCounted :
      (max_vus : ℕ) (ms : List Move) → 1 ≤ max_vus → IsCounted (moves (start max_vus) ms)
  unfolding start spawn
  moves-start-IsCounted max_vus ms h = moves-IsCounted (start max_vus) ms (record {
    iterations_kept = refl;
    workers_kept = refl;
    busy_running = refl;
    jobs_within = omega arith;
    pool_within = h;
    need_within = omega arith;
  })
