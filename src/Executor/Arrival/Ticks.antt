-- ===== src/Executor/Arrival/Ticks.antt =====
-- A tick of the open model that no worker interrupts.
use loadify.Prelude.{ℕ, zero, suc, ◌+◌, ◌-◌, ◌≤◌, ◌≡◌, refl, min, max, arith}
use loadify.Platform.{Platform}
use loadify.Executor.Ramp.{Ramp, rate_at}
use loadify.Executor.Arrival.{
  Arrivals, spawn, pace, offer, measure_need, grow, offer_loop, grow_loop, tick, pacer_seconds,
}

module _ ⦃p : Platform⦄ where
  offer_loop_lem :
      (n : ℕ) (a : Arrivals)
      → a.due ≡ n
      → a.jobs ≤ a.max_vus
      → ((offer_loop n a).jobs ≡ min (a.jobs + n) a.max_vus)
        × ((offer_loop n a).dropped + (offer_loop n a).jobs ≡ a.dropped + a.jobs + n)
        × ((offer_loop n a).due ≡ 0)
        × ((offer_loop n a).busy ≡ a.busy)
        × ((offer_loop n a).pool ≡ a.pool)
        × ((offer_loop n a).max_vus ≡ a.max_vus)
  unfolding offer_loop offer
  offer_loop_lem zero a d h = (omega (arith, h), omega arith, d, refl, refl, refl)
  offer_loop_lem (suc n) a d h = ground (arith, d, h, offer_loop_lem n (offer a))

  grow_loop_lem :
      (n : ℕ) (a : Arrivals)
      → n ≡ a.need - a.pool
      → ((grow_loop n a).pool ≡ max a.pool a.need)
        × ((grow_loop n a).jobs ≡ a.jobs)
        × ((grow_loop n a).dropped ≡ a.dropped)
        × ((grow_loop n a).due ≡ a.due)
  unfolding grow_loop grow spawn
  grow_loop_lem zero a h = (omega (arith, h), refl, refl, refl)
  grow_loop_lem (suc n) a h = ground (arith, h, grow_loop_lem n (grow a))

  abbrev pub due_at : Ramp → ℕ → Arrivals → ℕ
  due_at ramp elapsed a =
      p.to_int (p.add_float a.acc (p.mul_float (rate_at ramp elapsed) pacer_seconds))

  -- An uninterrupted tick sends what the rate makes due until the channel is full and counts the
  -- rest as dropped, and then has a worker for each running and each waiting iteration and one
  -- more, as far as the ceiling allows; it retires none.
  pub tick_lem :
      (ramp : Ramp) (elapsed : ℕ) (a : Arrivals)
      → a.jobs ≤ a.max_vus
      → ((tick ramp elapsed a).jobs ≡ min (a.jobs + due_at ramp elapsed a) a.max_vus)
        × ((tick ramp elapsed a).dropped ≡ a.dropped + (a.jobs + due_at ramp elapsed a - a.max_vus))
        × ((tick ramp elapsed a).pool
            ≡ max a.pool (min (a.busy + (tick ramp elapsed a).jobs + 1) a.max_vus))
        × ((tick ramp elapsed a).due ≡ 0)
  unfolding tick pace measure_need
  tick_lem ramp elapsed a h =
      let paced = pace ramp elapsed a in
      let asked = measure_need (offer_loop paced.due paced) in
      let (sent, kept, none_due, busy, pool, ceiling) = offer_loop_lem paced.due paced refl h in
      let (grown, same_jobs, same_dropped, same_due) =
        grow_loop_lem (asked.need - asked.pool) asked refl in
      (
        omega (arith, sent, same_jobs),
        omega (arith, sent, kept, same_dropped),
        omega (arith, grown, same_jobs, busy, pool, ceiling),
        omega (arith, same_due, none_due),
      )
