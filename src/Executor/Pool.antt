-- ===== src/Executor/Pool.antt =====
-- internal/worker/executor/executor.go: the pool of virtual users that follows a ramp. A virtual
-- user is its id; the slice of handles stands newest first, and `cancelled` holds the ids whose
-- context was cancelled. The iterations of a virtual user reach the sampler through `Record`.
pub mod Size
use loadify.Prelude.{
  ℕ, zero, suc, ◌+◌, ◌-◌, Bool, true, false, not, ◌||◌, List, [], ◌∷◌, ltb, eqb, length,
  if◌then◌else◌, ℤ,
}
use loadify.Platform.{Platform}
use loadify.Sampler.{Sampler, set_active_vus}
use loadify.Executor.Ramp.{Ramp, target_at}
use loadify.Executor.Limits.{clamp_vus}

pub record Pool : Type 0 where
  pub vus : List ℕ
  pub next_id : ℕ
  pub stopped : Bool
  pub capped_logged : Bool
  pub max_vus : ℤ
  pub cancelled : List ℕ

unfoldable pub new_pool : ℤ → Pool
new_pool max_vus = record {
  vus = [];
  next_id = 0;
  stopped = false;
  capped_logged = false;
  max_vus = max_vus;
  cancelled = [];
}

-- spawnLocked
unfoldable pub spawn : Pool → Pool
spawn e = record e { next_id = e.next_id + 1; vus = (e.next_id + 1) ∷ e.vus }

-- The two loops of scaleTo, with the number of rounds that their tests allow.
unfoldable pub spawn_loop : ℕ → Pool → Pool
spawn_loop zero e = e
spawn_loop (suc n) e = spawn_loop n (spawn e)

unfoldable pub cancel_last : Pool → List ℕ → Pool
cancel_last e [] = e
cancel_last e (last ∷ vus) = record e { vus = vus; cancelled = last ∷ e.cancelled }

unfoldable pub cancel_loop : ℕ → Pool → Pool
cancel_loop zero e = e
cancel_loop (suc n) e = cancel_loop n (cancel_last e e.vus)

-- scaleTo
unfoldable pub scale_to : Pool → ℕ → Pool
unfolding spawn_loop cancel_loop
scale_to e target =
    let wanted = if e.stopped then 0 else target in
    let capped = clamp_vus wanted e.max_vus in
    let logged = record e { capped_logged = e.capped_logged || not (eqb capped wanted) } in
    let grown = spawn_loop (capped - length e.vus) logged in
    cancel_loop (length grown.vus - capped) grown

-- Stop
unfoldable pub stop : Pool → Pool
stop e = scale_to (record e { stopped = true }) 0

module _ ⦃p : Platform⦄ where
  -- The body of Run's loop at a tick: the pool, the sampler, and whether the run is over.
  unfoldable pub run_tick : Ramp → ℕ → Pool → Sampler → Pool × Sampler × Bool
  run_tick ramp elapsed e s =
      let over = scale_to e 0 in
      let scaled = scale_to e (target_at ramp elapsed) in
      if ltb ramp.total elapsed
      then (over, set_active_vus s 0, true)
      else (scaled, set_active_vus s (length scaled.vus), false)

  -- Run: the ticks until the ramp has elapsed; where there are no more the context is cancelled.
  unfoldable pub run_loop : Ramp → List ℕ → Pool → Sampler → Pool × Sampler
  unfolding run_tick
  run_loop ramp [] e s = (scale_to e 0, s)
  run_loop ramp (elapsed ∷ ticks) e s =
      let (e', s', over) = run_tick ramp elapsed e s in
      let rest = run_loop ramp ticks e' s' in if over then (e', s') else rest
