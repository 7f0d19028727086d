-- ===== src/Executor/Iterating.antt =====
-- internal/worker/executor/executor.go: `runVU`, the iterations of one virtual user. A turn of its
-- loop is what the context, the driver and the pause come to; the barrier is a module of its own.
use loadify.Prelude.{ℕ, ◌+◌, Bool, true, false, List, [], ◌∷◌, if◌then◌else◌}
use loadify.Platform.{Platform}
use loadify.Sampler.{Result, Sampler, record_result}

-- `cancelled` is the test at the head of a turn. Each result of Exec or ExecMulti stands with the
-- clock and with whether the context is cancelled by then; Exec has one result. `interrupted` is
-- that the context ends the pause.
pub record Turn : Type 0 where
  pub cancelled : Bool
  pub results : List (Result × ℕ × Bool)
  pub interrupted : Bool

module _ ⦃p : Platform⦄ where
  -- The loop over the results: `false` is that runVU returns.
  unfoldable pub record_loop : Sampler → List (Result × ℕ × Bool) → Sampler × Bool
  unfolding record_result
  record_loop s [] = (s, true)
  record_loop s ((res, now, gone) ∷ results) =
      let rest = record_loop (record_result s res now) results in if gone then (s, false) else rest

  -- runVU: the sampler and the count of iterations when it returns, or behind the turns given.
  unfoldable pub run_vu : Sampler → ℕ → List Turn → Sampler × ℕ
  unfolding record_loop
  run_vu s iteration [] = (s, iteration)
  run_vu s iteration (t ∷ turns) =
      let recorded = record_loop s t.results in
      let rest = run_vu recorded.0 (iteration + 1) turns in
      if t.cancelled
      then (s, iteration)
      else if recorded.1
      then (if t.interrupted then (recorded.0, iteration + 1) else rest)
      else (recorded.0, iteration)
