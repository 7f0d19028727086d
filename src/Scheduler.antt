-- ===== src/Scheduler.antt =====
-- internal/coordinator/scheduler/scheduler.go: a global ramp is sharded over the workers.
-- Targets and durations are natural numbers (the fields of a ramp stage are int64, and a negative
-- one is not modelled); `desired` is the signed number of the request.
pub mod Shares
pub mod Workers
use loadify.Prelude.{
  ℕ, zero, suc, ◌+◌, ◌/◌, ◌%◌, ℤ, pos, negsuc, List, [], ◌∷◌, map, ◌||◌, ltb, leb, eqb, length,
  take, get_or, if◌then◌else◌,
}

pub record RampStage : Type 0 where
  pub duration_ms : ℕ
  pub target_vus : ℕ
  pub target_rps : ℕ

-- The loop of `splitEven` from index `i` on, with `k` rounds left.
unfoldable pub split_loop : ℕ → ℕ → ℕ → ℕ → List ℕ
split_loop base rem i zero = []
split_loop base rem i (suc k) =
    (if ltb i rem then base + 1 else base) ∷ split_loop base rem (i + 1) k

unfoldable pub split_even : ℕ → ℕ → List ℕ
unfolding split_loop
split_even total n = if eqb n 0 then [] else split_loop (total / n) (total % n) 0 n

-- What worker `i` of `n` gets of one stage.
unfoldable pub slice_stage : ℕ → ℕ → RampStage → RampStage
slice_stage n i stage = record {
  duration_ms = stage.duration_ms;
  target_vus = get_or (split_even stage.target_vus n) i 0;
  target_rps = get_or (split_even stage.target_rps n) i 0;
}

unfoldable pub slice_rows : List RampStage → ℕ → ℕ → ℕ → List (List RampStage)
slice_rows global n i zero = []
slice_rows global n i (suc k) = map (slice_stage n i) global ∷ slice_rows global n (i + 1) k

-- The ramps of the `n` workers, by worker.
unfoldable pub slice_ramp : List RampStage → ℕ → List (List RampStage)
unfolding slice_rows
slice_ramp global n = if leb n 0 then [] else slice_rows global n 0 n

unfoldable pub pick_workers {ℓ} : {A : Type ℓ} → List A → ℤ → List A
pick_workers candidates (negsuc d) = candidates
pick_workers candidates (pos d) =
    if leb d 0 || leb (length candidates) d then candidates else take d candidates
