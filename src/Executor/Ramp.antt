-- ===== src/Executor/Ramp.antt =====
-- internal/worker/executor/ramp.go: the target over time. Times are nanoseconds since the start;
-- an elapsed time and a duration are not negative.
pub mod Curve
use loadify.Prelude.{
  ℕ, ◌+◌, ◌-◌, ◌*◌, Bool, true, false, ◌||◌, List, [], ◌∷◌, ltb, eqb, if◌then◌else◌, sum_of,
  difference,
}
use loadify.Platform.{Platform, Float, float}
use loadify.Scheduler.{RampStage}

abbrev pub duration_ns : RampStage → ℕ
duration_ns s = s.duration_ms * 1_000_000

pub record Ramp : Type 0 where
  pub stages : List RampStage
  pub total : ℕ

-- NewRamp
unfoldable pub new_ramp : List RampStage → Ramp
new_ramp stages = record { stages = stages; total = sum_of duration_ns stages }

unfoldable pub arrival_loop : List RampStage → Bool
arrival_loop [] = false
arrival_loop (s ∷ stages) =
    let rest = arrival_loop stages in if ltb 0 s.target_rps then true else rest

-- IsArrival
unfoldable pub is_arrival : Ramp → Bool
unfolding arrival_loop
is_arrival r = arrival_loop r.stages

unfoldable pub peak_loop : List RampStage → ℕ → ℕ
peak_loop [] peak = peak
peak_loop (s ∷ stages) peak =
    peak_loop stages (if ltb peak s.target_rps then s.target_rps else peak)

-- PeakRPS
unfoldable pub peak_rps : Ramp → ℕ
unfolding peak_loop
peak_rps r = peak_loop r.stages 0

module _ ⦃p : Platform⦄ where
  -- The share of a stage that has passed.
  unfoldable pub fraction : ℕ → ℕ → ℕ → Float
  fraction t acc dur =
      let frac = p.div_float (p.of_signed (difference t acc)) (float dur) in
      if p.lt_float frac (float 0) then float 0 else frac

  unfoldable pub rate_loop : List RampStage → ℕ → Float → ℕ → Float
  rate_loop [] t prev acc = prev
  rate_loop (s ∷ stages) t prev acc =
      let dur = duration_ns s in
      let target = float s.target_rps in
      let rest = rate_loop stages t target (acc + dur) in
      if ltb t (acc + dur) || eqb dur 0
      then (if eqb dur 0
          then target
          else p.add_float prev (p.mul_float (fraction t acc dur) (p.sub_float target prev)))
      else rest

  -- RateAt
  unfoldable pub rate_at : Ramp → ℕ → Float
  unfolding rate_loop
  rate_at r t = rate_loop r.stages t (float 0) 0

  -- The interpolation within a stage.
  unfoldable pub between : ℕ → ℕ → ℕ → ℕ → ℕ → ℕ
  between prev_target target t acc dur = p.to_int (
      p.add_float
        (p.add_float (float prev_target)
          (p.mul_float (fraction t acc dur) (p.of_signed (difference target prev_target))))
        p.half)

  unfoldable pub target_loop : List RampStage → ℕ → ℕ → ℕ → ℕ
  target_loop [] t prev_target acc = prev_target
  target_loop (s ∷ stages) t prev_target acc =
      let dur = duration_ns s in
      let rest = target_loop stages t s.target_vus (acc + dur) in
      if ltb t (acc + dur) || eqb dur 0
      then (if eqb dur 0 then s.target_vus else between prev_target s.target_vus t acc dur)
      else rest

  -- TargetAt
  unfoldable pub target_at : Ramp → ℕ → ℕ
  unfolding target_loop
  target_at r t = target_loop r.stages t 0 0
