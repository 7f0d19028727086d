-- ===== src/Executor/Ramp/Curve.antt =====
-- What a ramp's target is at every time.
use loadify.Prelude.{
  ℕ, ◌+◌, ◌≤◌, ◌<◌, ◌≡◌, ◌⊎◌, sym, ap, ◌∙◌, List, [], ◌∷◌, ◌++◌, arith, sum_of, All, eqb,
  if◌then◌else◌,
}
use mathlib.Core.List.{append-nil}
use loadify.Platform.{Platform}
use loadify.Scheduler.{RampStage}
use loadify.Executor.Ramp.{duration_ns, new_ramp, target_at, target_loop, between}

-- The target at the end of some stages.
pub last_target : List RampStage → ℕ → ℕ
last_target [] prev = prev
last_target (s ∷ stages) prev = last_target stages s.target_vus

abbrev pub Lasting : RampStage → Type 0
Lasting s = 0 < duration_ns s

module _ ⦃p : Platform⦄ where
  target_loop-passed :
      (before rest : List RampStage) (t prev acc end : ℕ)
      → All Lasting before
      → acc + sum_of duration_ns before ≡ end
      → end ≤ t
      → target_loop (before ++ rest) t prev acc ≡ target_loop rest t (last_target before prev) end
  unfolding target_loop last_target
  target_loop-passed [] rest t prev acc end l e h =
      let e' : acc ≡ end = omega (arith, e) in ap (λ a. target_loop rest t prev a) e'
  target_loop-passed (s ∷ before) rest t prev acc end (long, l) e h = ground (
    arith,
    long,
    target_loop-passed before rest t s.target_vus (acc + duration_ns s) end l (omega (arith, e)) h,
  )

  -- Within a stage the target is interpolated from the target of the stage before, and from 0 in
  -- the first one, whatever stages follow; a stage without duration holds its own target from
  -- then on, so that no later stage is ever reached. The stages before have a duration.
  pub target_at_stage :
      (before : List RampStage) (s : RampStage) (after : List RampStage) (t : ℕ)
      → All Lasting before
      → sum_of duration_ns before ≤ t
      → (t < sum_of duration_ns before + duration_ns s) ⊎ (duration_ns s ≡ 0)
      → target_at (new_ramp (before ++ s ∷ after)) t ≡ (
          if eqb (duration_ns s) 0
          then s.target_vus
          else between
              (last_target before 0)
              s.target_vus
              t
              (sum_of duration_ns before)
              (duration_ns s))
  unfolding target_at new_ramp target_loop
  target_at_stage before s after t l h w =
      let end = sum_of duration_ns before in
      target_loop-passed before (s ∷ after) t 0 0 end l (omega arith) h ∙ ground (arith, w)

  -- Past the end of a ramp whose stages all have a duration the target is that of the last stage.
  pub target_at_end :
      (stages : List RampStage) (t : ℕ)
      → All Lasting stages
      → (new_ramp stages).total ≤ t
      → target_at (new_ramp stages) t ≡ last_target stages 0
  unfolding target_at new_ramp target_loop
  target_at_end stages t l h =
      ap (λ ss. target_loop ss t 0 0) (sym (append-nil stages))
      ∙ target_loop-passed stages [] t 0 0 (sum_of duration_ns stages) l (omega arith) h
