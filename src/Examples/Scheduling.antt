-- ===== src/Examples/Scheduling.antt =====
-- Ramps, workers and admission at small values.
use mathlib.Core.List.{Memᴰ}
use loadify.Prelude.{ℕ, ◌≡◌, ◌↔◌, string_eq, String, List, [], ◌∷◌, arith, length, sum_of}
use loadify.Scheduler.{slice_ramp}
use loadify.Scheduler.Shares.{slice_ramp_exact, at_stage}
use loadify.Dict.{values}
use loadify.Wire.{http}
use loadify.Registry.{available}
use loadify.Registry.Admission.{available_iff_Eligible, Eligible}
use loadify.Examples.Fixture.{whole, ramp, registry, worker}

slice_ramp_exact_example :
    (length (slice_ramp ramp 3) ≡ 3)
    × (sum_of (at_stage (λ st. st.target_vus) 0) (slice_ramp ramp 3)
        ≡ at_stage (λ st. st.target_vus) 0 ramp)
    × (sum_of (at_stage (λ st. st.target_rps) 0) (slice_ramp ramp 3)
        ≡ at_stage (λ st. st.target_rps) 0 ramp)
slice_ramp_exact_example = slice_ramp_exact ramp 3 0 (omega arith)

abbrev w1 : String
w1 = "w1"

abbrev w2 : String
w2 = "w2"

abbrev names : List ℕ
names = 1 ∷ 2 ∷ 3 ∷ []

available_iff_Eligible_example :
    Memᴰ worker (available registry http 85 85 100)
    ↔ (Memᴰ worker (values registry.workers) × Eligible http 85 85 100 worker)
available_iff_Eligible_example = available_iff_Eligible registry http 85 85 100 worker
