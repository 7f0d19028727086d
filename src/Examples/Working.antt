-- ===== src/Examples/Working.antt =====
-- The worker's side at small values.
use loadify.Prelude.{
  ℕ, Bytes, ◌+◌, ◌/◌, ◌≡◌, refl, List, [], ◌∷◌, ◌++◌, true, false, inr, arith, pos, nat_eq,
  string_eq,
}
use loadify.Platform.{KeepsSnapshots}
use loadify.Wire.{http}
use loadify.Scheduler.{RampStage}
use loadify.Dict.{lookup}
use loadify.Metrics.Recording.{Exact}
use loadify.Utf8.{valid_string, valid_utf8, to_valid_utf8}
use loadify.Utf8.Repair.{valid_utf8_lem}
use loadify.Sampler.{Sampler, Result, new, flush}
use loadify.Sampler.Caps.{record_all}
use loadify.Sampler.Flow.{failures, slices_errors, recorded_reach_pending, ingest-Exact}
use loadify.Aggregator.{Aggregator, new as new_aggregator, ingest, or_empty, is_late}
use loadify.Aggregator.Conservation.{slices_count}
use loadify.Aggregator.Seconds.{pending}
use loadify.Executor.Ramp.{new_ramp, target_at}
use loadify.Executor.Ramp.Curve.{target_at_stage}
use loadify.Executor.Pool.{Pool, new_pool, scale_to}
use loadify.Executor.Pool.Size.{Accounted, scale_to_lem}
use loadify.Executor.Barrier.{Barrier, new_barrier, Step, arrives, times_out, resumes, run}
use loadify.Executor.Barrier.Gather.{IsGathering, run-new_barrier-IsGathering}
use loadify.Examples.Fixture.{whole, counts}

keeps : KeepsSnapshots whole
keeps = record { gob_round_trip = λ h. (h, [], refl, refl) }

-- A text whose second byte starts no rune.
abbrev broken : Bytes
broken = 97 ∷ 255 ∷ 98 ∷ []

valid_utf8_lem_example :
    (valid_string (valid_utf8 broken) ≡ true)
    × (valid_utf8 broken ≡ to_valid_utf8 broken)
    × (valid_utf8 (valid_utf8 broken) ≡ valid_utf8 broken)
valid_utf8_lem_example = valid_utf8_lem broken

abbrev failed_result : Result
failed_result = record {
  group = "home";
  method = "GET";
  url = broken;
  status = 500;
  ok = false;
  error_kind = broken;
  latency_us = 1200;
  dns_us = 0;
  connect_us = 0;
  tls_us = 0;
  ttfb_us = 900;
  sent_bytes = 10;
  recv_bytes = 20;
  req_body = [];
  resp_body = broken;
}

abbrev good_result : Result
good_result = record failed_result { status = 200; ok = true; error_kind = [] }

abbrev sampler : Sampler
sampler = new "r1" "w1" http

abbrev aggregator : Aggregator
aggregator = new_aggregator "r1" http true

abbrev results : List (Result × ℕ)
results = (failed_result, 5100) ∷ (good_result, 5200) ∷ (failed_result, 5300) ∷ []

recorded_reach_pending_example :
    let sent = (flush (record_all results (flush sampler 4000).0) 5000).1 in
    (slices_count sent.agg ≡ 3)
    × (slices_errors sent.agg ≡ failures results)
    × (pending (ingest aggregator sent) ≡ pending aggregator + 3)
    × ((ingest aggregator sent).total_count ≡ aggregator.total_count + 3)
unfolding is_late new_aggregator
recorded_reach_pending_example = recorded_reach_pending sampler 4000 5000 results aggregator refl

ingest-Exact_example :
    let sent = (flush (record_all results (flush sampler 4000).0) 5000).1 in
    Exact (or_empty (lookup (5000 / 1000) (ingest aggregator sent).buckets))
unfolding new_aggregator lookup
ingest-Exact_example = ingest-Exact sampler 4000 5000 results aggregator (counts _ _ _) keeps tt

abbrev stage : RampStage
stage = record { duration_ms = 1000; target_vus = 7; target_rps = 10 }

abbrev frozen : RampStage
frozen = record { duration_ms = 0; target_vus = 3; target_rps = 0 }

-- The stage after the one without duration is not reached.
target_at_stage_example : target_at (new_ramp ((stage ∷ []) ++ frozen ∷ stage ∷ [])) 1500000000 ≡ 3
target_at_stage_example =
    target_at_stage (stage ∷ []) frozen (stage ∷ []) 1500000000 (omega arith, tt) (omega arith)
      (inr refl)

abbrev pool : Pool
pool = scale_to (new_pool (pos 5)) 3

new_pool-Accounted : (k : ℕ) → Accounted (new_pool (pos 5)) k
unfolding new_pool
new_pool-Accounted k = ground arith

pool-Accounted : (k : ℕ) → Accounted pool k
pool-Accounted k = (scale_to_lem (new_pool (pos 5)) 3 k (new_pool-Accounted k)).1

abbrev steps : List Step
steps = arrives 1 false ∷ arrives 2 false ∷ times_out 0 ∷ resumes 1 false ∷ arrives 3 false ∷ []

abbrev gathering : Barrier
gathering = run (new_barrier 3) steps

gathering-IsGathering : IsGathering gathering
gathering-IsGathering = run-new_barrier-IsGathering 3 steps (omega arith)
