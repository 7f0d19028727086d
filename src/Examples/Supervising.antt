-- ===== src/Examples/Supervising.antt =====
-- Thresholds, login attempts and the alert at small values.
use loadify.Prelude.{◌≤◌, ◌≢◌, String, [], ◌∷◌, true, false, arith, length, string_eq, ==_iff}
use loadify.Sla.{Threshold, Metrics}
use loadify.RateLimit.{RateLimiter}
use loadify.Alert.{AlertEvaluator}
use loadify.Alert.Once.{alerts, alerts_once}
use loadify.Examples.Fixture.{whole, stalled_tick}

abbrev fast : Threshold
fast = record { metric = "p95_ms"; op = "<"; value = 200 }

abbrev odd : Threshold
odd = record { metric = "qps"; op = "=="; value = 10 }

abbrev summary : Metrics
summary = record { p50_ms = 20; p90_ms = 90; p95_ms = 150; p99_ms = 300; error_rate = 1; qps = 10 }

-- Two clients with an open window each.
abbrev limiter : RateLimiter
limiter = record {
  max = 3;
  window = 100;
  buckets =
      ("a", record { count = 1; reset = 100 }) ∷ ("b", record { count = 2; reset = 150 }) ∷ [];
}

abbrev client_a : String
client_a = "a"

abbrev client_b : String
client_b = "b"

a_not_b : client_a ≢ client_b
a_not_b e = ground (arith, ==_iff client_a client_b, e)

abbrev evaluator : AlertEvaluator
evaluator = record { enabled = true; thresh = 1; window = 2; min_req = 1; fired = false; buf = [] }

alerts_once_example :
    (length (alerts evaluator (stalled_tick ∷ stalled_tick ∷ stalled_tick ∷ [])).1 ≤ 1)
    × (length (alerts evaluator (stalled_tick ∷ stalled_tick ∷ stalled_tick ∷ [])).0.buf
        ≤ (alerts evaluator (stalled_tick ∷ stalled_tick ∷ stalled_tick ∷ [])).0.window)
alerts_once_example =
    alerts_once evaluator (stalled_tick ∷ stalled_tick ∷ stalled_tick ∷ []) (omega arith)
