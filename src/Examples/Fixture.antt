-- ===== src/Examples/Fixture.antt =====
-- A platform of whole numbers, whose histograms count, and the values that the examples share.
use loadify.Prelude.{
  ℕ, ◌+◌, ◌*◌, ◌/◌, ◌-◌, min, negsuc, true, false, List, [], ◌∷◌, none, some, ltb, leb, eqb, pos,
  refl,
}
use loadify.Platform.{Platform, CountsValues}
use loadify.Wire.{http, running, queued, StartRunRequest, RegisterRequest, MetricBatch}
use loadify.Scheduler.{RampStage}
use loadify.Breaker.{Breaker, none_given}
use loadify.Plan.{zero_config}
use loadify.Rollups.{LiveTick}
use loadify.Registry.{Worker, Stats, Registry}
use loadify.Coordinator.State.{RunState, Service}

-- Numbers are whole, and a histogram is the number of its values.
instance abbrev pub whole : Platform
whole = record {
  Float = ℕ;
  of_int = λ n. n;
  to_int = λ n. n;
  of_signed = λ i. elim i [ pos n ↦ n | negsuc n ↦ 0 ];
  min_float = min;
  half = 0;
  add_float = λ a b. a + b;
  sub_float = λ a b. a - b;
  mul_float = λ a b. a * b;
  div_float = λ a b. a / b;
  lt_float = ltb;
  le_float = leb;
  eq_float = eqb;
  Hist = ℕ;
  new_hist = λ low high figures. 0;
  record_value = λ h v. h + 1;
  merge = λ g h. g + h;
  hist_count = λ h. h;
  value_at_quantile = λ h q. q;
  max_value = λ h. h;
  gob_encode = λ h. some (h ∷ []);
  gob_decode = λ bytes. elim bytes [ [] ↦ none | b ∷ rest ↦ some b ];
}

pub counts : (low high figures : ℕ) → CountsValues whole low high figures
counts low high figures = record {
  hist_count-new = refl;
  hist_count-record = λ h v w l u. refl;
  hist_count-merge = λ g h x y. refl;
}

abbrev pub ramp : List RampStage
ramp = record { duration_ms = 1000; target_vus = 7; target_rps = 10 } ∷ []

abbrev pub request : StartRunRequest
request = record {
  run_id = "r1";
  protocol = http;
  payload = record { plan_json = []; plan = none; script = none; env = [] };
  ramp = ramp;
  desired_workers = pos 0;
}

abbrev pub idle : Stats
idle = record {
  active_vus = 0;
  cpu_pct = 0;
  mem_bytes = 0;
  mem_total_bytes = 0;
  net_rx_bps = 0;
  net_tx_bps = 0;
  net_rx_pps = 0;
  net_tx_pps = 0;
}

abbrev pub worker : Worker
worker = record {
  id = "w1";
  region = "eu";
  cpu_cores = 4;
  supported = http ∷ [];
  send = 1;
  stats = idle;
  last_seen = 0;
  connected = 0;
  healthy_ttl = 6000;
}

abbrev pub registry : Registry
registry = record { workers = ("w1", worker) ∷ []; ttl = 6000 }

abbrev pub registration : RegisterRequest
registration = record {
  worker_id = "w1";
  region = "eu";
  cpu_cores = 4;
  supported = http ∷ [];
  active_runs = [];
}

abbrev pub waiting : RunState
waiting = record {
  run_id = "r1";
  protocol = http;
  agg = none;
  agg_live = false;
  assigned = [];
  finished = [];
  status = queued;
  reason = none_given;
  started_at = none;
  ended_at = none;
  planned_ms = 1000;
  abort_at = none;
  workers_lost_at = none;
  slot_held = false;
  dropped_iterations = 0;
  dropped_metrics = 0;
  peak_cpu_pct = 0;
}

abbrev pub active : RunState
active = record waiting {
  status = running;
  assigned = "w1" ∷ [];
  started_at = some 0;
  slot_held = true;
}

-- One run waits in the queue, and one worker is connected.
abbrev pub with_queue : Service
with_queue = record {
  reg = registry;
  writer = true;
  runs = ("r1", waiting) ∷ [];
  queue = request ∷ [];
  running = 0;
  max_runs = 2;
  cpu_max = 85;
  mem_max = 85;
  chans = [];
  timers = [];
}

-- One run is running.
abbrev pub with_run : Service
with_run = record with_queue { runs = ("r1", active) ∷ []; queue = []; running = 1 }

abbrev pub batch : MetricBatch
batch = record {
  run_id = "r1";
  worker_id = "w1";
  bucket_unix_ms = 5000;
  active_vus = 3;
  samples = [];
  agg =
      record {
        group = "home";
        protocol = http;
        status_class = "2xx";
        count = 4;
        errors = 1;
        sent_bytes = 10;
        recv_bytes = 20;
        hdr_histogram = 4 ∷ [];
      }
      ∷ [];
}

-- A second with virtual users and no completed request.
abbrev pub stalled_tick : LiveTick
stalled_tick = record {
  run_id = "r1";
  ts_unix_ms = 5000;
  rps = 0;
  error_rate = 0;
  active_vus = 3;
  percentiles = record { p50 = 0; p90 = 0; p95 = 0; p99 = 0 };
  groups = [];
  samples = [];
}

abbrev pub breaker : Breaker
breaker = record {
  auto_stop = zero_config (some true);
  armed = true;
  auto_win = [];
  auto_fired = false;
  stall_sec = 2;
  stall_streak = 0;
}
