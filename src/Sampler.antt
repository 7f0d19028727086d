-- ===== src/Sampler.antt =====
-- internal/worker/sampler/sampler.go: the results of a worker's iterations, collected into one
-- batch each second; `Result` is that of internal/worker/protocols/driver.go. The clock is an
-- argument; the mutex makes each operation one step.
pub mod Caps
pub mod Flow
use loadify.Prelude.{
  ℕ, ◌+◌, Bool, true, false, String, List, [], ◌∷◌, ◌++◌, Bytes, leb, some, if◌then◌else◌,
}
use loadify.Platform.{Platform}
use loadify.Wire.{Protocol, Sample, AggSlice, MetricBatch}
use loadify.Metrics.{Key, Bucket, Buckets, Recorder, new_recorder, record_one, encode_histogram}
use loadify.Utf8.{valid_utf8}

abbrev pub err_sample_cap : ℕ
err_sample_cap = 40

abbrev pub ok_sample_cap : ℕ
ok_sample_cap = 20

-- A driver's outcome of one iteration.
pub record Result : Type 0 where
  pub group : String
  pub method : String
  pub url : Bytes
  pub status : ℕ
  pub ok : Bool
  pub error_kind : Bytes
  pub latency_us : ℕ
  pub dns_us : ℕ
  pub connect_us : ℕ
  pub tls_us : ℕ
  pub ttfb_us : ℕ
  pub sent_bytes : ℕ
  pub recv_bytes : ℕ
  pub req_body : Bytes
  pub resp_body : Bytes

module _ ⦃p : Platform⦄ where
  pub record Sampler : Type 0 where
    pub run_id : String
    pub worker_id : String
    pub protocol : Protocol
    pub rec : Recorder
    pub samples : List Sample
    pub ok_samples : ℕ
    pub err_samps : ℕ
    pub active_vus : ℕ

  -- New
  unfoldable pub new : String → String → Protocol → Sampler
  unfolding new_recorder
  new run_id worker_id proto = record {
    run_id = run_id;
    worker_id = worker_id;
    protocol = proto;
    rec = new_recorder;
    samples = [];
    ok_samples = 0;
    err_samps = 0;
    active_vus = 0;
  }

  -- The sample that maybeSampleLocked appends.
  unfoldable pub to_sample : Sampler → Result → ℕ → Sample
  to_sample s r now = record {
    ts_unix_ms = now;
    group = r.group;
    protocol = s.protocol;
    status = r.status;
    ok = r.ok;
    latency_us = r.latency_us;
    dns_us = r.dns_us;
    connect_us = r.connect_us;
    tls_us = r.tls_us;
    ttfb_us = r.ttfb_us;
    sent_bytes = r.sent_bytes;
    recv_bytes = r.recv_bytes;
    error_kind = valid_utf8 r.error_kind;
    method = r.method;
    url = valid_utf8 r.url;
    resp_body = valid_utf8 r.resp_body;
    req_body = valid_utf8 r.req_body;
  }

  -- maybeSampleLocked
  unfoldable pub maybe_sample : Sampler → Result → ℕ → Sampler
  maybe_sample s r now =
      let kept = s.samples ++ to_sample s r now ∷ [] in
      if r.ok
      then (if leb ok_sample_cap s.ok_samples
          then s
          else record s { ok_samples = s.ok_samples + 1; samples = kept })
      else if leb err_sample_cap s.err_samps
      then s
      else record s { err_samps = s.err_samps + 1; samples = kept }

  -- Record
  unfoldable pub record_result : Sampler → Result → ℕ → Sampler
  record_result s r now =
      maybe_sample
        (record s {
          rec =
              record_one s.rec r.group r.status r.ok r.error_kind r.latency_us r.sent_bytes
                r.recv_bytes;
        })
        r now

  -- SetActiveVUs
  unfoldable pub set_active_vus : Sampler → ℕ → Sampler
  set_active_vus s n = record s { active_vus = n }

  unfoldable pub to_slice : Protocol → Key → Bucket → AggSlice
  to_slice proto k b = record {
    group = k.group;
    protocol = proto;
    status_class = k.status_class;
    count = b.count;
    errors = b.errors;
    sent_bytes = b.sent_bytes;
    recv_bytes = b.recv_bytes;
    hdr_histogram = encode_histogram (some b.hist);
  }

  -- The loop over the buckets.
  unfoldable pub to_slices : Protocol → Buckets → List AggSlice
  to_slices proto [] = []
  to_slices proto ((k, b) ∷ buckets) = to_slice proto k b ∷ to_slices proto buckets

  -- Flush: the new state and the batch; both of its branches give the same for no buckets.
  unfoldable pub flush : Sampler → ℕ → Sampler × MetricBatch
  unfolding new_recorder to_slices
  flush s bucket_ms = (
    record s { rec = new_recorder; samples = []; ok_samples = 0; err_samps = 0 },
    record {
      run_id = s.run_id;
      worker_id = s.worker_id;
      bucket_unix_ms = bucket_ms;
      active_vus = s.active_vus;
      samples = s.samples;
      agg = to_slices s.protocol s.rec.buckets;
    },
  )
