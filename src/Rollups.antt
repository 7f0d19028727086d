-- ===== src/Rollups.antt =====
-- internal/coordinator/aggregator/aggregator.go: `collect` and `sampleToStore`, which turn one
-- second's buckets into rows of the metric store and a live tick (types: internal/store/store.go
-- and api/proto/loadify/v1/coordinator.proto).
pub mod Totals
use text.Mathlib.Text.{starts_with}
use loadify.Prelude.{
  ℕ, Bytes, ◌+◌, ◌*◌, Bool, not, String, List, [], ◌∷◌, ◌++◌, Option, none, some, ltb,
  if◌then◌else◌, string_eq,
}
use loadify.Platform.{Platform, Float, Hist, float}
use loadify.Wire.{Sample, protocol_name}
use loadify.Dict.{lookup, insert, update}
use loadify.Metrics.{
  Key, Bucket, Buckets, Percentiles, new_histogram, percentiles_of, encode_histogram, status_class,
}

pub record StoredSample : Type 0 where
  pub run_id : String
  pub ts_unix_ms : ℕ
  pub group : String
  pub protocol : String
  pub status_class : String
  pub status : ℕ
  pub ok : Bool
  pub error_kind : Bytes
  pub method : String
  pub url : Bytes
  pub latency_us : ℕ
  pub recv_bytes : ℕ
  pub req_body : Bytes
  pub resp_body : Bytes

-- sampleToStore
unfoldable pub sample_to_store : String → Sample → StoredSample
sample_to_store run_id s = record {
  run_id = run_id;
  ts_unix_ms = s.ts_unix_ms;
  group = s.group;
  protocol = protocol_name s.protocol;
  status_class = status_class s.status s.ok s.error_kind;
  status = s.status;
  ok = s.ok;
  error_kind = s.error_kind;
  method = s.method;
  url = s.url;
  latency_us = s.latency_us;
  recv_bytes = s.recv_bytes;
  req_body = s.req_body;
  resp_body = s.resp_body;
}

-- The scenario transaction pseudo-groups.
unfoldable pub is_transaction : String → Bool
is_transaction group = starts_with group "txn:"

module _ ⦃p : Platform⦄ where
  pub record Rollup : Type 0 where
    pub run_id : String
    pub ts : ℕ
    pub group : String
    pub protocol : String
    pub status_class : String
    pub count : ℕ
    pub errors : ℕ
    pub sent_bytes : ℕ
    pub recv_bytes : ℕ
    pub percentiles : Percentiles
    pub max_ms : Float
    pub hist : List ℕ

  -- The percentile fields of a group stay 0.
  pub record GroupTick : Type 0 where
    pub rps : Float
    pub error_rate : Float

  pub record LiveTick : Type 0 where
    pub run_id : String
    pub ts_unix_ms : ℕ
    pub rps : Float
    pub error_rate : Float
    pub active_vus : ℕ
    pub percentiles : Percentiles
    pub groups : List (String × GroupTick)
    pub samples : List Sample

  -- The variables of the loop over the buckets.
  pub record Collected : Type 0 where
    pub rows : List Rollup
    pub total : Hist
    pub count : ℕ
    pub errors : ℕ
    pub groups : List (String × GroupTick)

  unfoldable pub to_row : String → String → ℕ → Key → Bucket → Rollup
  to_row run_id protocol sec k b = record {
    run_id = run_id;
    ts = sec;
    group = k.group;
    protocol = protocol;
    status_class = k.status_class;
    count = b.count;
    errors = b.errors;
    sent_bytes = b.sent_bytes;
    recv_bytes = b.recv_bytes;
    percentiles = percentiles_of (some b.hist);
    max_ms = p.div_float (float (p.max_value b.hist)) (float 1000);
    hist = encode_histogram (some b.hist);
  }

  unfoldable pub add_to_group : Option GroupTick → Bucket → GroupTick
  add_to_group none b = record {
    rps = p.add_float (float 0) (float b.count);
    error_rate = p.add_float (float 0) (float b.errors);
  }
  add_to_group (some g) b = record {
    rps = p.add_float g.rps (float b.count);
    error_rate = p.add_float g.error_rate (float b.errors);
  }

  -- The body of the loop.
  unfoldable pub add_bucket : String → String → ℕ → Key → Bucket → Collected → Collected
  add_bucket run_id protocol sec k b c =
      let top = not (is_transaction k.group) in
      record {
        rows = c.rows ++ to_row run_id protocol sec k b ∷ [];
        total = if top then p.merge c.total b.hist else c.total;
        count = if top then c.count + b.count else c.count;
        errors = if top then c.errors + b.errors else c.errors;
        groups = insert k.group (add_to_group (lookup k.group c.groups) b) c.groups;
      }

  unfoldable pub collect_loop : String → String → ℕ → Buckets → Collected → Collected
  unfolding add_bucket
  collect_loop run_id protocol sec [] c = c
  collect_loop run_id protocol sec ((k, b) ∷ bk) c =
      collect_loop run_id protocol sec bk (add_bucket run_id protocol sec k b c)

  unfoldable pub to_rate : GroupTick → GroupTick
  to_rate g =
      if p.lt_float (float 0) g.rps
      then record g { error_rate = p.div_float g.error_rate g.rps }
      else g

  unfoldable pub start : List Rollup → Collected
  start rows = record { rows = rows; total = new_histogram; count = 0; errors = 0; groups = [] }

  -- collect: the rows with those of this second behind them, and the tick of the second.
  unfoldable pub collect :
      (run_id protocol : String) (sec : ℕ)
      → Buckets
      → (active_vus : ℕ) → List Sample
      → List Rollup
      → List Rollup × LiveTick
  unfolding collect_loop start to_rate
  collect run_id protocol sec bk active_vus samples rows =
      let c : Collected = collect_loop run_id protocol sec bk (start rows) in
      (
        c.rows,
        record {
          run_id = run_id;
          ts_unix_ms = sec * 1000;
          rps = float c.count;
          error_rate =
              if ltb 0 c.count then p.div_float (float c.errors) (float c.count) else float 0;
          active_vus = active_vus;
          percentiles = percentiles_of (some c.total);
          groups = update to_rate c.groups;
          samples = samples;
        },
      )
