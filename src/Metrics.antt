-- ===== src/Metrics.antt =====
-- internal/metrics/metrics.go: status classes, and the recorder of one window.
-- Counters are natural numbers: an int64 that never reaches 2^63.
pub mod Recording
use loadify.Prelude.{
  ℕ, ◌+◌, ◌≡◌, ◌↔◌, Bool, true, false, not, ◌&&◌, ◌||◌, String, List, [], ◌∷◌, Option, none, some,
  arith, is_nil, Bytes, ltb, leb, eqb, if◌then◌else◌, Comparable, ◌==◌, ==_iff, string_eq,
}
use loadify.Platform.{Platform, Float, Hist, float}
use loadify.Dict.{lookup, insert}

abbrev pub latency_min_us : ℕ
latency_min_us = 1

abbrev pub latency_max_us : ℕ
latency_max_us = 600_000_000

abbrev pub sig_figures : ℕ
sig_figures = 3

unfoldable pub status_class : ℕ → Bool → Bytes → String
status_class status ok err_kind =
    if not (is_nil err_kind) || not ok
    then (if leb 500 status then "5xx" else if leb 400 status then "4xx" else "err")
    else if leb 500 status
    then "5xx"
    else if leb 400 status
    then "4xx"
    else if leb 200 status && ltb status 300
    then "2xx"
    else "2xx"

pub record Key : Type 0 where
  pub group : String
  pub status_class : String

abbrev key_beq : Key → Key → Bool
key_beq a b = a.group == b.group && a.status_class == b.status_class

pub key_beq_iff : (a b : Key) → (key_beq a b ≡ true) ↔ (a ≡ b)
key_beq_iff a b = ground (arith, ==_iff a.group b.group, ==_iff a.status_class b.status_class)

instance abbrev pub key_eq : Comparable Key
key_eq = record { same = key_beq; same_iff = key_beq_iff }

module _ ⦃p : Platform⦄ where
  -- NewHistogram
  abbrev pub new_histogram : Hist
  new_histogram = p.new_hist latency_min_us latency_max_us sig_figures

  pub record Bucket : Type 0 where
    pub count : ℕ
    pub errors : ℕ
    pub sent_bytes : ℕ
    pub recv_bytes : ℕ
    pub hist : Hist

  unfoldable pub new_bucket : Bucket
  new_bucket = record {
    count = 0;
    errors = 0;
    sent_bytes = 0;
    recv_bytes = 0;
    hist = new_histogram;
  }

  abbrev pub Buckets : Type 0
  Buckets = List (Key × Bucket)

  pub record Recorder : Type 0 where
    pub buckets : Buckets

  unfoldable pub new_recorder : Recorder
  new_recorder = record { buckets = [] }

  unfoldable pub or_new : Option Bucket → Bucket
  unfolding new_bucket
  or_new none = new_bucket
  or_new (some b) = b

  -- What `Record` does to the bucket of an observation.
  unfoldable pub observe : Bucket → Bool → Bytes → (latency_us sent_bytes recv_bytes : ℕ) → Bucket
  observe b ok err_kind latency_us sent_bytes recv_bytes =
      let low = if ltb latency_us latency_min_us then latency_min_us else latency_us in
      let latency = if ltb latency_max_us low then latency_max_us else low in
      record {
        count = b.count + 1;
        errors = if not ok || not (is_nil err_kind) then b.errors + 1 else b.errors;
        sent_bytes = b.sent_bytes + sent_bytes;
        recv_bytes = b.recv_bytes + recv_bytes;
        hist = p.record_value b.hist latency;
      }

  -- Recorder.Record
  unfoldable pub record_one :
      Recorder → String → ℕ → Bool → Bytes → (latency_us sent_bytes recv_bytes : ℕ) → Recorder
  record_one r group status ok err_kind latency_us sent_bytes recv_bytes =
      let k : Key = record { group = group; status_class = status_class status ok err_kind } in
      let b : Bucket = or_new (lookup k r.buckets) in
      record {
        buckets = insert k (observe b ok err_kind latency_us sent_bytes recv_bytes) r.buckets;
      }

  -- Recorder.Reset
  unfoldable pub reset : Recorder → Recorder
  reset r = record { buckets = [] }

  -- EncodeHistogram and DecodeHistogram; a nil histogram is `none`, a nil slice is `[]`.
  unfoldable pub encode_histogram : Option Hist → List ℕ
  encode_histogram none = []
  encode_histogram (some h) = elim (p.gob_encode h) [ none ↦ [] | some bytes ↦ bytes ]

  unfoldable pub decode_histogram : List ℕ → Option Hist
  decode_histogram [] = none
  decode_histogram (b ∷ bytes) = p.gob_decode (b ∷ bytes)

  -- Percentiles, in milliseconds.
  pub record Percentiles : Type 0 where
    pub p50 : Float
    pub p90 : Float
    pub p95 : Float
    pub p99 : Float

  -- PercentilesOf
  unfoldable pub percentiles_of : Option Hist → Percentiles
  percentiles_of none = record { p50 = float 0; p90 = float 0; p95 = float 0; p99 = float 0 }
  percentiles_of (some h) =
      if eqb (p.hist_count h) 0
      then record { p50 = float 0; p90 = float 0; p95 = float 0; p99 = float 0 }
      else record {
        p50 = p.div_float (float (p.value_at_quantile h 50)) (float 1000);
        p90 = p.div_float (float (p.value_at_quantile h 90)) (float 1000);
        p95 = p.div_float (float (p.value_at_quantile h 95)) (float 1000);
        p99 = p.div_float (float (p.value_at_quantile h 99)) (float 1000);
      }
