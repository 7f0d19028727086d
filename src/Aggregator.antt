-- ===== src/Aggregator.antt =====
-- internal/coordinator/aggregator/aggregator.go: the merge of worker batches into one bucket for
-- each second, and the finalization of the seconds behind the grace window.
-- Times are milliseconds since the epoch and not negative; counters do not wrap. What the writer
-- is given stands in the result of `finalize`; a write error only reaches the log and a counter
-- of the metrics endpoint.
pub mod Sorting
pub mod Seconds
pub mod Conservation
pub mod Order
pub mod Bounds
use loadify.Prelude.{
  ℕ, zero, suc, ◌+◌, ◌-◌, ◌/◌, Bool, true, false, not, ◌&&◌, String, List, [], ◌∷◌, ◌++◌, map,
  Option, none, some, ltb, leb, eqb, if◌then◌else◌, length, is_nil, take, filter, nat_eq, string_eq,
}
use loadify.Platform.{Platform, Hist}
use loadify.Wire.{Protocol, protocol_name, Sample, AggSlice, MetricBatch}
use loadify.Dict.{lookup, insert, delete, total, keys}
use loadify.Metrics.{Key, key_eq, Bucket, Buckets, or_new, decode_histogram}
use loadify.Plan.{AutoStopConfig, zero_config}
use loadify.Rollups.{Rollup, LiveTick, StoredSample, sample_to_store, collect}
use loadify.Breaker.{Breaker, Reason, eval_auto_stop}

abbrev pub finalize_grace_ms : ℕ
finalize_grace_ms = 2000

abbrev pub live_sample_cap : ℕ
live_sample_cap = 80

-- The buffer of a listener's channel.
abbrev pub listener_cap : ℕ
listener_cap = 64

-- A nil map or slice reads as an empty one.
abbrev pub or_empty {ℓ} : {A : Type ℓ} → Option (List A) → List A
or_empty none = []
or_empty (some xs) = xs

-- sort.Slice on the ready seconds.
pub insert_sorted : ℕ → List ℕ → List ℕ
insert_sorted x [] = x ∷ []
insert_sorted x (y ∷ ys) = if leb x y then x ∷ y ∷ ys else y ∷ insert_sorted x ys

unfoldable pub sort : List ℕ → List ℕ
unfolding insert_sorted
sort [] = []
sort (x ∷ xs) = insert_sorted x (sort xs)

module _ ⦃p : Platform⦄ where
  -- `listeners` holds what each channel has buffered.
  pub record Aggregator : Type 0 where
    pub run_id : String
    pub protocol : String
    pub writer : Bool
    pub buckets : List (ℕ × Buckets)
    pub samples : List (ℕ × List Sample)
    pub vus_by_sec : List (ℕ × List (String × ℕ))
    pub listeners : List (List LiveTick)
    pub last_emitted : ℕ
    pub total_count : ℕ
    pub late_batches : ℕ
    pub breaker : Breaker

  -- New
  unfoldable pub new : String → Protocol → Bool → Aggregator
  new run_id proto writer = record {
    run_id = run_id;
    protocol = protocol_name proto;
    writer = writer;
    buckets = [];
    samples = [];
    vus_by_sec = [];
    listeners = [];
    last_emitted = 0;
    total_count = 0;
    late_batches = 0;
    breaker = record {
      auto_stop = zero_config none;
      armed = false;
      auto_win = [];
      auto_fired = false;
      stall_sec = 0;
      stall_streak = 0;
    };
  }

  -- SetAutoStop, with a callback that is not nil, and SetStallSec.
  unfoldable pub set_auto_stop : Aggregator → AutoStopConfig → Aggregator
  set_auto_stop a cfg =
      let b : Breaker = a.breaker in
      record a { breaker = record b { auto_stop = cfg; armed = true } }

  unfoldable pub set_stall_sec : Aggregator → ℕ → Aggregator
  set_stall_sec a n =
      let b : Breaker = a.breaker in record a { breaker = record b { stall_sec = n } }

  -- One slice of a batch into its bucket.
  unfoldable pub merge_slice : Bucket → AggSlice → Bucket
  merge_slice dst s = record {
    count = dst.count + s.count;
    errors = dst.errors + s.errors;
    sent_bytes = dst.sent_bytes + s.sent_bytes;
    recv_bytes = dst.recv_bytes + s.recv_bytes;
    hist = elim (decode_histogram s.hdr_histogram) [
      | none ↦ dst.hist
      | some h ↦ p.merge dst.hist h
    ];
  }

  unfoldable pub slice_key : AggSlice → Key
  slice_key s = record { group = s.group; status_class = s.status_class }

  -- The loop over the slices: the second's buckets, and the count of requests so far.
  unfoldable pub ingest_slices : Buckets → ℕ → List AggSlice → Buckets × ℕ
  ingest_slices bk count [] = (bk, count)
  ingest_slices bk count (s ∷ slices) =
      ingest_slices (insert (slice_key s) (merge_slice (or_new (lookup (slice_key s) bk)) s) bk)
        (count + s.count) slices

  -- The samples of a second with those of a batch behind them, up to the cap.
  unfoldable pub add_samples : List (ℕ × List Sample) → ℕ → List Sample → List (ℕ × List Sample)
  add_samples samples sec new_samples =
      let cur : List Sample = or_empty (lookup sec samples) in
      if is_nil new_samples
      then samples
      else if ltb (length cur) live_sample_cap
      then insert sec (cur ++ take (live_sample_cap - length cur) new_samples) samples
      else samples

  -- Whether a batch's second was finalized before.
  unfoldable pub is_late : Aggregator → ℕ → Bool
  is_late a sec = not (eqb a.last_emitted 0) && leb sec a.last_emitted

  -- Ingest
  unfoldable pub ingest : Aggregator → MetricBatch → Aggregator
  ingest a b =
      let sec = b.bucket_unix_ms / 1000 in
      let (bk, count) = ingest_slices (or_empty (lookup sec a.buckets)) a.total_count b.agg in
      if is_late a sec then record a { late_batches = a.late_batches + 1 } else record a {
        vus_by_sec =
            insert sec (insert b.worker_id b.active_vus (or_empty (lookup sec a.vus_by_sec)))
              a.vus_by_sec;
        buckets = insert sec bk a.buckets;
        total_count = count;
        samples = add_samples a.samples sec b.samples;
      }

  -- Subscribe
  unfoldable pub subscribe : Aggregator → Aggregator
  subscribe a = record a { listeners = a.listeners ++ [] ∷ [] }

  -- What a finalization hands on: rows and samples for the writer, ticks for the listeners.
  pub record Output : Type 0 where
    pub rows : List Rollup
    pub ticks : List LiveTick
    pub sample_rows : List StoredSample

  -- The body of the loop over the ready seconds.
  unfoldable pub finalize_sec : ℕ → Aggregator → Output → Aggregator × Output
  finalize_sec sec a out =
      let bk : Buckets = or_empty (lookup sec a.buckets) in
      let sec_samples : List Sample = or_empty (lookup sec a.samples) in
      let active : ℕ = total (λ v. v) (or_empty (lookup sec a.vus_by_sec)) in
      let rest = record a {
        buckets = delete sec a.buckets;
        samples = delete sec a.samples;
        vus_by_sec = delete sec a.vus_by_sec;
      } in
      let (rows, tick) = collect a.run_id a.protocol sec bk active sec_samples out.rows in
      if is_late a sec then (rest, out) else (
        record rest { last_emitted = sec },
        record {
          rows = rows;
          ticks = out.ticks ++ tick ∷ [];
          sample_rows = out.sample_rows ++ map (sample_to_store a.run_id) sec_samples;
        },
      )

  unfoldable pub finalize_loop : List ℕ → Aggregator → Output → Aggregator × Output
  finalize_loop [] a out = (a, out)
  finalize_loop (sec ∷ ready) a out =
      let (a', out') = finalize_sec sec a out in finalize_loop ready a' out'

  -- A tick for a listener is dropped where its channel is full.
  unfoldable pub deliver : List LiveTick → List LiveTick → List LiveTick
  deliver buffer [] = buffer
  deliver buffer (tick ∷ ticks) =
      deliver (if ltb (length buffer) listener_cap then buffer ++ tick ∷ [] else buffer) ticks

  unfoldable pub ready_seconds : Aggregator → ℕ → List ℕ
  unfolding sort
  ready_seconds a now_ms =
      let cutoff = (now_ms - finalize_grace_ms) / 1000 in
      sort (filter (λ sec. leb sec cutoff) (keys a.buckets))

  abbrev nothing : Output
  nothing = record { rows = []; ticks = []; sample_rows = [] }

  -- finalize: the new state, what the writer is given, and the reason if the stop callback is
  -- called.
  unfoldable pub finalize : Aggregator → ℕ → Aggregator × Output × Option Reason
  unfolding ready_seconds finalize_loop
  finalize a now_ms =
      let (a', out) = finalize_loop (ready_seconds a now_ms) a nothing in
      let (breaker, reason) = eval_auto_stop a'.breaker out.ticks in
      let written = if a.writer then out else record out { rows = []; sample_rows = [] } in
      (
        record a' {
          listeners = map (λ buffer. deliver buffer out.ticks) a'.listeners;
          breaker = breaker;
        },
        written,
        reason,
      )

  -- The end of `Run`: everything is drained, as of an hour later, and the channels are closed.
  unfoldable pub drain_all : Aggregator → ℕ → Aggregator × Output × Option Reason
  unfolding finalize
  drain_all a now_ms =
      let (a', out, reason) = finalize a (now_ms + 3_600_000) in
      (record a' { listeners = [] }, out, reason)
