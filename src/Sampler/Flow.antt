-- ===== src/Sampler/Flow.antt =====
-- From the iterations of a worker to the pending seconds of the coordinator.
use loadify.Prelude.{
  ℕ, ◌+◌, ◌/◌, ◌≡◌, refl, sym, subst, ap, ◌∙◌, false, List, [], ◌∷◌, some, arith, length, sum_of,
  Bool-cases, inl, inr, nat_eq, if◌then◌else◌,
}
use loadify.Platform.{Platform, CountsValues, HasBounds, merged, KeepsSnapshots}
use loadify.Wire.{Protocol, AggSlice, MetricBatch}
use loadify.Dict.{lookup, insert, total, lookup-insert}
use loadify.Metrics.{
  Key, Bucket, Buckets, key_eq, or_new, record_one, encode_histogram, decode_histogram,
  latency_min_us, latency_max_us, sig_figures,
}
use loadify.Metrics.Recording.{
  record_one-totals, record_one-Exact, Exact, ExactBucket, Exact-insert, Exact-lookup, failed,
}
use loadify.Aggregator.{
  Aggregator, ingest, ingest_slices, merge_slice, slice_key, is_late, or_empty,
}
use loadify.Aggregator.Seconds.{pending}
use loadify.Aggregator.Conservation.{slices_count, ingest_conserves}
use loadify.Sampler.{Sampler, Result, record_result, maybe_sample, flush, to_slices, to_slice}
use loadify.Sampler.Caps.{record_all}

-- How many of the results failed.
abbrev pub failures : List (Result × ℕ) → ℕ
failures = sum_of (λ (r, now). if failed r.ok r.error_kind then 1 else 0)

abbrev pub slices_errors : List AggSlice → ℕ
slices_errors = sum_of (λ s. s.errors)

module _ ⦃p : Platform⦄ where
  maybe_sample-rec : (s : Sampler) (r : Result) (now : ℕ) → (maybe_sample s r now).rec ≡ s.rec
  unfolding maybe_sample
  maybe_sample-rec s r now = ground arith

  record_result-totals :
      (s : Sampler) (r : Result) (now : ℕ)
      → let after = (record_result s r now).rec.buckets in
        (total (λ b. b.count) after ≡ total (λ b. b.count) s.rec.buckets + 1)
        × (total (λ b. b.errors) after
            ≡ total (λ b. b.errors) s.rec.buckets + (if failed r.ok r.error_kind then 1 else 0))
  unfolding record_result
  record_result-totals s r now =
      let (counted, failed', _, _) =
        record_one-totals s.rec r.group r.status r.ok r.error_kind r.latency_us r.sent_bytes
          r.recv_bytes in
      let kept = maybe_sample-rec _ r now in
      (
        ap (λ rec. total (λ b. b.count) rec.buckets) kept ∙ counted,
        ap (λ rec. total (λ b. b.errors) rec.buckets) kept ∙ failed',
      )

  record_all-totals :
      (results : List (Result × ℕ)) (s : Sampler)
      → let after = (record_all results s).rec.buckets in
        (total (λ b. b.count) after ≡ total (λ b. b.count) s.rec.buckets + length results)
        × (total (λ b. b.errors) after ≡ total (λ b. b.errors) s.rec.buckets + failures results)
  unfolding record_all
  record_all-totals [] s = omega arith
  record_all-totals ((r, now) ∷ results) s =
      omega (arith, record_result-totals s r now, record_all-totals results (record_result s r now))

  flush_lem :
      (s : Sampler) (bucket : ℕ)
      → ((flush s bucket).0.rec.buckets ≡ [])
        × ((flush s bucket).1.agg ≡ to_slices s.protocol s.rec.buckets)
        × ((flush s bucket).1.bucket_unix_ms ≡ bucket)
  unfolding flush loadify.Metrics.new_recorder
  flush_lem s bucket = (refl, refl, refl)

  slices-totals :
      (proto : Protocol) (bk : Buckets)
      → (slices_count (to_slices proto bk) ≡ total (λ b. b.count) bk)
        × (slices_errors (to_slices proto bk) ≡ total (λ b. b.errors) bk)
  unfolding to_slices to_slice
  slices-totals proto [] = omega arith
  slices-totals proto ((k, b) ∷ bk) = ground (arith, slices-totals proto bk)

  -- What a worker records between two flushes reaches the coordinator whole: the batch reports as
  -- many requests as there were iterations and as many errors as there were failed ones, and
  -- the aggregator, unless the batch's second was finalized before, has as many more pending
  -- requests and counts as many more in all.
  pub recorded_reach_pending :
      (s : Sampler) (before bucket : ℕ) (results : List (Result × ℕ)) (a : Aggregator)
      → is_late a (bucket / 1000) ≡ false
      → let batch = (flush (record_all results (flush s before).0) bucket).1 in
        (slices_count batch.agg ≡ length results)
        × (slices_errors batch.agg ≡ failures results)
        × (pending (ingest a batch) ≡ pending a + length results)
        × ((ingest a batch).total_count ≡ a.total_count + length results)
  recorded_reach_pending s before bucket results a fresh =
      let s' = record_all results (flush s before).0 in
      let batch = (flush s' bucket).1 in
      let (empty, _, _) = flush_lem s before in
      let (_, sent, at') = flush_lem s' bucket in
      let all = record_all-totals results (flush s before).0 in
      let none_yet = ap (λ bk. total (λ b. b.count) bk) empty in
      let none_failed = ap (λ bk. total (λ b. b.errors) bk) empty in
      let (counts, errors) = slices-totals s'.protocol s'.rec.buckets in
      let counted : slices_count batch.agg ≡ length results =
        omega (arith, ap slices_count sent, counts, all, none_yet) in
      let in_time : is_late a (batch.bucket_unix_ms / 1000) ≡ false =
        ap (λ t. is_late a (t / 1000)) at' ∙ fresh in
      (
        counted,
        omega (arith, ap slices_errors sent, errors, all, none_failed),
        ground (arith, ingest_conserves a batch, in_time, counted),
        ground (arith, ingest_conserves a batch, in_time, counted),
      )

  record_all-Exact :
      (results : List (Result × ℕ)) (s : Sampler)
      → CountsValues p latency_min_us latency_max_us sig_figures
      → Exact s.rec.buckets
      → Exact (record_all results s).rec.buckets
  unfolding record_all record_result
  record_all-Exact [] s c x = x
  record_all-Exact ((r, now) ∷ results) s c x = record_all-Exact results _ c (
      simp (maybe_sample-rec _ r now) (
        record_one-Exact s.rec r.group r.status r.ok r.error_kind r.latency_us r.sent_bytes
          r.recv_bytes c x))

  decode-encode :
      (h : p.Hist) → KeepsSnapshots p → decode_histogram (encode_histogram (some h)) ≡ some h
  unfolding encode_histogram decode_histogram
  decode-encode h g =
      let (x, bytes, wrote, read) = g.gob_round_trip h in rw (decode_histogram, wrote) read

  merge_slice-hist :
      (dst : Bucket) (proto : Protocol) (k : Key) (b : Bucket)
      → KeepsSnapshots p
      → (merge_slice dst (to_slice proto k b)).hist ≡ p.merge dst.hist b.hist
  unfolding merge_slice to_slice
  merge_slice-hist dst proto k b g = rw (merge_slice, decode-encode b.hist g) refl

  merge_slice-count :
      (dst : Bucket) (proto : Protocol) (k : Key) (b : Bucket)
      → (merge_slice dst (to_slice proto k b)).count ≡ dst.count + b.count
  unfolding merge_slice to_slice
  merge_slice-count dst proto k b = refl

  ingest_slices-Exact :
      (proto : Protocol) (mine bk : Buckets) (count : ℕ)
      → CountsValues p latency_min_us latency_max_us sig_figures
      → KeepsSnapshots p
      → Exact bk
      → Exact mine
      → Exact (ingest_slices bk count (to_slices proto mine)).0
  unfolding ingest_slices to_slices
  ingest_slices-Exact proto [] bk count c g x y = x
  ingest_slices-Exact proto ((k, b) ∷ mine) bk count c g x y =
      let slice = to_slice proto k b in
      let dst = or_new (lookup (slice_key slice) bk) in
      let (bounds, counted) = Exact-lookup (slice_key slice) bk c x in
      let hist = merge_slice-hist dst proto k b g in
      let merged_count : p.hist_count (merge_slice dst slice).hist ≡ (merge_slice dst slice).count =
        omega (
          arith,
          ap p.hist_count hist,
          c.hist_count-merge dst.hist b.hist bounds y.0.0,
          merge_slice-count dst proto k b,
          counted,
          y.0.1,
        ) in
      let exact : ExactBucket (merge_slice dst slice) = (
        subst (HasBounds p latency_min_us latency_max_us sig_figures) (sym hist)
            (merged bounds y.0.0),
        merged_count,
      ) in
      ingest_slices-Exact proto mine (insert (slice_key slice) (merge_slice dst slice) bk)
        (count + slice.count) c g
        (Exact-insert (slice_key slice) (merge_slice dst slice) bk exact x) y.1

  lookup-insert_sec :
      (sec : ℕ) (bk : Buckets) (m : List (ℕ × Buckets)) → lookup sec (insert sec bk m) ≡ some bk
  lookup-insert_sec sec bk m = ground (arith, lookup-insert sec sec bk m)

  ingest_bucket-Exact :
      (a : Aggregator) (b : MetricBatch) (proto : Protocol) (mine : Buckets)
      → CountsValues p latency_min_us latency_max_us sig_figures
      → KeepsSnapshots p
      → b.agg ≡ to_slices proto mine
      → Exact (or_empty (lookup (b.bucket_unix_ms / 1000) a.buckets))
      → Exact mine
      → Exact (or_empty (lookup (b.bucket_unix_ms / 1000) (ingest a b).buckets))
  unfolding ingest
  ingest_bucket-Exact a b proto mine c g sent x y =
      let sec = b.bucket_unix_ms / 1000 in
      let bk = or_empty (lookup sec a.buckets) in
      let new_bk = (ingest_slices bk a.total_count b.agg).0 in
      let together : Exact new_bk =
        subst (λ agg. Exact (ingest_slices bk a.total_count agg).0) (sym sent)
          (ingest_slices-Exact proto mine bk a.total_count c g x y) in
      elim (Bool-cases (is_late a (b.bucket_unix_ms / 1000))) [
        | inl late ↦ rw (ingest, late) x
        | inr fresh ↦ simp fresh (
            subst (λ o. Exact (or_empty o)) (sym (lookup-insert_sec sec new_bk a.buckets)) together)
      ]

  -- The histograms survive the way over the wire. With a histogram library that counts the values of
  -- histograms with the same bounds and snapshots that are read back: if the histograms that the
  -- coordinator has for a second have the bounds of latencies and hold as many values as their buckets
  -- count, this also holds after a worker's batch for that second, whatever the worker recorded.
  pub ingest-Exact :
      (s : Sampler) (before bucket : ℕ) (results : List (Result × ℕ)) (a : Aggregator)
      → CountsValues p latency_min_us latency_max_us sig_figures
      → KeepsSnapshots p
      → Exact (or_empty (lookup (bucket / 1000) a.buckets))
      → let batch = (flush (record_all results (flush s before).0) bucket).1 in
        Exact (or_empty (lookup (bucket / 1000) (ingest a batch).buckets))
  ingest-Exact s before bucket results a c g x =
      let s' = record_all results (flush s before).0 in
      let (empty, _, _) = flush_lem s before in
      let (_, sent, at') = flush_lem s' bucket in
      let mine = record_all-Exact results (flush s before).0 c (subst Exact (sym empty) tt) in
      let batch = (flush s' bucket).1 in
      let sec : batch.bucket_unix_ms / 1000 ≡ bucket / 1000 = ap (λ t. t / 1000) at' in
      subst (λ t. Exact (or_empty (lookup t (ingest a batch).buckets))) sec
        (ingest_bucket-Exact a batch s'.protocol s'.rec.buckets c g sent
          (subst (λ t. Exact (or_empty (lookup t a.buckets))) (sym sec) x) mine)
