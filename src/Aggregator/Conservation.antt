-- ===== src/Aggregator/Conservation.antt =====
-- No request that a worker reports in time is lost or counted twice on its way to the rows.
use loadify.Prelude.{
  ℕ, ◌+◌, ◌/◌, ◌≡◌, refl, ◌∙◌, true, String, List, [], ◌∷◌, ◌++◌, Option, none, some, arith,
  if◌then◌else◌, sum_of, sum_of-append, nat_eq,
}
use loadify.Platform.{Platform}
use loadify.Wire.{Protocol, AggSlice, MetricBatch}
use loadify.Dict.{lookup, insert, measure, total-insert, total-insert_more}
use loadify.Metrics.{key_eq, Bucket, Buckets, or_new}
use loadify.Rollups.{Rollup}
use loadify.Aggregator.{
  Aggregator, new, ingest, ingest_slices, merge_slice, slice_key, finalize, is_late, or_empty,
}
use loadify.Aggregator.Seconds.{bucket_count, pending, rows_count, bucket_count-or_empty}
use loadify.Aggregator.Order.{Inv, new-Inv, ingest-Inv, finalize-Inv, finalize_facts}

-- The requests that a batch reports.
abbrev pub slices_count : List AggSlice → ℕ
slices_count = sum_of (λ s. s.count)

module _ ⦃p : Platform⦄ where
  count-merge_slice :
      (o : Option Bucket) (s : AggSlice)
      → (merge_slice (or_new o) s).count ≡ measure (λ (b : Bucket). b.count) o + s.count
  unfolding merge_slice or_new
  count-merge_slice none s = refl
  count-merge_slice (some b) s = refl

  ingest_slices_count :
      (bk : Buckets) (count : ℕ) (slices : List AggSlice)
      → (bucket_count (ingest_slices bk count slices).0 ≡ bucket_count bk + slices_count slices)
        × ((ingest_slices bk count slices).1 ≡ count + slices_count slices)
  unfolding ingest_slices
  ingest_slices_count bk count [] = omega arith
  ingest_slices_count bk count (s ∷ slices) =
      let k = slice_key s in
      let b : Bucket = merge_slice (or_new (lookup k bk)) s in
      ground (
        arith,
        ingest_slices_count (insert k b bk) (count + s.count) slices,
        total-insert_more (λ (b : Bucket). b.count) k b s.count bk
            (count-merge_slice (lookup k bk) s),
      )

  -- A batch whose second was finalized before changes only the number of late batches, which it
  -- raises by one. Any other adds the requests it reports to the total, and as many to the pending
  -- seconds.
  pub ingest_conserves :
      (a : Aggregator) (b : MetricBatch)
      → let late = is_late a (b.bucket_unix_ms / 1000) in
        (pending (ingest a b) ≡ (if late then pending a else pending a + slices_count b.agg))
        × ((ingest a b).total_count
            ≡ (if late then a.total_count else a.total_count + slices_count b.agg))
        × ((ingest a b).late_batches ≡ (if late then a.late_batches + 1 else a.late_batches))
        × ((ingest a b).last_emitted ≡ a.last_emitted)
  unfolding ingest
  ingest_conserves a b =
      let sec = b.bucket_unix_ms / 1000 in
      let bk : Buckets = or_empty (lookup sec a.buckets) in
      ground (
        arith,
        ingest_slices_count bk a.total_count b.agg,
        bucket_count-or_empty (lookup sec a.buckets),
        total-insert bucket_count sec (ingest_slices bk a.total_count b.agg).0 a.buckets,
      )

  ingest_writer : (a : Aggregator) (b : MetricBatch) → (ingest a b).writer ≡ a.writer
  unfolding ingest
  ingest_writer a b = ground arith

  -- Under the invariant a finalization moves requests from the pending seconds to the rows that
  -- the writer is given: together they stay as many, and so does the total.
  pub finalize_conserves :
      (a : Aggregator) (now : ℕ)
      → Inv a
      → a.writer ≡ true
      → (rows_count (finalize a now).1.rows + pending (finalize a now).0 ≡ pending a)
        × ((finalize a now).0.total_count ≡ a.total_count)
        × ((finalize a now).0.writer ≡ true)
  unfolding finalize
  finalize_conserves a now v w =
      let f = finalize_facts a now v in ground (arith, f.conserved, f.counted, f.same_writer)

  -- What happens to an aggregator after its start: a batch comes in, or the ticker fires.
  pub data Event : Type 0 where
    ingests : MetricBatch → Event
    ticks : (now_ms : ℕ) → Event

  -- The state after a history, and the rows written so far.
  pub run : List Event → Aggregator → List Rollup → Aggregator × List Rollup
  run [] a rows = (a, rows)
  run (ingests b ∷ events) a rows = run events (ingest a b) rows
  run (ticks now ∷ events) a rows =
      let (a', out, reason) = finalize a now in run events a' (rows ++ out.rows)

  -- The requests of the batches of a history that are not late when they come in.
  pub accepted : List Event → Aggregator → ℕ
  accepted [] a = 0
  accepted (ingests b ∷ events) a =
      (if is_late a (b.bucket_unix_ms / 1000) then 0 else slices_count b.agg)
      + accepted events (ingest a b)
  accepted (ticks now ∷ events) a = accepted events (finalize a now).0

  run_from_conserves :
      (events : List Event) (a : Aggregator) (rows : List Rollup)
      → Inv a
      → a.writer ≡ true
      → rows_count rows + pending a ≡ a.total_count
      → (rows_count (run events a rows).1 + pending (run events a rows).0
          ≡ (run events a rows).0.total_count)
        × ((run events a rows).0.total_count ≡ a.total_count + accepted events a)
  unfolding run accepted
  run_from_conserves [] a rows v w e = (e, omega arith)
  run_from_conserves (ingests b ∷ events) a rows v w e =
      let (kept, counted) =
        run_from_conserves events (ingest a b) rows (ingest-Inv a b v) (ingest_writer a b ∙ w)
          (ground (arith, ingest_conserves a b)) in
      (kept, ground (arith, ingest_conserves a b, counted))
  run_from_conserves (ticks now ∷ events) a rows v w e =
      let f = finalize_conserves a now v w in
      let (kept, counted) =
        run_from_conserves events (finalize a now).0 (rows ++ (finalize a now).1.rows)
          (finalize-Inv a now v) f.2
          (omega (
            arith,
            e,
            f.0,
            f.1,
            sum_of-append (λ (r : Rollup). r.count) rows (finalize a now).1.rows,
          )) in
      (kept, omega (arith, counted, f.1))

  -- From the start of a run with a metric store, after any batches and ticks in any order: the
  -- requests in the rows written and those in the pending seconds together are those of all
  -- batches that were not late when they came in, and `TotalCount` says how many.
  pub run_conserves :
      (run_id : String) (proto : Protocol) (events : List Event)
      → let start : Aggregator = new run_id proto true in
        let (a, rows) = run events start [] in
        (rows_count rows + pending a ≡ accepted events start)
        × (a.total_count ≡ accepted events start)
  unfolding new
  run_conserves run_id proto events =
      let (kept, counted) =
        run_from_conserves events (new run_id proto true) [] (new-Inv run_id proto true) refl
          (omega arith) in
      (omega (arith, kept, counted), omega (arith, counted))
