-- ===== src/Rollups/Totals.antt =====
-- The rows and the tick of a second against sums over its buckets.
use loadify.Prelude.{
  ℕ, ◌+◌, ◌*◌, ◌≡◌, String, List, [], ◌∷◌, arith, sum_of, sum_of-append, length, length-append,
  if◌then◌else◌, ltb,
}
use loadify.Platform.{Platform, float}
use loadify.Wire.{Sample}
use loadify.Dict.{total}
use loadify.Metrics.{Buckets}
use loadify.Rollups.{
  Rollup, Collected, is_transaction, to_row, collect_loop, collect, start, add_bucket,
}

module _ ⦃p : Platform⦄ where
  -- The requests of the groups that are no transactions, and the errors among them.
  abbrev pub top_count : Buckets → ℕ
  top_count bk = sum_of (λ (k, b). if is_transaction k.group then 0 else b.count) bk

  abbrev pub top_errors : Buckets → ℕ
  top_errors bk = sum_of (λ (k, b). if is_transaction k.group then 0 else b.errors) bk

  collect_loop-totals :
      (run_id protocol : String) (sec : ℕ) (bk : Buckets) (c : Collected)
      → let d = collect_loop run_id protocol sec bk c in
        (sum_of (λ r. r.count) d.rows ≡ sum_of (λ r. r.count) c.rows + total (λ b. b.count) bk)
        × (sum_of (λ r. r.errors) d.rows ≡ sum_of (λ r. r.errors) c.rows + total (λ b. b.errors) bk)
        × (length d.rows ≡ length c.rows + length bk)
        × (d.count ≡ c.count + top_count bk)
        × (d.errors ≡ c.errors + top_errors bk)
  unfolding collect_loop add_bucket to_row
  collect_loop-totals run_id protocol sec [] c = omega arith
  collect_loop-totals run_id protocol sec ((k, b) ∷ bk) c =
      let next : Collected = add_bucket run_id protocol sec k b c in
      ground (
        arith,
        collect_loop-totals run_id protocol sec bk next,
        sum_of-append (λ (r : Rollup). r.count) c.rows (to_row run_id protocol sec k b ∷ []),
        sum_of-append (λ (r : Rollup). r.errors) c.rows (to_row run_id protocol sec k b ∷ []),
        length-append c.rows (to_row run_id protocol sec k b ∷ []),
      )

  -- A second's buckets become one row each, behind the rows given, with the buckets' requests and
  -- errors in all; the tick has the second's time and virtual users, its rate is the number of requests outside the transaction groups, and
  -- its error rate the share of the errors among them, 0 where there is no such request.
  pub collect_totals :
      (run_id protocol : String) (sec : ℕ) (bk : Buckets) (vus : ℕ) (samples : List Sample)
      (rows : List Rollup)
      → let (rows', tick) = collect run_id protocol sec bk vus samples rows in
        (length rows' ≡ length rows + length bk)
        × (sum_of (λ r. r.count) rows' ≡ sum_of (λ r. r.count) rows + total (λ b. b.count) bk)
        × (sum_of (λ r. r.errors) rows' ≡ sum_of (λ r. r.errors) rows + total (λ b. b.errors) bk)
        × (tick.rps ≡ float (top_count bk))
        × (tick.error_rate ≡ (
            if ltb 0 (top_count bk)
            then p.div_float (float (top_errors bk)) (float (top_count bk))
            else float 0))
        × (tick.active_vus ≡ vus)
        × (tick.ts_unix_ms ≡ sec * 1000)
  unfolding collect
  collect_totals run_id protocol sec bk vus samples rows =
      ground (arith, collect_loop-totals run_id protocol sec bk (start rows))
