-- ===== src/Examples/Aggregating.antt =====
-- Batches, ticks, the breaker and the recorder at small values.
use loadify.Prelude.{
  ℕ, Bytes, ◌+◌, ◌*◌, ◌≡◌, refl, ◌&&◌, List, [], ◌∷◌, ◌++◌, map, none, true, leb, All, nat_eq,
  if◌then◌else◌,
}
use loadify.Wire.{http}
use loadify.Dict.{lookup}
use loadify.Metrics.{Bucket, Buckets}
use loadify.Breaker.{eval_window, sec_stat}
use loadify.Breaker.Window.{IsTail, eval_window_history, window}
use loadify.Aggregator.{Aggregator, new, ingest, finalize}
use loadify.Aggregator.Conservation.{run, accepted, ingests, ticks, run_conserves, Event}
use loadify.Aggregator.Seconds.{rows_count, pending, tick_times, Fresh}
use loadify.Aggregator.Sorting.{Ascending, contains}
use loadify.Aggregator.Order.{Inv, new-Inv, ingest-Inv, finalize_order, cutoff, is_pending}
use loadify.Examples.Fixture.{whole, batch, stalled_tick, breaker}

-- "eof"
abbrev eof : Bytes
eof = 101 ∷ 111 ∷ 102 ∷ []

abbrev start : Aggregator
start = new "r1" http true

-- A batch, a tick that finalizes its second, and the batch again, which is late.
abbrev history : List Event
history = ingests batch ∷ ticks 9000 ∷ ingests batch ∷ []

run_conserves_example :
    let (a, rows) = run history start [] in
    (rows_count rows + pending a ≡ accepted history start)
    × (a.total_count ≡ accepted history start)
run_conserves_example = run_conserves "r1" http history

abbrev one_batch : Aggregator
one_batch = ingest start batch

one_batch-Inv : Inv one_batch
one_batch-Inv = ingest-Inv start batch (new-Inv "r1" http true)

finalize_order_example :
    let (a', out, reason) = finalize one_batch 9000 in
    (secs : List ℕ) × (tick_times out.ticks ≡ map (λ sec. sec * 1000) secs)
    × Ascending secs
    × All (Fresh one_batch.last_emitted) secs
    × ((k : ℕ) → contains secs k ≡ (leb k (cutoff 9000) && is_pending k one_batch))
    × ((k : ℕ)
        → lookup k a'.buckets ≡ (if leb k (cutoff 9000) then none else lookup k one_batch.buckets))
finalize_order_example = finalize_order one_batch 9000 one_batch-Inv

abbrev home : Bucket
home = record { count = 4; errors = 1; sent_bytes = 10; recv_bytes = 20; hist = 4 }

abbrev buckets : Buckets
buckets =
    (record { group = "home"; status_class = "2xx" }, home)
    ∷ (record { group = "txn:pay"; status_class = "2xx" }, home)
    ∷ []

eval_window_history_example :
    IsTail
      (window breaker)
      ([] ++ map sec_stat (stalled_tick ∷ []))
      (eval_window breaker (stalled_tick ∷ [])).0.auto_win
eval_window_history_example =
    eval_window_history breaker [] (stalled_tick ∷ [])
      (record { forgotten = []; split = refl; counted = refl })
