-- ===== src/Aggregator/Seconds.antt =====
-- One ready second, and the loop over them.
use loadify.Prelude.{
  ℕ, ◌+◌, ◌*◌, ◌<◌, ◌≡◌, refl, ap, sym, ◌∙◌, ◌⊎◌, inl, inr, true, false, List, [], ◌∷◌, ◌++◌, map,
  Option, none, some, arith, if◌then◌else◌, sum_of, All, nat_eq,
}
use mathlib.Core.List.{append-nil, append_assoc, map-append}
use loadify.Platform.{Platform}
use loadify.Dict.{
  lookup, delete, total, Distinct, measure, total-delete, delete-Distinct, lookup-delete,
}
use loadify.Metrics.{Buckets}
use loadify.Rollups.{Rollup, LiveTick, collect}
use loadify.Rollups.Totals.{collect_totals}
use loadify.Aggregator.{Aggregator, Output, finalize_sec, finalize_loop, is_late, or_empty}
use loadify.Aggregator.Sorting.{contains, Ascending}

-- The second `k` lies behind the last one emitted, or none was emitted yet.
abbrev pub Fresh : ℕ → ℕ → Type 0
Fresh last k = (last ≡ 0) ⊎ (last < k)

module _ ⦃p : Platform⦄ where
  -- The requests of one second's buckets, of all pending seconds, and of rows.
  abbrev pub bucket_count : Buckets → ℕ
  bucket_count bk = total (λ b. b.count) bk

  abbrev pub pending : Aggregator → ℕ
  pending a = total bucket_count a.buckets

  abbrev pub rows_count : List Rollup → ℕ
  rows_count = sum_of (λ r. r.count)

  pub bucket_count-or_empty :
      (o : Option Buckets) → bucket_count (or_empty o) ≡ measure bucket_count o
  bucket_count-or_empty none = refl
  bucket_count-or_empty (some bk) = refl

  abbrev pub tick_times : List LiveTick → List ℕ
  tick_times = map (λ t. t.ts_unix_ms)

  record SecFacts (sec : ℕ) (a : Aggregator) (out : Output) : Type 0 where
    conserved :
        rows_count (finalize_sec sec a out).1.rows + pending (finalize_sec sec a out).0
        ≡ rows_count out.rows + pending a
    emitted : (finalize_sec sec a out).0.last_emitted ≡ sec
    times : tick_times (finalize_sec sec a out).1.ticks ≡ tick_times out.ticks ++ sec * 1000 ∷ []
    removed : (finalize_sec sec a out).0.buckets ≡ delete sec a.buckets
    counted : (finalize_sec sec a out).0.total_count ≡ a.total_count
    same_writer : (finalize_sec sec a out).0.writer ≡ a.writer

  Fresh-is_late : (a : Aggregator) (sec : ℕ) → Fresh a.last_emitted sec → is_late a sec ≡ false
  unfolding is_late
  Fresh-is_late a sec h = ground arith

  sec_facts :
      (sec : ℕ) (a : Aggregator) (out : Output)
      → Distinct a.buckets
      → is_late a sec ≡ false
      → SecFacts sec a out
  unfolding finalize_sec
  sec_facts sec a out d h = record {
    conserved = ground (
      arith,
      bucket_count-or_empty (lookup sec a.buckets),
      total-delete bucket_count sec a.buckets d,
      collect_totals a.run_id a.protocol sec (or_empty (lookup sec a.buckets))
          (total (λ v. v) (or_empty (lookup sec a.vus_by_sec))) (or_empty (lookup sec a.samples))
          out.rows,
    );
    emitted = ground arith;
    times = ground (
      arith,
      collect_totals a.run_id a.protocol sec (or_empty (lookup sec a.buckets))
          (total (λ v. v) (or_empty (lookup sec a.vus_by_sec))) (or_empty (lookup sec a.samples))
          out.rows,
      map-append (λ (t : LiveTick). t.ts_unix_ms) out.ticks
          ((collect a.run_id a.protocol sec (or_empty (lookup sec a.buckets))
              (total (λ v. v) (or_empty (lookup sec a.vus_by_sec)))
              (or_empty (lookup sec a.samples)) out.rows).1
            ∷ []),
    );
    removed = ground arith;
    counted = ground arith;
    same_writer = ground arith;
  }

  pub record LoopFacts (ready : List ℕ) (a : Aggregator) (out : Output) : Type 0 where
    pub conserved :
        rows_count (finalize_loop ready a out).1.rows + pending (finalize_loop ready a out).0
        ≡ rows_count out.rows + pending a
    pub times :
        tick_times (finalize_loop ready a out).1.ticks
        ≡ tick_times out.ticks ++ map (λ sec. sec * 1000) ready
    pub emitted :
        ((finalize_loop ready a out).0.last_emitted ≡ a.last_emitted)
        ⊎ (contains ready (finalize_loop ready a out).0.last_emitted ≡ true)
    pub left :
        (k : ℕ)
        → lookup k (finalize_loop ready a out).0.buckets
          ≡ (if contains ready k then none else lookup k a.buckets)
    pub distinct : Distinct (finalize_loop ready a out).0.buckets
    pub counted : (finalize_loop ready a out).0.total_count ≡ a.total_count
    pub same_writer : (finalize_loop ready a out).0.writer ≡ a.writer

  Fresh-later : (x : ℕ) (xs : List ℕ) → All (λ y. x < y) xs → All (Fresh x) xs
  Fresh-later x [] h = tt
  Fresh-later x (y ∷ ys) h = (inr h.0, Fresh-later x ys h.1)

  module _ (sec : ℕ) (ready : List ℕ) (a : Aggregator) (out : Output) where
    abbrev next : Aggregator
    next = (finalize_sec sec a out).0

    abbrev next_out : Output
    next_out = (finalize_sec sec a out).1

    loop_step :
        SecFacts sec a out
        → Distinct a.buckets
        → LoopFacts ready next next_out
        → LoopFacts (sec ∷ ready) a out
    unfolding finalize_loop
    loop_step s d f = record {
      conserved = f.conserved ∙ s.conserved;
      times =
          f.times
          ∙ ap (λ l. l ++ map (λ sec. sec * 1000) ready) s.times
          ∙ append_assoc (tick_times out.ticks) (sec * 1000 ∷ []) (map (λ sec. sec * 1000) ready);
      emitted = inr (ground (arith, f.emitted, s.emitted));
      left = λ k. ground (arith, f.left k, s.removed, lookup-delete sec k a.buckets);
      distinct = f.distinct;
      counted = f.counted ∙ s.counted;
      same_writer = f.same_writer ∙ s.same_writer;
    }

  -- The facts about the loop, where the ready seconds ascend from behind the last one emitted.
  pub loop_facts :
      (ready : List ℕ) (a : Aggregator) (out : Output)
      → All (Fresh a.last_emitted) ready
      → Ascending ready
      → Distinct a.buckets
      → LoopFacts ready a out
  unfolding finalize_loop
  loop_facts [] a out h s d = record {
    conserved = refl;
    times = sym (append-nil (tick_times out.ticks));
    emitted = inl refl;
    left = λ k. refl;
    distinct = d;
    counted = refl;
    same_writer = refl;
  }
  loop_facts (sec ∷ ready) a out h s d =
      let f = sec_facts sec a out d (Fresh-is_late a sec h.0) in
      loop_step sec ready a out f d (
        loop_facts ready (finalize_sec sec a out).0 (finalize_sec sec a out).1
          (rw f.emitted (Fresh-later sec ready s.0)) s.1
          (rw f.removed (delete-Distinct sec a.buckets d)))
