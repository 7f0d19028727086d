-- ===== src/Aggregator/Order.antt =====
-- The order in which seconds are finalized, and the invariant that it rests on.
use loadify.Prelude.{
  ℕ, ◌-◌, ◌*◌, ◌/◌, ◌≤◌, ◌≡◌, refl, inl, inr, Bool, true, ◌&&◌, String, List, [], ◌∷◌, map, none,
  some, arith, leb, if◌then◌else◌, All, nat_eq, Option-cases,
}
use loadify.Platform.{Platform}
use loadify.Wire.{Protocol, MetricBatch}
use loadify.Dict.{lookup, keys, Distinct, insert-Distinct, lookup-insert}
use loadify.Metrics.{Buckets}
use loadify.Aggregator.{
  Aggregator, new, ingest, ingest_slices, finalize, finalize_loop, is_late, or_empty, nothing,
  finalize_grace_ms,
}
use loadify.Aggregator.Sorting.{
  contains, Ascending, due, due-Ascending, due-le, contains-due, contains-keys, keys_absent,
}
use loadify.Aggregator.Seconds.{Fresh, LoopFacts, loop_facts, tick_times}

All-contains {κ} :
    (P : ℕ → Type κ) (xs : List ℕ) → ((k : ℕ) → contains xs k ≡ true → P k) → All P xs
All-contains P [] h = tt
All-contains P (x ∷ xs) h = (h x (ground arith), All-contains P xs (λ k e. h k (ground arith)))

module _ ⦃p : Platform⦄ where
  -- Every pending second stands once and lies behind the last one emitted.
  pub record Inv (a : Aggregator) : Type 0 where
    pub distinct : Distinct a.buckets
    pub fresh : (k : ℕ) (bk : Buckets) → lookup k a.buckets ≡ some bk → Fresh a.last_emitted k

  pub new-Inv : (run_id : String) (proto : Protocol) (writer : Bool) → Inv (new run_id proto writer)
  unfolding new
  new-Inv run_id proto writer = record { distinct = tt; fresh = λ k bk e. inl refl }

  pub ingest-Inv : (a : Aggregator) (b : MetricBatch) → Inv a → Inv (ingest a b)
  unfolding ingest is_late
  ingest-Inv a b v = record {
    distinct = ground (
      arith,
      insert-Distinct (b.bucket_unix_ms / 1000)
          (ingest_slices (or_empty (lookup (b.bucket_unix_ms / 1000) a.buckets)) a.total_count
            b.agg).0
          a.buckets v.distinct,
    );
    fresh = λ k bk e. ground (
      arith,
      v.fresh k bk,
      e,
      lookup-insert (b.bucket_unix_ms / 1000) k
          (ingest_slices (or_empty (lookup (b.bucket_unix_ms / 1000) a.buckets)) a.total_count
            b.agg).0
          a.buckets,
    );
  }

  -- The cutoff of a finalization at a time.
  abbrev pub cutoff : ℕ → ℕ
  cutoff now_ms = (now_ms - finalize_grace_ms) / 1000

  pub due-Fresh : (a : Aggregator) (c : ℕ) → Inv a → All (Fresh a.last_emitted) (due c a.buckets)
  due-Fresh a c v = All-contains (Fresh a.last_emitted) _ λ k e.
      elim (Option-cases (lookup k a.buckets)) [
        | inl missing ↦
            absurd (ground (arith, contains-due c k a.buckets, keys_absent k a.buckets missing, e))
        | inr (bk, found) ↦ v.fresh k bk found
      ]

  -- The facts about the loop of a finalization.
  pub finalize_facts :
      (a : Aggregator) (now : ℕ) → Inv a → LoopFacts (due (cutoff now) a.buckets) a nothing
  finalize_facts a now v =
      loop_facts (due (cutoff now) a.buckets) a nothing (due-Fresh a (cutoff now) v)
        (due-Ascending (cutoff now) a.buckets v.distinct) v.distinct

  All-at : (c : ℕ) (xs : List ℕ) (k : ℕ) → All (λ x. x ≤ c) xs → contains xs k ≡ true → k ≤ c
  All-at c [] k h e = absurd (cc e)
  All-at c (x ∷ xs) k h e = ground (arith, All-at c xs k)

  pub finalize-Inv : (a : Aggregator) (now : ℕ) → Inv a → Inv (finalize a now).0
  unfolding finalize
  finalize-Inv a now v =
      let f = finalize_facts a now v in
      record {
        distinct = f.distinct;
        fresh = λ k bk e.
            let ready = due (cutoff now) a.buckets in
            let last : ℕ = (finalize_loop ready a nothing).0.last_emitted in
            ground (
              arith,
              e,
              f.left k,
              v.fresh k bk,
              f.emitted,
              contains-due (cutoff now) k a.buckets,
              contains-keys k a.buckets,
              All-at (cutoff now) ready last (due-le (cutoff now) a.buckets),
            );
      }

  -- Whether batches of a second are pending.
  abbrev pub is_pending : ℕ → Aggregator → Bool
  is_pending k a = contains (keys a.buckets) k

  -- Under the invariant a finalization emits one tick for each pending second that lies behind the
  -- grace window, in ascending order, none of them at or before a second emitted earlier (where
  -- the last one is not second 0), and it leaves exactly the other pending seconds, untouched.
  pub finalize_order :
      (a : Aggregator) (now : ℕ)
      → Inv a
      → let (a', out, reason) = finalize a now in
        (secs : List ℕ) × (tick_times out.ticks ≡ map (λ sec. sec * 1000) secs)
        × Ascending secs
        × All (Fresh a.last_emitted) secs
        × ((k : ℕ) → contains secs k ≡ (leb k (cutoff now) && is_pending k a))
        × ((k : ℕ)
            → lookup k a'.buckets ≡ (if leb k (cutoff now) then none else lookup k a.buckets))
  unfolding finalize
  finalize_order a now v =
      let f = finalize_facts a now v in
      let ready = due (cutoff now) a.buckets in
      (
        ready,
        ground (arith, f.times),
        due-Ascending (cutoff now) a.buckets v.distinct,
        due-Fresh a (cutoff now) v,
        λ k. contains-due (cutoff now) k a.buckets,
        λ k. ground (
          arith,
          f.left k,
          contains-due (cutoff now) k a.buckets,
          contains-keys k a.buckets,
          keys_absent k a.buckets,
        ),
      )
