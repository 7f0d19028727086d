-- ===== src/Aggregator/Bounds.antt =====
-- What an aggregator buffers stays within its caps.
use loadify.Prelude.{
  ℕ, ◌+◌, ◌-◌, ◌/◌, ◌≤◌, List, [], ◌∷◌, ◌++◌, map, arith, if◌then◌else◌, length, length-append,
  length-take, take, All, All-append, nat_eq, ltb, Bool-cases, inl, inr,
}
use loadify.Platform.{Platform}
use loadify.Wire.{Sample, MetricBatch}
use loadify.Dict.{lookup, insert, delete}
use loadify.Rollups.{LiveTick}
use loadify.Aggregator.{
  Aggregator, Output, ingest, subscribe, finalize, finalize_loop, finalize_sec, add_samples,
  or_empty, deliver, is_late, live_sample_cap, listener_cap, ready_seconds, nothing, drain_all,
}

module _ {V : Type 0} (P : V → Type 0) where
  abbrev pub EachValue : List (ℕ × V) → Type 0
  EachValue m = All (λ (k, v). P v) m

  EachValue-insert :
      (k : ℕ) (v : V) (m : List (ℕ × V)) → P v → EachValue m → EachValue (insert k v m)
  unfolding insert
  EachValue-insert k v [] h a = (h, tt)
  EachValue-insert k v ((j, w) ∷ m) h a = ground (arith, EachValue-insert k v m h)

  EachValue-delete : (k : ℕ) (m : List (ℕ × V)) → EachValue m → EachValue (delete k m)
  unfolding delete
  EachValue-delete k [] a = tt
  EachValue-delete k ((j, w) ∷ m) a = ground (arith, EachValue-delete k m)

or_empty-short :
    (k : ℕ) (m : List (ℕ × List Sample))
    → EachValue (λ ss. length ss ≤ live_sample_cap) m
    → length (or_empty (lookup k m)) ≤ live_sample_cap
unfolding lookup
or_empty-short k [] a = omega arith
or_empty-short k ((j, w) ∷ m) a = ground (arith, or_empty-short k m)

module _ ⦃p : Platform⦄ where
  -- No second keeps more samples than the cap, and no listener's channel holds more ticks than
  -- its buffer.
  pub record Capped (a : Aggregator) : Type 0 where
    pub few_samples : EachValue (λ ss. length ss ≤ live_sample_cap) a.samples
    pub short_buffers : All (λ buffer. length buffer ≤ listener_cap) a.listeners

  add_samples-short :
      (m : List (ℕ × List Sample)) (sec : ℕ) (new_samples : List Sample)
      → EachValue (λ ss. length ss ≤ live_sample_cap) m
      → EachValue (λ ss. length ss ≤ live_sample_cap) (add_samples m sec new_samples)
  unfolding add_samples
  add_samples-short m sec [] a = a
  add_samples-short m sec (s ∷ ss) a =
      let cur : List Sample = or_empty (lookup sec m) in
      let more : List Sample = take (live_sample_cap - length cur) (s ∷ ss) in
      elim (Bool-cases (ltb (length cur) live_sample_cap)) [
        | inl room ↦ rw room (
            EachValue-insert (λ ss. length ss ≤ live_sample_cap) sec (cur ++ more) m
              (ground (
                arith,
                length-append cur more,
                length-take (live_sample_cap - length cur) (s ∷ ss),
              ))
              a)
        | inr full ↦ rw full a
      ]

  deliver-short :
      (buffer ticks : List LiveTick)
      → length buffer ≤ listener_cap
      → length (deliver buffer ticks) ≤ listener_cap
  unfolding deliver
  deliver-short buffer [] h = h
  deliver-short buffer (tick ∷ ticks) h =
      deliver-short (if ltb (length buffer) listener_cap then buffer ++ tick ∷ [] else buffer) ticks
        (ground (arith, length-append buffer (tick ∷ [])))

  deliver_all-short :
      (ticks : List LiveTick) (listeners : List (List LiveTick))
      → All (λ buffer. length buffer ≤ listener_cap) listeners
      → All
          (λ buffer. length buffer ≤ listener_cap)
          (map (λ buffer. deliver buffer ticks) listeners)
  deliver_all-short ticks [] a = tt
  deliver_all-short ticks (b ∷ bs) a = (deliver-short b ticks a.0, deliver_all-short ticks bs a.1)

  finalize_sec-Capped :
      (sec : ℕ) (a : Aggregator) (out : Output) → Capped a → Capped (finalize_sec sec a out).0
  unfolding finalize_sec
  finalize_sec-Capped sec a out c =
      let few =
        EachValue-delete (λ (ss : List Sample). length ss ≤ live_sample_cap) sec a.samples
          c.few_samples in
      elim (Bool-cases (is_late a sec)) [
        | inl late ↦
            rw (late, finalize_sec) (record { few_samples = few; short_buffers = c.short_buffers })
        | inr early ↦
            rw (early, finalize_sec) (record { few_samples = few; short_buffers = c.short_buffers })
      ]

  finalize_loop-Capped :
      (ready : List ℕ) (a : Aggregator) (out : Output)
      → Capped a
      → Capped (finalize_loop ready a out).0
  unfolding finalize_loop
  finalize_loop-Capped [] a out c = c
  finalize_loop-Capped (sec ∷ ready) a out c =
      finalize_loop-Capped ready (finalize_sec sec a out).0 (finalize_sec sec a out).1
        (finalize_sec-Capped sec a out c)

  ingest-Capped : (a : Aggregator) (b : MetricBatch) → Capped a → Capped (ingest a b)
  unfolding ingest
  ingest-Capped a b c = elim (Bool-cases (is_late a (b.bucket_unix_ms / 1000))) [
    | inl late ↦
        rw (late, ingest) (record { few_samples = c.few_samples; short_buffers = c.short_buffers })
    | inr early ↦
        rw (early, ingest)
          (record {
            few_samples =
                add_samples-short a.samples (b.bucket_unix_ms / 1000) b.samples c.few_samples;
            short_buffers = c.short_buffers;
          })
  ]

  -- Every operation keeps the samples of a second and the buffers of the listeners within their
  -- caps: a batch, a new listener, a finalization and the final drain.
  pub caps_kept :
      (a : Aggregator) (b : MetricBatch) (now : ℕ)
      → Capped a
      → Capped (ingest a b)
        × Capped (subscribe a)
        × Capped (finalize a now).0
        × Capped (drain_all a now).0
  unfolding subscribe finalize drain_all
  caps_kept a b now c =
      let after = λ (t : ℕ). finalize_loop-Capped (ready_seconds a t) a nothing c in
      (
        ingest-Capped a b c,
        record {
          few_samples = c.few_samples;
          short_buffers =
              All-append (λ (buffer : List LiveTick). length buffer ≤ listener_cap) a.listeners
                ([] ∷ []) c.short_buffers (omega arith, tt);
        },
        record {
          few_samples = (after now).few_samples;
          short_buffers = deliver_all-short _ _ (after now).short_buffers;
        },
        record { few_samples = (after (now + 3_600_000)).few_samples; short_buffers = tt },
      )
