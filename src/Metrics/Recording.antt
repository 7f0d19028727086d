-- ===== src/Metrics/Recording.antt =====
-- What the recorder keeps of the observations of a window.
use loadify.Prelude.{
  ◌==◌, true, false, Option, some, ℕ, ◌+◌, ap, ◌∙◌, ◌≡◌, Bool, not, ◌||◌, String, Bytes, is_nil, [],
  ◌∷◌, arith, if◌then◌else◌, string_eq, All,
}
use loadify.Platform.{Platform, CountsValues, HasBounds, fresh, recorded}
use loadify.Dict.{lookup, insert, total, total-insert_more}
use loadify.Metrics.{
  Key, Bucket, Buckets, Recorder, key_eq, record_one, observe, status_class, or_new, latency_min_us,
  latency_max_us, sig_figures,
}

-- Whether an observation counts as an error.
abbrev pub failed : Bool → Bytes → Bool
failed ok err_kind = not ok || not (is_nil err_kind)

module _ ⦃p : Platform⦄ where
  -- One observation adds one to the count of all buckets together, one to their errors exactly
  -- if it was not ok or carries an error kind, and its bytes to their bytes.
  pub record_one-totals :
      (r : Recorder) (group : String) (status : ℕ) (ok : Bool) (err_kind : Bytes)
      (latency sent received : ℕ)
      → let after = (record_one r group status ok err_kind latency sent received).buckets in
        (total (λ b. b.count) after ≡ total (λ b. b.count) r.buckets + 1)
        × (total (λ b. b.errors) after
            ≡ total (λ b. b.errors) r.buckets + (if failed ok err_kind then 1 else 0))
        × (total (λ b. b.sent_bytes) after ≡ total (λ b. b.sent_bytes) r.buckets + sent)
        × (total (λ b. b.recv_bytes) after ≡ total (λ b. b.recv_bytes) r.buckets + received)
  unfolding record_one observe or_new
  record_one-totals r group status ok err_kind latency sent received =
      let k : Key = record { group = group; status_class = status_class status ok err_kind } in
      (
        total-insert_more (λ b. b.count) k _ 1 r.buckets (ground arith),
        total-insert_more (λ b. b.errors) k _ (if failed ok err_kind then 1 else 0) r.buckets
            (ground arith),
        total-insert_more (λ b. b.sent_bytes) k _ sent r.buckets (ground arith),
        total-insert_more (λ b. b.recv_bytes) k _ received r.buckets (ground arith),
      )

  -- A bucket's histogram has the bounds of latencies and holds as many values as the bucket counts.
  abbrev pub ExactBucket : Bucket → Type 0
  ExactBucket b =
      HasBounds p latency_min_us latency_max_us sig_figures b.hist × (p.hist_count b.hist ≡ b.count)

  -- The same of every bucket.
  abbrev pub Exact : Buckets → Type 0
  Exact = All (λ (_, b). ExactBucket b)

  if-Exact :
      (test : Bool) (one other : Buckets)
      → Exact one
      → Exact other
      → Exact (if test then one else other)
  if-Exact true one other x y = x
  if-Exact false one other x y = y

  pub Exact-insert :
      (k : Key) (b : Bucket) (m : Buckets) → ExactBucket b → Exact m → Exact (insert k b m)
  unfolding insert
  Exact-insert k b [] h x = (h, tt)
  Exact-insert k b ((i, c) ∷ m) h x =
      if-Exact (i == k) ((k, b) ∷ m) ((i, c) ∷ insert k b m) (h, x.1)
        (x.0, Exact-insert k b m h x.1)

  if_some-Exact :
      (test : Bool) (b : Bucket) (o : Option Bucket)
      → ExactBucket b
      → ExactBucket (or_new o)
      → ExactBucket (or_new (if test then some b else o))
  unfolding or_new
  if_some-Exact true b o x y = x
  if_some-Exact false b o x y = y

  pub Exact-lookup :
      (k : Key) (m : Buckets)
      → CountsValues p latency_min_us latency_max_us sig_figures
      → Exact m
      → ExactBucket (or_new (lookup k m))
  unfolding lookup or_new
  Exact-lookup k [] c x = (fresh, c.hist_count-new)
  Exact-lookup k ((i, b) ∷ m) c x =
      if_some-Exact (i == k) b (lookup k m) x.0 (Exact-lookup k m c x.1)

  -- With a histogram library that counts its values, a recorder whose histograms hold as many
  -- values as their buckets count stays such after any observation, also one whose latency is
  -- out of the histogram's bounds.
  pub record_one-Exact :
      (r : Recorder) (group : String) (status : ℕ) (ok : Bool) (err_kind : Bytes)
      (latency sent received : ℕ)
      → CountsValues p latency_min_us latency_max_us sig_figures
      → Exact r.buckets
      → Exact (record_one r group status ok err_kind latency sent received).buckets
  unfolding record_one observe
  record_one-Exact r group status ok err_kind latency sent received c x =
      let k : Key = record { group = group; status_class = status_class status ok err_kind } in
      let (bounds, counted) = Exact-lookup k r.buckets c x in
      Exact-insert k _ r.buckets
        (
          recorded _ (ground arith) (ground arith) bounds,
          c.hist_count-record _ _ bounds (ground arith) (ground arith) ∙ ap (λ n. n + 1) counted,
        )
        x
