-- ===== src/Sampler/Caps.antt =====
-- What a worker keeps of raw samples.
use loadify.Prelude.{
  ℕ, ◌+◌, ◌≤◌, ◌≡◌, refl, true, String, List, [], ◌∷◌, ◌++◌, arith, All, All-append, sum_of,
  sum_of-append, leb, inl, inr, Bool-cases, if◌then◌else◌,
}
use loadify.Platform.{Platform}
use loadify.Wire.{Sample, Protocol}
use loadify.Utf8.{valid_string}
use loadify.Utf8.Repair.{valid_utf8_lem}
use loadify.Sampler.{
  Sampler, Result, new, record_result, maybe_sample, to_sample, flush, ok_sample_cap,
  err_sample_cap,
}

-- A sample that protobuf can marshal: the texts captured from outside are valid UTF-8.
pub record Marshalable (s : Sample) : Type 0 where
  pub error_kind : valid_string s.error_kind ≡ true
  pub url : valid_string s.url ≡ true
  pub req_body : valid_string s.req_body ≡ true
  pub resp_body : valid_string s.resp_body ≡ true

abbrev pub oks : List Sample → ℕ
oks = sum_of (λ s. if s.ok then 1 else 0)

abbrev pub errs : List Sample → ℕ
errs = sum_of (λ s. if s.ok then 0 else 1)

module _ ⦃p : Platform⦄ where
  -- The counters count the samples of either kind, and neither exceeds its cap.
  pub record Sampled (s : Sampler) : Type 0 where
    pub ok_counted : s.ok_samples ≡ oks s.samples
    pub err_counted : s.err_samps ≡ errs s.samples
    pub few_oks : oks s.samples ≤ ok_sample_cap
    pub few_errs : errs s.samples ≤ err_sample_cap
    pub marshalable : All Marshalable s.samples

  pub new-Sampled :
      (run_id worker_id : String) (proto : Protocol) → Sampled (new run_id worker_id proto)
  unfolding new
  new-Sampled run_id worker_id proto = record {
    ok_counted = refl;
    err_counted = refl;
    few_oks = omega arith;
    few_errs = omega arith;
    marshalable = tt;
  }

  to_sample-Marshalable : (s : Sampler) (r : Result) (now : ℕ) → Marshalable (to_sample s r now)
  unfolding to_sample
  to_sample-Marshalable s r now = record {
    error_kind = (valid_utf8_lem r.error_kind).0;
    url = (valid_utf8_lem r.url).0;
    req_body = (valid_utf8_lem r.req_body).0;
    resp_body = (valid_utf8_lem r.resp_body).0;
  }

  kept-Sampled :
      (s t : Sampler) (x : Sample)
      → Sampled s
      → Marshalable x
      → t.samples ≡ s.samples ++ x ∷ []
      → t.ok_samples ≡ s.ok_samples + (if x.ok then 1 else 0)
      → t.err_samps ≡ s.err_samps + (if x.ok then 0 else 1)
      → t.ok_samples ≤ ok_sample_cap
      → t.err_samps ≤ err_sample_cap
      → Sampled t
  kept-Sampled s t x v m samples' ok' err' few_ok few_err =
      let oks' = sum_of-append (λ (y : Sample). if y.ok then 1 else 0) s.samples (x ∷ []) in
      let errs' = sum_of-append (λ (y : Sample). if y.ok then 0 else 1) s.samples (x ∷ []) in
      record {
        ok_counted = simp samples' (omega (arith, ok', oks', v.ok_counted));
        err_counted = simp samples' (omega (arith, err', errs', v.err_counted));
        few_oks = simp samples' (omega (arith, ok', oks', v.ok_counted, few_ok));
        few_errs = simp samples' (omega (arith, err', errs', v.err_counted, few_err));
        marshalable =
            simp samples' (All-append Marshalable s.samples (x ∷ []) v.marshalable (m, tt));
      }

  to_sample-ok : (s : Sampler) (r : Result) (now : ℕ) → (to_sample s r now).ok ≡ r.ok
  unfolding to_sample
  to_sample-ok s r now = refl

  maybe_sample-Sampled :
      (s : Sampler) (r : Result) (now : ℕ) → Sampled s → Sampled (maybe_sample s r now)
  unfolding maybe_sample
  maybe_sample-Sampled s r now v =
      let x = to_sample s r now in
      let m = to_sample-Marshalable s r now in
      let ok = to_sample-ok s r now in
      elim (Bool-cases r.ok) [
        | inl good ↦ elim (Bool-cases (leb ok_sample_cap s.ok_samples)) [
          | inl full ↦ simp (good, full) v
          | inr room ↦
              simp (good, room)
                (kept-Sampled s
                  (record s { ok_samples = s.ok_samples + 1; samples = s.samples ++ x ∷ [] }) x v m
                  refl (ground (arith, ok, good)) (ground (arith, ok, good)) (ground (arith, room))
                  (omega (arith, v.err_counted, v.few_errs)))
        ]
        | inr bad ↦ elim (Bool-cases (leb err_sample_cap s.err_samps)) [
          | inl full ↦ simp (bad, full) v
          | inr room ↦
              simp (bad, room)
                (kept-Sampled s
                  (record s { err_samps = s.err_samps + 1; samples = s.samples ++ x ∷ [] }) x v m
                  refl (ground (arith, ok, bad)) (ground (arith, ok, bad))
                  (omega (arith, v.ok_counted, v.few_oks)) (ground (arith, room)))
        ]
      ]

  -- Recording results, each at its time.
  unfoldable pub record_all : List (Result × ℕ) → Sampler → Sampler
  record_all [] s = s
  record_all ((r, now) ∷ results) s = record_all results (record_result s r now)

  record_all-Sampled :
      (results : List (Result × ℕ)) (s : Sampler) → Sampled s → Sampled (record_all results s)
  unfolding record_all record_result
  record_all-Sampled [] s v = v
  record_all-Sampled ((r, now) ∷ results) s v = record_all-Sampled results _ (
      maybe_sample-Sampled _ r now (record {
        ok_counted = v.ok_counted;
        err_counted = v.err_counted;
        few_oks = v.few_oks;
        few_errs = v.few_errs;
        marshalable = v.marshalable;
      }))

  flush-Sampled : (s : Sampler) (bucket : ℕ) → Sampled (flush s bucket).0
  unfolding flush
  flush-Sampled s bucket = record {
    ok_counted = refl;
    err_counted = refl;
    few_oks = omega arith;
    few_errs = omega arith;
    marshalable = tt;
  }

  -- Whatever was recorded between two flushes, the batch of the second carries at most 20 samples
  -- of good and 40 of failed iterations, and each of them can be marshalled: its captured texts
  -- are valid UTF-8.
  pub window_samples :
      (s : Sampler) (before bucket : ℕ) (results : List (Result × ℕ))
      → let (t, batch) = flush (record_all results (flush s before).0) bucket in
        (oks batch.samples ≤ ok_sample_cap)
        × (errs batch.samples ≤ err_sample_cap)
        × All Marshalable batch.samples
  unfolding flush
  window_samples s before bucket results =
      let v = record_all-Sampled results (flush s before).0 (flush-Sampled s before) in
      (v.few_oks, v.few_errs, v.marshalable)
