-- ===== src/Agent/Sending.antt =====
-- What an agent sends at the end of a run, and what it reports after it.
use loadify.Prelude.{
  ℕ, zero, suc, ◌+◌, ◌-◌, ◌≤◌, ◌<◌, ◌≡◌, refl, sym, ap, ◌∙◌, none, List, [], ◌∷◌, ◌++◌, length,
  take, length-take, length-append, String, string_eq, ==_iff, arith, Bool-cases, inl, inr, ltb→lt,
  ltb,
}
use loadify.Platform.{Platform}
use loadify.Dict.{lookup, insert, delete, total, measure, lookup-delete, total-insert_more}
use loadify.Wire.{MetricBatch}
use loadify.Sampler.{flush}
use loadify.Coordinator.Streams.{WorkerMessage, metrics, finished}
use loadify.Agent.{
  Agent, Task, executing, holds, enqueue, finish_run, end_run, put_batch, set_active, active_vus,
  send_cap,
}

module _ {ℓ} {A : Type ℓ} where
  take_all : (n : ℕ) (xs : List A) → length xs ≤ n → take n xs ≡ xs
  take_all zero [] h = refl
  take_all zero (x ∷ xs) h = absurd (omega (arith, h))
  take_all (suc n) [] h = refl
  take_all (suc n) (x ∷ xs) h = ap (λ ys. x ∷ ys) (take_all n xs (omega (arith, h)))

  take-append_full : (n : ℕ) (xs ys : List A) → length xs ≡ n → take n (xs ++ ys) ≡ xs
  take-append_full zero [] ys h = refl
  take-append_full zero (x ∷ xs) ys h = absurd (omega (arith, h))
  take-append_full (suc n) [] ys h = absurd (omega (arith, h))
  take-append_full (suc n) (x ∷ xs) ys h =
      ap (λ zs. x ∷ zs) (take-append_full n xs ys (omega (arith, h)))

  take-take_append :
      (n : ℕ) (xs ys zs : List A) → take n (take n (xs ++ ys) ++ zs) ≡ take n (xs ++ (ys ++ zs))
  take-take_append zero xs ys zs = refl
  take-take_append (suc n) [] [] zs = refl
  take-take_append (suc n) [] (y ∷ ys) zs = ap (λ t. y ∷ t) (take-take_append n [] ys zs)
  take-take_append (suc n) (x ∷ xs) ys zs = ap (λ t. x ∷ t) (take-take_append n xs ys zs)

module _ ⦃p : Platform⦄ where
  -- What the channel keeps of a message, and the count of what it does not.
  enqueue_lem :
      (a : Agent) (m : WorkerMessage)
      → length a.send_ch ≤ send_cap
      → ((enqueue a m).send_ch ≡ take send_cap (a.send_ch ++ m ∷ []))
        × ((enqueue a m).dropped_send ≡ a.dropped_send + (length a.send_ch + 1 - send_cap))
  unfolding enqueue
  enqueue_lem a m h = elim (Bool-cases (ltb (length a.send_ch) send_cap)) [
    | inl room ↦
        let short : length a.send_ch < 256 = ltb→lt (length a.send_ch) 256 room in
        rw room (
          sym (
              take_all 256 (a.send_ch ++ m ∷ [])
                (omega (arith, short, length-append a.send_ch (m ∷ [])))),
          omega (arith, short),
        )
    | inr full ↦
        let exact : length a.send_ch ≡ 256 = ground (arith, h, full) in
        rw full (sym (take-append_full 256 a.send_ch (m ∷ []) exact), omega (arith, exact))
  ]

  delete_same : {V : Type 0} (id : String) (m : List (String × V)) → lookup id (delete id m) ≡ none
  delete_same id m = ground (arith, lookup-delete id id m, ==_iff id id)

  enqueue-same :
      (a : Agent) (m : WorkerMessage)
      → ((enqueue a m).active_by_run ≡ a.active_by_run) × ((enqueue a m).runs ≡ a.runs)
  unfolding enqueue
  enqueue-same a m = ground arith

  end_run-forgets :
      (a : Agent) (ctx : ℕ) (t : Task) (dropped_iters now : ℕ)
      → let after = end_run a ctx t executing dropped_iters now in
        (lookup t.run_id after.runs ≡ none) × (lookup t.run_id after.active_by_run ≡ none)
  unfolding end_run finish_run
  end_run-forgets a ctx t dropped_iters now = (delete_same t.run_id _, delete_same t.run_id _)

  -- At the end of a run the final batch and then the report that it has finished go into the
  -- channel as far as it has room, the report with the number of messages dropped until then; a
  -- full channel loses the report, which only the count for a later report shows. In each case the
  -- agent has forgotten the run.
  pub end_run_lem :
      (a : Agent) (ctx : ℕ) (t : Task) (dropped_iters now : ℕ)
      → length a.send_ch ≤ send_cap
      → let after = end_run a ctx t executing dropped_iters now in
        (after.send_ch
          ≡ take send_cap (
              a.send_ch
              ++ metrics (flush t.sampler now).1
                ∷ finished record {
                  run_id = t.run_id;
                  worker_id = a.worker_id;
                  final_count = 0;
                  dropped_iterations = dropped_iters;
                  dropped_metrics = a.dropped_send;
                }
                ∷ []))
        × (after.dropped_send ≡ length a.send_ch + 2 - send_cap)
        × (lookup t.run_id after.runs ≡ none)
        × (lookup t.run_id after.run_protos ≡ none)
        × (lookup t.run_id after.active_by_run ≡ none)
  unfolding end_run finish_run
  end_run_lem a ctx t dropped_iters now h =
      let swapped : Agent = record a { dropped_send = 0 } in
      let batch : WorkerMessage = metrics (flush t.sampler now).1 in
      let done : WorkerMessage = finished record {
        run_id = t.run_id;
        worker_id = a.worker_id;
        final_count = 0;
        dropped_iterations = dropped_iters;
        dropped_metrics = a.dropped_send;
      } in
      let (one, dropped) = enqueue_lem swapped batch h in
      let size = ap length one ∙ length-take 256 (a.send_ch ++ batch ∷ []) in
      let total_size = length-append a.send_ch (batch ∷ []) in
      let (two, dropped') = enqueue_lem (enqueue swapped batch) done (omega (arith, size)) in
      (
        two
            ∙ ap (λ ch. take 256 (ch ++ done ∷ [])) one
            ∙ take-take_append 256 a.send_ch (batch ∷ []) (done ∷ []),
        omega (arith, dropped, dropped', size, total_size, h),
        delete_same t.run_id _,
        delete_same t.run_id _,
        delete_same t.run_id _,
      )

  -- The batch that a flush loop took before its run ended, and hands on afterwards, puts the run's
  -- virtual users back into what the heartbeats report, though the agent has no such run any more.
  pub late_batch-active_vus :
      (a : Agent) (ctx : ℕ) (t late : Task) (b : MetricBatch) (dropped_iters now : ℕ)
      → late.run_id ≡ t.run_id
      → let after = end_run a ctx t executing dropped_iters now in
        (active_vus (put_batch after ctx late (holds b)) ≡ active_vus after + b.active_vus)
        × (lookup t.run_id (put_batch after ctx late (holds b)).runs ≡ none)
  unfolding put_batch set_active active_vus
  late_batch-active_vus a ctx t late b dropped_iters now same =
      let after = end_run a ctx t executing dropped_iters now in
      let put : Agent = set_active after late.run_id b.active_vus in
      let (same_active, same_runs) = enqueue-same put (metrics b) in
      let (no_run, no_vus) = end_run-forgets a ctx t dropped_iters now in
      let gone : lookup late.run_id after.active_by_run ≡ none =
        ap (λ id. lookup id after.active_by_run) same ∙ no_vus in
      let sum : total (λ n. n) (insert late.run_id b.active_vus after.active_by_run)
          ≡ total (λ n. n) after.active_by_run + b.active_vus =
        total-insert_more (λ n. n) late.run_id b.active_vus b.active_vus after.active_by_run
          (omega (arith, ap (measure (λ (n : ℕ). n)) gone)) in
      (ap (total (λ n. n)) same_active ∙ sum, ap (lookup t.run_id) same_runs ∙ no_run)
