-- ===== src/Executor/Pool/Size.antt =====
-- How many virtual users there are, and that none is lost sight of.
use loadify.Prelude.{
  ℕ, zero, suc, ◌+◌, ◌-◌, ◌≡◌, refl, ap, ◌∙◌, not, ◌||◌, ltb, ℤ, pos, negsuc, ◌&&◌, List, [], ◌∷◌,
  arith, length, drop, sum_of, eqb, leb, if◌then◌else◌, Bool-cases, inl, inr,
}
use loadify.Platform.{Platform}
use loadify.Sampler.{Sampler}
use loadify.Executor.Ramp.{Ramp}
use loadify.Executor.Limits.{clamp_vus}
use loadify.Executor.Pool.{
  Pool, spawn, spawn_loop, cancel_last, cancel_loop, scale_to, run_tick, run_loop,
}

abbrev pub times : ℕ → List ℕ → ℕ
times k = sum_of (λ i. if eqb i k then 1 else 0)

-- Each id handed out is that of one virtual user, live or cancelled, and no other id is.
abbrev pub Accounted : Pool → ℕ → Type 0
Accounted e k = times k e.vus + times k e.cancelled ≡ (if leb 1 k && leb k e.next_id then 1 else 0)

spawn_loop_lem :
    (n : ℕ) (e : Pool) (k : ℕ)
    → Accounted e k
    → Accounted (spawn_loop n e) k
      × (length (spawn_loop n e).vus ≡ length e.vus + n)
      × ((spawn_loop n e).max_vus ≡ e.max_vus)
      × ((spawn_loop n e).stopped ≡ e.stopped)
unfolding spawn_loop spawn
spawn_loop_lem zero e k a = (a, omega arith, refl, refl)
spawn_loop_lem (suc n) e k a = ground (arith, a, spawn_loop_lem n (spawn e) k)

cancel_last_lem :
    (e : Pool) (vus : List ℕ) (k : ℕ)
    → e.vus ≡ vus
    → Accounted e k
    → Accounted (cancel_last e vus) k
      × (length (cancel_last e vus).vus ≡ length vus - 1)
      × ((cancel_last e vus).max_vus ≡ e.max_vus)
      × ((cancel_last e vus).vus ≡ drop 1 vus)
unfolding cancel_last
cancel_last_lem e [] k h a = (a, ap length h, refl, h)
cancel_last_lem e (last ∷ vus) k h a = ground (arith, a, ap (λ v. times k v) h)

cancel_loop_lem :
    (n : ℕ) (e : Pool) (k : ℕ)
    → Accounted e k
    → Accounted (cancel_loop n e) k
      × (length (cancel_loop n e).vus ≡ length e.vus - n)
      × ((cancel_loop n e).max_vus ≡ e.max_vus)
unfolding cancel_loop
cancel_loop_lem zero e k a = (a, omega arith, refl)
cancel_loop_lem (suc n) e k a =
    let one = cancel_last_lem e e.vus k refl a in
    ground (arith, one, cancel_loop_lem n (cancel_last e e.vus) k one.0)

abbrev pub wanted : Pool → ℕ → ℕ
wanted e target = if e.stopped then 0 else target

-- Scaling leaves exactly as many live virtual users as are wanted and the ceiling allows, and none
-- once the pool is stopped; every id handed out stays that of one virtual user, live or cancelled.
pub scale_to_lem :
    (e : Pool) (target k : ℕ)
    → Accounted e k
    → (length (scale_to e target).vus ≡ clamp_vus (wanted e target) e.max_vus)
      × Accounted (scale_to e target) k
unfolding scale_to
scale_to_lem e target k a =
    let capped = clamp_vus (wanted e target) e.max_vus in
    let logged = record e {
      capped_logged = e.capped_logged || not (eqb capped (wanted e target));
    } in
    let grown = spawn_loop (capped - length e.vus) logged in
    let (kept, more, _, _) = spawn_loop_lem (capped - length e.vus) logged k a in
    let (kept', fewer, _) = cancel_loop_lem (length grown.vus - capped) grown k kept in
    (omega (arith, more, fewer), kept')

clamp_vus-zero : (cap : ℤ) → clamp_vus 0 cap ≡ 0
unfolding clamp_vus
clamp_vus-zero (pos cap) = ground arith
clamp_vus-zero (negsuc n) = refl

-- No virtual user is live, and each id handed out is that of one cancelled virtual user.
pub record Drained (e : Pool) (k : ℕ) : Type 0 where
  pub idle : e.vus ≡ []
  pub cancelled_once : times k e.cancelled ≡ (if leb 1 k && leb k e.next_id then 1 else 0)

wanted-zero : (e : Pool) → wanted e 0 ≡ 0
wanted-zero e = ground arith

length-zero : (xs : List ℕ) → length xs ≡ 0 → xs ≡ []
length-zero [] h = refl
length-zero (x ∷ xs) h = absurd (omega (arith, h))

scale_to-Drained : (e : Pool) (k : ℕ) → Accounted e k → Drained (scale_to e 0) k
scale_to-Drained e k a =
    let (size, kept) = scale_to_lem e 0 k a in
    let empty : (scale_to e 0).vus ≡ [] =
      length-zero (scale_to e 0).vus
        (size ∙ (ap (λ t. clamp_vus t e.max_vus) (wanted-zero e) ∙ clamp_vus-zero e.max_vus)) in
    record { idle = empty; cancelled_once = omega (arith, kept, ap (times k) empty) }

module _ ⦃p : Platform⦄ where
  -- However the run of an executor ends, by its ramp or by a cancelled context, and whatever
  -- targets its ticks saw, no virtual user is left, and each one started was cancelled once.
  pub run_drains :
      (ramp : Ramp) (ticks : List ℕ) (e : Pool) (s : Sampler) (k : ℕ)
      → Accounted e k
      → Drained (run_loop ramp ticks e s).0 k
  unfolding run_loop run_tick
  run_drains ramp [] e s k a = scale_to-Drained e k a
  run_drains ramp (elapsed ∷ ticks) e s k a = elim (Bool-cases (ltb ramp.total elapsed)) [
    | inl over ↦ rw (run_loop, run_tick, over) (scale_to-Drained e k a)
    | inr going ↦
        rw (run_loop, run_tick, going) (run_drains ramp ticks _ _ k (scale_to_lem e _ k a).1)
  ]
