-- ===== src/Executor/Barrier/Gather.antt =====
-- Who waits at the barrier, and who is let go.
use loadify.Prelude.{
  ℕ, subst, ◌+◌, ◌*◌, ◌≤◌, ◌<◌, true, Bool-cases, Option-cases, inl, inr, ◌≡◌, refl, Bool, false,
  some, List, [], ◌∷◌, ◌++◌, arith, length, nat_eq, leb, eqb,
}
use loadify.Dict.{lookup, delete}
use loadify.Executor.Barrier.{
  Barrier, release, await, arrive, time_out, resume, Step, arrives, times_out, resumes, step, run,
  new_barrier, arrive_all,
}

abbrev AllAt : ℕ → List (ℕ × ℕ) → Type 0
AllAt n [] = Unit
AllAt n ((vu, g) ∷ ps) = (g ≡ n) × AllAt n ps

abbrev AllBefore : ℕ → List (ℕ × ℕ) → Type 0
AllBefore n [] = Unit
AllBefore n ((vu, g) ∷ ps) = (g < n) × AllBefore n ps

-- The count is that of the sleepers, who all read the present generation and are too few to go;
-- those that were woken read an earlier one.
pub record IsGathering (b : Barrier) : Type 0 where
  pub counted : b.waiting ≡ length b.asleep
  pub short : b.waiting < b.target
  pub present : AllAt b.gen b.asleep
  pub past : AllBefore b.gen b.awake

eqb_same : (n : ℕ) → eqb n n ≡ true
eqb_same n = ground arith

AllBefore-suc :
    (n : ℕ) (ps qs : List (ℕ × ℕ)) → AllBefore n ps → AllAt n qs → AllBefore (n + 1) (ps ++ qs)
AllBefore-suc n [] [] h k = tt
AllBefore-suc n [] ((vu, g) ∷ qs) h k = (omega (arith, k.0), AllBefore-suc n [] qs tt k.1)
AllBefore-suc n ((vu, g) ∷ ps) qs h k = (omega (arith, h.0), AllBefore-suc n ps qs h.1 k)

AllBefore-delete : (n vu : ℕ) (ps : List (ℕ × ℕ)) → AllBefore n ps → AllBefore n (delete vu ps)
unfolding delete
AllBefore-delete n vu [] h = tt
AllBefore-delete n vu ((v, g) ∷ ps) h = ground (arith, h, AllBefore-delete n vu ps)

AllBefore-lookup : (n vu g : ℕ) (ps : List (ℕ × ℕ)) → AllBefore n ps → lookup vu ps ≡ some g → g < n
unfolding lookup
AllBefore-lookup n vu g [] h e = ground (arith, e)
AllBefore-lookup n vu g ((v, g') ∷ ps) h e = ground (arith, h, e, AllBefore-lookup n vu g ps)

release-IsGathering :
    (b : Barrier)
    → 1 ≤ b.target
    → AllAt b.gen b.asleep
    → AllBefore b.gen b.awake
    → IsGathering (release b)
unfolding release
release-IsGathering b h k l = record {
  counted = refl;
  short = omega (arith, h);
  present = tt;
  past = AllBefore-suc b.gen b.awake b.asleep l k;
}

await_past :
    (b : Barrier) (vu gen : ℕ) (cancelled : Bool) → gen < b.gen → await b vu gen cancelled ≡ b
unfolding await
await_past b vu gen cancelled h = ground (arith, h)

await_present :
    (b : Barrier) (vu : ℕ) (cancelled : Bool)
    → b.waiting ≡ length b.asleep + 1
    → b.waiting < b.target
    → AllAt b.gen b.asleep
    → AllBefore b.gen b.awake
    → IsGathering (await b vu b.gen cancelled)
unfolding await
await_present b vu true c s p q =
    rw (await, eqb_same b.gen) (release-IsGathering b (omega (arith, s)) p q)
await_present b vu false c s p q =
    rw (await, eqb_same b.gen)
      (record { counted = omega (arith, c); short = s; present = (refl, p); past = q })

arrive-IsGathering :
    (b : Barrier) (vu : ℕ) (cancelled : Bool) → IsGathering b → IsGathering (arrive b vu cancelled)
unfolding arrive
arrive-IsGathering b vu cancelled i =
    let gathered = record b { waiting = b.waiting + 1 } in
    elim (Bool-cases (leb b.target (b.waiting + 1))) [
      | inl full ↦
          rw (arrive, full) (release-IsGathering gathered (omega (arith, i.short)) i.present i.past)
      | inr open_yet ↦
          rw (arrive, open_yet)
            (await_present gathered vu cancelled (omega (arith, i.counted))
              (ground (arith, open_yet)) i.present i.past)
    ]

resume-IsGathering :
    (b : Barrier) (vu : ℕ) (cancelled : Bool) → IsGathering b → IsGathering (resume b vu cancelled)
unfolding resume
resume-IsGathering b vu cancelled i = elim (Option-cases (lookup vu b.awake)) [
  | inl e ↦ rw (resume, e) i
  | inr (gen, e) ↦
      let left = record b { awake = delete vu b.awake } in
      rw (resume, e)
        (rw (await_past left vu gen cancelled (AllBefore-lookup b.gen vu gen b.awake i.past e))
          (record {
            counted = i.counted;
            short = i.short;
            present = i.present;
            past = AllBefore-delete b.gen vu b.awake i.past;
          }))
]

time_out-IsGathering : (b : Barrier) (gen : ℕ) → IsGathering b → IsGathering (time_out b gen)
unfolding time_out
time_out-IsGathering b gen i =
    let all = release-IsGathering b (omega (arith, i.short)) i.present i.past in
    elim (Bool-cases (eqb b.gen gen)) [ inl e ↦ rw (time_out, e) all | inr e ↦ rw (time_out, e) i ]

step-IsGathering : (b : Barrier) (s : Step) → IsGathering b → IsGathering (step b s)
unfolding step
step-IsGathering b (arrives vu cancelled) = arrive-IsGathering b vu cancelled
step-IsGathering b (times_out gen) = time_out-IsGathering b gen
step-IsGathering b (resumes vu cancelled) = resume-IsGathering b vu cancelled

run-IsGathering : (b : Barrier) (steps : List Step) → IsGathering b → IsGathering (run b steps)
unfolding run
run-IsGathering b [] i = i
run-IsGathering b (s ∷ steps) i = run-IsGathering (step b s) steps (step-IsGathering b s i)

-- Whatever callers and watchdogs do in whatever order, the count is the number of those who sleep,
-- it stays below the target, no caller sleeps past the release of the generation it waits for, and
-- those that were woken belong to a released one.
pub run-new_barrier-IsGathering :
    (target : ℕ) (steps : List Step) → 1 ≤ target → IsGathering (run (new_barrier target) steps)
unfolding new_barrier
run-new_barrier-IsGathering target steps h =
    run-IsGathering (new_barrier target) steps
      (record { counted = refl; short = omega (arith, h); present = tt; past = tt })

AllAt-middle :
    (n vu gen : ℕ) (before after : List (ℕ × ℕ)) → AllAt n (before ++ (vu, gen) ∷ after) → gen ≡ n
AllAt-middle n vu gen [] after h = h.0
AllAt-middle n vu gen ((v, g) ∷ before) after h = AllAt-middle n vu gen before after h.1

-- Whoever sleeps is let go at the latest by the watchdog it set, with all the others that sleep,
-- and the next gathering starts from none.
pub time_out-frees :
    (b : Barrier) (vu gen : ℕ) (before after : List (ℕ × ℕ))
    → IsGathering b
    → b.asleep ≡ before ++ (vu, gen) ∷ after
    → ((time_out b gen).asleep ≡ [])
      × ((time_out b gen).waiting ≡ 0)
      × ((time_out b gen).awake ≡ b.awake ++ b.asleep)
unfolding time_out release
time_out-frees b vu gen before after i e =
    let now : gen ≡ b.gen =
      AllAt-middle b.gen vu gen before after (subst (AllAt b.gen) e i.present) in
    ground (arith, now)

-- The watchdog of a caller that was let go in time lets nobody of a later gathering go.
pub time_out_late :
    (b : Barrier) (vu gen : ℕ) → IsGathering b → lookup vu b.awake ≡ some gen → time_out b gen ≡ b
unfolding time_out
time_out_late b vu gen i e =
    let early : gen < b.gen = AllBefore-lookup b.gen vu gen b.awake i.past e in
    ground (arith, early)

mul-suc : (g t : ℕ) → (g + 1) * t ≡ g * t + t
mul-suc g t = grind arith

arrive-counts :
    (t : ℕ) (b : Barrier) (vu : ℕ)
    → b.waiting < b.target
    → b.target ≡ t
    → ((arrive b vu false).gen * t + (arrive b vu false).waiting ≡ b.gen * t + b.waiting + 1)
      × ((arrive b vu false).target ≡ t)
unfolding arrive await release
arrive-counts t b vu short e = ground (arith, short, e, mul-suc b.gen t)

arrive_all-counts :
    (t : ℕ) (b : Barrier) (vus : List ℕ)
    → IsGathering b
    → b.target ≡ t
    → ((arrive_all b vus).gen * t + (arrive_all b vus).waiting ≡ b.gen * t + b.waiting + length vus)
      × ((arrive_all b vus).waiting < t)
unfolding arrive_all
arrive_all-counts t b [] i e = (omega arith, omega (arith, i.short, e))
arrive_all-counts t b (vu ∷ vus) i e =
    let (one, same) = arrive-counts t b vu i.short e in
    let (sum, short) =
      arrive_all-counts t (arrive b vu false) vus (arrive-IsGathering b vu false i) same in
    (omega (arith, one, sum), short)

-- Of callers that arrive one after the other every `target`-th lets all go: the generations passed
-- and the callers left waiting are quotient and remainder of all who arrived by the target.
pub arrive_all_lem :
    (b : Barrier) (vus : List ℕ)
    → IsGathering b
    → ((arrive_all b vus).gen * b.target + (arrive_all b vus).waiting
        ≡ b.gen * b.target + b.waiting + length vus)
      × ((arrive_all b vus).waiting < b.target)
arrive_all_lem b vus i = arrive_all-counts b.target b vus i refl
