-- ===== src/Runs/Watching/Verdict.antt =====
-- What a watcher comes to, against a description of the answers it got.
use mathlib.Core.Option.{some-ne-none}
use loadify.Prelude.{
  ℕ, ◌+◌, ◌≤◌, ◌≡◌, refl, ap, sym, ◌∙◌, subst, inl, inr, max, Bool, true, Option, none, some, List,
  [], ◌∷◌, ◌++◌, arith, All, Bool-cases, ltb,
}
use loadify.Platform.{Platform, Float}
use loadify.Alert.{AlertEvaluator}
use loadify.Coordinator.Queries.{RunReport}
use loadify.Coordinator.Dispatch.{Result, ok, err}
use loadify.Runs.{Status, EndReason, has_ended}
use loadify.Breaker.{Reason}
use loadify.Wire.{RunStatus, unset, pending, running, completed, failed, aborted, queued}
use loadify.Runs.Watching.{
  Attachment, Watched, watching, left_to_reaper, finalizes, end_of, verdict_of, settle, turn,
  watch_loop, observe_loop,
}

module _ ⦃p : Platform⦄ where
  -- What an answer says of the end of the run.
  abbrev pub settled : Result RunReport → Option (Status × EndReason)
  settled (err e) = none
  settled (ok st) = verdict_of st

  abbrev pub Unsettled : Attachment → Type 0
  Unsettled a = settled a.state ≡ none

  -- The longest run of errors, of which `n` came before the list.
  abbrev streak_after : ℕ → Result RunReport → ℕ
  streak_after n (err e) = n + 1
  streak_after n (ok st) = 0

  abbrev pub longest : ℕ → List Attachment → ℕ
  longest n [] = n
  longest n (a ∷ rest) = max n (longest (streak_after n a.state) rest)

  -- A watcher that is still watching has seen no end and at most 20 errors in a row; one that has
  -- given up has seen no end and 21 errors in a row; one that finalizes does so with the first end
  -- that was reported, before which there were at most 20 errors in a row.
  abbrev pub Verdict : ℕ → List Attachment → Watched → Type 0
  Verdict n attachments watching = All Unsettled attachments × (longest n attachments ≤ 20)
  Verdict n attachments left_to_reaper =
      (front : List Attachment) × (back : List Attachment) × (attachments ≡ front ++ back)
      × All Unsettled front
      × (longest n front ≡ 21)
  Verdict n attachments (finalizes status reason) =
      (front : List Attachment) × (last : Attachment) × (back : List Attachment) × (attachments
        ≡ front ++ last ∷ back)
      × All Unsettled front
      × (longest n front ≤ 20)
      × (settled last.state ≡ some (status, reason))

  Verdict-cons :
      (n : ℕ) (a : Attachment) (rest : List Attachment) (w : Watched)
      → n ≤ 20
      → settled a.state ≡ none
      → Verdict (streak_after n a.state) rest w
      → Verdict n (a ∷ rest) w
  Verdict-cons n a rest watching le e (all, few) = ((e, all), omega (arith, le, few))
  Verdict-cons n a rest left_to_reaper le e (front, back, split, all, many) =
      (a ∷ front, back, ap (λ x. a ∷ x) split, (e, all), omega (arith, le, many))
  Verdict-cons n a rest (finalizes status reason) le e (front, last, back, split, all, few, ends) =
      (a ∷ front, last, back, ap (λ x. a ∷ x) split, (e, all), omega (arith, le, few), ends)

  -- An answer is an equation here, so that the attachment stays whole.
  settle-Verdict :
      (n : ℕ) (a : Attachment) (rest : List Attachment) (rates : List Float)
      (next : Watched × List Float) (st : RunReport) (v : Option (Status × EndReason))
      → n ≤ 20
      → a.state ≡ ok st
      → verdict_of st ≡ v
      → Verdict 0 rest next.0
      → Verdict n (a ∷ rest) (settle v rates next).0
  unfolding settle
  settle-Verdict n a rest rates next st none le e s h =
      Verdict-cons n a rest next.0 le (ground (arith, e, s))
        (subst (λ x. Verdict (streak_after n x) rest next.0) (sym e) h)
  settle-Verdict n a rest rates next st (some v) le e s h =
      ([], a, rest, refl, tt, le, ap settled e ∙ s)

  turn-Verdict :
      (n : ℕ) (a : Attachment) (rest : List Attachment) (rates : List Float)
      (retried next : Watched × List Float) (answer : Result RunReport)
      → n ≤ 20
      → a.state ≡ answer
      → (n + 1 ≤ 20 → Verdict (n + 1) rest retried.0)
      → Verdict 0 rest next.0
      → Verdict n (a ∷ rest) (turn answer n rates retried next).0
  unfolding turn
  turn-Verdict n a rest rates retried next (ok st) le e h k =
      settle-Verdict n a rest rates next st (verdict_of st) le e refl k
  turn-Verdict n a rest rates retried next (err x) le e h k = elim (Bool-cases (ltb 20 (n + 1))) [
    | inl over ↦
        let streak : streak_after n a.state ≡ n + 1 = ap (streak_after n) e in
        let many : max n (streak_after n a.state) ≡ 21 = ground (arith, over, le, streak) in
        rw over (a ∷ [], rest, refl, (ap settled e, tt), many)
    | inr few ↦ rw few (
        Verdict-cons n a rest retried.0 le (ap settled e) (
          subst (λ y. Verdict (streak_after n y) rest retried.0) (sym e) (h (ground (arith, few)))))
  ]

  -- From `unresolved` errors on, of which there are at most 20, a watcher comes to what the answers
  -- say: it is still watching with no end reported and at most 20 errors in a row; it gives up
  -- behind 21 errors in a row and no end; or it finalizes with the first end that is reported, where
  -- no 21 errors in a row stand before it.
  pub watch_loop-Verdict :
      (ev : AlertEvaluator) (unresolved : ℕ) (attachments : List Attachment)
      → unresolved ≤ 20
      → Verdict unresolved attachments (watch_loop ev unresolved attachments).0
  unfolding watch_loop
  watch_loop-Verdict ev unresolved [] le = (tt, le)
  watch_loop-Verdict ev unresolved (a ∷ rest) le =
      let seen = observe_loop ev a.ticks in
      turn-Verdict unresolved a rest seen.1 _ _ a.state le refl
        (λ more. watch_loop-Verdict seen.0 (unresolved + 1) rest more)
        (watch_loop-Verdict seen.0 0 rest (omega arith))

  abbrev ends_it : Option (Status × EndReason) → Bool
  ends_it none = true
  ends_it (some v) = has_ended v.0

  end_of-ended :
      (status : RunStatus) (why : Reason) (last : Status) (reason : EndReason)
      → end_of status why ≡ some (last, reason)
      → has_ended last ≡ true
  unfolding end_of has_ended
  end_of-ended pending why last reason e = absurd (some-ne-none _ (sym e))
  end_of-ended queued why last reason e = absurd (some-ne-none _ (sym e))
  end_of-ended running why last reason e = absurd (some-ne-none _ (sym e))
  end_of-ended aborted why last reason e = ap ends_it (sym e)
  end_of-ended unset why last reason e = ap ends_it (sym e)
  end_of-ended completed why last reason e = ap ends_it (sym e)
  end_of-ended failed why last reason e = ap ends_it (sym e)

  settled-ended :
      (answer : Result RunReport) (status : Status) (reason : EndReason)
      → settled answer ≡ some (status, reason)
      → has_ended status ≡ true
  unfolding verdict_of
  settled-ended (err x) status reason e = absurd (some-ne-none _ (sym e))
  settled-ended (ok st) status reason e = end_of-ended st.status st.reason status reason e

  Verdict-ended :
      (n : ℕ) (attachments : List Attachment) (w : Watched) (status : Status) (reason : EndReason)
      → w ≡ finalizes status reason
      → Verdict n attachments w
      → has_ended status ≡ true
  Verdict-ended n attachments w status reason e v =
      let (front, last, back, split, all, few, ends) = subst (Verdict n attachments) e v in
      settled-ended last.state status reason ends

  pub watch_loop-ended :
      (ev : AlertEvaluator) (attachments : List Attachment) (status : Status) (reason : EndReason)
      → (watch_loop ev 0 attachments).0 ≡ finalizes status reason
      → has_ended status ≡ true
  watch_loop-ended ev attachments status reason e =
      Verdict-ended 0 attachments _ status reason e
        (watch_loop-Verdict ev 0 attachments (omega arith))
