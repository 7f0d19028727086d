-- ===== src/Runs/Ending/Events.antt =====
-- The steps of the API server against the invariant: how runs end, in every order of steps.
use mathlib.Core.Option.{some-injective}
use loadify.Prelude.{
  ℕ, ◌≤◌, ◌≡◌, refl, sym, ◌∙◌, subst, inl, inr, ◌⊎◌, Bool, true, false, not, String, Option, none,
  some, List, ◌∷◌, arith, if◌then◌else◌, string_eq, ◌==◌, Bool-cases,
}
use loadify.Platform.{Platform}
use loadify.Auth.Tokens.{Claims}
use loadify.Dict.{lookup, insert, delete, lookup-delete}
use loadify.Runs.{Store, create_run, Run, has_ended, new_run, get_run, delete_run, delete_found}
use loadify.Runs.Finalizing.{Server}
use loadify.Runs.Requests.{can_mutate, handle_stop_run, handle_delete_run, delete_row, deleted}
use loadify.Runs.Ending.{notices, bit, Kept, KeptIn, Stays, StaysIf}
use loadify.Runs.Ending.Writes.{Inv, Sound, Sound-same, insert_new-Sound}
use loadify.Runs.Ending.Finalizations.{finalize-Sound}
use loadify.Runs.Ending.Rounds.{reap_once-Sound, reap_run-Sound, replayed-Sound}
use loadify.Runs.Ending.Calls.{
  dispatch_answered-Sound, store_request-Sound, watch_run-Sound, stop_found-Sound, launch_run-Sound,
}
use loadify.Runs.Ending.Steps.{
  Step, Reachable, initial, next, launches, creates, stores, answers, reaps_run, replays, finalizes,
  watches, reaps, stops, deletes, connects, edits,
}

module _ ⦃p : Platform⦄ where
  -- A deletion.
  abbrev Gone : Option Run → Option Run → Type 0
  Gone before found = (found ≡ before) ⊎ (found ≡ none)

  abbrev Falls : Server → Server → Type 0
  Falls s t = (id : String) → KeptIn id t × Gone (lookup id s.pg.runs) (lookup id t.pg.runs)

  Falls-same : (s : Server) → Inv s → Falls s s
  Falls-same s v id = (v id, inl refl)

  bit-le : (b : Bool) (n : ℕ) → n ≤ bit b → n ≤ 1
  bit-le true n h = h
  bit-le false n h = omega (arith, h)

  Kept-le : (o : Option Run) (n : ℕ) → Kept o n → n ≤ 1
  Kept-le none n k = k
  Kept-le (some r) n k = bit-le (has_ended r.status) n k.1

  drop-Gone :
      (runs : List (String × Run)) (key id : String) (n : ℕ)
      → Kept (lookup id runs) n
      → Kept (lookup id (delete key runs)) n × Gone (lookup id runs) (lookup id (delete key runs))
  drop-Gone runs key id n k = elim (Bool-cases (key == id)) [
    | inl same ↦
        let gone : lookup id (delete key runs) ≡ none =
          ground (arith, lookup-delete key id runs, same) in
        (subst (λ o. Kept o n) (sym gone) (Kept-le (lookup id runs) n k), inr gone)
    | inr other ↦
        let kept : lookup id (delete key runs) ≡ lookup id runs =
          ground (arith, lookup-delete key id runs, other) in
        (subst (λ o. Kept o n) (sym kept) k, inl kept)
  ]

  deleted-Falls :
      (s : Server) (id : String) (o : Option Run)
      → Inv s
      → Falls s (deleted s (delete_found s.pg id o)).0
  unfolding deleted delete_found
  deleted-Falls s id none v i = Falls-same s v i
  deleted-Falls s id (some r) v i = drop-Gone s.pg.runs id i (notices i s.sent) (v i)

  if-Falls :
      {A : Type 0} (s : Server) (b : Bool) (one other : Server × A)
      → Falls s one.0
      → Falls s other.0
      → Falls s (if b then one else other).0
  if-Falls s true one other g h = g
  if-Falls s false one other g h = h

  delete_row-Falls :
      (s : Server) (caller : Option Claims) (id : String) (o : Option Run)
      → Inv s
      → Falls s (delete_row s caller id o).0
  unfolding delete_row delete_run
  delete_row-Falls s caller id none v = Falls-same s v
  delete_row-Falls s caller id (some r) v =
      if-Falls s (not (can_mutate caller r.created_by)) _ _ (Falls-same s v) (
        if-Falls s (not (has_ended r.status)) _ _ (Falls-same s v)
          (deleted-Falls (record s { purged = id ∷ s.purged }) id (get_run s.pg id) v))

  creates-Sound :
      (s : Server) (id : String) (r : Run) (pg : Store)
      → lookup id s.pg.runs ≡ none
      → notices id s.sent ≡ 0
      → has_ended r.status ≡ false
      → create_run s.pg id r ≡ some pg
      → Inv s
      → Sound s (record s { pg = pg })
  unfolding create_run
  creates-Sound s id r pg fresh silent live up v = elim (Bool-cases s.pg.up) [
    | inl on ↦
        let written : some (record s.pg { runs = insert id r s.pg.runs }) ≡ some pg =
          ground (arith, on, up) in
        subst (λ x. Sound s (record s { pg = x })) (some-injective _ _ written)
          (insert_new-Sound s id r fresh silent live v)
    | inr off ↦ absurd (ground (arith, off, up))
  ]

  -- Every step falls under one of the two.
  step-Sound : (s t : Server) → Step s t → Inv s → Sound s t ⊎ Falls s t
  unfolding handle_stop_run handle_delete_run new_run has_ended
  step-Sound s t
        (launches remote id test name source workers owner compiles req alert now fresh silent) v =
      inl (launch_run-Sound s remote id _ compiles req alert now fresh silent refl v)
  step-Sound s t (creates id test name source workers owner now fresh silent up) v =
      inl (creates-Sound s id _ _ fresh silent refl up v)
  step-Sound s t (stores id payload live) v = inl (store_request-Sound s id payload live v)
  step-Sound s t (answers id alert now reply live) v =
      inl (dispatch_answered-Sound s id alert now reply live v)
  step-Sound s t (reaps_run remote max_age now listed) v =
      inl (reap_run-Sound s remote max_age now listed v)
  step-Sound s t (replays id now reply live e) v = inl (replayed-Sound s t id now reply live e v)
  step-Sound s t (finalizes remote id status reason now e) v =
      inl (finalize-Sound s remote id status reason now e v)
  step-Sound s t (watches remote id alert attachments now) v =
      inl (watch_run-Sound s remote id alert attachments now v)
  step-Sound s t (reaps remote max_age now) v = inl (reap_once-Sound s remote max_age now v)
  step-Sound s t (stops remote caller id now) v =
      inl (stop_found-Sound s remote caller id now (get_run s.pg id) v)
  step-Sound s t (deletes caller id) v = inr (delete_row-Falls s caller id (get_run s.pg id) v)
  step-Sound s t (connects up) v = inl (Sound-same s v)
  step-Sound s t (edits tests) v = inl (Sound-same s v)

  step-Inv : (s t : Server) → Step s t → Inv s → Inv t
  step-Inv s t step v id = elim (step-Sound s t step v) [ inl g ↦ (g id).0 | inr g ↦ (g id).0 ]

  -- In every state that is reached by the steps, where each run is created under an id that has no row
  -- and no notice yet, and no run that has ended is given a request or set to queued by the part of a
  -- launch or a replay that follows the coordinator's reply: each run was notified at most once, a run
  -- that has not ended never, and a run that has ended has no stored request that could be replayed.
  pub notified_once : {s : Server} → Reachable s → Inv s
  unfolding lookup
  notified_once (initial up tests) id = omega arith
  notified_once (next {s} {t} before step) id = step-Inv s t step (notified_once before) id

  row_same :
      (before found : Option Run) (r : Run)
      → before ≡ some r
      → has_ended r.status ≡ true
      → Stays before found
      → found ≡ some r
  row_same before found r e over h =
      subst (λ b. StaysIf b r found) over (subst (λ o. Stays o found) e h)

  -- From a state that is reached by the steps, no step changes the row of a run that has ended, but
  -- that a deletion may remove it. The condition on the steps is that each run is created under an
  -- id that has no row and no notice yet, and that no run that has ended is given a request or set to
  -- queued by the part of a launch or a replay that follows the coordinator's reply.
  pub ended_unchanged :
      {s t : Server} (id : String) (r : Run)
      → Reachable s
      → Step s t
      → lookup id s.pg.runs ≡ some r
      → has_ended r.status ≡ true
      → (lookup id t.pg.runs ≡ some r) ⊎ (lookup id t.pg.runs ≡ none)
  ended_unchanged {s} {t} id r before step e over =
      elim (step-Sound s t step (notified_once before)) [
        | inl g ↦ inl (row_same _ _ r e over (g id).1)
        | inr g ↦ elim (g id).1 [ inl same ↦ inl (same ∙ e) | inr gone ↦ inr gone ]
      ]
