-- ===== src/Runs/Ending/Rounds.antt =====
-- The reaper's rounds against the invariant.
use mathlib.Core.Option.{some-injective, some-ne-none}
use loadify.Prelude.{
  ℕ, ◌≡◌, refl, sym, ◌∙◌, subst, inl, inr, Bytes, Bool, true, false, not, String, Option, none,
  some, List, [], ◌∷◌, arith, if◌then◌else◌, string_eq, ◌==◌, Bool-cases, Option-cases,
}
use loadify.Platform.{Platform}
use loadify.Wire.{StartRunRequest, RunStatus}
use loadify.Wire
use loadify.Dict.{lookup}
use loadify.Coordinator.Queries.{RunReport}
use loadify.Coordinator.Dispatch.{Result, ok, err}
use loadify.Runs.{
  queued, completed, aborted, Run, has_ended, set_run_status, get_run, get_run_dispatch,
  list_active_runs,
}
use loadify.Runs.Finalizing.{Remote, Server, finalize_run}
use loadify.Runs.Reaping.{
  reap_once, reap_listed, reap_loop, reap_run, reap_reported, reconcile, recover, replay_dispatch,
  replay_payload, replay_request, replayed, finalize_forgotten, has_metrics, is_running_row,
}
use loadify.Runs.Ending.{Cleared, KeptRow}
use loadify.Runs.Ending.Writes.{
  Inv, Sound, Sound-same, Sound-trans, row_kept, Live, LiveIf, Live-LiveIf, write_open-Sound,
  set_run_running-Sound,
}
use loadify.Runs.Ending.Finalizations.{finalize_run-Sound, if-Server}

module _ ⦃p : Platform⦄ where
  -- The reaper: a payload that is still there belongs to a run that has not ended.
  stored-Live :
      (r : Run) (n : ℕ) (payload : Bytes)
      → KeptRow r n
      → r.dispatch_payload ≡ some payload
      → has_ended r.status ≡ false
  stored-Live r n payload k e = elim (Bool-cases (has_ended r.status)) [
    | inl over ↦
        absurd (some-ne-none _ (sym e ∙ subst (λ b. Cleared b r.dispatch_payload) over k.0))
    | inr live ↦ live
  ]

  payload-Live :
      (s : Server) (id : String) (payload : Bytes)
      → get_run_dispatch s.pg id ≡ some payload
      → Inv s
      → Live (lookup id s.pg.runs)
  unfolding get_run_dispatch get_run
  payload-Live s id payload e v = elim (Option-cases (lookup id s.pg.runs)) [
    | inl missing ↦ subst Live (sym missing) tt
    | inr (r, found) ↦
        let stored : r.dispatch_payload ≡ some payload = ground (arith, e, found) in
        subst Live (sym found) (stored-Live r _ payload (row_kept s id r v found) stored)
  ]

  if_open-Sound :
      (s t : Server) (b : Bool) (o : Option Run) (one other : Server)
      → Sound s one
      → LiveIf (not b) o
      → (Live o → Sound s other)
      → (if b then some one else some other) ≡ some t
      → Sound s t
  if_open-Sound s t true o one other g live h e = subst (Sound s) (some-injective _ _ e) g
  if_open-Sound s t false o one other g live h e = subst (Sound s) (some-injective _ _ e) (h live)

  -- A reply for which replayDispatch sets the row to queued.
  abbrev pub replies_queued : Result String → Bool
  replies_queued (err x) = false
  replies_queued (ok status) = not (status == "running")

  pub replayed-Sound :
      (s t : Server) (id : String) (now : ℕ) (reply : Result String)
      → LiveIf (replies_queued reply) (lookup id s.pg.runs)
      → replayed s id now reply ≡ some t
      → Inv s
      → Sound s t
  unfolding replayed set_run_status has_ended
  replayed-Sound s t id now (err x) live e v = absurd (some-ne-none _ (sym e))
  replayed-Sound s t id now (ok status) live e v =
      if_open-Sound s t (status == "running") (lookup id s.pg.runs) _ _
        (set_run_running-Sound s id now v) live
        (λ live'. write_open-Sound s id (λ r. record r { status = queued }) live' (λ r h. refl) v) e

  replay_request-Sound :
      (s t : Server) (remote : Remote) (id : String) (now : ℕ) (req : Option StartRunRequest)
      → Live (lookup id s.pg.runs)
      → replay_request s remote id now req ≡ some t
      → Inv s
      → Sound s t
  unfolding replay_request
  replay_request-Sound s t remote id now none live e v = absurd (some-ne-none _ (sym e))
  replay_request-Sound s t remote id now (some req) live e v =
      replayed-Sound s t id now (remote.start_run req)
        (Live-LiveIf (replies_queued (remote.start_run req)) (lookup id s.pg.runs) live) e v

  replay_payload-Sound :
      (s t : Server) (remote : Remote) (id : String) (now : ℕ) (payload : Option Bytes)
      → get_run_dispatch s.pg id ≡ payload
      → replay_payload s remote id now payload ≡ some t
      → Inv s
      → Sound s t
  unfolding replay_payload
  replay_payload-Sound s t remote id now none stored e v = absurd (some-ne-none _ (sym e))
  replay_payload-Sound s t remote id now (some []) stored e v = absurd (some-ne-none _ (sym e))
  replay_payload-Sound s t remote id now (some (b ∷ bytes)) stored e v =
      replay_request-Sound s t remote id now (remote.unmarshal (b ∷ bytes))
        (payload-Live s id (b ∷ bytes) stored v) e v

  forgotten-Sound :
      (s : Server) (remote : Remote) (id : String) (now : ℕ)
      → Inv s
      → Sound s (finalize_forgotten s remote id now)
  unfolding finalize_forgotten has_ended
  forgotten-Sound s remote id now v =
      if-Server s (has_metrics remote id) _ _ (finalize_run-Sound s remote id completed now refl v)
        (finalize_run-Sound s remote id aborted now refl v)

  recover-Sound :
      (s : Server) (remote : Remote) (id : String) (now : ℕ) (o : Option Server)
      → ((t : Server) → o ≡ some t → Sound s t)
      → Inv s
      → Sound s (recover s remote id now o)
  unfolding recover
  recover-Sound s remote id now none h v = forgotten-Sound s remote id now v
  recover-Sound s remote id now (some t) h v = h t refl

  overdue-Sound :
      (s : Server) (remote : Remote) (id : String) (now : ℕ) (overdue : Bool)
      → Inv s
      → Sound s (if overdue then finalize_run s remote id aborted now else s)
  unfolding has_ended
  overdue-Sound s remote id now overdue v =
      if-Server s overdue _ s (finalize_run-Sound s remote id aborted now refl v) (Sound-same s v)

  reconcile-Sound :
      (s : Server) (remote : Remote) (id : String) (r : Run) (overdue : Bool) (now : ℕ)
      (status : RunStatus)
      → Inv s
      → Sound s (reconcile s remote id r overdue now status)
  unfolding reconcile has_ended
  reconcile-Sound s remote id r overdue now Wire.RunStatus.completed v =
      finalize_run-Sound s remote id completed now refl v
  reconcile-Sound s remote id r overdue now Wire.RunStatus.running v =
      if-Server s (is_running_row r.status) s _ (Sound-same s v) (set_run_running-Sound s id now v)
  reconcile-Sound s remote id r overdue now Wire.RunStatus.queued v =
      overdue-Sound s remote id now overdue v
  reconcile-Sound s remote id r overdue now Wire.RunStatus.unset v =
      overdue-Sound s remote id now overdue v
  reconcile-Sound s remote id r overdue now Wire.RunStatus.pending v =
      overdue-Sound s remote id now overdue v
  reconcile-Sound s remote id r overdue now Wire.RunStatus.failed v =
      overdue-Sound s remote id now overdue v
  reconcile-Sound s remote id r overdue now Wire.RunStatus.aborted v =
      overdue-Sound s remote id now overdue v

  reap_reported-Sound :
      (s : Server) (remote : Remote) (id : String) (r : Run) (overdue : Bool) (now : ℕ)
      (seen : Result RunReport)
      → Inv s
      → Sound s (reap_reported s remote id r overdue now seen)
  unfolding reap_reported replay_dispatch
  reap_reported-Sound s remote id r overdue now (err x) v =
      recover-Sound s remote id now (replay_dispatch s remote id now)
        (λ t e. replay_payload-Sound s t remote id now (get_run_dispatch s.pg id) refl e v) v
  reap_reported-Sound s remote id r overdue now (ok st) v =
      reconcile-Sound s remote id r overdue now st.status v

  pub reap_run-Sound :
      (s : Server) (remote : Remote) (max_age now : ℕ) (r : String × Run)
      → Inv s
      → Sound s (reap_run s remote max_age now r)
  unfolding reap_run
  reap_run-Sound s remote max_age now r v =
      if-Server s _ s _ (Sound-same s v)
        (reap_reported-Sound s remote r.0 r.1 _ now (remote.run_state r.0) v)

  reap_loop-Sound :
      (s : Server) (remote : Remote) (max_age now : ℕ) (runs : List (String × Run))
      → Inv s
      → Sound s (reap_loop s remote max_age now runs)
  unfolding reap_loop
  reap_loop-Sound s remote max_age now [] v = Sound-same s v
  reap_loop-Sound s remote max_age now (r ∷ runs) v =
      let g = reap_run-Sound s remote max_age now r v in
      let next = reap_run s remote max_age now r in
      Sound-trans s next (reap_loop next remote max_age now runs) g
        (reap_loop-Sound next remote max_age now runs (λ id. (g id).0))

  reap_listed-Sound :
      (s : Server) (remote : Remote) (max_age now : ℕ) (runs : Option (List (String × Run)))
      → Inv s
      → Sound s (reap_listed s remote max_age now runs)
  unfolding reap_listed
  reap_listed-Sound s remote max_age now none v = Sound-same s v
  reap_listed-Sound s remote max_age now (some runs) v = reap_loop-Sound s remote max_age now runs v

  pub reap_once-Sound :
      (s : Server) (remote : Remote) (max_age now : ℕ)
      → Inv s
      → Sound s (reap_once s remote max_age now)
  unfolding reap_once
  reap_once-Sound s remote max_age now v =
      reap_listed-Sound s remote max_age now (list_active_runs s.pg) v
