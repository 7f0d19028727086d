-- ===== src/Runs/Ending/Finalizations.antt =====
-- Finalizations and the return of a watcher against the invariant.
use loadify.Prelude.{
  ℕ, ◌≡◌, refl, Bool, true, false, String, Option, none, some, List, if◌then◌else◌, string_eq,
}
use loadify.Platform.{Platform}
use loadify.Sla.{Check}
use loadify.Breaker.{none_given}
use loadify.Dict.{lookup}
use loadify.Runs.{Status, Store, EndReason, reported, has_ended, finish_run}
use loadify.Runs.Finalizing.{
  Remote, Server, Notice, notified, finalize_run_reason, finalize_run, payload_of, final_status,
}
use loadify.Runs.Watching.{Watched, watching, left_to_reaper, finalizes, conclude}
use loadify.Runs.Ending.Writes.{Inv, Sound, Sound-same, finish_found-Sound}

module _ ⦃p : Platform⦄ where
  pub final_status-ended :
      (status : Status) (v : Option (Bool × List Check))
      → has_ended status ≡ true
      → has_ended (final_status status v) ≡ true
  unfolding final_status has_ended
  final_status-ended status none e = e
  final_status-ended status (some (true, checks)) e = e
  final_status-ended status (some (false, checks)) e = refl

  notified_if-Sound :
      (s : Server) (note : Notice) (b : Bool) (done : Store × Bool)
      → Sound s (notified s note (some done))
      → Inv s
      → Sound s (notified s note (if b then some done else none))
  unfolding notified
  notified_if-Sound s note true done g v = g
  notified_if-Sound s note false done g v = Sound-same s v

  pub finalize-Sound :
      (s : Server) (remote : Remote) (id : String) (status : Status) (reason : EndReason) (now : ℕ)
      → has_ended status ≡ true
      → Inv s
      → Sound s (finalize_run_reason s remote id status reason now)
  unfolding finalize_run_reason finish_run
  finalize-Sound s remote id status reason now e v =
      let payload = payload_of s.pg remote id reason now in
      let ended = final_status-ended status payload.verdict e in
      notified_if-Sound s _ s.pg.up _
        (finish_found-Sound s _ (lookup id s.pg.runs) _ _ now refl ended v) v

  pub finalize_run-Sound :
      (s : Server) (remote : Remote) (id : String) (status : Status) (now : ℕ)
      → has_ended status ≡ true
      → Inv s
      → Sound s (finalize_run s remote id status now)
  unfolding finalize_run
  finalize_run-Sound s remote id status now =
      finalize-Sound s remote id status (reported none_given) now

  pub if-Server :
      (s : Server) (b : Bool) (one other : Server)
      → Sound s one
      → Sound s other
      → Sound s (if b then one else other)
  if-Server s true one other g h = g
  if-Server s false one other g h = h

  pub conclude-Sound :
      (s : Server) (remote : Remote) (id : String) (now : ℕ) (w : Watched)
      → ((status : Status) (reason : EndReason)
          → w ≡ finalizes status reason
          → has_ended status ≡ true)
      → Inv s
      → Sound s (conclude s remote id now w)
  unfolding conclude
  conclude-Sound s remote id now watching h v = Sound-same s v
  conclude-Sound s remote id now left_to_reaper h v = Sound-same s v
  conclude-Sound s remote id now (finalizes status reason) h v =
      finalize-Sound s remote id status reason now (h status reason refl) v
