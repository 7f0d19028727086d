-- ===== src/Runs/Ending/Calls.antt =====
-- Watchers, stops and launches against the invariant.
use loadify.Prelude.{
  ℕ, ◌≡◌, refl, sym, subst, Bytes, Bool, true, false, not, String, Option, none, some, List, ◌∷◌,
  if◌then◌else◌, string_eq, ◌==◌,
}
use loadify.Platform.{Platform}
use loadify.Plan.{AlertConfig}
use loadify.Auth.Tokens.{Claims}
use loadify.Wire.{StartRunRequest}
use loadify.Dict.{lookup, insert}
use loadify.Coordinator.Dispatch.{Result, Error, ok, err}
use loadify.Coordinator.Dispatch
use loadify.Runs.{
  queued, failed, aborted, dispatch_failed, gone_from_coordinator, Run, Store, has_ended,
  create_run, set_run_status, set_run_dispatch, finish_run,
}
use loadify.Runs.Finalizing.{Remote, Server}
use loadify.Runs.Watching.{watch_run, Attachment}
use loadify.Runs.Watching.Verdict.{watch_loop-ended}
use loadify.Runs.Requests.{
  can_mutate, stop_found, stop_answered, launch_run, launch_created, store_request,
  dispatch_answered, undispatched,
}
use loadify.Runs.Ending.{notices, lookup-insert_same}
use loadify.Runs.Ending.Writes.{
  Inv, Sound, Sound-same, Sound-trans, Live, LiveIf, Live-LiveIf, write_open-Sound, write-Live,
  set_run_running-Sound, finish_unread-Sound, insert_new-Sound,
}
use loadify.Runs.Ending.Finalizations.{finalize-Sound, conclude-Sound}

module _ ⦃p : Platform⦄ where
  pub watch_run-Sound :
      (s : Server) (remote : Remote) (id : String) (alert : AlertConfig)
      (attachments : List Attachment) (now : ℕ)
      → Inv s
      → Sound s (watch_run s remote id alert attachments now).0
  unfolding watch_run
  watch_run-Sound s remote id alert attachments now v =
      conclude-Sound s remote id now _
        (λ status reason e. watch_loop-ended _ attachments status reason e) v

  if-Answer :
      {A : Type 0} (s : Server) (b : Bool) (one other : Server × A)
      → Sound s one.0
      → Sound s other.0
      → Sound s (if b then one else other).0
  if-Answer s true one other g h = g
  if-Answer s false one other g h = h

  stop_answered-Sound :
      (s : Server) (remote : Remote) (id : String) (now : ℕ) (answer : Result (Unit {0}))
      → Inv s
      → Sound s (stop_answered s remote id now answer).0
  unfolding stop_answered has_ended
  stop_answered-Sound s remote id now (ok u) v = Sound-same s v
  stop_answered-Sound s remote id now (err Dispatch.not_found) v =
      finalize-Sound s remote id aborted gone_from_coordinator now refl v
  stop_answered-Sound s remote id now (err Dispatch.invalid_argument) v = Sound-same s v
  stop_answered-Sound s remote id now (err Dispatch.failed_precondition) v = Sound-same s v
  stop_answered-Sound s remote id now (err Dispatch.unavailable) v = Sound-same s v

  pub stop_found-Sound :
      (s : Server) (remote : Remote) (caller : Option Claims) (id : String) (now : ℕ)
      (o : Option Run)
      → Inv s
      → Sound s (stop_found s remote caller id now o).0
  unfolding stop_found
  stop_found-Sound s remote caller id now none v = Sound-same s v
  stop_found-Sound s remote caller id now (some r) v =
      if-Answer s (not (can_mutate caller r.created_by)) _ _ (Sound-same s v) (
        if-Answer s (has_ended r.status) _ _ (Sound-same s v) (
          stop_answered-Sound (record s { stopped = id ∷ s.stopped }) remote id now
            (remote.stop_run id) v))

  undispatched_if-Sound :
      (s : Server) (b : Bool) (done : Store × Bool)
      → Sound s (record s { pg = done.0 })
      → Inv s
      → Sound s (undispatched s (if b then some done else none))
  unfolding undispatched
  undispatched_if-Sound s true done g v = g
  undispatched_if-Sound s false done g v = Sound-same s v

  if_open-Answer :
      {A : Type 0} (s : Server) (b : Bool) (o : Option Run) (one other : Server × A)
      → (Live o → Sound s one.0)
      → LiveIf b o
      → Sound s other.0
      → Sound s (if b then one else other).0
  if_open-Answer s true o one other g live h = g live
  if_open-Answer s false o one other g live h = h

  -- A reply for which launchRun sets the row to queued.
  abbrev pub answers_queued : Result String → Bool
  answers_queued (err x) = false
  answers_queued (ok status) = status == "queued"

  pub dispatch_answered-Sound :
      (s : Server) (id : String) (alert : AlertConfig) (now : ℕ) (reply : Result String)
      → LiveIf (answers_queued reply) (lookup id s.pg.runs)
      → Inv s
      → Sound s (dispatch_answered s id alert now reply).0
  unfolding dispatch_answered set_run_status finish_run has_ended
  dispatch_answered-Sound s id alert now (err x) live v =
      undispatched_if-Sound s s.pg.up _
        (finish_unread-Sound s id (lookup id s.pg.runs) failed dispatch_failed now refl refl v) v
  dispatch_answered-Sound s id alert now (ok status) live v =
      if_open-Answer s (status == "queued") (lookup id s.pg.runs) _ _
        (λ live'. write_open-Sound s id (λ r. record r { status = queued }) live' (λ r h. refl) v)
        live (set_run_running-Sound s id now v)

  pub store_request-Sound :
      (s : Server) (id : String) (payload : Option Bytes)
      → Live (lookup id s.pg.runs)
      → Inv s
      → Sound s (store_request s id payload)
  unfolding store_request set_run_dispatch
  store_request-Sound s id none live v = Sound-same s v
  store_request-Sound s id (some payload) live v =
      write_open-Sound s id (λ r. record r { dispatch_payload = some payload }) live (λ r h. h) v

  store_request-Live :
      (s : Server) (id : String) (payload : Option Bytes)
      → Live (lookup id s.pg.runs)
      → Live (lookup id (store_request s id payload).pg.runs)
  unfolding store_request set_run_dispatch
  store_request-Live s id none live = live
  store_request-Live s id (some payload) live =
      write-Live s.pg id (λ r. record r { dispatch_payload = some payload }) live (λ r h. h)

  launch_created-Sound :
      (s : Server) (remote : Remote) (id : String) (r : Run) (compiles : Bool)
      (req : StartRunRequest) (alert : AlertConfig) (now : ℕ)
      → lookup id s.pg.runs ≡ none
      → notices id s.sent ≡ 0
      → has_ended r.status ≡ false
      → Inv s
      → let pg = record s.pg { runs = insert id r s.pg.runs } in
        Sound s (launch_created s remote id compiles req alert now (some pg)).0
  unfolding launch_created
  launch_created-Sound s remote id r compiles req alert now fresh silent live v =
      let created : Server = record s { pg = record s.pg { runs = insert id r s.pg.runs } } in
      let g = insert_new-Sound s id r fresh silent live v in
      let at = subst Live (sym (lookup-insert_same id r s.pg.runs)) live in
      let stored = store_request created id (remote.marshal req) in
      let h = store_request-Sound created id (remote.marshal req) at (λ i. (g i).0) in
      let still = store_request-Live created id (remote.marshal req) at in
      let answer = remote.start_run req in
      let last =
        dispatch_answered-Sound stored id alert now answer
          (Live-LiveIf (answers_queued answer) (lookup id stored.pg.runs) still) (λ i. (h i).0) in
      if-Answer s compiles _ _
        (Sound-trans s created (dispatch_answered stored id alert now answer).0 g
          (Sound-trans created stored (dispatch_answered stored id alert now answer).0 h last))
        g

  launch_if-Sound :
      (s : Server) (remote : Remote) (id : String) (compiles : Bool) (req : StartRunRequest)
      (alert : AlertConfig) (now : ℕ) (b : Bool) (pg : Store)
      → Sound s (launch_created s remote id compiles req alert now (some pg)).0
      → Inv s
      → Sound s (launch_created s remote id compiles req alert now (if b then some pg else none)).0
  unfolding launch_created
  launch_if-Sound s remote id compiles req alert now true pg g v = g
  launch_if-Sound s remote id compiles req alert now false pg g v = Sound-same s v

  pub launch_run-Sound :
      (s : Server) (remote : Remote) (id : String) (r : Run) (compiles : Bool)
      (req : StartRunRequest) (alert : AlertConfig) (now : ℕ)
      → lookup id s.pg.runs ≡ none
      → notices id s.sent ≡ 0
      → has_ended r.status ≡ false
      → Inv s
      → Sound s (launch_run s remote id r compiles req alert now).0
  unfolding launch_run create_run
  launch_run-Sound s remote id r compiles req alert now fresh silent live v =
      launch_if-Sound s remote id compiles req alert now s.pg.up _
        (launch_created-Sound s remote id r compiles req alert now fresh silent live v) v
