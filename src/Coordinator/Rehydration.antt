-- ===== src/Coordinator/Rehydration.antt =====
-- Reconnecting workers: what `rehydrate` does to the accounting of slots.
use loadify.Prelude.{
  ℕ, ◌+◌, ◌++◌, ap, ◌∙◌, ◌≡◌, refl, inl, inr, Bool, true, false, String, List, [], ◌∷◌, Option,
  none, some, arith, All, string_eq, ==_iff, Option-cases,
}
use loadify.Platform.{Platform}
use loadify.Wire.{ActiveRun, StartRunRequest}
use loadify.Dict.{lookup, insert, total, total-insert, lookup-insert}
use loadify.Coordinator.State.{RunState, Service}
use loadify.Coordinator.Dispatch.{ok, dispatch, dispatched}
use loadify.Coordinator.Lifecycle.{has_agg}
use loadify.Coordinator.Streams.{rehydrated, rehydrate_run, rehydrate}
use loadify.Coordinator.Slots.{
  Runs, held, Inv, Slots-take, dispatch_cases, fails, starts, dispatched_holds,
}
use loadify.Coordinator.Accounting.{Slots-same, unknown-Absent}

module _ ⦃p : Platform⦄ where
  -- A run is unknown, or has an aggregator: it is not waiting in the queue.
  abbrev pub dispatched_or_new : Option RunState → Bool
  dispatched_or_new none = true
  dispatched_or_new (some rs) = has_agg rs

  abbrev pub Dispatched : Runs → ActiveRun → Type 0
  Dispatched runs ar = dispatched_or_new (lookup ar.run_id runs) ≡ true

  rehydrated_holds :
      (s : Service) (w : String) (ar : ActiveRun) (now : ℕ)
      → (rehydrated s w ar now).slot_held ≡ true
  unfolding rehydrated
  rehydrated_holds s w ar now = refl

  rehydrate_run-Inv :
      (s : Service) (w : String) (ar : ActiveRun) (now : ℕ)
      → Dispatched s.runs ar
      → Inv s
      → Inv (rehydrate_run s w ar now)
  unfolding rehydrate_run
  rehydrate_run-Inv s w ar now d v = elim (Option-cases (lookup ar.run_id s.runs)) [
    | inl e ↦
        rw (e, rehydrate_run)
          (Slots-take s.running s.runs s.queue ar.run_id (rehydrated s w ar now) v
            (ground (arith, e)) (rehydrated_holds s w ar now)
            (unknown-Absent ar.run_id s.runs s.queue e v.waiting))
    | inr (rs, e) ↦ elim (Option-cases rs.agg) [
      | inl missing ↦ absurd (ground (arith, d, e, missing))
      | inr (agg, found) ↦
          rw (e, rehydrate_run)
            (simp found (Slots-same s.running s.runs s.queue ar.run_id rs _ e refl v))
    ]
  ]

  Dispatched-insert :
      (id : String) (rs : RunState) (runs : Runs) (other : ActiveRun)
      → has_agg rs ≡ true
      → Dispatched runs other
      → Dispatched (insert id rs runs) other
  Dispatched-insert id rs runs other h d =
      ground (arith, lookup-insert id other.run_id rs runs, d, h)

  rehydrate_run-Dispatched :
      (s : Service) (w : String) (ar other : ActiveRun) (now : ℕ)
      → Dispatched s.runs other
      → Dispatched (rehydrate_run s w ar now).runs other
  unfolding rehydrate_run
  rehydrate_run-Dispatched s w ar other now d =
      let new : RunState = rehydrated s w ar now in
      let created = Dispatched-insert ar.run_id new s.runs other (unfold rehydrated in refl) d in
      elim (Option-cases (lookup ar.run_id s.runs)) [
        | inl e ↦ rw (e, rehydrate_run) created
        | inr (rs, e) ↦ elim (Option-cases rs.agg) [
          | inl missing ↦ rw (e, rehydrate_run) (simp missing created)
          | inr (agg, found) ↦
              rw (e, rehydrate_run)
                (simp found (Dispatched-insert ar.run_id _ s.runs other (ground (arith, found)) d))
        ]
      ]

  All-Dispatched :
      (s : Service) (w : String) (ar : ActiveRun) (active : List ActiveRun) (now : ℕ)
      → All (Dispatched s.runs) active
      → All (Dispatched (rehydrate_run s w ar now).runs) active
  All-Dispatched s w ar [] now d = tt
  All-Dispatched s w ar (other ∷ active) now d =
      (rehydrate_run-Dispatched s w ar other now d.0, All-Dispatched s w ar active now d.1)

  -- A worker that reports no queued run keeps the accounting.
  pub rehydrate-Inv :
      (active : List ActiveRun) (s : Service) (w : String) (now : ℕ)
      → All (Dispatched s.runs) active
      → Inv s
      → Inv (rehydrate s w active now)
  unfolding rehydrate
  rehydrate-Inv [] s w now d v = v
  rehydrate-Inv (ar ∷ active) s w now d v =
      rehydrate-Inv active (rehydrate_run s w ar now) w now (All-Dispatched s w ar active now d.1)
        (rehydrate_run-Inv s w ar now d.0 v)

  -- A worker reports a run whose request still waits in the queue, without a slot and an aggregator:
  -- the run is stored anew with a slot, and the queue is as it was, with its request; once this is
  -- dispatched the coordinator counts one slot more than there are runs that hold one.
  pub rehydrate_queued_overcounts :
      (s : Service) (w : String) (ar : ActiveRun) (req : StartRunRequest) (rs : RunState)
      (front rest : List StartRunRequest) (now later n : ℕ)
      → s.running ≡ total held s.runs
      → lookup ar.run_id s.runs ≡ some rs
      → rs.agg ≡ none
      → rs.slot_held ≡ false
      → s.queue ≡ front ++ req ∷ rest
      → req.run_id ≡ ar.run_id
      → (dispatch (rehydrate_run s w ar now) req later).1 ≡ ok n
      → let s1 = rehydrate_run s w ar now in
        let s2 = (dispatch s1 req later).0 in
        (lookup ar.run_id s1.runs ≡ some (rehydrated s w ar now))
        × ((rehydrated s w ar now).slot_held ≡ true)
        × (s1.queue ≡ front ++ req ∷ rest)
        × (s2.running ≡ total held s2.runs + 1)
  unfolding rehydrate_run
  rehydrate_queued_overcounts s w ar req rs front rest now later n exact e missing free waits same
        sent =
      let new : RunState = rehydrated s w ar now in
      let s1 = rehydrate_run s w ar now in
      let runs1 : s1.runs ≡ insert ar.run_id new s.runs = ground (arith, e, missing) in
      let running1 : s1.running ≡ s.running + 1 = ground (arith, e, missing) in
      let queue1 : s1.queue ≡ s.queue = ground (arith, e, missing) in
      let stored : lookup ar.run_id s1.runs ≡ some new =
        ap (lookup ar.run_id) runs1
        ∙ ground
            (arith, lookup-insert ar.run_id ar.run_id new s.runs, ==_iff ar.run_id ar.run_id) in
      let twice : (dispatch s1 req later).0.running
          ≡ total held (dispatch s1 req later).0.runs + 1 =
        elim (dispatch_cases s1 req later) [
          | fails err' r _ _ _ ↦ absurd (ground (arith, r, sent))
          | starts assigned r _ runs' running' _ ↦
              let again : RunState = dispatched s1 req assigned later in
              ground (
                arith,
                exact,
                runs1,
                running1,
                runs',
                running',
                rehydrated_holds s w ar now,
                dispatched_holds s1 req assigned later,
                total-insert held ar.run_id new s.runs,
                total-insert held req.run_id again s1.runs,
                lookup-insert ar.run_id req.run_id new s.runs,
                ==_iff ar.run_id req.run_id,
              )
        ] in
      (stored, rehydrated_holds s w ar now, queue1 ∙ waits, twice)
