-- ===== src/Coordinator/Reaping.antt =====
-- The watchdog: what its visits make of the state of one run, and that it keeps the accounting of slots.
use loadify.Prelude.{
  ℕ, ◌-◌, ◌≤◌, ◌≡◌, refl, sym, ap, ◌+◌, ◌<◌, ◌∙◌, Bool, true, false, String, List, [], ◌∷◌, Option,
  none, some, arith, leb, All, string_eq,
}
use loadify.Platform.{Platform}
use loadify.Wire.{StartRunRequest}
use loadify.Dict.{lookup, update, total}
use loadify.Breaker.{workers_disconnected}
use loadify.Coordinator.State.{RunState, Service, is_running, is_zero, orphan_grace_ms}
use loadify.Coordinator.Watchdog.{
  any_present, no_workers, reap_run, reap_loop, abort_all, reap_once, present_workers,
}
use loadify.Coordinator.Slots.{Runs, held, parked, Parked, Slots, Inv}
use loadify.Coordinator.Accounting.{force_finalize-Inv}

module _ ⦃p : Platform⦄ where
  -- A change of every run that keeps the slots.
  module _ (f : RunState → RunState)
      (same : (rs : RunState) → (f rs).slot_held ≡ rs.slot_held) where
    total-update : (runs : Runs) → total held (update f runs) ≡ total held runs
    unfolding update
    total-update [] = refl
    total-update ((id, rs) ∷ runs) = ground (arith, same rs, total-update runs)

    parked-update :
        (id : String) (runs : Runs) → parked (lookup id (update f runs)) ≡ parked (lookup id runs)
    unfolding update lookup
    parked-update id [] = refl
    parked-update id ((j, rs) ∷ runs) = ground (arith, same rs, parked-update id runs)

    Parked-update :
        (runs : Runs) (queue : List StartRunRequest)
        → All (Parked runs) queue
        → All (Parked (update f runs)) queue
    Parked-update runs [] w = tt
    Parked-update runs (req ∷ queue) w =
        (parked-update req.run_id runs ∙ w.0, Parked-update runs queue w.1)

    pub Slots-update :
        (running : ℕ) (runs : Runs) (queue : List StartRunRequest)
        → Slots running runs queue
        → Slots running (update f runs) queue
    Slots-update running runs queue v = record {
      exact = v.exact ∙ sym (total-update runs);
      waiting = Parked-update runs queue v.waiting;
      unique = v.unique;
    }

  pub reap_loop-update :
      (present : List String) (now : ℕ) (runs : Runs)
      → (reap_loop present now runs).0 ≡ update (λ rs. (reap_run present now rs).0) runs
  unfolding reap_loop update
  reap_loop-update present now [] = refl
  reap_loop-update present now ((id, rs) ∷ runs) =
      ap (◌∷◌ (id, (reap_run present now rs).0)) (reap_loop-update present now runs)

  pub reap_run-slot :
      (present : List String) (now : ℕ) (rs : RunState)
      → (reap_run present now rs).0.slot_held ≡ rs.slot_held
  unfolding reap_run
  reap_run-slot present now rs = ground arith

  abort_all-Inv : (ids : List String) (s : Service) (now : ℕ) → Inv s → Inv (abort_all ids s now)
  unfolding abort_all
  abort_all-Inv [] s now v = v
  abort_all-Inv (id ∷ ids) s now v =
      abort_all-Inv ids _ now (force_finalize-Inv s id workers_disconnected now v)

  pub reap_once-Inv : (s : Service) (now : ℕ) → Inv s → Inv (reap_once s now)
  unfolding reap_once
  reap_once-Inv s now v =
      let present = present_workers s now in
      let marked =
        Slots-update (λ (rs : RunState). (reap_run present now rs).0) (reap_run-slot present now)
          s.running s.runs s.queue v in
      abort_all-Inv (reap_loop present now s.runs).1
        (record s { runs = (reap_loop present now s.runs).0 }) now
        (rw (reap_loop-update present now s.runs) marked)

  -- Successive visits to a run, each with the workers connected and the time: the run behind
  -- them, and the verdicts.
  unfoldable pub visits : RunState → List (List String × ℕ) → RunState × List Bool
  visits rs [] = (rs, [])
  visits rs ((present, now) ∷ later) =
      let (rs', orphaned) = reap_run present now rs in
      let (last, verdicts) = visits rs' later in (last, orphaned ∷ verdicts)

  -- Whether the run is marked as lost at or after a time, or not marked.
  abbrev pub since : ℕ → Option ℕ → Bool
  since start none = true
  since start (some lost) = leb start lost

  reap_run-since :
      (present : List String) (start now : ℕ) (rs : RunState)
      → since start rs.workers_lost_at ≡ true
      → start ≤ now
      → now < start + orphan_grace_ms
      → (since start (reap_run present now rs).0.workers_lost_at ≡ true)
        × ((reap_run present now rs).1 ≡ false)
  unfolding reap_run
  reap_run-since present start now rs m le lt = ground arith

  pub visits-since :
      (start : ℕ) (rs : RunState) (later : List (List String × ℕ))
      → since start rs.workers_lost_at ≡ true
      → All (λ (present, now). (start ≤ now) × (now < start + orphan_grace_ms)) later
      → All (λ verdict. verdict ≡ false) (visits rs later).1
  unfolding visits
  visits-since start rs [] m h = tt
  visits-since start rs ((present, now) ∷ later) m h =
      let (m', v) = reap_run-since present start now rs m h.0.0 h.0.1 in
      (v, visits-since start (reap_run present now rs).0 later m' h.1)

  pub reap_run-stays :
      (present : List String) (now lost : ℕ) (rs : RunState)
      → is_running rs.status ≡ true
      → is_zero rs.ended_at ≡ true
      → no_workers rs.assigned ≡ false
      → rs.workers_lost_at ≡ some lost
      → any_present present rs.assigned ≡ false
      → reap_run present now rs ≡ (rs, leb orphan_grace_ms (now - lost))
  unfolding reap_run
  reap_run-stays present now lost rs run open' some' e gone = ground arith

  pub visits-stays :
      (lost : ℕ) (rs : RunState) (later : List (List String × ℕ))
      → is_running rs.status ≡ true
      → is_zero rs.ended_at ≡ true
      → no_workers rs.assigned ≡ false
      → rs.workers_lost_at ≡ some lost
      → All (λ (present, now). any_present present rs.assigned ≡ false) later
      → (visits rs later).0 ≡ rs
  unfolding visits
  visits-stays lost rs [] run open' some' e h = refl
  visits-stays lost rs ((present, now) ∷ later) run open' some' e h =
      let stays = reap_run-stays present now lost rs run open' some' e h.0 in
      ap (λ r. (visits r.0 later).0) stays ∙ visits-stays lost rs later run open' some' e h.1
