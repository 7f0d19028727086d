-- ===== src/Coordinator/Orphans.antt =====
-- internal/coordinator/service.go: the watchdog's visits to one run of the service, whose other
-- operations take place between them: which runs are aborted, and which survive.
use loadify.Prelude.{
  ℕ, ◌+◌, ◌-◌, ◌≤◌, ◌<◌, ◌≡◌, refl, sym, ap, ◌∙◌, inl, inr, Bool, true, false, String, List, [],
  ◌∷◌, Option, none, some, arith, All, if◌then◌else◌, string_eq, ◌==◌, ==_iff, le→leb, Bool-cases,
}
use mathlib.Core.Option.{some-injective}
use loadify.Platform.{Platform}
use loadify.Wire.{aborted}
use loadify.Dict.{lookup, update, Distinct}
use loadify.Breaker.{workers_disconnected}
use loadify.Coordinator.State.{RunState, Service, member, is_running, is_zero, orphan_grace_ms}
use loadify.Coordinator.Lifecycle.{ended_run, forced, is_forceable, is_none_given}
use loadify.Coordinator.Watchdog.{
  present_workers, any_present, no_workers, reap_run, reap_loop, reap_once,
}
use loadify.Coordinator.Slots.{Runs, Inv}
use loadify.Coordinator.Ending.{held-Absent}
use loadify.Coordinator.Aborting.{abort_all-spares, abort_all-ends}
use loadify.Coordinator.Reaping.{
  reap_loop-update, reap_once-Inv, reap_run-slot, since, visits, visits-since, visits-stays,
  reap_run-stays,
}
use loadify.Coordinator.Events.{Step, Step-Inv}

module _ ⦃p : Platform⦄ where
  lookup-update :
      (f : RunState → RunState) (id : String) (rs : RunState) (runs : Runs)
      → lookup id runs ≡ some rs
      → lookup id (update f runs) ≡ some (f rs)
  unfolding lookup update
  lookup-update f id rs [] e = absurd (ground (arith, e))
  lookup-update f id rs ((j, r) ∷ runs) e = ground (arith, e, lookup-update f id rs runs)

  lookup-reap_loop :
      (present : List String) (now : ℕ) (id : String) (rs : RunState) (runs : Runs)
      → lookup id runs ≡ some rs
      → lookup id (reap_loop present now runs).0 ≡ some (reap_run present now rs).0
  lookup-reap_loop present now id rs runs e =
      ap (lookup id) (reap_loop-update present now runs)
      ∙ lookup-update (λ r. (reap_run present now r).0) id rs runs e

  member_if :
      (id j : String) (b : Bool) (ids : List String)
      → (j == id) ≡ false
      → member id (if b then j ∷ ids else ids) ≡ member id ids
  unfolding member
  member_if id j true ids other = ground (arith, other)
  member_if id j false ids other = refl

  reap_loop-unknown :
      (present : List String) (now : ℕ) (id : String) (runs : Runs)
      → lookup id runs ≡ none
      → member id (reap_loop present now runs).1 ≡ false
  unfolding reap_loop lookup member
  reap_loop-unknown present now id [] e = refl
  reap_loop-unknown present now id ((j, r) ∷ runs) e =
      ground (arith, e, reap_loop-unknown present now id runs)

  reap_loop-verdict :
      (present : List String) (now : ℕ) (id : String) (rs : RunState) (runs : Runs)
      → Distinct runs
      → lookup id runs ≡ some rs
      → (reap_run present now rs).1 ≡ false
      → member id (reap_loop present now runs).1 ≡ false
  unfolding reap_loop lookup member
  reap_loop-verdict present now id rs [] d e v = refl
  reap_loop-verdict present now id rs ((j, r) ∷ runs) d e v = elim (Bool-cases (j == id)) [
    | inl same ↦
        let found : some r ≡ some rs = ground (arith, same, e) in
        let spared : (reap_run present now r).1 ≡ false =
          ap (λ x. (reap_run present now x).1) (some-injective r rs found) ∙ v in
        let i : id ≡ j = sym ((==_iff j id).0 same) in
        let rest = reap_loop-unknown present now id runs (ap (λ x. lookup x runs) i ∙ d.0) in
        simp spared rest
    | inr other ↦
        let rest = reap_loop-verdict present now id rs runs d.1 (ground (arith, other, e)) v in
        member_if id j (reap_run present now r).1 (reap_loop present now runs).1 other ∙ rest
  ]

  reap_loop-orphan :
      (present : List String) (now : ℕ) (id : String) (rs : RunState) (runs : Runs)
      → lookup id runs ≡ some rs
      → (reap_run present now rs).1 ≡ true
      → member id (reap_loop present now runs).1 ≡ true
  unfolding reap_loop lookup member
  reap_loop-orphan present now id rs [] e v = absurd (ground (arith, e))
  reap_loop-orphan present now id rs ((j, r) ∷ runs) e v = elim (Bool-cases (j == id)) [
    | inl same ↦
        let found : some r ≡ some rs = ground (arith, same, e) in
        let taken : (reap_run present now r).1 ≡ true =
          ap (λ x. (reap_run present now x).1) (some-injective r rs found) ∙ v in
        simp (taken, same) refl
    | inr other ↦
        let rest = reap_loop-orphan present now id rs runs (ground (arith, other, e)) v in
        member_if id j (reap_run present now r).1 (reap_loop present now runs).1 other ∙ rest
  ]

  reap_once-keeps :
      (s : Service) (now : ℕ) (id : String) (rs : RunState)
      → Inv s
      → Distinct s.runs
      → lookup id s.runs ≡ some rs
      → rs.slot_held ≡ true
      → (reap_run (present_workers s now) now rs).1 ≡ false
      → lookup id (reap_once s now).runs ≡ some (reap_run (present_workers s now) now rs).0
  unfolding reap_once
  reap_once-keeps s now id rs v d e h spared =
      let present = present_workers s now in
      abort_all-spares (reap_loop present now s.runs).1 id (reap_run present now rs).0
        (record s { runs = (reap_loop present now s.runs).0 }) now
        (reap_loop-verdict present now id rs s.runs d e spared)
        (
          lookup-reap_loop present now id rs s.runs e,
          held-Absent id rs s.runs s.queue e h v.waiting,
        )

  -- The visits of the watchdog to a service, each with the workers it finds and its time, up to the
  -- service behind them. Between two visits there are any steps of the coordinator that leave the
  -- stored run as it is. The runs are a map, which holds an id once.
  pub data Watched (id : String) : Service → List (List String × ℕ) → Service → Type 0 where
    unwatched : {s : Service} → Watched id s [] s
    visited :
        {s u : Service} {later : List (List String × ℕ)} (now : ℕ)
        → Distinct s.runs
        → Watched id (reap_once s now) later u
        → Watched id s ((present_workers s now, now) ∷ later) u
    stepped :
        {s t u : Service} {later : List (List String × ℕ)}
        → Step s t
        → lookup id t.runs ≡ lookup id s.runs
        → Watched id t later u
        → Watched id s later u

  visits_lem :
      (id : String) {s u : Service} {later : List (List String × ℕ)} (rs : RunState)
      → Watched id s later u
      → Inv s
      → lookup id s.runs ≡ some rs
      → rs.slot_held ≡ true
      → All (λ verdict. verdict ≡ false) (visits rs later).1
      → (lookup id u.runs ≡ some (visits rs later).0) × Inv u
  unfolding visits
  visits_lem id rs unwatched v e h a = (e, v)
  visits_lem id rs (visited {s} now d w) v e h a =
      visits_lem id (reap_run (present_workers s now) now rs).0 w (reap_once-Inv s now v)
        (reap_once-keeps s now id rs v d e h a.0) (reap_run-slot (present_workers s now) now rs ∙ h)
        a.1
  visits_lem id rs (stepped st same w) v e h a = visits_lem id rs w (Step-Inv st v) (same ∙ e) h a

  reap_run-mark :
      (present : List String) (now : ℕ) (rs : RunState)
      → (lost : Option ℕ) × ((reap_run present now rs).0 ≡ record rs { workers_lost_at = lost })
  unfolding reap_run
  reap_run-mark present now rs = ((reap_run present now rs).0.workers_lost_at, ground arith)

  visits-mark :
      (rs : RunState) (later : List (List String × ℕ))
      → (lost : Option ℕ) × ((visits rs later).0 ≡ record rs { workers_lost_at = lost })
  unfolding visits
  visits-mark rs [] = (rs.workers_lost_at, refl)
  visits-mark rs ((present, now) ∷ later) =
      let (mark, once) = reap_run-mark present now rs in
      let (lost, rest) = visits-mark (reap_run present now rs).0 later in
      (lost, rest ∙ ap {A = RunState} (λ r. record r { workers_lost_at = lost }) once)

  reap_run-returned :
      (present : List String) (now : ℕ) (rs : RunState)
      → any_present present rs.assigned ≡ true
      → ((reap_run present now rs).0.workers_lost_at ≡ none) × ((reap_run present now rs).1 ≡ false)
  unfolding reap_run
  reap_run-returned present now rs here = ground (arith, here)

  -- Where the slots are accounted for, a dispatched run with a worker that is connected at a visit
  -- survives this visit and all later ones within the grace period after it, also where its workers
  -- were missing before and whoever is connected later: behind them the run is stored as before, but
  -- for the time since which its workers are missing. Between the visits the coordinator takes any
  -- steps that leave the stored run as it is.
  pub blip_survives :
      (s u : Service) (id : String) (rs : RunState) (first : List String) (start : ℕ)
      (later : List (List String × ℕ))
      → Inv s
      → lookup id s.runs ≡ some rs
      → rs.slot_held ≡ true
      → any_present first rs.assigned ≡ true
      → All (λ (present, now). (start ≤ now) × (now < start + orphan_grace_ms)) later
      → Watched id s ((first, start) ∷ later) u
      → (lost : Option ℕ) × (lookup id u.runs ≡ some (record rs { workers_lost_at = lost }))
  unfolding visits
  blip_survives s u id rs first start later v e h here within w =
      let (cleared, spared) = reap_run-returned first start rs here in
      let later' =
        visits-since start (reap_run first start rs).0 later (ap (since start) cleared) within in
      let (lost, marked) = visits-mark rs ((first, start) ∷ later) in
      (lost, (visits_lem id rs w v e h (spared, later')).0 ∙ ap some marked)

  away-within :
      (start : ℕ) (rs : RunState) (later : List (List String × ℕ))
      → All
          (λ (present, now).
            (any_present present rs.assigned ≡ false)
            × (start ≤ now)
            × (now < start + orphan_grace_ms))
          later
      → All (λ (present, now). any_present present rs.assigned ≡ false) later
        × All (λ (present, now). (start ≤ now) × (now < start + orphan_grace_ms)) later
  away-within start rs [] h = (tt, tt)
  away-within start rs (v ∷ later) h =
      let (gone, within) = away-within start rs later h.1 in
      ((h.0.0, gone), ((h.0.1, h.0.2), within))

  -- The run that the watchdog aborts at a time, its workers missing since another.
  abbrev pub orphaned : RunState → ℕ → ℕ → RunState
  orphaned rs t now = record rs {
    workers_lost_at = some t;
    status = aborted;
    reason = if is_none_given rs.reason then workers_disconnected else rs.reason;
    ended_at = some now;
    slot_held = false;
  }

  reap_once-ends :
      (u : Service) (now t : ℕ) (id : String) (rs : RunState)
      → Inv u
      → lookup id u.runs ≡ some (record rs { workers_lost_at = some t })
      → rs.slot_held ≡ true
      → is_running rs.status ≡ true
      → is_zero rs.ended_at ≡ true
      → reap_run (present_workers u now) now (record rs { workers_lost_at = some t })
        ≡ (record rs { workers_lost_at = some t }, true)
      → lookup id (reap_once u now).runs ≡ some (orphaned rs t now)
  unfolding reap_once
  reap_once-ends u now t id rs v e h run open' taken =
      let present = present_workers u now in
      let marked = record rs { workers_lost_at = some t } in
      let stored = lookup-reap_loop present now id marked u.runs e ∙ ap (λ r. some r.0) taken in
      abort_all-ends (reap_loop present now u.runs).1 id marked
        (record u { runs = (reap_loop present now u.runs).0 }) now
        (reap_loop-orphan present now id marked u.runs e (ap (λ r. r.1) taken))
        (unfold is_forceable in ground (arith, h, open')) open'
        (stored, held-Absent id marked u.runs u.queue e h v.waiting)
      ∙ ap some (unfold ended_run in unfold forced in simp run refl)

  -- Where the slots are accounted for, a running dispatched run that has not ended and has workers
  -- assigned, not yet noticed as missing: if at a visit none of them is connected, nor at the later
  -- visits within the grace period, then a visit at least the grace period after the first, at which
  -- still none is, ends the run. It is stored as aborted, ended at that time, without a slot, and for
  -- the reason that its workers are disconnected if it has no other. Between the visits the
  -- coordinator takes any steps that leave the stored run as it is.
  pub orphan_reaped :
      (s u : Service) (id : String) (rs : RunState) (first : List String) (t : ℕ)
      (later : List (List String × ℕ)) (now : ℕ)
      → Inv s
      → lookup id s.runs ≡ some rs
      → rs.slot_held ≡ true
      → is_running rs.status ≡ true
      → is_zero rs.ended_at ≡ true
      → no_workers rs.assigned ≡ false
      → rs.workers_lost_at ≡ none
      → any_present first rs.assigned ≡ false
      → All
          (λ (present, at).
            (any_present present rs.assigned ≡ false) × (t ≤ at) × (at < t + orphan_grace_ms))
          later
      → Watched id s ((first, t) ∷ later) u
      → any_present (present_workers u now) rs.assigned ≡ false
      → t + orphan_grace_ms ≤ now
      → lookup id (reap_once u now).runs ≡ some (orphaned rs t now)
  unfolding visits
  orphan_reaped s u id rs first t later now v e h run open' some' unmarked gone away w gone' le =
      let marked = record rs { workers_lost_at = some t } in
      let noticed : reap_run first t rs ≡ (marked, false) = unfold reap_run in ground arith in
      let (missing, within) = away-within t rs later away in
      let spared =
        visits-since t (reap_run first t rs).0 later
          (ap (λ r. since t r.0.workers_lost_at) noticed ∙ le→leb t t (omega arith)) within in
      let (stored, v') = visits_lem id rs w v e h (ap (λ r. r.1) noticed, spared) in
      let kept : (visits (reap_run first t rs).0 later).0 ≡ marked =
        ap (λ r. (visits r.0 later).0) noticed
        ∙ visits-stays t marked later run open' some' refl missing in
      reap_once-ends u now t id rs v' (stored ∙ ap some kept) h run open' (
        reap_run-stays (present_workers u now) now t marked run open' some' refl gone'
        ∙ ap (λ b. (marked, b)) (le→leb orphan_grace_ms (now - t) (omega arith)))
