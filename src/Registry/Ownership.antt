-- ===== src/Registry/Ownership.antt =====
-- Which stream owns a worker's entry.
use loadify.Prelude.{
  ℕ, ◌≡◌, ◌≢◌, refl, ap, ◌∙◌, Bool, true, false, String, Option, none, some, arith, if◌then◌else◌,
  string_eq, ◌==◌, ==_iff, Option-cases, inl, inr, eqb, ◌&&◌,
}
use loadify.Platform.{Platform}
use loadify.Wire.{RegisterRequest}
use loadify.Dict.{lookup, insert, lookup-insert, lookup-delete}
use loadify.Registry.{Worker, Registry, Stats, add, remove, touch, get}

module _ ⦃p : Platform⦄ where
  abbrev send_of : Option Worker → Option ℕ
  send_of none = none
  send_of (some w) = some w.send

  -- The stream that a worker's entry belongs to.
  pub owner : Registry → String → Option ℕ
  owner r id = send_of (lookup id r.workers)

  owner-add :
      (r : Registry) (reg : RegisterRequest) (send now : ℕ) (id : String)
      → owner (add r reg send now) id ≡ (if reg.worker_id == id then some send else owner r id)
  unfolding owner add
  owner-add r reg send now id =
      ap send_of (lookup-insert reg.worker_id id _ r.workers) ∙ choose (reg.worker_id == id) _
    where
      choose :
          (b : Bool) (w : Worker)
          → send_of (if b then some w else lookup id r.workers)
            ≡ (if b then some w.send else send_of (lookup id r.workers))
      choose true w = refl
      choose false w = refl

  owner-insert :
      (r : Registry) (id other : String) (w w' : Worker)
      → lookup id r.workers ≡ some w
      → w'.send ≡ w.send
      → send_of (lookup other (insert id w' r.workers)) ≡ send_of (lookup other r.workers)
  owner-insert r id other w w' found same =
      ground (arith, lookup-insert id other w' r.workers, ==_iff id other)

  -- A heartbeat moves no entry to another stream.
  owner-touch :
      (r : Registry) (id other : String) (s : Stats) (now : ℕ)
      → owner (touch r id s now) other ≡ owner r other
  unfolding owner touch
  owner-touch r id other s now = elim (Option-cases (lookup id r.workers)) [
    | inl e ↦ rw (e, touch)
    | inr (w, e) ↦
        rw (e, touch) (owner-insert r id other w (record w { last_seen = now; stats = s }) e refl)
  ]

  -- A teardown changes nothing unless its stream owns the worker's entry; if it does, exactly
  -- that worker is gone.
  remove_cases :
      (r : Registry) (id other : String) (send : ℕ)
      → (owner r id ≢ some send → remove r id send ≡ (r, false))
        × (owner r id ≡ some send → (remove r id send).1 ≡ true)
        × (owner r id ≡ some send
            → get (remove r id send).0 other ≡ (if id == other then none else get r other))
  unfolding owner remove get
  remove_cases r id other send = elim (Option-cases (lookup id r.workers)) [
    | inl e ↦ (λ h. rw (e, remove), λ h. ground (arith, e), λ h. ground (arith, e))
    | inr (w, e) ↦ (
      λ h. ground (arith, e),
      λ h. ground (arith, e),
      λ h. ground (arith, e, lookup-delete id other r.workers),
    )
  ]

  -- The worker's entry belongs to the stream with this channel.
  unfoldable pub owns : Registry → String → ℕ → Bool
  unfolding owner
  owns r id send = elim (owner r id) [ none ↦ false | some c ↦ eqb c send ]

  -- A teardown reports whether its stream owned the worker's entry; if so exactly that worker is
  -- gone, and otherwise every worker is found as before.
  pub remove_owned :
      (r : Registry) (id other : String) (send : ℕ)
      → ((remove r id send).1 ≡ owns r id send)
        × (get (remove r id send).0 other
            ≡ (if owns r id send && (id == other) then none else get r other))
  unfolding owns owner remove get
  remove_owned r id other send = elim (Option-cases (lookup id r.workers)) [
    | inl e ↦ (ground (arith, e), ground (arith, e))
    | inr (w, e) ↦ (ground (arith, e), ground (arith, e, lookup-delete id other r.workers))
  ]

  -- A worker registered on one stream and then on another belongs to the second, also after
  -- heartbeats: the teardown of the first stream changes nothing, and that of the second removes
  -- this worker and no other.
  pub reconnect_survives_teardown :
      (r : Registry) (first second : RegisterRequest) (old new_send t u v : ℕ) (s : Stats)
      (other : String)
      → old ≢ new_send
      → second.worker_id ≡ first.worker_id
      → let id = first.worker_id in
        let r' = touch (add (add r first old t) second new_send u) id s v in
        (remove r' id old ≡ (r', false))
        × ((remove r' id new_send).1 ≡ true)
        × (get (remove r' id new_send).0 other ≡ (if id == other then none else get r' other))
  reconnect_survives_teardown r first second old new_send t u v s other ne e =
      let id = first.worker_id in
      let before = add (add r first old t) second new_send u in
      let r' = touch before id s v in
      let owned : owner r' id ≡ some new_send = ground (
        arith,
        owner-touch before id id s v,
        owner-add (add r first old t) second new_send u id,
        ==_iff second.worker_id id,
      ) in
      (
        (remove_cases r' id other old).0 (λ h. ne (ground (arith, owned, h))),
        (remove_cases r' id other new_send).1 owned,
        (remove_cases r' id other new_send).2 owned,
      )
