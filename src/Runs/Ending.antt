-- ===== src/Runs/Ending.antt =====
-- How runs end: what each operation of the API server leaves of a run that has ended, and how often
-- an end is notified.
pub mod Writes
pub mod Finalizations
pub mod Rounds
pub mod Calls
pub mod Steps
pub mod Events
use loadify.Prelude.{
  ℕ, ◌+◌, ◌≤◌, ◌≡◌, refl, sym, subst, inl, inr, Bytes, Bool, true, false, String, Option, none,
  some, List, [], ◌∷◌, arith, if◌then◌else◌, string_eq, ◌==◌, ==_iff, Bool-cases, Option-cases,
}
use loadify.Platform.{Platform}
use loadify.Dict.{lookup, insert, lookup-insert}
use loadify.Runs.{
  Status, running, queued, Run, Store, Summary, has_ended, is_waiting, write, write_found,
  run_started, set_run_running, set_run_status, set_run_dispatch, finished_row, finish_found,
  finish_run,
}
use loadify.Runs.Finalizing.{
  Remote, Server, Notice, notified, finalize_run_reason, payload_of, final_status,
}

module _ ⦃p : Platform⦄ where
  -- How many notices of a run were sent.
  abbrev pub notices : String → List Notice → ℕ
  notices id [] = 0
  notices id (n ∷ sent) = (if n.run_id == id then 1 else 0) + notices id sent

  abbrev pub Cleared : Bool → Option Bytes → Type 0
  Cleared true payload = payload ≡ none
  Cleared false payload = Unit

  abbrev pub bit : Bool → ℕ
  bit true = 1
  bit false = 0

  -- A run that has ended has no request left to replay and was notified at most once, any other
  -- never; a run that was deleted at most once.
  abbrev pub KeptRow : Run → ℕ → Type 0
  KeptRow r n = Cleared (has_ended r.status) r.dispatch_payload × (n ≤ bit (has_ended r.status))

  abbrev pub Kept : Option Run → ℕ → Type 0
  Kept none n = n ≤ 1
  Kept (some r) n = KeptRow r n

  -- A run that has ended is as it was.
  abbrev pub StaysIf : Bool → Run → Option Run → Type 0
  StaysIf true r found = found ≡ some r
  StaysIf false r found = Unit

  abbrev pub Stays : Option Run → Option Run → Type 0
  Stays none found = Unit
  Stays (some r) found = StaysIf (has_ended r.status) r found

  abbrev pub KeptIn : String → Server → Type 0
  KeptIn id s = Kept (lookup id s.pg.runs) (notices id s.sent)

  -- What an operation does to one run.
  abbrev pub Good : String → Server → Server → Type 0
  Good id s t = KeptIn id t × Stays (lookup id s.pg.runs) (lookup id t.pg.runs)

  StaysIf-same : (ended : Bool) (r : Run) → StaysIf ended r (some r)
  StaysIf-same true r = refl
  StaysIf-same false r = tt

  pub Stays-same : (o : Option Run) → Stays o o
  Stays-same none = tt
  Stays-same (some r) = StaysIf-same (has_ended r.status) r

  StaysIf-trans :
      (ended : Bool) (r : Run) (b c : Option Run)
      → has_ended r.status ≡ ended
      → StaysIf ended r b
      → Stays b c
      → StaysIf ended r c
  StaysIf-trans true r b c e h k = subst (λ x. StaysIf x r c) e (subst (λ x. Stays x c) h k)
  StaysIf-trans false r b c e h k = tt

  pub Stays-trans : (a b c : Option Run) → Stays a b → Stays b c → Stays a c
  Stays-trans none b c h k = tt
  Stays-trans (some r) b c h k = StaysIf-trans (has_ended r.status) r b c refl h k

  pub Good-trans : (id : String) (s t u : Server) → Good id s t → Good id t u → Good id s u
  Good-trans id s t u g h =
      (h.0, Stays-trans (lookup id s.pg.runs) (lookup id t.pg.runs) (lookup id u.pg.runs) g.1 h.1)

  pub Good-same : (id : String) (s : Server) → KeptIn id s → Good id s s
  Good-same id s k = (k, Stays-same (lookup id s.pg.runs))

  -- What a change of a row keeps, for each number of notices.
  abbrev pub Fits : Run → Run → ℕ → Type 0
  Fits r r' n = KeptRow r' n × StaysIf (has_ended r.status) r (some r')

  -- What an operation does to one run, by what stands there before and after it.
  abbrev pub Change : Option Run → Option Run → ℕ → Type 0
  Change before found n = Kept found n × Stays before found

  pub Change-at :
      (before before' found found' : Option Run) (n : ℕ)
      → before ≡ before'
      → found ≡ found'
      → Change before' found' n
      → Change before found n
  Change-at before before' found found' n b f c =
      subst (λ x. Change x found n) (sym b) (subst (λ x. Change before' x n) (sym f) c)

  pub lookup-insert_same :
      (key : String) (r : Run) (runs : List (String × Run))
      → lookup key (insert key r runs) ≡ some r
  lookup-insert_same key r runs = ground (arith, lookup-insert key key r runs, ==_iff key key)

  pub lookup-insert_other :
      (key id : String) (r : Run) (runs : List (String × Run))
      → (key == id) ≡ false
      → lookup id (insert key r runs) ≡ lookup id runs
  lookup-insert_other key id r runs e = ground (arith, lookup-insert key id r runs, e)

  -- A write of the row `key`, under which `n` notices were sent at its end.
  pub insert-Change :
      (runs : List (String × Run)) (key id : String) (r r' : Run) (count : String → ℕ)
      → lookup key runs ≡ some r
      → Fits r r' (count key)
      → ((key == id) ≡ false → Kept (lookup id runs) (count id))
      → Change (lookup id runs) (lookup id (insert key r' runs)) (count id)
  insert-Change runs key id r r' count found fits kept = elim (Bool-cases (key == id)) [
    | inl same ↦
        subst (λ i. Change (lookup i runs) (lookup i (insert key r' runs)) (count i))
          ((==_iff key id).0 same)
          (Change-at _ _ _ _ (count key) found (lookup-insert_same key r' runs) fits)
    | inr other ↦
        let same = Stays-same (lookup id runs) in
        Change-at _ _ _ _ (count id) refl (lookup-insert_other key id r' runs other)
          (kept other, same)
  ]

  -- A change of a run that does not end it, while it has not ended.
  pub open-Fits :
      (r r' : Run) (n : ℕ)
      → has_ended r.status ≡ false
      → has_ended r'.status ≡ false
      → KeptRow r n
      → Fits r r' n
  open-Fits r r' n e e' k = rw (e', e) ((tt, subst (λ x. n ≤ bit x) e k.1), tt)
