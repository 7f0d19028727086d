-- ===== src/Runs/Ending/Writes.antt =====
-- The statements of the store against the invariant: writes, and finalizations with their notice.
use loadify.Prelude.{
  ℕ, ◌+◌, ◌≤◌, ◌≡◌, refl, sym, subst, inl, inr, Bool, true, false, String, Option, none, some, List,
  ◌∷◌, arith, if◌then◌else◌, string_eq, ◌==◌, ==_iff, Bool-cases,
}
use loadify.Platform.{Platform}
use loadify.Dict.{lookup, insert}
use loadify.Runs.{
  Status, Run, Store, Summary, has_ended, is_waiting, write, write_found, run_started,
  set_run_running, finished_row, finish_found,
}
use loadify.Runs.Finalizing.{Server, Notice, notified}
use loadify.Runs.Ending.{
  Cleared, Change, Change-at, lookup-insert_other, Stays-same, notices, bit, Kept, KeptRow, KeptIn,
  Good, Fits, Good-same, Good-trans, lookup-insert_same, insert-Change, open-Fits,
}

module _ ⦃p : Platform⦄ where
  abbrev pub Inv : Server → Type 0
  Inv s = (id : String) → KeptIn id s

  -- An operation that keeps the invariant and every run that has ended.
  abbrev pub Sound : Server → Server → Type 0
  Sound s t = (id : String) → Good id s t

  pub Sound-same : (s : Server) → Inv s → Sound s s
  Sound-same s v id = Good-same id s (v id)

  pub Sound-trans : (s t u : Server) → Sound s t → Sound t u → Sound s u
  Sound-trans s t u g h id = Good-trans id s t u (g id) (h id)

  pub row_kept :
      (s : Server) (key : String) (r : Run)
      → Inv s
      → lookup key s.pg.runs ≡ some r
      → KeptRow r (notices key s.sent)
  row_kept s key r v e = subst (λ x. Kept x (notices key s.sent)) e (v key)

  write_found-Sound :
      (s : Server) (key : String) (o : Option Run) (f : Run → Run)
      → lookup key s.pg.runs ≡ o
      → ((r : Run) → o ≡ some r → (n : ℕ) → KeptRow r n → Fits r (f r) n)
      → Inv s
      → Sound s (record s { pg = write_found s.pg key o f })
  unfolding write_found
  write_found-Sound s key none f e fits v id = Sound-same s v id
  write_found-Sound s key (some r) f e fits v id =
      insert-Change s.pg.runs key id r (f r) (λ i. notices i s.sent) e
        (fits r refl (notices key s.sent) (row_kept s key r v e)) (λ other. v id)

  if-Sound :
      (s : Server) (b : Bool) (one other : Store)
      → Sound s (record s { pg = one })
      → Sound s (record s { pg = other })
      → Sound s (record s { pg = if b then one else other })
  if-Sound s true one other g h = g
  if-Sound s false one other g h = h

  write-Sound :
      (s : Server) (key : String) (f : Run → Run)
      → ((r : Run) → lookup key s.pg.runs ≡ some r → (n : ℕ) → KeptRow r n → Fits r (f r) n)
      → Inv s
      → Sound s (record s { pg = write s.pg key f })
  unfolding write
  write-Sound s key f fits v =
      if-Sound s s.pg.up (write_found s.pg key (lookup key s.pg.runs) f) s.pg
        (write_found-Sound s key (lookup key s.pg.runs) f refl fits v) (Sound-same s v)

  run_started-Fits : (r : Run) (n : ℕ) (now : ℕ) → KeptRow r n → Fits r (run_started now r) n
  unfolding run_started has_ended is_waiting
  run_started-Fits r n now k = ground (arith, k)

  pub set_run_running-Sound :
      (s : Server) (key : String) (now : ℕ)
      → Inv s
      → Sound s (record s { pg = set_run_running s.pg key now })
  unfolding set_run_running
  set_run_running-Sound s key now =
      write-Sound s key (run_started now) (λ r e n. run_started-Fits r n now)

  -- No row, or one of a run that has not ended.
  abbrev pub Live : Option Run → Type 0
  Live none = Unit
  Live (some r) = has_ended r.status ≡ false

  -- The same where a test holds.
  abbrev pub LiveIf : Bool → Option Run → Type 0
  LiveIf true o = Live o
  LiveIf false o = Unit

  pub Live-LiveIf : (b : Bool) (o : Option Run) → Live o → LiveIf b o
  Live-LiveIf true o live = live
  Live-LiveIf false o live = tt

  -- A write that does not end the run, of a run that has not ended.
  pub write_open-Sound :
      (s : Server) (key : String) (f : Run → Run)
      → Live (lookup key s.pg.runs)
      → ((r : Run) → has_ended r.status ≡ false → has_ended (f r).status ≡ false)
      → Inv s
      → Sound s (record s { pg = write s.pg key f })
  write_open-Sound s key f live still =
      write-Sound s key f
        (λ r e n k. let now = subst Live e live in open-Fits r (f r) n now (still r now) k)

  write_found-Live :
      (s : Store) (key : String) (o : Option Run) (f : Run → Run)
      → lookup key s.runs ≡ o
      → Live o
      → ((r : Run) → has_ended r.status ≡ false → has_ended (f r).status ≡ false)
      → Live (lookup key (write_found s key o f).runs)
  unfolding write_found
  write_found-Live s key none f e live still = subst Live (sym e) live
  write_found-Live s key (some r) f e live still =
      subst Live (sym (lookup-insert_same key (f r) s.runs)) (still r live)

  if-Live :
      (key : String) (b : Bool) (one other : Store)
      → Live (lookup key one.runs)
      → Live (lookup key other.runs)
      → Live (lookup key (if b then one else other).runs)
  if-Live key true one other g h = g
  if-Live key false one other g h = h

  pub write-Live :
      (s : Store) (key : String) (f : Run → Run)
      → Live (lookup key s.runs)
      → ((r : Run) → has_ended r.status ≡ false → has_ended (f r).status ≡ false)
      → Live (lookup key (write s key f).runs)
  unfolding write
  write-Live s key f live still =
      if-Live key s.up (write_found s key (lookup key s.runs) f) s
        (write_found-Live s key (lookup key s.runs) f refl live still) live

  -- A finalization.
  ended_row-Fits :
      (r : Run) (status : Status) (summary : Summary) (now n : ℕ)
      → has_ended status ≡ true
      → has_ended r.status ≡ false
      → KeptRow r n
      → (m : ℕ) → m ≤ 1
      → Fits r (finished_row status summary now r) m
  unfolding finished_row
  ended_row-Fits r status summary now n e live k m le = rw (e, live) ((refl, le), tt)

  notice_added :
      (note : Notice) (id : String) (sent : List Notice)
      → note.run_id ≡ id
      → notices id (note ∷ sent) ≡ 1 + notices id sent
  notice_added note id sent e = ground (arith, ==_iff note.run_id id, e)

  notice_other :
      (note : Notice) (id : String) (sent : List Notice)
      → (note.run_id == id) ≡ false
      → notices id (note ∷ sent) ≡ notices id sent
  notice_other note id sent e = ground (arith, e)

  finish_live-Sound :
      (s : Server) (note : Notice) (r : Run) (status : Status) (summary : Summary) (now : ℕ)
      → lookup note.run_id s.pg.runs ≡ some r
      → has_ended status ≡ true
      → has_ended r.status ≡ false
      → Inv s
      → Sound s (record s {
        pg = record s.pg {
          runs = insert note.run_id (finished_row status summary now r) s.pg.runs;
        };
        sent = note ∷ s.sent;
      })
  finish_live-Sound s note r status summary now found e live v id =
      let k = row_kept s note.run_id r v found in
      let none_yet = subst (λ x. notices note.run_id s.sent ≤ bit x) live k.1 in
      let once : notices note.run_id (note ∷ s.sent) ≤ 1 =
        omega (arith, none_yet, notice_added note note.run_id s.sent refl) in
      insert-Change s.pg.runs note.run_id id r (finished_row status summary now r)
        (λ i. notices i (note ∷ s.sent)) found
        (ended_row-Fits r status summary now (notices note.run_id s.sent) e live k _ once)
        (λ other.
          subst (λ n. Kept (lookup id s.pg.runs) n) (sym (notice_other note id s.sent other))
            (v id))

  finish_quiet-Sound :
      (s : Server) (key : String) (r : Run) (status : Status) (summary : Summary) (now : ℕ)
      → lookup key s.pg.runs ≡ some r
      → has_ended status ≡ true
      → has_ended r.status ≡ false
      → Inv s
      → Sound s (record s {
        pg = record s.pg { runs = insert key (finished_row status summary now r) s.pg.runs };
      })
  finish_quiet-Sound s key r status summary now found e live v id =
      let k = row_kept s key r v found in
      let none_yet = subst (λ x. notices key s.sent ≤ bit x) live k.1 in
      let once : notices key s.sent ≤ 1 = omega (arith, none_yet) in
      insert-Change s.pg.runs key id r (finished_row status summary now r) (λ i. notices i s.sent)
        found (ended_row-Fits r status summary now (notices key s.sent) e live k _ once)
        (λ other. v id)

  -- FinishRun whose answer is not used.
  pub finish_unread-Sound :
      (s : Server) (key : String) (o : Option Run) (status : Status) (summary : Summary) (now : ℕ)
      → lookup key s.pg.runs ≡ o
      → has_ended status ≡ true
      → Inv s
      → Sound s (record s { pg = (finish_found s.pg key o status summary now).0 })
  unfolding finish_found
  finish_unread-Sound s key none status summary now found e v = Sound-same s v
  finish_unread-Sound s key (some r) status summary now found e v =
      elim (Bool-cases (has_ended r.status)) [
        | inl over ↦ rw over (Sound-same s v)
        | inr live ↦ rw live (finish_quiet-Sound s key r status summary now found e live v)
      ]

  -- A new row under an id that has neither a row nor a notice.
  pub insert_new-Sound :
      (s : Server) (key : String) (r : Run)
      → lookup key s.pg.runs ≡ none
      → notices key s.sent ≡ 0
      → has_ended r.status ≡ false
      → Inv s
      → Sound s (record s { pg = record s.pg { runs = insert key r s.pg.runs } })
  insert_new-Sound s key r fresh silent live v id = elim (Bool-cases (key == id)) [
    | inl same ↦
        let few : notices key s.sent ≤ bit (has_ended r.status) = omega (arith, silent) in
        let kept : KeptRow r (notices key s.sent) =
          (subst (λ b. Cleared b r.dispatch_payload) (sym live) tt, few) in
        subst
          (λ i. Change (lookup i s.pg.runs) (lookup i (insert key r s.pg.runs)) (notices i s.sent))
          ((==_iff key id).0 same)
          (Change-at _ _ _ _ (notices key s.sent) fresh (lookup-insert_same key r s.pg.runs)
            (kept, tt))
    | inr other ↦
        Change-at _ _ _ _ (notices id s.sent) refl (lookup-insert_other key id r s.pg.runs other)
          (v id, Stays-same (lookup id s.pg.runs))
  ]

  pub finish_found-Sound :
      (s : Server) (note : Notice) (o : Option Run) (status : Status) (summary : Summary) (now : ℕ)
      → lookup note.run_id s.pg.runs ≡ o
      → has_ended status ≡ true
      → Inv s
      → Sound s (notified s note (some (finish_found s.pg note.run_id o status summary now)))
  unfolding finish_found notified
  finish_found-Sound s note none status summary now found e v = Sound-same s v
  finish_found-Sound s note (some r) status summary now found e v =
      elim (Bool-cases (has_ended r.status)) [
        | inl over ↦ rw over (Sound-same s v)
        | inr live ↦ rw live (finish_live-Sound s note r status summary now found e live v)
      ]
