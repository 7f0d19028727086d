-- ===== src/Agent/Booking.antt =====
-- The tables of an agent's runs, as predicates that a change of a table keeps.
use loadify.Prelude.{
  ℕ, ◌+◌, ◌<◌, ◌≡◌, Bool, true, false, not, ◌&&◌, Option, none, some, List, String, string_eq,
  nat_eq, ◌==◌, ==_iff, arith,
}
use loadify.Platform.{Platform}
use loadify.Dict.{lookup, insert, delete, lookup-insert, lookup-delete}
use loadify.Wire.{Protocol}
use loadify.Agent.{Agent, Task, is_ended}

abbrev pub present {ℓ} : {A : Type ℓ} → Option A → Bool
present none = false
present (some x) = true

module _ ⦃p : Platform⦄ where
  -- The task is that of the run, and its end is to come.
  abbrev pub is_live : String → Option Task → Bool
  is_live id none = false
  is_live id (some t) = t.run_id == id && not (is_ended t.phase)

  -- The runs that the agent advertises are those that it can cancel and that it is executing or
  -- about to execute.
  pub record IsBooked (runs : List (String × ℕ)) (protos : List (String × Protocol))
      (tasks : List (ℕ × Task)) (next : ℕ) : Type 0 where
    pub same_keys : (id : String) → present (lookup id protos) ≡ present (lookup id runs)
    pub listed_live :
        (id : String) (ctx : ℕ) → lookup id runs ≡ some ctx → is_live id (lookup ctx tasks) ≡ true
    pub live_listed :
        (id : String) (ctx : ℕ) → is_live id (lookup ctx tasks) ≡ true → lookup id runs ≡ some ctx
    pub numbered : (ctx : ℕ) → present (lookup ctx tasks) ≡ true → ctx < next

  abbrev pub Booked : Agent → Type 0
  Booked a = IsBooked a.runs a.run_protos a.tasks a.next_ctx

  module _ (runs : List (String × ℕ)) (protos : List (String × Protocol)) (tasks : List (ℕ × Task))
      (next : ℕ) where
    -- A task changes, but neither its run nor whether it has ended.
    pub update-IsBooked :
        (ctx : ℕ) (t u : Task)
        → IsBooked runs protos tasks next
        → lookup ctx tasks ≡ some t
        → u.run_id ≡ t.run_id
        → is_ended u.phase ≡ is_ended t.phase
        → IsBooked runs protos (insert ctx u tasks) next
    update-IsBooked ctx t u i e same still = record {
      same_keys = i.same_keys;
      listed_live = λ id c h.
          ground (
            arith,
            lookup-insert ctx c u tasks,
            i.listed_live id c,
            e,
            same,
            still,
            h,
            ==_iff ctx c,
          );
      live_listed = λ id c h.
          ground (
            arith,
            lookup-insert ctx c u tasks,
            i.live_listed id c,
            e,
            same,
            still,
            h,
            ==_iff ctx c,
          );
      numbered =
          λ c h. ground (arith, lookup-insert ctx c u tasks, i.numbered c, e, h, ==_iff ctx c);
    }

    -- A run ends with its task.
    pub end-IsBooked :
        (ctx : ℕ) (t u : Task)
        → IsBooked runs protos tasks next
        → lookup ctx tasks ≡ some t
        → u.run_id ≡ t.run_id
        → is_ended t.phase ≡ false
        → is_ended u.phase ≡ true
        → IsBooked (delete t.run_id runs) (delete t.run_id protos) (insert ctx u tasks) next
    end-IsBooked ctx t u i e same going over = record {
      same_keys = λ id.
          ground (
            arith,
            i.same_keys id,
            lookup-delete t.run_id id runs,
            lookup-delete t.run_id id protos,
          );
      listed_live = λ id c h. ground (
        arith,
        lookup-insert ctx c u tasks,
        lookup-delete t.run_id id runs,
        i.listed_live id c,
        e,
        same,
        h,
        ==_iff ctx c,
        ==_iff t.run_id id,
      );
      live_listed = λ id c h. ground (
        arith,
        lookup-insert ctx c u tasks,
        lookup-delete t.run_id id runs,
        i.live_listed id c,
        i.live_listed t.run_id ctx,
        e,
        same,
        going,
        over,
        h,
        ==_iff ctx c,
        ==_iff t.run_id id,
        ==_iff u.run_id id,
        ==_iff t.run_id t.run_id,
      );
      numbered =
          λ c h. ground (arith, lookup-insert ctx c u tasks, i.numbered c, e, h, ==_iff ctx c);
    }

    -- A run starts under a new number.
    pub start-IsBooked :
        (id : String) (proto : Protocol) (t : Task)
        → IsBooked runs protos tasks next
        → lookup id runs ≡ none
        → t.run_id ≡ id
        → is_ended t.phase ≡ false
        → IsBooked (insert id next runs) (insert id proto protos) (insert next t tasks) (next + 1)
    start-IsBooked id proto t i fresh same going = record {
      same_keys = λ other. ground (
        arith,
        i.same_keys other,
        lookup-insert id other next runs,
        lookup-insert id other proto protos,
      );
      listed_live = λ other c h. ground (
        arith,
        lookup-insert next c t tasks,
        lookup-insert id other next runs,
        i.listed_live other c,
        i.numbered c,
        fresh,
        same,
        going,
        h,
        ==_iff next c,
        ==_iff id other,
        ==_iff t.run_id other,
      );
      live_listed = λ other c h. ground (
        arith,
        lookup-insert next c t tasks,
        lookup-insert id other next runs,
        i.live_listed other c,
        fresh,
        same,
        going,
        h,
        ==_iff next c,
        ==_iff id other,
        ==_iff t.run_id other,
      );
      numbered =
          λ c h. ground (arith, lookup-insert next c t tasks, i.numbered c, h, ==_iff next c);
    }
