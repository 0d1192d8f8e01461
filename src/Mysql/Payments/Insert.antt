-- ===== src/Mysql/Payments/Insert.antt =====
-- Saving a payment inserts one row with a new reference, or writes nothing.
use gigmile_test.Prelude.{String, ◌≡◌, refl, ◌∙◌, Bool, true, false, [], ◌∷◌, str_eq}
use gigmile_test.Domain.Payment.{Payment}
use gigmile_test.Persistence.{PaymentModel, payment_from_domain}
use gigmile_test.Env.{Env}
use gigmile_test.Env.Database.{IsInsert}
use gigmile_test.Env.Store.{IsWithin}
use gigmile_test.Result.{Result, ok, err}
use gigmile_test.World.{Action, State, attempt, on_db, ◌>>=◌}
use gigmile_test.World.Rules.{
  Post, IsQuiet, IsQuiet-trans, continue_rule, rest-IsQuiet, tables_of, entries_of,
}
use gigmile_test.Cache.Payments.Reads.{exists-IsQuiet}
use gigmile_test.Mysql.Payments.{identified, created, insert, unless_known, save}
use gigmile_test.Mysql.Payments.Reads.{with_reference}

-- The row of a payment, under the identifier that it is given.
abbrev pub row_of : String → Payment → PaymentModel
row_of id p = payment_from_domain (record p { id = id })

pub record IsInserted {env : Env} (p : Payment) (s t : State env) : Type 0 where
  pub id : String
  pub fresh : with_reference p.transaction_reference (tables_of s) ≡ []
  pub tables :
      tables_of t ≡ record (tables_of s) { payments = row_of id p ∷ (tables_of s).payments }
  pub entries : IsWithin (entries_of t) (entries_of s)
  pub heap : t.heap ≡ s.heap

module _ {env : Env} where
  open env use {sql}

  abbrev pub Inserted : Payment → State env → Post env (Unit {0})
  Inserted p s (ok _) t = IsInserted p s t
  Inserted p s (err e) t = IsQuiet s t

  -- after the statement, whatever it replied
  created-Inserted :
      (p : Payment) (id : String) (s t : State env) (r : Result (Unit {0})) (db : sql.Db)
      → IsQuiet s t
      → IsInsert (row_of id p) (tables_of t) r (sql.tables db)
      → Inserted p s (created r (record t { db = db })).0 (created r (record t { db = db })).1
  unfolding payment_from_domain
  created-Inserted p id s t (ok _) db h i = record {
    id = id;
    fresh = rw (← h.read.tables) i.0;
    tables = rw (← h.read.tables) i.1;
    entries = h.read.entries;
    heap = h.heap;
  }
  created-Inserted p id s t (err e) db h i = record {
    read = record { tables = i ∙ h.read.tables; entries = h.read.entries };
    heap = h.heap;
  }

  abbrev Named : Payment → State env → Post env Payment
  Named p s (ok p') t = IsQuiet s t × ((id : String) × (p' ≡ record p { id = id }))
  Named p s (err e) t = IsQuiet s t

  identified-Named :
      (p : Payment) (s t : State env) (b : Bool)
      → IsQuiet s t
      → Named p s (identified p b t).0 (identified p b t).1
  identified-Named p s t true h = (IsQuiet-trans s t _ h (rest-IsQuiet t _ _ _), (_, refl))
  identified-Named p s t false h = (h, (p.id, refl))

  abbrev pub insert_as : Payment → Action env (Unit {0})
  insert_as p = do
    reply ← attempt (on_db (sql.insert_payment (payment_from_domain p)))
    created reply

  inserted :
      (p : Payment) (s t : State env) (p' : Payment)
      → Named p s (ok p') t
      → Inserted p s (insert_as p' t).0 (insert_as p' t).1
  inserted p s t p' (h, (id, e)) =
      rw e (created-Inserted p id s t _ _ h (sql.insert_payment_writes (row_of id p) t.db))

  insert-Inserted :
      (p : Payment) (s t : State env) → IsQuiet s t → Inserted p s (insert p t).0 (insert p t).1
  insert-Inserted p s t h =
      continue_rule (Named p s) (Inserted p s) _ _ _ (identified-Named p s t (str_eq p.id "") h)
        (λ p' u named. inserted p s u p' named) (λ e u quiet. quiet)

  unless_known-Inserted :
      (p : Payment) (s t : State env) (r : Result Bool)
      → IsQuiet s t
      → Inserted p s (unless_known p r t).0 (unless_known p r t).1
  unless_known-Inserted p s t (ok true) h = h
  unless_known-Inserted p s t (ok false) h = insert-Inserted p s t h
  unless_known-Inserted p s t (err e) h = insert-Inserted p s t h

  -- A save of a payment that reports success has added one row for it, under an identifier, whose
  -- reference was in no row; any other has written to no table and no object. Neither brings
  -- anything new into the cache.
  pub save-Inserted : (p : Payment) (s : State env) → Inserted p s (save p s).0 (save p s).1
  unfolding save
  save-Inserted p s = unless_known-Inserted p s _ _ (exists-IsQuiet p.transaction_reference s)
