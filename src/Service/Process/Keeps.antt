-- ===== src/Service/Process/Keeps.antt =====
-- A request keeps the cache coherent, as long as no goroutine runs in between.
use mathlib.Core.Path.{subst}
use gigmile_test.Prelude.{sym, Bool, true, false, inl, inr, str_eq, Bool-cases}
use gigmile_test.Env.{Env}
use gigmile_test.Result.{Result, ok, err}
use gigmile_test.World.{State, Ref, Request, continue}
use gigmile_test.World.Rules.{IsRead, continue_rule, wrap_rule, tables_of}
use gigmile_test.Mysql.Payments.Reads.{Checked}
use gigmile_test.Mysql.Customers.Find.{Found, find_by_id-Found}
use gigmile_test.Service.Coherence.{IsCoherent, IsRead-IsCoherent, kept-IsCoherent}
use gigmile_test.Service.Process.{
  Response, respond, answer_duplicate, settle, unless_exists, process_payment,
}
use gigmile_test.Service.Process.Apply.{HasRooms}
use gigmile_test.Service.Process.Charge.{Charged, charge-Charged}
use gigmile_test.Service.Process.Record.{Recorded, record_payment-Recorded}
use gigmile_test.Service.Process.Outcome.{check-Checked}

module _ {env : Env} where
  recorded-IsCoherent :
      (req : Request) (r : Ref) (s : State env) (x : Result Response) (t : State env)
      → Recorded req r s x t
      → IsCoherent s
      → IsCoherent t
  recorded-IsCoherent req r s (ok resp) t (_, kept, _) h =
      kept-IsCoherent s t kept.customers kept.entries h
  recorded-IsCoherent req r s (err e) t read h = IsRead-IsCoherent s t read h

  settle-IsCoherent :
      (req : Request) (s : State env)
      → IsCoherent s
      → HasRooms (tables_of s)
      → IsCoherent (settle req s).1
  unfolding settle
  settle-IsCoherent req s h rooms =
      continue_rule {A = Ref} {B = Response} (Charged req s) (λ _ t. IsCoherent t) _ _ _
        (charge-Charged req s h)
        (λ r t c. recorded-IsCoherent req r t _ _ (record_payment-Recorded req r t) (c.1 rooms))
        (λ e t read. IsRead-IsCoherent s t read h)

  answer_duplicate-IsCoherent :
      (req : Request) (s : State env) → IsCoherent s → IsCoherent (answer_duplicate req s).1
  unfolding answer_duplicate respond
  answer_duplicate-IsCoherent req s h =
      continue_rule {A = Ref} {B = Response} (λ _ t. IsRead s t) (λ _ t. IsCoherent t) _ _ _
        (wrap_rule (Found req.customer_id s) (λ _ t. IsRead s t)
          "failed to get customer for duplicate payment" _ _ (find_by_id-Found req.customer_id s)
          (λ r p. p.0) (λ e p. p))
        (λ r t read. IsRead-IsCoherent s t read h) (λ e t read. IsRead-IsCoherent s t read h)

  unless_exists-IsCoherent :
      (req : Request) (s : State env) (x : Result Bool) (t : State env)
      → IsCoherent s
      → HasRooms (tables_of s)
      → Checked req.transaction_reference s x t
      → IsCoherent (continue x (unless_exists req) t).1
  unless_exists-IsCoherent req s (ok true) t h rooms quiet =
      answer_duplicate-IsCoherent req t (IsRead-IsCoherent s t quiet.read h)
  unless_exists-IsCoherent req s (ok false) t h rooms (quiet, _) =
      settle-IsCoherent req t (IsRead-IsCoherent s t quiet.read h)
        (subst HasRooms (sym quiet.read.tables) rooms)
  unless_exists-IsCoherent req s (err e) t h rooms quiet = IsRead-IsCoherent s t quiet.read h

  -- A request on a coherent state leaves a coherent state, whatever fails on the way: a cached
  -- customer is never newer than the row, and at the version of the row it is the row. The
  -- versions of the rows have room to be counted up, and the goroutines that the request starts
  -- have not run.
  pub process_payment-IsCoherent :
      (req : Request) (s : State env)
      → IsCoherent s
      → HasRooms (tables_of s)
      → IsCoherent (process_payment req s).1
  unfolding process_payment
  process_payment-IsCoherent req s h rooms =
      elim (Bool-cases (str_eq req.payment_status "COMPLETE")) [
        | inl complete ↦
            rw complete (unless_exists-IsCoherent req s _ _ h rooms (check-Checked req s))
        | inr other ↦ rw other h
      ]
