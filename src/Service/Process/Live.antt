-- ===== src/Service/Process/Live.antt =====
-- With the database in order, a payment that is due goes through.
use gigmile_test.Prelude.{◌≡◌, ap, Bool, true, false, str_eq}
use gigmile_test.Domain.Customer.{Customer}
use gigmile_test.Persistence.{CustomerModel}
use gigmile_test.Env.{Env}
use gigmile_test.Env.Database.{Tables}
use gigmile_test.Result.{Result, ok, err, wrap_error}
use gigmile_test.World.{State, Ref, Request, continue}
use gigmile_test.World.Rules.{Post, continue_rule, tables_of}
use gigmile_test.Mysql.Up.{IsUp}
use gigmile_test.Mysql.Payments.Live.{exists_new}
use gigmile_test.Mysql.Payments.Reads.{Checked}
use gigmile_test.Service.Coherence.{IsCoherent, IsRead-IsCoherent}
use gigmile_test.Service.Process.{Response, settle, unless_exists, check, process_payment}
use gigmile_test.Service.Process.Apply.{IsCharged}
use gigmile_test.Service.Process.Charge.{Charged, charge-Charged}
use gigmile_test.Service.Process.Outcome.{check-Checked}
use gigmile_test.Service.Process.Due.{IsDue, IsRead-IsDue, Live, charge-Live}
use gigmile_test.Service.Process.Record.{IsRecorded}
use gigmile_test.Service.Process.Record.Live.{
  Done, success_with, charged-IsPayable, record_payment-Done,
}

-- The row was charged, the payment was recorded, and the answer has the figures of the row.
pub record IsSettled (req : Request) (before after : Tables) (x : Result Response) : Type 0 where
  pub answered : Customer
  pub between : Tables
  pub answer : x ≡ ok (success_with answered)
  pub charged : IsCharged req before between answered
  pub recorded : IsRecorded req between after

module _ {env : Env} where
  abbrev Settled : Request → State env → Post env Response
  Settled req s x t = IsSettled req (tables_of s) (tables_of t) x

  done-Settled :
      (req : Request) (r : Ref) (s t : State env) (x : Result Response) (u : State env)
      → IsCharged req (tables_of s) (tables_of t) (t.heap r)
      → Done req (t.heap r) (tables_of t) x u
      → Settled req s x u
  done-Settled req r s t (err e) u charged done = absurd done
  done-Settled req r s t (ok resp) u charged (answered, recorded) = record {
    answered = t.heap r;
    between = tables_of t;
    answer = ap (λ (y : Response). ok y) answered;
    charged = charged;
    recorded = recorded;
  }

  settle-Settled :
      (req : Request) (m : CustomerModel) (s : State env)
      → IsUp env
      → IsCoherent s
      → IsDue req m s
      → Settled req s (settle req s).0 (settle req s).1
  unfolding settle
  settle-Settled req m s up h due =
      continue_rule (λ r t. Charged req s r t × Live req r t) (Settled req s) _ _ _
        (charge-Charged req s h, charge-Live req m s up h due)
        (λ r t p. done-Settled req r s t _ _ p.0.0 (
          record_payment-Done req r t up due.positive due.named due.referred
            (charged-IsPayable req (tables_of s) (tables_of t) (t.heap r) p.0.0 due.fits due.plain
              due.new)
            p.1))
        (λ e t p. absurd p.1)

  checked_new :
      (req : Request) (m : CustomerModel) (s : State env) (x : Result Bool) (t : State env)
      → IsUp env
      → IsCoherent s
      → IsDue req m s
      → x ≡ ok false
      → Checked req.transaction_reference s x t
      → Settled req s (continue x (unless_exists req) t).0 (continue x (unless_exists req) t).1
  checked_new req m s (ok false) t up h due _ (quiet, _) = rw (← quiet.read.tables) (
      settle-Settled req m t up (IsRead-IsCoherent s t quiet.read h)
        (IsRead-IsDue req m s t quiet.read due))
  checked_new req m s (ok true) t up h due e _ = absurd (cc e)
  checked_new req m s (err e') t up h due e _ = absurd (cc e)

  check_new :
      (req : Request) (m : CustomerModel) (s : State env)
      → IsUp env
      → IsDue req m s
      → (check req s).0 ≡ ok false
  unfolding check
  check_new req m s up due =
      ap (wrap_error "failed to check payment existence")
        (exists_new req.transaction_reference s up due.absent due.new)

  -- With a database that fails no statement its schema allows, and whatever Redis does, a
  -- complete payment on a coherent state, of a positive amount to an active customer that has a
  -- row, under a reference that is neither in the payments table nor in Redis, where no copy of
  -- the customer in the cache is older than the row, charges the row, is recorded, and is
  -- answered with success and the figures of the charged row. Identifier and references are of
  -- digits and capital letters, at most 50 and 100 of them, and the date is one that the column
  -- holds.
  pub process_payment-IsSettled :
      (req : Request) (m : CustomerModel) (s : State env)
      → IsUp env
      → IsCoherent s
      → IsDue req m s
      → str_eq req.payment_status "COMPLETE" ≡ true
      → IsSettled req (tables_of s) (tables_of (process_payment req s).1) (process_payment req s).0
  unfolding process_payment
  process_payment-IsSettled req m s up h due complete =
      rw complete
        (checked_new req m s _ _ up h due (check_new req m s up due) (check-Checked req s))
