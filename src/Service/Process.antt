-- ===== src/Service/Process.antt =====
-- `ProcessPayment` of payment_service.go. The request is split where the code reads the database
-- again, so that other requests can come in between.
pub mod Apply
pub mod Copies
pub mod Charge
pub mod Record
pub mod Outcome
pub mod Keeps
pub mod Race
pub mod Due
pub mod Live
use Prim.Native.String.{◌++◌}
use gigmile_test.Prelude.{ℕ, String, Bool, true, false, not, str_eq, if◌then◌else◌}
use gigmile_test.Prelude.Int.{ℤ, pos}
use gigmile_test.Float64
use gigmile_test.Float64.{Float64}
use gigmile_test.Domain.Time.{Time}
use gigmile_test.Domain.Errors.{Error, is_optimistic_lock, is_duplicate_transaction, wrap}
use gigmile_test.Domain.Customer.{Customer, apply_payment, get_payment_progress, is_fully_paid}
use gigmile_test.Domain.Payment.{Payment, status_complete, new_payment}
use gigmile_test.Env.{Env}
use gigmile_test.Result.{Result, ok, err}
use gigmile_test.World.{
  Action, Ref, Request, publish, pure, raise, lift, attempt, wrapping, ◌>>=◌, ◌>>◌, load, write,
  spawn, now,
}
use gigmile_test.Mysql.Customers as Customers
use gigmile_test.Mysql.Payments as Payments

-- ProcessPaymentResponse
pub record Response : Type 0 where
  pub success : Bool
  pub message : String
  pub customer_id : String
  pub outstanding_balance : ℤ
  pub total_paid : ℤ
  pub payment_progress : Float64
  pub is_fully_paid : Bool

-- The answer to a payment that is not complete; the other fields keep their zero values.
unfoldable pub not_complete : String → Response
not_complete payment_status = record {
  success = false;
  message = "payment status is " ++ (payment_status ++ ", not COMPLETE");
  customer_id = "";
  outstanding_balance = pos 0;
  total_paid = pos 0;
  payment_progress = Float64.of_int64 (pos 0);
  is_fully_paid = false;
}

-- A successful answer, with the customer's figures.
unfoldable pub response_for : String → Customer → Response
response_for message c = record {
  success = true;
  message = message;
  customer_id = c.id;
  outstanding_balance = c.outstanding_balance;
  total_paid = c.total_paid;
  payment_progress = get_payment_progress c;
  is_fully_paid = is_fully_paid c;
}

module _ {env : Env} where
  open env use {has_publisher}

  unfoldable pub respond : String → Ref → Action env Response
  respond message r = do c ← load r; pure (response_for message c)

  -- `customer.ApplyPayment`, on the object
  unfoldable pub apply_at : Ref → Request → Action env (Unit {0})
  apply_at r req = do
    c ← load r
    c' ← lift (apply_payment req.transaction_amount req.transaction_date c)
    write r c'

  unfoldable pub answer_duplicate : Request → Action env Response
  answer_duplicate req = do
    r ←
        wrapping "failed to get customer for duplicate payment"
          (Customers.find_by_id req.customer_id)
    respond "duplicate transaction - already processed" r

  -- The second try, after a conflict.
  unfoldable pub retry : Request → Action env Ref
  retry req = do
    r ← wrapping "failed to get customer on retry" (Customers.find_by_id req.customer_id)
    wrapping "failed to apply payment on retry" (apply_at r req)
    wrapping "failed to save customer" (Customers.save r)
    pure r

  -- After the first save: the object that was saved in the end.
  abbrev pub unless_conflict : Request → Ref → Result (Unit {0}) → Action env Ref
  unless_conflict req r (ok _) = pure r
  unless_conflict req r (err e) =
      if is_optimistic_lock e then retry req else raise (wrap "failed to save customer" e)

  -- From the customer's lookup to the customer's save.
  unfoldable pub charge : Request → Action env Ref
  charge req = do
    r ← wrapping "failed to get customer" (Customers.find_by_id req.customer_id)
    wrapping "failed to apply payment" (apply_at r req)
    saved ← attempt (Customers.save r)
    unless_conflict req r saved

  abbrev pub announce : Request → Ref → Bool → Action env (Unit {0})
  announce req r true = spawn (publish r req)
  announce req r false = pure tt

  -- After the payment's save. `MarkAsProcessed` sets a field of an object that is dropped: what is
  -- left of it is the look at the clock.
  abbrev pub answer : Request → Ref → Result (Unit {0}) → Action env Response
  answer req r (ok _) = do
    now
    announce req r has_publisher
    respond "payment processed successfully" r
  answer req r (err e) =
      if is_duplicate_transaction e
      then respond "payment processed successfully" r
      else raise (wrap "failed to save payment" e)

  -- From the payment's construction to the answer.
  unfoldable pub record_payment : Request → Ref → Action env Response
  record_payment req r = do
    at ← now
    payment ← wrapping "invalid payment data" (
        lift (
          new_payment at req.customer_id req.transaction_amount req.transaction_reference
            req.transaction_date status_complete))
    saved ← attempt (Payments.save payment)
    answer req r saved

  unfoldable pub settle : Request → Action env Response
  settle req = do r ← charge req; record_payment req r

  -- The part of `ProcessPayment` after the look for a duplicate.
  abbrev pub unless_exists : Request → Bool → Action env Response
  unless_exists req true = answer_duplicate req
  unless_exists req false = settle req

  unfoldable pub check : Request → Action env Bool
  check req =
      wrapping "failed to check payment existence"
        (Payments.exists_by_transaction_reference req.transaction_reference)

  unfoldable pub process_payment : Request → Action env Response
  process_payment req =
      if not (str_eq req.payment_status "COMPLETE")
      then pure (not_complete req.payment_status)
      else (do exists ← check req; unless_exists req exists)
