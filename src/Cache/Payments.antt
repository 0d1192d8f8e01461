-- ===== src/Cache/Payments.antt =====
-- repository/redis/payment_repository.go
pub mod Reads
use gigmile_test.Prelude.{ℕ, String, Bool, true, false, ltb, if◌then◌else◌}
use gigmile_test.Domain.Errors.{
  Error, is_redis_nil, redis_payment_not_found, duplicate_transaction, wrap,
}
use gigmile_test.Domain.Payment.{Payment}
use gigmile_test.Env.{Env}
use gigmile_test.Env.Store.{Json, payment_json, unmarshal_payment}
use gigmile_test.Result.{Result, ok, err}
use gigmile_test.World.{Action, pure, raise, attempt, wrapping, ◌>>=◌, ◌>>◌, on_store}
use gigmile_test.Cache.Keys.{payment_key, customer_payments_key}

module _ {env : Env} where
  open env use {redis}

  abbrev pub listed : Payment → Bool → Action env (Unit {0})
  listed p false = raise duplicate_transaction
  listed p true =
      wrapping "failed to add payment to customer list"
        (on_store (redis.rpush (customer_payments_key p.customer_id) p.transaction_reference))

  -- The reference goes to the customer's list only if the entry was new.
  unfoldable pub save : Payment → Action env (Unit {0})
  save p = do
    was_set ←
        wrapping "failed to save payment"
          (on_store (redis.set_nx (payment_key p.transaction_reference) (payment_json p)))
    listed p was_set

  abbrev cached : Result Json → Action env Payment
  cached (ok data_of) = pure (unmarshal_payment data_of)
  cached (err e) =
      raise (if is_redis_nil e then redis_payment_not_found else wrap "failed to get payment" e)

  unfoldable pub find_by_transaction_reference : String → Action env Payment
  find_by_transaction_reference tx_ref = do
    reply ← attempt (on_store (redis.get (payment_key tx_ref)))
    cached reply

  unfoldable pub exists_by_transaction_reference : String → Action env Bool
  exists_by_transaction_reference tx_ref = do
    count ←
        wrapping "failed to check payment existence" (on_store (redis.exists (payment_key tx_ref)))
    pure (ltb 0 count)
