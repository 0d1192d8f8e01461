-- ===== src/Mysql/Payments.antt =====
-- repository/mysql/payment_repository.go: payments in MySQL, with the references in Redis.
pub mod Reads
pub mod Insert
pub mod Live
use gigmile_test.Prelude.{String, Bool, ◌&&◌, true, false, List, map, str_eq, if◌then◌else◌}
use gigmile_test.Prelude.Int.{ℤ, pos, ltb_ℤ}
use gigmile_test.Domain.Errors.{
  Error, is_record_not_found, payment_not_found, duplicate_transaction, wrap,
}
use gigmile_test.Domain.Payment.{Payment}
use gigmile_test.Persistence.{PaymentModel, payment_to_domain, payment_from_domain}
use gigmile_test.Env.{Env}
use gigmile_test.Env.Database.{has_reference, has_customer}
use gigmile_test.Result.{Result, ok, err}
use gigmile_test.World.{
  Action, cache_payment, pure, raise, attempt, wrapping, ◌>>=◌, ◌>>◌, on_db, spawn, new_uuid,
}
use gigmile_test.Cache.Payments as Cache
use gigmile_test.Mysql.Duplicate.{is_duplicate_error}

-- `customer_id = ? AND status = 'COMPLETE'`
abbrev pub is_paid_by : String → PaymentModel → Bool
is_paid_by id m = str_eq m.customer_id id && str_eq m.status "COMPLETE"

module _ {env : Env} where
  open env use {sql}

  -- whether the payment has no identifier yet
  abbrev identified : Payment → Bool → Action env Payment
  identified p true = do id ← new_uuid; pure (record p { id = id })
  identified p false = pure p

  abbrev created : Result (Unit {0}) → Action env (Unit {0})
  created (ok _) = pure tt
  created (err e) =
      raise (if is_duplicate_error e then duplicate_transaction else wrap "database error" e)

  abbrev insert : Payment → Action env (Unit {0})
  insert p = do
    p' ← identified p (str_eq p.id "")
    reply ← attempt (on_db (sql.insert_payment (payment_from_domain p')))
    created reply

  -- An error of Redis leaves the check to the unique index of the table.
  abbrev unless_known : Payment → Result Bool → Action env (Unit {0})
  unless_known p (ok true) = raise duplicate_transaction
  unless_known p (ok false) = insert p
  unless_known p (err e) = insert p

  unfoldable pub save : Payment → Action env (Unit {0})
  save p = do
    known ← attempt (Cache.exists_by_transaction_reference p.transaction_reference)
    unless_known p known

  abbrev found : Result PaymentModel → Action env Payment
  found (err e) =
      raise (if is_record_not_found e then payment_not_found else wrap "database error" e)
  found (ok model) = do
    spawn (cache_payment (payment_to_domain model))
    pure (payment_to_domain model)

  unfoldable pub find_by_transaction_reference : String → Action env Payment
  find_by_transaction_reference tx_ref = do
    reply ← attempt (on_db (sql.first_payment tx_ref))
    found reply

  abbrev cache_found : Result Payment → Action env (Unit {0})
  cache_found (ok p) = spawn (cache_payment p)
  cache_found (err e) = pure tt

  -- `existsInDB`; where it holds, the payment is fetched for the cache.
  abbrev exists_in_db : String → Bool → Action env Bool
  exists_in_db tx_ref false = pure false
  exists_in_db tx_ref true = do
    p ← attempt (find_by_transaction_reference tx_ref)
    cache_found p
    pure true

  abbrev count_in_db : String → Action env Bool
  count_in_db tx_ref = do
    count ← wrapping "database error" (on_db (sql.count_payments (has_reference tx_ref)))
    exists_in_db tx_ref (ltb_ℤ (pos 0) count)

  abbrev or_count : String → Result Bool → Action env Bool
  or_count tx_ref (ok true) = pure true
  or_count tx_ref (ok false) = count_in_db tx_ref
  or_count tx_ref (err e) = count_in_db tx_ref

  unfoldable pub exists_by_transaction_reference : String → Action env Bool
  exists_by_transaction_reference tx_ref = do
    known ← attempt (Cache.exists_by_transaction_reference tx_ref)
    or_count tx_ref known

  unfoldable pub find_by_customer_id : String → Action env (List Payment)
  find_by_customer_id customer_id = do
    models ← wrapping "database error" (on_db (sql.find_payments (has_customer customer_id)))
    pure (map payment_to_domain models)

  unfoldable pub find_by_customer_id_with_pagination : String → ℤ → ℤ → Action env (List Payment)
  find_by_customer_id_with_pagination customer_id limit offset = do
    models ←
        wrapping "database error" (on_db (sql.find_page (has_customer customer_id) limit offset))
    pure (map payment_to_domain models)

  unfoldable pub count_by_customer_id : String → Action env ℤ
  count_by_customer_id customer_id =
      wrapping "database error" (on_db (sql.count_payments (has_customer customer_id)))

  unfoldable pub get_total_paid_by_customer : String → Action env ℤ
  get_total_paid_by_customer customer_id =
      wrapping "failed to calculate total" (on_db (sql.sum_payments (is_paid_by customer_id)))
