-- ===== src/Mysql/Customers.antt =====
-- repository/mysql/customer_repository.go: customers in MySQL, with a cache in Redis.
pub mod Find
pub mod Save
pub mod Live
pub mod Balance
pub mod Create
use gigmile_test.Prelude.{ℕ, zero, suc, String, Option, some, none, ◌==◌, List, map, if◌then◌else◌}
use gigmile_test.Prelude.Int.{ℤ, pos, add64, sub64, is_zero}
use gigmile_test.Domain.Time.{Time}
use gigmile_test.Domain.Errors.{
  Error, is_record_not_found, customer_not_found, optimistic_lock, wrap,
}
use gigmile_test.Domain.Customer.{Customer}
use gigmile_test.Persistence.{CustomerModel, customer_to_domain, customer_from_domain}
use gigmile_test.Env.{Env}
use gigmile_test.Result.{Result, ok, err}
use gigmile_test.World.{
  Action, Ref, cache_customer, pure, raise, attempt, wrapping, ◌>>=◌, ◌>>◌, on_db, alloc, load,
  write, spawn, now,
}
use gigmile_test.Cache.Customers as Cache

-- The assignments of `Save`'s UPDATE; the `version` is counted up in the row.
unfoldable pub save_changes : CustomerModel → Time → CustomerModel → CustomerModel
save_changes model at row = record row {
  outstanding_balance = model.outstanding_balance;
  total_paid = model.total_paid;
  last_payment_date = model.last_payment_date;
  status = model.status;
  version = add64 row.version (pos 1);
  updated_at = at;
}

-- The assignments of `UpdateBalance`'s UPDATE.
unfoldable pub balance_changes : ℤ → Time → CustomerModel → CustomerModel
balance_changes amount at row = record row {
  outstanding_balance = sub64 row.outstanding_balance amount;
  total_paid = add64 row.total_paid amount;
  version = add64 row.version (pos 1);
  updated_at = at;
}

-- What gorm fills in by the tags of the model: both times, and the version of a row without one.
abbrev pub with_defaults : Time → CustomerModel → CustomerModel
with_defaults at model = record model {
  version = if is_zero model.version then pos 1 else model.version;
  created_at = at;
  updated_at = at;
}

module _ {env : Env} where
  open env use {sql}

  abbrev found : Result CustomerModel → Action env Ref
  found (err e) =
      raise (if is_record_not_found e then customer_not_found else wrap "database error" e)
  found (ok model) = do r ← alloc (customer_to_domain model); spawn (cache_customer r); pure r

  -- Any error of the cache counts as a miss. The goroutine that fills the cache has the same object
  -- that the caller gets.
  abbrev or_query : String → Result Ref → Action env Ref
  or_query id (ok hit) = pure hit
  or_query id (err miss) = do reply ← attempt (on_db (sql.first_customer id)); found reply

  unfoldable pub find_by_id : String → Action env Ref
  find_by_id id = do hit ← attempt (Cache.find_by_id id); or_query id hit

  -- After the UPDATE: no row means that the version was not the row's.
  abbrev saved : Ref → Result ℕ → Action env (Unit {0})
  saved r (err e) = raise (wrap "database error" e)
  saved r (ok zero) = raise optimistic_lock
  saved r (ok (suc rows)) = do
    customer ← load r
    write r (record customer { version = add64 customer.version (pos 1) })
    attempt (Cache.save r)
    pure tt

  unfoldable pub save : Ref → Action env (Unit {0})
  save r = do
    customer ← load r
    attempt (Cache.delete customer.id)
    at ← now
    reply ← attempt (
        on_db (
          sql.update_customer customer.id customer.version
            (save_changes (customer_from_domain customer) at)))
    saved r reply

  abbrev updated : Result ℕ → Action env (Unit {0})
  updated (err e) = raise (wrap "failed to update balance" e)
  updated (ok zero) = raise optimistic_lock
  updated (ok (suc rows)) = pure tt

  unfoldable pub update_balance : String → ℤ → ℤ → Action env (Unit {0})
  update_balance customer_id amount version = do
    attempt (Cache.delete customer_id)
    at ← now
    reply ← attempt (on_db (sql.update_customer customer_id version (balance_changes amount at)))
    updated reply

  unfoldable pub create : Customer → Action env (Unit {0})
  create customer = do
    at ← now
    wrapping "failed to create customer"
        (on_db (sql.insert_customer (with_defaults at (customer_from_domain customer))))

  -- The customers are new objects, which nothing else points to.
  unfoldable pub find_by_status : String → ℤ → Action env (List Customer)
  find_by_status status limit = do
    models ← wrapping "failed to query customers" (on_db (sql.find_customers status limit))
    pure (map customer_to_domain models)
