-- ===== src/Cache/Customers.antt =====
-- repository/redis/customer_repository.go; `UpdateBalance` has a module of its own.
use gigmile_test.Prelude.{ℕ, String, if◌then◌else◌}
use gigmile_test.Domain.Errors.{is_redis_nil, redis_customer_not_found, wrap}
use gigmile_test.Env.{Env}
use gigmile_test.Env.Store.{Json, customer_json, unmarshal_customer}
use gigmile_test.Result.{Result, ok, err}
use gigmile_test.World.{Action, Ref, raise, attempt, wrapping, ◌>>=◌, on_store, alloc, load}
use gigmile_test.Cache.Keys.{customer_key}

-- `cacheTTL`: five minutes, as NewCustomerRepository sets it
abbrev pub cache_ttl : ℕ
cache_ttl = 300

module _ {env : Env} where
  open env use {redis}

  abbrev pub cached : Result Json → Action env Ref
  cached (ok data_of) = alloc (unmarshal_customer data_of)
  cached (err e) =
      raise (if is_redis_nil e then redis_customer_not_found else wrap "failed to get customer" e)

  -- The customer is a new object.
  unfoldable pub find_by_id : String → Action env Ref
  find_by_id customer_id = do
    reply ← attempt (on_store (redis.get (customer_key customer_id)))
    cached reply

  -- The object is read when the call is made.
  unfoldable pub save : Ref → Action env (Unit {0})
  save r = do
    customer ← load r
    wrapping "failed to save customer"
        (on_store (redis.set (customer_key customer.id) (customer_json customer) cache_ttl))

  unfoldable pub delete : String → Action env (Unit {0})
  delete customer_id =
      wrapping "failed to delete customer" (on_store (redis.del (customer_key customer_id)))
