-- ===== src/Service/Goroutines.antt =====
-- The goroutines that fill the cache. They may run at any time after they were started, and
-- `cache_customer` stores the object as it is then.
pub mod Fills
pub mod Order
use gigmile_test.Prelude.{◌≡◌, List, ◌∷◌, ◌++◌}
use gigmile_test.Domain.Payment.{Payment}
use gigmile_test.Env.{Env}
use gigmile_test.World.{State, Ref, Task, cache_customer, cache_payment}
use gigmile_test.Cache.Customers as Customers
use gigmile_test.Cache.Payments as Payments

module _ {env : Env} where
  -- `go r.redisRepo.Save(context.Background(), customer)`
  unfoldable pub run_cache_customer : Ref → State env → State env
  run_cache_customer r s = (Customers.save r s).1

  -- `go r.redisRepo.Save(context.Background(), payment)`
  unfoldable pub run_cache_payment : Payment → State env → State env
  run_cache_payment p s = (Payments.save p s).1

  -- One goroutine that was started runs, whichever.
  pub data Runs (s : State env) : State env → Type 0 where
    customer_cached :
        (r : Ref) (before after : List Task)
        → s.tasks ≡ before ++ (cache_customer r ∷ after)
        → Runs s (run_cache_customer r (record s { tasks = before ++ after }))
    payment_cached :
        (p : Payment) (before after : List Task)
        → s.tasks ≡ before ++ (cache_payment p ∷ after)
        → Runs s (run_cache_payment p (record s { tasks = before ++ after }))
