-- ===== src/Tests/Goroutines.antt =====
-- A goroutine that fills the cache after the request that started it has failed.
use gigmile_test.Prelude.{◌≡◌, refl, true, false, some, [], ◌∷◌, arith}
use gigmile_test.Prelude.Int.{pos, add64, sub64}
use gigmile_test.Domain.Customer.{apply_payment, new_balance}
use gigmile_test.Domain.Customer.Balance.{after_payment}
use gigmile_test.Domain.Errors.{external, wrap}
use gigmile_test.Persistence.{customer_to_domain}
use gigmile_test.Env.Store.{text, customer_json}
use gigmile_test.Result.{err}
use gigmile_test.World.{State, cache_customer}
use gigmile_test.World.Rules.{tables_of}
use gigmile_test.Cache.Keys.{customer_key, payment_key}
use gigmile_test.Cache.Customers as CustomerCache
use gigmile_test.Cache.Payments as PaymentCache
use gigmile_test.Memory.{memory, memory_on}
use gigmile_test.Mysql.Customers as Customers
use gigmile_test.Mysql.Payments as Payments
use gigmile_test.Service.Process.{process_payment, charge, apply_at, settle, check}
use gigmile_test.Service.Coherence.{Agrees, IsCoherent}
use gigmile_test.Service.Goroutines.{run_cache_customer, customer_cached}
use gigmile_test.Service.Goroutines.Order.{Reached, goroutines-IsCoherent}
use gigmile_test.Tests.Fixtures.{
  start_on, request, customer, rows, start, start-IsCoherent, the_row,
}

-- The state after the request, whose UPDATE fails, and after the goroutine that its lookup started.
abbrev poisoned : State (memory_on true)
poisoned = run_cache_customer 0 (process_payment request (start_on true)).1

-- No row was written, and the cache has the customer with the payment, at the version of the row.
uncommitted_copy :
    ((process_payment request (start_on true)).0
      ≡ err (
          wrap "failed to save customer"
            (wrap "database error" (external "Error 1114 (HY000): The table is full"))))
    × ((tables_of poisoned).customers ≡ rows)
    × (poisoned.store (customer_key "GIG00001")
        ≡ some (
            text (customer_json (after_payment (pos 1000000) (pos 63899592856000000000) customer))))
unfolding process_payment check Payments.exists_by_transaction_reference
    PaymentCache.exists_by_transaction_reference settle charge Customers.find_by_id
    CustomerCache.find_by_id apply_at apply_payment Customers.save CustomerCache.save
    CustomerCache.delete new_balance run_cache_customer customer_to_domain add64 sub64 customer_key
    payment_key
uncommitted_copy = (refl, refl, refl)

-- The state after a lookup of the customer: one goroutine holds the object.
abbrev looked_up : State memory
looked_up = record start { tasks = cache_customer 0 ∷ []; next_ref = 1 }

looked_up-IsCoherent : IsCoherent looked_up
looked_up-IsCoherent = record {
  keyed = (start-IsCoherent false).keyed;
  cache = λ id j there. absurd (cc);
}

customer-Agrees : Agrees "GIG00001" rows customer
unfolding customer_to_domain
customer-Agrees = record {
  same_id = refl;
  not_newer = λ m there. let (_, same) = the_row "GIG00001" m there in rw same (omega arith);
  same = λ m there _. let (_, same) = the_row "GIG00001" m there in rw same refl;
}

abbrev filled : State memory
filled = run_cache_customer 0 (record looked_up { tasks = [] })

goroutines-IsCoherent_example : IsCoherent filled × (tables_of filled ≡ tables_of looked_up)
goroutines-IsCoherent_example =
    goroutines-IsCoherent looked_up filled looked_up-IsCoherent (λ r there. customer-Agrees)
      (Reached.step looked_up filled Reached.start (customer_cached 0 [] [] refl))
