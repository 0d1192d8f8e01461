-- ===== src/Service/Queries/Reads.antt =====
-- The queries write to no table and bring nothing new into the cache, whatever they are asked.
use gigmile_test.Prelude.{String, map}
use gigmile_test.Prelude.Int.{ℤ}
use gigmile_test.Persistence.{payment_to_domain}
use gigmile_test.Env.{Env}
use gigmile_test.Env.Database.{has_customer}
use gigmile_test.Result.{Result, ok, err, wrap_error}
use gigmile_test.World.{State, Ref, Action, continue, pure, wrapping, ◌>>=◌}
use gigmile_test.World.Rules.{IsRead, IsRead-refl, IsRead-trans, db-IsQuiet}
use gigmile_test.Mysql.Customers as Customers
use gigmile_test.Mysql.Customers.Find.{Found, find_by_id-Found}
use gigmile_test.Mysql.Payments.{
  find_by_customer_id, find_by_customer_id_with_pagination, count_by_customer_id,
}
use gigmile_test.Service.Queries.{
  PaginationParams, page_of, size_of, offset_of, get_customer, get_customer_payments, page_from,
  page_within, get_customer_payments_paginated,
}

abbrev Reads : {env : Env} {A : Type 0} → Action env A → Type 0
Reads {env} m = (s : State env) → IsRead s (m s).1

continue-IsRead :
    {env : Env} {A B : Type 0} (s : State env) (r : Result A) (f : A → Action env B) (t : State env)
    → IsRead s t
    → ((a : A) → Reads (f a))
    → IsRead s (continue r f t).1
continue-IsRead s (ok a) f t h rest = IsRead-trans s t _ h (rest a t)
continue-IsRead s (err e) f t h rest = h

module _ {env : Env} where
  open env use {sql}

  found-IsRead :
      (id : String) (s : State env) (x : Result Ref) (t : State env) → Found id s x t → IsRead s t
  found-IsRead id s (ok r) t h = h.0
  found-IsRead id s (err e) t h = h

  -- a lookup, and what follows it
  after_lookup :
      {B : Type 0} (id text : String) (f : Ref → Action env B)
      → ((r : Ref) → Reads (f r))
      → Reads (wrapping text (Customers.find_by_id id) >>= f)
  after_lookup id text f rest s =
      continue-IsRead s _ f _ (found-IsRead id s _ _ (find_by_id-Found id s)) rest

  find_by_customer_id-Reads : (id : String) → Reads (find_by_customer_id {env = env} id)
  unfolding find_by_customer_id
  find_by_customer_id-Reads id s =
      continue-IsRead s (wrap_error "database error" (sql.find_payments (has_customer id) s.db).0)
        (λ ms. pure (map payment_to_domain ms)) _
        (db-IsQuiet s _ (sql.find_payments_reads (has_customer id) s.db)).read
        (λ _ t. IsRead-refl t)

  page-Reads :
      (id : String) (limit offset : ℤ)
      → Reads (find_by_customer_id_with_pagination {env = env} id limit offset)
  unfolding find_by_customer_id_with_pagination
  page-Reads id limit offset s =
      continue-IsRead s
        (wrap_error "database error" (sql.find_page (has_customer id) limit offset s.db).0)
        (λ ms. pure (map payment_to_domain ms)) _
        (db-IsQuiet s _ (sql.find_page_reads (has_customer id) limit offset s.db)).read
        (λ _ t. IsRead-refl t)

  count-Reads : (id : String) → Reads (count_by_customer_id {env = env} id)
  unfolding count_by_customer_id
  count-Reads id s = (db-IsQuiet s _ (sql.count_payments_reads (has_customer id) s.db)).read

  pub get_customer-IsRead : (id : String) (s : State env) → IsRead s (get_customer id s).1
  unfolding get_customer
  get_customer-IsRead id s = found-IsRead id s _ _ (find_by_id-Found id s)

  pub get_customer_payments-IsRead :
      (id : String) (s : State env) → IsRead s (get_customer_payments id s).1
  unfolding get_customer_payments
  get_customer_payments-IsRead id =
      after_lookup id "failed to get customer"
        (λ _. wrapping "failed to get payments" (find_by_customer_id id))
        (λ _. find_by_customer_id-Reads id)

  page_from-Reads : (id : String) (page size n : ℤ) → Reads (page_from {env = env} id page size n)
  unfolding page_from
  page_from-Reads id page size n s =
      continue-IsRead s _ _ _ (page-Reads id size (offset_of page size) s) (λ _ t. IsRead-refl t)

  page_within-Reads : (id : String) (page size : ℤ) → Reads (page_within {env = env} id page size)
  unfolding page_within
  page_within-Reads id page size = after_lookup id "failed to get customer" _ (λ _ t.
      continue-IsRead t _ (page_from id page size) _ (count-Reads id t)
        (page_from-Reads id page size))

  pub paginated-IsRead :
      (id : String) (params : PaginationParams) (s : State env)
      → IsRead s (get_customer_payments_paginated id params s).1
  unfolding get_customer_payments_paginated
  paginated-IsRead id params = page_within-Reads id (page_of params.page) (size_of params.page_size)
