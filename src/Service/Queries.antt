-- ===== src/Service/Queries.antt =====
-- `GetCustomer`, `GetCustomerPayments` and `GetCustomerPaymentsPaginated` of payment_service.go.
pub mod Pages
pub mod Reads
pub mod Paginated
use gigmile_test.Prelude.{String, List, if◌then◌else◌}
use gigmile_test.Prelude.Int.{ℤ, pos, ltb_ℤ, add64, sub64, mul64, quot64, rem64}
use gigmile_test.Domain.Payment.{Payment}
use gigmile_test.Env.{Env}
use gigmile_test.World.{Action, Ref, pure, wrapping, ◌>>=◌, ◌>>◌}
use gigmile_test.Mysql.Customers as Customers
use gigmile_test.Mysql.Payments as Payments

pub record PaginationParams : Type 0 where
  pub page : ℤ
  pub page_size : ℤ

pub record PaginatedPayments : Type 0 where
  pub payments : List Payment
  pub total_count : ℤ
  pub page : ℤ
  pub page_size : ℤ
  pub total_pages : ℤ

-- The bounds on the parameters
abbrev pub page_of : ℤ → ℤ
page_of page = if ltb_ℤ page (pos 1) then pos 1 else page

abbrev pub at_most_100 : ℤ → ℤ
at_most_100 size = if ltb_ℤ (pos 100) size then pos 100 else size

abbrev pub size_of : ℤ → ℤ
size_of size = at_most_100 (if ltb_ℤ size (pos 1) then pos 10 else size)

-- `offset`
unfoldable pub offset_of : ℤ → ℤ → ℤ
unfolding mul64 sub64
offset_of page size = mul64 (sub64 page (pos 1)) size

-- `totalPages`. An int has 64 bits, so that the conversions do nothing.
unfoldable pub total_pages_of : ℤ → ℤ → ℤ
unfolding quot64 rem64 add64
total_pages_of total_count size =
    if ltb_ℤ (pos 0) (rem64 total_count size)
    then add64 (quot64 total_count size) (pos 1)
    else quot64 total_count size

module _ {env : Env} where
  unfoldable pub get_customer : String → Action env Ref
  unfolding Customers.find_by_id
  get_customer customer_id = Customers.find_by_id customer_id

  unfoldable pub get_customer_payments : String → Action env (List Payment)
  get_customer_payments customer_id = do
    wrapping "failed to get customer" (Customers.find_by_id customer_id)
    wrapping "failed to get payments" (Payments.find_by_customer_id customer_id)

  -- What follows the count.
  unfoldable pub page_from : String → ℤ → ℤ → ℤ → Action env PaginatedPayments
  page_from customer_id page size total_count = do
    payments ←
        wrapping "failed to get payments"
          (Payments.find_by_customer_id_with_pagination customer_id size (offset_of page size))
    pure (record {
      payments = payments;
      total_count = total_count;
      page = page;
      page_size = size;
      total_pages = total_pages_of total_count size;
    })

  -- What follows the bounds on the parameters.
  unfoldable pub page_within : String → ℤ → ℤ → Action env PaginatedPayments
  page_within customer_id page size = do
    wrapping "failed to get customer" (Customers.find_by_id customer_id)
    total_count ← wrapping "failed to count payments" (Payments.count_by_customer_id customer_id)
    page_from customer_id page size total_count

  unfoldable pub get_customer_payments_paginated :
      String → PaginationParams → Action env PaginatedPayments
  get_customer_payments_paginated customer_id params =
      page_within customer_id (page_of params.page) (size_of params.page_size)
