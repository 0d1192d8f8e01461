-- ===== src/Http/Handler/Lookup.antt =====
-- The handler that looks up a customer.
use gigmile_test.Prelude.{String, ◌≡◌, refl, false, some, str_eq}
use gigmile_test.Domain.Errors.{Error}
use gigmile_test.Domain.Customer.{Customer, get_payment_progress, is_fully_paid}
use gigmile_test.Http.Dto.{CustomerResponse}
use gigmile_test.Mysql.Customers.{find_by_id}
use gigmile_test.Env.{Env}
use gigmile_test.Result.{Result, ok, err}
use gigmile_test.World.{State, Ref}
use gigmile_test.World.Rules.{IsRead, tables_of, entries_of}
use gigmile_test.Mysql.Customers.Find.{Found, IsOrigin, find_by_id-Found}
use gigmile_test.Service.Queries as Queries
use gigmile_test.Service.Queries.{PaginationParams, PaginatedPayments, page_of, size_of}
use gigmile_test.Http.Handler.{
  Reply, respond_json, respond_error, customer_body, customer_response, customer_reply,
  get_customer,
}

-- What a client is shown of a customer
abbrev pub shown : Customer → CustomerResponse
shown c = record {
  customer_id = c.id;
  asset_value = c.asset_value;
  repayment_term_weeks = c.repayment_term_weeks;
  outstanding_balance = c.outstanding_balance;
  total_paid = c.total_paid;
  payment_progress = get_payment_progress c;
  status = c.status;
  is_fully_paid = is_fully_paid c;
}

module _ {env : Env} where
  -- A reply about a customer: not found, where the repository found none, or the customer of the
  -- cache or the row.
  pub data CustomerReply (id : String) (s : State env) (reply : Reply) : Type 0 where
    not_found :
        (e : Error)
        → (find_by_id id s).0 ≡ err e
        → reply ≡ respond_error 404 "customer not found" (some e)
        → CustomerReply id s reply
    found :
        (c : Customer)
        → reply ≡ respond_json 200 (customer_body (shown c))
        → IsOrigin id (entries_of s) (tables_of s) c
        → CustomerReply id s reply

  replied :
      (id : String) (s : State env) (x : Result Ref) (t : State env)
      → (find_by_id id s).0 ≡ x
      → Found id s x t
      → IsRead s t × CustomerReply id s (customer_reply x t)
  unfolding customer_response
  replied id s (ok r) t e (read, origin) = (read, found (t.heap r) refl origin)
  replied id s (err e') t e read = (read, not_found e' e refl)

  -- Where an identifier is given, the handler replies with the figures of the customer of a cache
  -- entry under its key or of its row, or with a 404 where the repository answers an error, and
  -- in both cases writes to no table and brings nothing new into the cache.
  pub get_customer-CustomerReply :
      (id : String) (s : State env)
      → str_eq id "" ≡ false
      → IsRead s (get_customer id s).1 × CustomerReply id s (get_customer id s).0
  unfolding get_customer Queries.get_customer
  get_customer-CustomerReply id s named = rw named (replied id s _ _ refl (find_by_id-Found id s))
