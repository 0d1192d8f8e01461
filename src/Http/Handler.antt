-- ===== src/Http/Handler.antt =====
-- internal/interface/http/handler/payment_handler.go: what each handler replies, and the state after
-- it. A body that was decoded, a parameter of the path and the parameters of the query are arguments.
pub mod Webhook
pub mod Lookup
pub mod Page
use gigmile_test.Prelude.{
  ℕ, String, Bool, ◌&&◌, not, Option, none, some, List, map, length, codes, str_eq, if◌then◌else◌,
}
use gigmile_test.Prelude.Int.{ℤ, pos, ltb_ℤ}
use gigmile_test.Domain.Errors.{Error}
use gigmile_test.Domain.Time.{Time}
use gigmile_test.Domain.Customer.{Customer, get_payment_progress, is_fully_paid}
use gigmile_test.Domain.Payment.{Payment}
use gigmile_test.Env.{Env}
use gigmile_test.Result.{Result, ok, err}
use gigmile_test.World.{State, Ref, Request}
use gigmile_test.Stdlib.Atoi.{atoi}
use gigmile_test.Service.Process as Service
use gigmile_test.Service.Process.{Response}
use gigmile_test.Service.Queries as Queries
use gigmile_test.Service.Queries.{PaginationParams, PaginatedPayments}
use gigmile_test.Http.Dto.{
  PaymentRequest, PaymentResponse, ErrorResponse, CustomerResponse, PaymentRecordResponse, validate,
  get_amount_in_kobo, get_transaction_date,
}

-- What is encoded as JSON.
pub data Body : Type 0 where
  payment_body : PaymentResponse → Body
  customer_body : CustomerResponse → Body
  -- the customer, the number of the payments, and the payments
  payments_body : String → ℕ → List PaymentRecordResponse → Body
  -- the customer, the payments, and page, page size, number of payments and of pages
  page_body : String → List PaymentRecordResponse → ℤ → ℤ → ℤ → ℤ → Body
  error_body : ErrorResponse → Body
  healthy : Body

pub record Reply : Type 0 where
  pub status : ℕ
  pub body : Body

abbrev pub respond_json : ℕ → Body → Reply
respond_json status body = record { status = status; body = body }

abbrev pub respond_error : ℕ → String → Option Error → Reply
respond_error status message e =
    respond_json status (error_body (record { error = message; message = e }))

abbrev pub payment_response : Response → PaymentResponse
payment_response result = record {
  success = result.success;
  message = result.message;
  customer_id = result.customer_id;
  outstanding_balance = result.outstanding_balance;
  total_paid = result.total_paid;
  payment_progress = result.payment_progress;
  is_fully_paid = result.is_fully_paid;
}

abbrev pub service_request : PaymentRequest → ℤ → Time → Request
service_request req amount tx_date = record {
  customer_id = req.customer_id;
  payment_status = req.payment_status;
  transaction_amount = amount;
  transaction_date = tx_date;
  transaction_reference = req.transaction_reference;
}

unfoldable pub customer_response : Customer → CustomerResponse
customer_response c = record {
  customer_id = c.id;
  asset_value = c.asset_value;
  repayment_term_weeks = c.repayment_term_weeks;
  outstanding_balance = c.outstanding_balance;
  total_paid = c.total_paid;
  payment_progress = get_payment_progress c;
  status = c.status;
  is_fully_paid = is_fully_paid c;
}

-- `page` and `pageSize`: a parameter that is no positive number counts for nothing.
abbrev pub positive_or : ℤ → Option ℤ → ℤ
positive_or fallback none = fallback
positive_or fallback (some n) = if ltb_ℤ (pos 0) n then n else fallback

unfoldable pub number_or : ℤ → String → ℤ
number_or fallback text =
    if str_eq text "" then fallback else positive_or fallback (atoi (codes text))

-- The end of `ProcessPayment`, by what the service returned.
abbrev pub process_payment_reply : Result Response → Reply
process_payment_reply (err e) = respond_error 500 "failed to process payment" (some e)
process_payment_reply (ok result) = respond_json 200 (payment_body (payment_response result))

module _ {env : Env} where
  abbrev pub forward : Request → State env → Reply × State env
  forward req s =
      let (result, t) = Service.process_payment req s in (process_payment_reply result, t)

  abbrev pub dated : PaymentRequest → ℤ → Result Time → State env → Reply × State env
  dated req amount (err e) s = (respond_error 400 "invalid transaction date" (some e), s)
  dated req amount (ok tx_date) s = forward (service_request req amount tx_date) s

  abbrev pub amounted : PaymentRequest → Result ℤ → State env → Reply × State env
  amounted req (err e) s = (respond_error 400 "invalid transaction amount" (some e), s)
  amounted req (ok amount) s = dated req amount (get_transaction_date req) s

  abbrev pub validated : PaymentRequest → Result (Unit {0}) → State env → Reply × State env
  validated req (err e) s = (respond_error 400 "validation failed" (some e), s)
  validated req (ok _) s = amounted req (get_amount_in_kobo req) s

  unfoldable pub process_payment : Result PaymentRequest → State env → Reply × State env
  process_payment (err e) s = (respond_error 400 "invalid request body" (some e), s)
  process_payment (ok req) s = validated req (validate req) s

  abbrev pub customer_reply : Result Ref → State env → Reply
  customer_reply (err e) t = respond_error 404 "customer not found" (some e)
  customer_reply (ok r) t = respond_json 200 (customer_body (customer_response (t.heap r)))

  unfoldable pub get_customer : String → State env → Reply × State env
  get_customer customer_id s =
      if str_eq customer_id ""
      then (respond_error 400 "customer_id is required" none, s)
      else (let (found, t) = Queries.get_customer customer_id s in (customer_reply found t, t))

  abbrev pub health_check : State env → Reply × State env
  health_check s = (respond_json 200 healthy, s)

-- How an instant is written depends on the server's time zone.
module _ (format_time : Time → String) where
  abbrev pub payment_record : Payment → PaymentRecordResponse
  payment_record p = record {
    id = p.id;
    customer_id = p.customer_id;
    transaction_amount = p.amount;
    transaction_reference = p.transaction_reference;
    transaction_date = format_time p.transaction_date;
    status = p.status;
    processed_at = format_time p.processed_at;
  }

  abbrev pub payments_reply : String → Result (List Payment) → Reply
  payments_reply customer_id (err e) = respond_error 500 "failed to get customer payments" (some e)
  payments_reply customer_id (ok ps) =
      respond_json 200 (payments_body customer_id (length ps) (map payment_record ps))

  abbrev pub page_reply : String → Result PaginatedPayments → Reply
  page_reply customer_id (err e) = respond_error 500 "failed to get customer payments" (some e)
  page_reply customer_id (ok result) = respond_json 200 (
      page_body customer_id (map payment_record result.payments) result.page result.page_size
        result.total_count result.total_pages)

module _ {env : Env} (format_time : Time → String) where
  unfoldable pub get_customer_payments_paginated :
      String → String → String → State env → Reply × State env
  unfolding number_or
  get_customer_payments_paginated customer_id page_text size_text s =
      let params : PaginationParams = record {
        page = number_or (pos 1) page_text;
        page_size = number_or (pos 10) size_text;
      } in
      let (result, t) = Queries.get_customer_payments_paginated customer_id params s in
      (page_reply format_time customer_id result, t)

  unfoldable pub get_all_payments : String → State env → Reply × State env
  get_all_payments customer_id s =
      let (result, t) = Queries.get_customer_payments customer_id s in
      (payments_reply format_time customer_id result, t)

  -- `GetCustomerPayments`, by the parameters `customer_id`, `page` and `page_size`
  unfoldable pub get_customer_payments : String → String → String → State env → Reply × State env
  unfolding get_customer_payments_paginated get_all_payments
  get_customer_payments customer_id page_text size_text s =
      if str_eq customer_id ""
      then (respond_error 400 "customer_id is required" none, s)
      else if not (str_eq page_text "" && str_eq size_text "")
      then get_customer_payments_paginated customer_id page_text size_text s
      else get_all_payments customer_id s
