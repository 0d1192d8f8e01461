-- ===== src/Tests/Http.antt =====
-- The handlers on a database and a cache in memory.
use gigmile_test.Prelude.{◌*◌, ◌^◌, ◌≡◌, refl, some, false, arith, String}
use gigmile_test.Prelude.Int.{pos}
use gigmile_test.Float64.{finite}
use gigmile_test.Domain.Errors.{message}
use gigmile_test.Domain.Time.{Time}
use gigmile_test.Result.{ok}
use gigmile_test.World.{Request}
use gigmile_test.World.Rules.{IsRead}
use gigmile_test.Service.Process.Due.{IsDue}
use gigmile_test.Stdlib.Atoi.{atoi, digits_from}
use gigmile_test.Stdlib.ParseFloat.{parse_float}
use gigmile_test.Stdlib.ParseTime.{parse_time}
use gigmile_test.Http.Dto.{PaymentRequest, validate, kobo, get_amount_in_kobo}
use gigmile_test.Http.Dto.Naira.{get_amount_in_kobo-exact}
use gigmile_test.Http.Handler.{
  respond_error, process_payment, get_customer, get_customer_payments, number_or, service_request,
}
use gigmile_test.Http.Handler.Webhook.{StandsFor}
use gigmile_test.Http.Handler.Lookup.{CustomerReply, get_customer-CustomerReply}
use gigmile_test.Http.Handler.Page.{PageReply, asked, asked_size, page-PageReply}
use gigmile_test.Tests.Fixtures.{row, start}

abbrev pub body : PaymentRequest
body = record {
  customer_id = "GIG00001";
  payment_status = "COMPLETE";
  transaction_amount = "10000";
  transaction_date = "2025-11-24 14:54:16";
  transaction_reference = "VPAY1";
}

abbrev pub request : Request
request = service_request body (pos 1000000) (pos 63899592856000000000)

pub body-StandsFor : StandsFor body request
unfolding parse_float parse_time kobo
body-StandsFor = record {
  customer = refl;
  status = refl;
  amount_given = refl;
  date_given = refl;
  reference = refl;
  number = finite false (10000 * 2 ^ 39) 1035;
  date = pos 63899592856000000000;
  amount_read = refl;
  date_read = refl;
  request = refl;
}

pub request-IsDue : IsDue request row start
request-IsDue = record {
  there = refl;
  active = refl;
  positive = omega arith;
  named = refl;
  referred = refl;
  new = refl;
  absent = refl;
  fits = record { customer = refl; reference = refl; date = refl };
  plain = refl;
  current = λ j there. absurd (cc);
}

-- An amount that is no number is turned away.
abbrev bad_body : PaymentRequest
bad_body = record body { transaction_amount = "ten thousand" }

bad_amount :
    (process_payment (ok bad_body) start).0
    ≡ respond_error 400 "validation failed"
        (some (message "transaction_amount must be a valid number"))
unfolding process_payment validate parse_float
bad_amount = refl

get_customer-CustomerReply_example :
    IsRead start (get_customer "GIG00001" start).1
    × CustomerReply "GIG00001" start (get_customer "GIG00001" start).0
get_customer-CustomerReply_example = get_customer-CustomerReply "GIG00001" start refl

abbrev pub a_time : Time → String
a_time t = "2025-11-24T14:54:16Z"

page-PageReply_example :
    let (reply, t) = get_customer_payments a_time "GIG00001" "2" "-5" start in
    IsRead start t × PageReply a_time "GIG00001" (asked (pos 1) "2") (asked_size "-5") start reply
unfolding atoi
page-PageReply_example =
    page-PageReply a_time "GIG00001" "2" "-5" start refl refl (omega arith) (omega arith)

-- What counts as a page's number.
page_numbers :
    (number_or (pos 1) "7" ≡ pos 7)
    × (number_or (pos 1) "-5" ≡ pos 1)
    × (number_or (pos 1) "0" ≡ pos 1)
    × (number_or (pos 1) "2a" ≡ pos 1)
unfolding number_or atoi
page_numbers = (refl, refl, refl, refl)

-- Ten thousand naira are a million kobo.
get_amount_in_kobo-exact_example : get_amount_in_kobo body ≡ ok (pos (10000 * 100))
unfolding digits_from
get_amount_in_kobo-exact_example =
    get_amount_in_kobo-exact body 10000 (λ e. cc e) refl (omega arith)
