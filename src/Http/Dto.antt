-- ===== src/Http/Dto.antt =====
-- internal/interface/http/dto/payment_dto.go
pub mod Naira
use gigmile_test.Prelude.{String, Bool, Option, none, some, str_eq, codes, if◌then◌else◌}
use gigmile_test.Prelude.Int.{ℤ, pos}
use gigmile_test.Float64
use gigmile_test.Float64.{Float64}
use gigmile_test.Domain.Errors.{Error, message, external}
use gigmile_test.Domain.Time.{Time}
use gigmile_test.Result.{Result, ok, err}
use gigmile_test.Stdlib.ParseFloat.{parse_float}
use gigmile_test.Stdlib.ParseTime.{parse_time}

pub record PaymentRequest : Type 0 where
  pub customer_id : String
  pub payment_status : String
  pub transaction_amount : String
  pub transaction_date : String
  pub transaction_reference : String

-- the two tests by parsing, at the end of `Validate`
abbrev pub number_ok : Option Float64 → Result (Unit {0}) → Result (Unit {0})
number_ok none rest = err (message "transaction_amount must be a valid number")
number_ok (some x) rest = rest

abbrev pub date_ok : Option Time → Result (Unit {0})
date_ok none = err (message "transaction_date must be in format 'YYYY-MM-DD HH:MM:SS'")
date_ok (some t) = ok tt

unfoldable pub validate : PaymentRequest → Result (Unit {0})
validate r =
    if str_eq r.customer_id ""
    then err (message "customer_id is required")
    else if str_eq r.payment_status ""
    then err (message "payment_status is required")
    else if str_eq r.transaction_amount ""
    then err (message "transaction_amount is required")
    else if str_eq r.transaction_date ""
    then err (message "transaction_date is required")
    else if str_eq r.transaction_reference ""
    then err (message "transaction_reference is required")
    else number_ok (parse_float (codes r.transaction_amount))
        (date_ok (parse_time (codes r.transaction_date)))

-- `int64(amount * 100)`
unfoldable pub kobo : Float64 → ℤ
unfolding Float64.to_int64 Float64.mul Float64.of_int64
kobo amount = Float64.to_int64 (Float64.mul amount (Float64.of_int64 (pos 100)))

-- The texts of the library's errors are cut short to the function's name.
abbrev pub kobo_of : Option Float64 → Result ℤ
kobo_of none = err (external "strconv.ParseFloat")
kobo_of (some amount) = ok (kobo amount)

unfoldable pub get_amount_in_kobo : PaymentRequest → Result ℤ
get_amount_in_kobo r = kobo_of (parse_float (codes r.transaction_amount))

abbrev pub date_of : Option Time → Result Time
date_of none = err (external "time.Parse")
date_of (some t) = ok t

unfoldable pub get_transaction_date : PaymentRequest → Result Time
get_transaction_date r = date_of (parse_time (codes r.transaction_date))

-- Fields with zero values are left out of the JSON.
pub record PaymentResponse : Type 0 where
  pub success : Bool
  pub message : String
  pub customer_id : String
  pub outstanding_balance : ℤ
  pub total_paid : ℤ
  pub payment_progress : Float64
  pub is_fully_paid : Bool

-- The second text is that of an error, if there was one.
pub record ErrorResponse : Type 0 where
  pub error : String
  pub message : Option Error

pub record CustomerResponse : Type 0 where
  pub customer_id : String
  pub asset_value : ℤ
  pub repayment_term_weeks : ℤ
  pub outstanding_balance : ℤ
  pub total_paid : ℤ
  pub payment_progress : Float64
  pub status : String
  pub is_fully_paid : Bool

pub record PaymentRecordResponse : Type 0 where
  pub id : String
  pub customer_id : String
  pub transaction_amount : ℤ
  pub transaction_reference : String
  pub transaction_date : String
  pub status : String
  pub processed_at : String
