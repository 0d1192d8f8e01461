-- ===== src/Domain/Payment.antt =====
-- internal/domain/payment.go
use gigmile_test.Prelude.{String, Bool, str_eq, if◌then◌else◌}
use gigmile_test.Prelude.Int.{ℤ, pos, leb_ℤ}
use gigmile_test.Domain.Errors.{invalid_customer_id, invalid_amount, invalid_transaction_ref}
use gigmile_test.Domain.Time.{Time, zero_time}
use gigmile_test.Result.{Result, ok, err}

abbrev pub PaymentStatus : Type 0
PaymentStatus = String

abbrev pub status_pending : PaymentStatus
status_pending = "PENDING"

abbrev pub status_complete : PaymentStatus
status_complete = "COMPLETE"

abbrev pub status_failed : PaymentStatus
status_failed = "FAILED"

abbrev pub status_duplicate : PaymentStatus
status_duplicate = "DUPLICATE"

pub record Payment : Type 0 where
  pub id : String
  pub customer_id : String
  pub amount : ℤ
  pub transaction_reference : String
  pub transaction_date : Time
  pub status : PaymentStatus
  pub processed_at : Time
  pub created_at : Time

-- `now` is what the call of `time.Now()` returns. The id and `processed_at` keep their zero values.
unfoldable pub new_payment : Time → String → ℤ → String → Time → PaymentStatus → Result Payment
new_payment now customer_id amount transaction_ref transaction_date status =
    if str_eq customer_id ""
    then err invalid_customer_id
    else if leb_ℤ amount (pos 0)
    then err invalid_amount
    else if str_eq transaction_ref ""
    then err invalid_transaction_ref
    else ok (record {
      id = "";
      customer_id = customer_id;
      amount = amount;
      transaction_reference = transaction_ref;
      transaction_date = transaction_date;
      status = status;
      processed_at = zero_time;
      created_at = now;
    })

unfoldable pub mark_as_processed : Time → Payment → Payment
mark_as_processed now p = record p { processed_at = now }

unfoldable pub is_duplicate : Payment → Bool
is_duplicate p = str_eq p.status status_duplicate
