-- ===== src/Domain/Customer.antt =====
-- internal/domain/customer.go: the customer, and a payment applied to it. The theorems are in the
-- modules below.
pub mod Balance
use gigmile_test.Prelude.{String, Bool, ◌||◌, Option, none, some, str_eq, if◌then◌else◌}
use gigmile_test.Prelude.Int.{ℤ, pos, leb_ℤ, ltb_ℤ, is_zero, add64, sub64}
use gigmile_test.Float64
use gigmile_test.Float64.{Float64}
use gigmile_test.Domain.Errors.{
  Error, invalid_customer_id, invalid_amount, asset_already_owned, message,
}
use gigmile_test.Domain.Time.{Time}
use gigmile_test.Result.{Result, ok, err}

-- A string in the source: any text may come from the database.
abbrev pub CustomerStatus : Type 0
CustomerStatus = String

abbrev pub status_active : CustomerStatus
status_active = "ACTIVE"

abbrev pub status_completed : CustomerStatus
status_completed = "COMPLETED"

abbrev pub status_defaulted : CustomerStatus
status_defaulted = "DEFAULTED"

-- Amounts are int64, in kobo.
pub record Customer : Type 0 where
  pub id : String
  pub asset_value : ℤ
  pub repayment_term_weeks : ℤ
  pub outstanding_balance : ℤ
  pub total_paid : ℤ
  pub deployment_date : Time
  pub last_payment_date : Option Time
  pub status : CustomerStatus
  pub version : ℤ

unfoldable pub new_customer : String → ℤ → ℤ → Time → Result Customer
new_customer id asset_value term_weeks deployment_date =
    if str_eq id ""
    then err invalid_customer_id
    else if leb_ℤ asset_value (pos 0)
    then err (message "asset value must be positive")
    else if leb_ℤ term_weeks (pos 0)
    then err (message "repayment term must be positive")
    else ok (record {
      id = id;
      asset_value = asset_value;
      repayment_term_weeks = term_weeks;
      outstanding_balance = asset_value;
      total_paid = pos 0;
      deployment_date = deployment_date;
      last_payment_date = none;
      status = status_active;
      version = pos 1;
    })

-- `newBalance`, with an overpayment clamped
unfoldable pub new_balance : ℤ → ℤ → ℤ
unfolding sub64
new_balance outstanding amount =
    let balance = sub64 outstanding amount in if ltb_ℤ balance (pos 0) then pos 0 else balance

-- An error leaves the customer alone; otherwise the result is the customer after the call.
unfoldable pub apply_payment : ℤ → Time → Customer → Result Customer
apply_payment amount payment_date c =
    if leb_ℤ amount (pos 0)
    then err invalid_amount
    else if str_eq c.status status_completed
    then err asset_already_owned
    else ok (record c {
      outstanding_balance = new_balance c.outstanding_balance amount;
      total_paid = add64 c.total_paid amount;
      last_payment_date = some payment_date;
      status =
          if is_zero (new_balance c.outstanding_balance amount) then status_completed else c.status;
    })

unfoldable pub get_payment_progress : Customer → Float64
get_payment_progress c =
    if is_zero c.asset_value
    then Float64.of_int64 (pos 0)
    else Float64.mul (Float64.div (Float64.of_int64 c.total_paid) (Float64.of_int64 c.asset_value))
        (Float64.of_int64 (pos 100))

unfoldable pub is_fully_paid : Customer → Bool
is_fully_paid c = is_zero c.outstanding_balance || str_eq c.status status_completed
