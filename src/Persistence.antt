-- ===== src/Persistence.antt =====
-- internal/infrastructure/persistence/models.go: the rows of the two tables, and their conversions.
pub mod Roundtrip
use gigmile_test.Prelude.{String, Option, none, some, if◌then◌else◌}
use gigmile_test.Prelude.Int.{ℤ}
use gigmile_test.Domain.Time.{Time, zero_time, is_zero_time}
use gigmile_test.Domain.Customer.{Customer}
use gigmile_test.Domain.Payment.{Payment}

pub record CustomerModel : Type 0 where
  pub id : String
  pub asset_value : ℤ
  pub outstanding_balance : ℤ
  pub total_paid : ℤ
  pub repayment_term_weeks : ℤ
  pub deployment_date : Time
  pub last_payment_date : Option Time
  pub status : String
  pub version : ℤ
  pub created_at : Time
  pub updated_at : Time

unfoldable pub customer_to_domain : CustomerModel → Customer
customer_to_domain m = record {
  id = m.id;
  asset_value = m.asset_value;
  repayment_term_weeks = m.repayment_term_weeks;
  outstanding_balance = m.outstanding_balance;
  total_paid = m.total_paid;
  deployment_date = m.deployment_date;
  last_payment_date = m.last_payment_date;
  status = m.status;
  version = m.version;
}

-- `CreatedAt` and `UpdatedAt` keep their zero values.
unfoldable pub customer_from_domain : Customer → CustomerModel
customer_from_domain c = record {
  id = c.id;
  asset_value = c.asset_value;
  outstanding_balance = c.outstanding_balance;
  total_paid = c.total_paid;
  repayment_term_weeks = c.repayment_term_weeks;
  deployment_date = c.deployment_date;
  last_payment_date = c.last_payment_date;
  status = c.status;
  version = c.version;
  created_at = zero_time;
  updated_at = zero_time;
}

pub record PaymentModel : Type 0 where
  pub id : String
  pub customer_id : String
  pub amount : ℤ
  pub transaction_reference : String
  pub transaction_date : Time
  pub status : String
  pub processed_at : Option Time
  pub created_at : Time

unfoldable pub payment_to_domain : PaymentModel → Payment
payment_to_domain m = record {
  id = m.id;
  customer_id = m.customer_id;
  amount = m.amount;
  transaction_reference = m.transaction_reference;
  transaction_date = m.transaction_date;
  status = m.status;
  processed_at = elim m.processed_at [ some t ↦ t | none ↦ zero_time ];
  created_at = m.created_at;
}

unfoldable pub payment_from_domain : Payment → PaymentModel
payment_from_domain p = record {
  id = p.id;
  customer_id = p.customer_id;
  amount = p.amount;
  transaction_reference = p.transaction_reference;
  transaction_date = p.transaction_date;
  status = p.status;
  processed_at = if is_zero_time p.processed_at then none else some p.processed_at;
  created_at = p.created_at;
}
