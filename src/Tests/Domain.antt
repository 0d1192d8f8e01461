-- ===== src/Tests/Domain.antt =====
-- The account of a customer.
use gigmile_test.Prelude.{◌≡◌, refl, some, none, ◌-◌, arith, ◌⊎◌, ◌^◌}
use gigmile_test.Prelude.Int.{pos, add64, sub64, ◌<ℤ◌, ◌≤ℤ◌, ◌+ℤ◌, ◌-ℤ◌}
use gigmile_test.Domain.Errors.{invalid_amount, asset_already_owned}
use gigmile_test.Domain.Customer.{
  Customer, new_customer, apply_payment, new_balance, status_completed,
}
use gigmile_test.Domain.Customer.Balance.{
  IsSound, IsPaid, after_payment, new_customer-IsSound, apply_payment-IsSound,
  apply_payment_outcomes, apply_payment_overflow, apply_payment-eq_ok,
}
use gigmile_test.Persistence.{payment_from_domain, payment_to_domain, PaymentModel}
use gigmile_test.Persistence.Roundtrip.{payment_to_domain-from_domain}
use gigmile_test.Domain.Payment.{Payment, status_complete}
use gigmile_test.Domain.Time.{Time}
use gigmile_test.Result.{ok, err}
use gigmile_test.Tests.Fixtures.{customer}

customer-IsSound : IsSound customer
unfolding new_customer
customer-IsSound =
    new_customer-IsSound "GIG00001" (pos 100000000) (pos 50) (pos 5) {c = customer} (omega arith)
      refl

-- the customer after half of the value
abbrev half_paid : Customer
half_paid = record customer { outstanding_balance = pos 50000000; total_paid = pos 50000000 }

half_paid-IsSound : IsSound half_paid
unfolding ◌-ℤ◌
half_paid-IsSound = record {
  value_pos = omega arith;
  value_fits = omega arith;
  paid_nonneg = omega arith;
  paid_fits = omega arith;
  balance = refl;
  completed = refl;
}

abbrev payment_at : Time → Payment
payment_at processed = record {
  id = "id";
  customer_id = "GIG00001";
  amount = pos 1000000;
  transaction_reference = "VPAY1";
  transaction_date = pos 9;
  status = status_complete;
  processed_at = processed;
  created_at = pos 2;
}

abbrev stored_payment : PaymentModel
stored_payment = record {
  id = "id";
  customer_id = "GIG00001";
  amount = pos 1000000;
  transaction_reference = "VPAY1";
  transaction_date = pos 9;
  status = status_complete;
  processed_at = none;
  created_at = pos 2;
}

-- An overpayment is clamped at zero, counts in full, and completes the asset.
overpayment :
    apply_payment (pos 100000001) (pos 9) customer
    ≡ ok (record customer {
      outstanding_balance = pos 0;
      total_paid = pos 100000001;
      last_payment_date = some (pos 9);
      status = status_completed;
    })
unfolding apply_payment new_balance add64 sub64
overpayment = refl

new_customer-IsSound_example : IsSound customer
unfolding new_customer
new_customer-IsSound_example =
    new_customer-IsSound "GIG00001" (pos 100000000) (pos 50) (pos 5) {c = customer} (omega arith)
      refl

apply_payment-IsSound_example : IsSound (after_payment (pos 100000001) (pos 9) customer)
unfolding ◌+ℤ◌
apply_payment-IsSound_example =
    apply_payment-IsSound (pos 100000001) (pos 9) customer
      {d = after_payment (pos 100000001) (pos 9) customer} customer-IsSound (omega arith)
      (apply_payment-eq_ok (pos 100000001) (pos 9) customer (omega arith) refl)

apply_payment_outcomes_example :
    ((pos 100000001 ≤ℤ pos 0)
      × (apply_payment (pos 100000001) (pos 9) customer ≡ err invalid_amount))
    ⊎ ((pos 0 <ℤ pos 100000001)
        × (pos 100000000 ≤ℤ pos 0)
        × (apply_payment (pos 100000001) (pos 9) customer ≡ err asset_already_owned))
    ⊎ ((pos 0 <ℤ pos 100000001)
        × (pos 0 <ℤ pos 100000000)
        × ((d : Customer) × (apply_payment (pos 100000001) (pos 9) customer ≡ ok d)
            × IsPaid (pos 100000001) (pos 9) customer d))
unfolding ◌+ℤ◌
apply_payment_outcomes_example =
    apply_payment_outcomes (pos 100000001) (pos 9) customer customer-IsSound (omega arith)

apply_payment_overflow_example :
    (d : Customer) × (apply_payment (pos (2 ^ 63 - 1)) (pos 9) half_paid ≡ ok d)
    × (d.total_paid <ℤ pos 0)
unfolding ◌+ℤ◌
apply_payment_overflow_example =
    apply_payment_overflow (pos (2 ^ 63 - 1)) (pos 9) half_paid half_paid-IsSound
      (omega arith, omega arith) (omega arith) (omega arith)

payment_to_domain-from_domain_example :
    payment_to_domain (payment_from_domain (payment_at (pos 7))) ≡ payment_at (pos 7)
payment_to_domain-from_domain_example = payment_to_domain-from_domain (payment_at (pos 7))
