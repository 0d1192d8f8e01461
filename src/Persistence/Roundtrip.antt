-- ===== src/Persistence/Roundtrip.antt =====
-- What survives a write to a row and a read back.
use gigmile_test.Prelude.{◌≡◌, refl, ◌≢◌, some, arith}
use gigmile_test.Domain.Time.{zero_time}
use gigmile_test.Domain.Customer.{Customer}
use gigmile_test.Domain.Payment.{Payment}
use gigmile_test.Persistence.{
  PaymentModel, customer_to_domain, customer_from_domain, payment_to_domain, payment_from_domain,
}

-- A customer survives the conversion to a row and back.
pub customer_to_domain-from_domain :
    (c : Customer) → customer_to_domain (customer_from_domain c) ≡ c
unfolding customer_to_domain customer_from_domain
customer_to_domain-from_domain c = refl

-- A payment survives the conversion to a row and back, whether or not its instant of processing
-- is set.
pub payment_to_domain-from_domain : (p : Payment) → payment_to_domain (payment_from_domain p) ≡ p
unfolding payment_to_domain payment_from_domain
payment_to_domain-from_domain p = ground arith

-- A row of a payment survives the conversion to a payment and back, unless it holds the zero
-- instant as its instant of processing.
pub payment_from_domain-to_domain :
    (m : PaymentModel)
    → m.processed_at ≢ some zero_time
    → payment_from_domain (payment_to_domain m) ≡ m
unfolding payment_to_domain payment_from_domain
payment_from_domain-to_domain m h = ground arith
