-- ===== src/Cache/Keys.antt =====
-- `customerKey`, `paymentKey` and `customerPaymentsKey` of repository/redis.
use Prim.Native.String.{◌++◌}
use Prim.Native.Char.{code}
use gigmile_test.Prelude.{ℕ, String, ◌≡◌, ◌≢◌, sym, ap, ◌∙◌, arith}
use text.Mathlib.TextLemmas.{append_cancel_left, cons-append, head-eq_of_cons-eq}

unfoldable pub customer_key : String → String
customer_key customer_id = "customer:" ++ customer_id

unfoldable pub payment_key : String → String
payment_key tx_ref = "payment:" ++ tx_ref

unfoldable pub customer_payments_key : String → String
customer_payments_key customer_id = "customer:" ++ (customer_id ++ ":payments")

-- Two customers never share a key.
pub customer_key-injective : (a b : String) → customer_key a ≡ customer_key b → a ≡ b
unfolding customer_key
customer_key-injective a b h = append_cancel_left "customer:" a b h

pub payment_key-injective : (a b : String) → payment_key a ≡ payment_key b → a ≡ b
unfolding payment_key
payment_key-injective a b h = append_cancel_left "payment:" a b h

-- The key of a customer is no payment's.
pub customer_key-ne-payment_key : (a b : String) → customer_key a ≢ payment_key b
unfolding customer_key payment_key
customer_key-ne-payment_key a b h =
    let first : ◌≡◌ {A = ℕ} 99 112 = ap code (
      head-eq_of_cons-eq
        (sym (cons-append "c" "ustomer:" a) ∙ (h ∙ cons-append "p" "ayment:" b))) in
    omega arith
