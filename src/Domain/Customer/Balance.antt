-- ===== src/Domain/Customer/Balance.antt =====
-- The account that `apply_payment` keeps: outstanding balance, total paid and status agree.
use gigmile_test.Prelude.{
  ◌≤◌, ◌<◌, ◌^◌, ◌≡◌, refl, String, Bool, true, false, arith, str_eq, some, inl, inr, ◌⊎◌,
  Bool-cases, if◌then◌else◌,
}
use gigmile_test.Prelude.Int.{
  ℤ, pos, pos_part, ◌+ℤ◌, ◌-ℤ◌, ◌≤ℤ◌, ◌<ℤ◌, ltb_ℤ, leb_ℤ, is_zero, int_laws, +ℤ_parts, add64,
  wrap64, wrap64-id, IsInt64,
}
use gigmile_test.Domain.Customer.{
  Customer, status_completed, new_customer, new_balance, apply_payment, is_fully_paid,
}
use gigmile_test.Domain.Errors.{asset_already_owned, invalid_amount}
use gigmile_test.Domain.Time.{Time}
use gigmile_test.Result.{ok, err, Ensures, Ensures-ok}

-- What is left of an asset's value once `paid` has been paid.
abbrev pub remaining : ℤ → ℤ → ℤ
remaining value paid = if ltb_ℤ value paid then pos 0 else value -ℤ paid

pub record IsSound (c : Customer) : Type 0 where
  pub value_pos : pos 1 ≤ℤ c.asset_value
  pub value_fits : pos_part c.asset_value < 2 ^ 63
  pub paid_nonneg : pos 0 ≤ℤ c.total_paid
  pub paid_fits : pos_part c.total_paid < 2 ^ 63
  pub balance : c.outstanding_balance ≡ remaining c.asset_value c.total_paid
  pub completed : str_eq c.status status_completed ≡ is_zero c.outstanding_balance

new_customer-Ensures :
    (id : String) (value weeks : ℤ) (date : Time)
    → IsInt64 value
    → Ensures IsSound (new_customer id value weeks date)
unfolding new_customer ◌-ℤ◌
new_customer-Ensures id value weeks date fits = ground arith

-- A customer that `new_customer` makes of an asset value in int64 has a sound account.
pub new_customer-IsSound :
    (id : String) (value weeks : ℤ) (date : Time) {c : Customer}
    → IsInt64 value
    → new_customer id value weeks date ≡ ok c
    → IsSound c
new_customer-IsSound id value weeks date fits h =
    Ensures-ok IsSound _ (new_customer-Ensures id value weeks date fits) h

-- The balance after a payment that fits, in terms of the exact difference.
new_balance-remaining :
    (value paid amount : ℤ)
    → pos 1 ≤ℤ value
    → pos_part value < 2 ^ 63
    → pos 0 ≤ℤ paid
    → pos 0 <ℤ amount
    → pos_part (paid +ℤ amount) < 2 ^ 63
    → new_balance (remaining value paid) amount ≡ remaining value (paid +ℤ amount)
unfolding new_balance ◌-ℤ◌ ◌+ℤ◌ wrap64
new_balance-remaining value paid amount v f p a t = ground arith

add64_exact : (a b : ℤ) → pos 0 ≤ℤ a → pos 0 ≤ℤ b → pos_part (a +ℤ b) < 2 ^ 63 → add64 a b ≡ a +ℤ b
unfolding add64
add64_exact a b h k f = wrap64-id (a +ℤ b) (omega int_laws)

completed_if :
    (b : Bool) (s : String)
    → str_eq s status_completed ≡ false
    → str_eq (if b then status_completed else s) status_completed ≡ b
completed_if true s h = refl
completed_if false s h = h

apply_payment-Ensures :
    (amount : ℤ) (date : Time) (c : Customer)
    → IsSound c
    → pos_part (c.total_paid +ℤ amount) < 2 ^ 63
    → Ensures IsSound (apply_payment amount date c)
unfolding apply_payment
apply_payment-Ensures amount date c s fits = ground (
  arith,
  +ℤ_parts c.total_paid amount,
  add64_exact c.total_paid amount,
  new_balance-remaining c.asset_value c.total_paid amount,
  completed_if (is_zero (new_balance c.outstanding_balance amount)) c.status,
)

-- An accepted payment whose exact total fits an int64 keeps the account sound: the balance is
-- what remains of the value, or zero, and the status is COMPLETED exactly when the balance is
-- zero.
pub apply_payment-IsSound :
    (amount : ℤ) (date : Time) (c : Customer) {d : Customer}
    → IsSound c
    → pos_part (c.total_paid +ℤ amount) < 2 ^ 63
    → apply_payment amount date c ≡ ok d
    → IsSound d
apply_payment-IsSound amount date c s fits h =
    Ensures-ok IsSound _ (apply_payment-Ensures amount date c s fits) h

-- What a payment does to an account, written without the code's steps: the exact total, what then
-- remains of the value, completion exactly when nothing remains, and no other field but the date.
pub record IsPaid (amount : ℤ) (date : Time) (c d : Customer) : Type 0 where
  pub paid : d.total_paid ≡ c.total_paid +ℤ amount
  pub left : d.outstanding_balance ≡ remaining c.asset_value (c.total_paid +ℤ amount)
  pub finished : str_eq d.status status_completed ≡ leb_ℤ c.asset_value (c.total_paid +ℤ amount)
  pub dated : d.last_payment_date ≡ some date
  pub same_id : d.id ≡ c.id
  pub same_value : d.asset_value ≡ c.asset_value
  pub same_term : d.repayment_term_weeks ≡ c.repayment_term_weeks
  pub same_deployment : d.deployment_date ≡ c.deployment_date
  pub same_version : d.version ≡ c.version

remaining-is_zero : (value paid : ℤ) → is_zero (remaining value paid) ≡ leb_ℤ value paid
unfolding ◌-ℤ◌
remaining-is_zero value paid = ground arith

-- The customer that an accepted payment leaves.
abbrev pub after_payment : ℤ → Time → Customer → Customer
after_payment amount date c = record c {
  outstanding_balance = new_balance c.outstanding_balance amount;
  total_paid = add64 c.total_paid amount;
  last_payment_date = some date;
  status =
      if is_zero (new_balance c.outstanding_balance amount) then status_completed else c.status;
}

-- An accepted payment, in the code's words.
pub apply_payment-eq_ok :
    (amount : ℤ) (date : Time) (c : Customer)
    → pos 0 <ℤ amount
    → str_eq c.status status_completed ≡ false
    → apply_payment amount date c ≡ ok (after_payment amount date c)
unfolding apply_payment
apply_payment-eq_ok amount date c a active = ground arith

after_payment-IsPaid :
    (amount : ℤ) (date : Time) (c : Customer)
    → IsSound c
    → pos 0 <ℤ amount
    → pos_part (c.total_paid +ℤ amount) < 2 ^ 63
    → str_eq c.status status_completed ≡ false
    → IsPaid amount date c (after_payment amount date c)
after_payment-IsPaid amount date c s a fits active = ground (
  arith,
  add64_exact c.total_paid amount,
  new_balance-remaining c.asset_value c.total_paid amount,
  remaining-is_zero c.asset_value (c.total_paid +ℤ amount),
  completed_if (is_zero (new_balance c.outstanding_balance amount)) c.status,
)

-- On a sound account whose exact total fits an int64, a payment is refused as an invalid amount
-- exactly if it is not positive, refused as already owned exactly if it is positive and the value
-- is paid, and otherwise leaves the exact total, what then remains of the value, completion
-- exactly when nothing remains, the date, and every other field as it was.
pub apply_payment_outcomes :
    (amount : ℤ) (date : Time) (c : Customer)
    → IsSound c
    → pos_part (c.total_paid +ℤ amount) < 2 ^ 63
    → ((amount ≤ℤ pos 0) × (apply_payment amount date c ≡ err invalid_amount))
      ⊎ ((pos 0 <ℤ amount)
          × (c.asset_value ≤ℤ c.total_paid)
          × (apply_payment amount date c ≡ err asset_already_owned))
      ⊎ ((pos 0 <ℤ amount)
          × (c.total_paid <ℤ c.asset_value)
          × ((d : Customer) × (apply_payment amount date c ≡ ok d) × IsPaid amount date c d))
unfolding apply_payment
apply_payment_outcomes amount date c s fits = elim (Bool-cases (leb_ℤ amount (pos 0))) [
  | inl bad ↦ inl (ground arith, rw bad)
  | inr good ↦ elim (Bool-cases (str_eq c.status status_completed)) [
    | inl done ↦ inr (
        inl (
          ground arith,
          ground (arith, remaining-is_zero c.asset_value c.total_paid),
          rw (good, done),
        ))
    | inr active ↦ inr (
        inr (
          ground arith,
          ground (arith, remaining-is_zero c.asset_value c.total_paid),
          (
            after_payment amount date c,
            rw (good, active),
            after_payment-IsPaid amount date c s (ground arith) fits active,
          ),
        ))
  ]
]

-- A sound account is fully paid exactly when the total has reached the value of the asset.
pub is_fully_paid-eq :
    (c : Customer) → IsSound c → is_fully_paid c ≡ leb_ℤ c.asset_value c.total_paid
unfolding is_fully_paid
is_fully_paid-eq c s = ground (arith, remaining-is_zero c.asset_value c.total_paid)

positive_of_overflow :
    (a b : ℤ) → pos 0 ≤ℤ a → pos_part a < 2 ^ 63 → 2 ^ 63 ≤ pos_part (a +ℤ b) → pos 0 <ℤ b
unfolding ◌+ℤ◌
positive_of_overflow a b p f over = ground arith

add64_negative :
    (a b : ℤ)
    → pos 0 ≤ℤ a
    → pos_part a < 2 ^ 63
    → IsInt64 b
    → 2 ^ 63 ≤ pos_part (a +ℤ b)
    → add64 a b <ℤ pos 0
unfolding add64 ◌+ℤ◌ wrap64
add64_negative a b p f g over = ground arith

-- A payment that takes the exact total of an unpaid, sound account past the largest int64 is
-- accepted, and leaves a negative total.
pub apply_payment_overflow :
    (amount : ℤ) (date : Time) (c : Customer)
    → IsSound c
    → IsInt64 amount
    → c.total_paid <ℤ c.asset_value
    → 2 ^ 63 ≤ pos_part (c.total_paid +ℤ amount)
    → (d : Customer) × (apply_payment amount date c ≡ ok d) × (d.total_paid <ℤ pos 0)
apply_payment_overflow amount date c s fits unpaid over = (
  after_payment amount date c,
  apply_payment-eq_ok amount date c
      (positive_of_overflow c.total_paid amount s.paid_nonneg s.paid_fits over)
      (ground (arith, remaining-is_zero c.asset_value c.total_paid)),
  add64_negative c.total_paid amount s.paid_nonneg s.paid_fits fits over,
)
