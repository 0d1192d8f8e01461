-- ===== src/Cache/UpdateBalance/Agrees.antt =====
-- Where all numbers are short, the script charges a customer as `ApplyPayment` does, and counts the
-- version up.
use gigmile_test.Prelude.{
  ◌^◌, ◌<◌, ◌≡◌, refl, ap, sym, ◌∙◌, String, Bool, true, false, some, arith, if◌then◌else◌,
}
use mathlib.Core.Option as Option
use gigmile_test.Prelude.Int.{
  ℤ, pos, negsuc, magnitude, ◌+ℤ◌, ◌-ℤ◌, ◌≤ℤ◌, ◌<ℤ◌, is_zero, ltb_ℤ, add64, sub64, wrap64,
  wrap64-id, IsInt64,
}
use gigmile_test.Domain.Customer.{Customer, new_balance}
use gigmile_test.Domain.Customer.Balance.{after_payment}
use gigmile_test.Domain.Time.{Time}
use gigmile_test.Mysql.Customers.Save.{bumped}
use gigmile_test.Cache.UpdateBalance.{
  IsShort, LuaNumbers, LuaCustomer, script_balance, charged, encoded,
}

-- Every number of the customer is short, and stays so.
pub record IsShortAccount (amount : ℤ) (c : Customer) : Type 0 where
  pub positive : pos 0 <ℤ amount
  pub short_amount : IsShort amount
  pub asset_value : IsShort c.asset_value
  pub term : IsShort c.repayment_term_weeks
  pub owed : pos 0 ≤ℤ c.outstanding_balance
  pub outstanding_balance : IsShort c.outstanding_balance
  pub total_paid : IsShort c.total_paid
  pub total : IsShort (c.total_paid +ℤ amount)
  pub version : IsShort c.version
  pub next_version : IsShort (c.version +ℤ pos 1)

short-IsInt64 : (a : ℤ) → IsShort a → IsInt64 a
short-IsInt64 a h = omega arith

add64_short : (a b : ℤ) → IsShort (a +ℤ b) → add64 a b ≡ a +ℤ b
unfolding add64
add64_short a b h = wrap64-id (a +ℤ b) (short-IsInt64 (a +ℤ b) h)

new_balance_short :
    (outstanding amount : ℤ)
    → pos 0 ≤ℤ outstanding
    → pos 0 <ℤ amount
    → IsShort outstanding
    → IsShort amount
    → (new_balance outstanding amount
        ≡ (if ltb_ℤ (outstanding -ℤ amount) (pos 0) then pos 0 else outstanding -ℤ amount))
      × IsShort (new_balance outstanding amount)
unfolding new_balance sub64 wrap64 ◌-ℤ◌
new_balance_short outstanding amount a b c d = ground arith

balance-IsShort :
    (amount : ℤ) (c : Customer)
    → IsShortAccount amount c
    → IsShort (new_balance c.outstanding_balance amount)
balance-IsShort amount c h =
    (new_balance_short c.outstanding_balance amount h.owed h.positive h.outstanding_balance
      h.short_amount).1

pub short_fits : (a : ℤ) → IsShort a → magnitude a < 2 ^ 53
short_fits a h = omega arith

is_zero-minus_zero : (a : ℤ) → is_zero (a -ℤ pos 0) ≡ is_zero a
unfolding ◌-ℤ◌
is_zero-minus_zero (pos n) = ground arith
is_zero-minus_zero (negsuc n) = ground arith

equals_zero :
    (lua : LuaNumbers) (a : ℤ)
    → magnitude a < 2 ^ 53
    → lua.equals (lua.number a) (lua.number (pos 0)) ≡ is_zero a
equals_zero lua a h = lua.equals_exact a (pos 0) h (omega arith) ∙ is_zero-minus_zero a

difference_fits : (a b : ℤ) → IsShort a → IsShort b → magnitude (a -ℤ b) < 2 ^ 53
unfolding ◌-ℤ◌
difference_fits a b h k = ground arith

if_number :
    (lua : LuaNumbers) (b : Bool) (x y : ℤ)
    → (if b then lua.number x else lua.number y) ≡ lua.number (if b then x else y)
if_number lua true x y = refl
if_number lua false x y = refl

module _ (lua : LuaNumbers) where
  open lua use {number}

  script_balance-new_balance :
      (outstanding amount : ℤ)
      → pos 0 ≤ℤ outstanding
      → pos 0 <ℤ amount
      → IsShort outstanding
      → IsShort amount
      → script_balance lua (number outstanding) (number amount)
        ≡ number (new_balance outstanding amount)
  unfolding script_balance
  script_balance-new_balance outstanding amount a b c d =
      rw (lua.minus_exact outstanding amount c d) (
        rw
          (lua.less_exact (outstanding -ℤ amount) (pos 0) (difference_fits outstanding amount c d)
            (omega arith))
          (if_number lua (ltb_ℤ (outstanding -ℤ amount) (pos 0)) (pos 0) (outstanding -ℤ amount)
            ∙ sym (ap number (new_balance_short outstanding amount a b c d).0)))

module _ (lua : LuaNumbers) (format_time : Time → String) where
  open lua use {number, rewritten}

  -- A customer as the script finds it.
  abbrev pub of_customer : Customer → LuaCustomer lua
  of_customer c = record {
    id = c.id;
    asset_value = number c.asset_value;
    repayment_term_weeks = number c.repayment_term_weeks;
    outstanding_balance = number c.outstanding_balance;
    total_paid = number c.total_paid;
    deployment_date = format_time c.deployment_date;
    last_payment_date = Option.map format_time c.last_payment_date;
    status = c.status;
    version = number c.version;
  }

  -- The fields that a charge writes.
  abbrev with_figures : Customer → Time → ℤ → ℤ → ℤ → Bool → LuaCustomer lua
  with_figures c date balance total version done = record (of_customer c) {
    outstanding_balance = number balance;
    total_paid = number total;
    last_payment_date = some (format_time date);
    version = number version;
    status = if done then "COMPLETED" else c.status;
  }

  charged-with_figures :
      (amount : ℤ) (date : Time) (c : Customer)
      → IsShortAccount amount c
      → charged (number amount) (format_time date) (of_customer c)
        ≡ with_figures c date
            (new_balance c.outstanding_balance amount)
            (c.total_paid +ℤ amount)
            (c.version +ℤ pos 1)
            (is_zero (new_balance c.outstanding_balance amount))
  unfolding charged script_balance ◌+ℤ◌ new_balance
  charged-with_figures amount date c h = simp (
    script_balance-new_balance lua c.outstanding_balance amount h.owed h.positive
        h.outstanding_balance h.short_amount,
    lua.plus_exact c.total_paid amount h.total_paid h.short_amount,
    lua.plus_exact c.version (pos 1) h.version (omega arith),
    equals_zero lua (new_balance c.outstanding_balance amount)
        (short_fits (new_balance c.outstanding_balance amount) (balance-IsShort amount c h)),
  )

  encoded-with_figures :
      (amount : ℤ) (date : Time) (c : Customer) (balance total version : ℤ) (done : Bool)
      → IsShortAccount amount c
      → IsShort balance
      → IsShort total
      → IsShort version
      → encoded (with_figures c date balance total version done)
        ≡ with_figures c date balance total version done
  encoded-with_figures amount date c balance total version done h b t v = simp (
    lua.rewritten_exact c.asset_value h.asset_value,
    lua.rewritten_exact c.repayment_term_weeks h.term,
    lua.rewritten_exact balance b,
    lua.rewritten_exact total t,
    lua.rewritten_exact version v,
  )

  figures-after_payment :
      (amount : ℤ) (date : Time) (c : Customer)
      → IsShortAccount amount c
      → with_figures c date
          (new_balance c.outstanding_balance amount)
          (c.total_paid +ℤ amount)
          (c.version +ℤ pos 1)
          (is_zero (new_balance c.outstanding_balance amount))
        ≡ of_customer (bumped (after_payment amount date c))
  figures-after_payment amount date c h =
      simp (add64_short c.total_paid amount h.total, add64_short c.version (pos 1) h.next_version)

  -- What the script stores of a customer whose numbers are short is the customer that
  -- `ApplyPayment` makes, with the version counted up.
  pub encoded-charged :
      (amount : ℤ) (date : Time) (c : Customer)
      → IsShortAccount amount c
      → encoded (charged (number amount) (format_time date) (of_customer c))
        ≡ of_customer (bumped (after_payment amount date c))
  encoded-charged amount date c h =
      ap encoded (charged-with_figures amount date c h)
      ∙ encoded-with_figures amount date c _ _ _ _ h (balance-IsShort amount c h) h.total
          h.next_version
      ∙ figures-after_payment amount date c h
