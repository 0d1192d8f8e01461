-- ===== src/Tests/Lua.antt =====
-- The Lua script, over numbers that are all exact, on a server that runs every script.
use gigmile_test.Prelude.{◌≡◌, refl, String, Option, some, arith, str_eq, eq_iff, if◌then◌else◌}
use gigmile_test.Prelude.Int.{ℤ, pos, ◌+ℤ◌, ◌-ℤ◌, is_zero, ltb_ℤ}
use gigmile_test.Domain.Customer.Balance.{after_payment, apply_payment-eq_ok}
use gigmile_test.Domain.Time.{Time}
use gigmile_test.Mysql.Customers.Save.{bumped}
use gigmile_test.Result.{ok}
use gigmile_test.Cache.Keys.{customer_key}
use gigmile_test.Cache.UpdateBalance.{
  LuaNumbers, LuaCustomer, ScriptEnd, error_reply, stored, EvalReply, eval_error, eval_result,
  encoded, script, IsEvaluated, Scripting, update_balance, result_of,
}
use gigmile_test.Cache.UpdateBalance.Agrees.{IsShortAccount, of_customer}
use gigmile_test.Cache.UpdateBalance.Run.{IsOutcome, update_balance-IsOutcome}
use gigmile_test.Tests.Fixtures.{customer}

abbrev exact_numbers : LuaNumbers
exact_numbers = record {
  Number = ℤ;
  number = λ a. a;
  plus = ◌+ℤ◌;
  minus = ◌-ℤ◌;
  equals = λ a b. is_zero (a -ℤ b);
  less = ltb_ℤ;
  rewritten = λ a. a;
  rewritten_exact = λ a h. refl;
  plus_exact = λ a b h k. refl;
  minus_exact = λ a b h k. refl;
  equals_exact = λ a b h k. refl;
  less_exact = λ a b h k. refl;
}

abbrev Entry : Type 0
Entry = Option (LuaCustomer exact_numbers)

abbrev put : String → Entry → (String → Entry) → String → Entry
put k e entries j = if str_eq k j then e else entries j

abbrev run : String → (String → Entry) → ScriptEnd exact_numbers → EvalReply × (String → Entry)
run k s (error_reply text) = (eval_error text, s)
run k s (stored reply c) = (eval_result reply, put k (some (encoded c)) s)

put_self : (k : String) (e : Entry) (s : String → Entry) → put k e s k ≡ e
put_self k e s = rw ((eq_iff k k).1 refl) refl

run-IsEvaluated :
    (k : String) (s : String → Entry) (x : ScriptEnd exact_numbers)
    → IsEvaluated x (s k) (run k s x).0 ((run k s x).1 k)
run-IsEvaluated k s (error_reply text) = refl
run-IsEvaluated k s (stored reply c) = (refl, put_self k (some (encoded c)) s)

abbrev server : Scripting exact_numbers
server = record {
  Server = String → Entry;
  at = λ k s. s k;
  eval = λ k f s. run k s (f (s k));
  eval_runs = λ k f s. run-IsEvaluated k s (f (s k));
}

abbrev a_text : Time → String
a_text t = "2025-11-24T14:54:16Z"

abbrev entries : String → Entry
entries k = some (of_customer exact_numbers a_text customer)

customer-IsShortAccount : IsShortAccount (pos 1000000) customer
unfolding ◌+ℤ◌
customer-IsShortAccount = record {
  positive = omega arith;
  short_amount = omega arith;
  asset_value = omega arith;
  term = omega arith;
  owed = omega arith;
  outstanding_balance = omega arith;
  total_paid = omega arith;
  total = omega arith;
  version = omega arith;
  next_version = omega arith;
}

update_balance-IsOutcome_example :
    IsOutcome
      (customer.version ≡ pos 1)
      (entries (customer_key "GIG00001"))
      (of_customer exact_numbers a_text (bumped (after_payment (pos 1000000) (pos 9) customer)))
      (update_balance server "GIG00001" (pos 1000000) (pos 1) (a_text (pos 9)) entries).0
      ((update_balance server "GIG00001" (pos 1000000) (pos 1) (a_text (pos 9)) entries).1
        (customer_key "GIG00001"))
update_balance-IsOutcome_example =
    update_balance-IsOutcome server a_text "GIG00001" (pos 1000000) (pos 1) (pos 9) customer
      (after_payment (pos 1000000) (pos 9) customer) entries
      (apply_payment-eq_ok (pos 1000000) (pos 9) customer (omega arith) refl) refl
      customer-IsShortAccount (omega arith)

updated :
    (update_balance server "GIG00001" (pos 1000000) (pos 1) (a_text (pos 9)) entries).0 ≡ ok tt
unfolding update_balance script result_of ◌-ℤ◌
updated = refl
