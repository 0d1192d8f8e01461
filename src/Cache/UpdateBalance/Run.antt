-- ===== src/Cache/UpdateBalance/Run.antt =====
-- What an update of a cached customer's balance leaves in Redis.
use gigmile_test.Prelude.{
  ◌≡◌, sym, ◌∙◌, ◌⊎◌, inl, inr, String, true, Option, some, arith, str_eq, Bool-cases,
}
use gigmile_test.Prelude.Int.{ℤ, is_zero, ◌-ℤ◌}
use gigmile_test.Domain.Customer.{Customer, apply_payment}
use gigmile_test.Domain.Customer.Balance.{after_payment}
use gigmile_test.Domain.Errors.{Error}
use gigmile_test.Domain.Time.{Time}
use gigmile_test.Mysql.Customers.Save.{bumped}
use gigmile_test.Result.{Result, ok, err, Ensures-ok}
use gigmile_test.Service.Process.Apply.{IsAccepted, apply_payment-accepts}
use gigmile_test.Cache.Keys.{customer_key}
use gigmile_test.Cache.UpdateBalance.{
  IsShort, LuaNumbers, LuaCustomer, error_reply, stored, EvalReply, eval_error, eval_result,
  charged, script, encoded, IsEvaluated, Scripting, result_of, update_balance,
}
use gigmile_test.Cache.UpdateBalance.Agrees.{
  IsShortAccount, short_fits, of_customer, encoded-charged,
}

-- Success says that the entry was updated; an error leaves it alone, or it came after the update.
abbrev pub IsOutcome :
    {lua : LuaNumbers}
    → Type 0
    → Option (LuaCustomer lua)
    → LuaCustomer lua
    → Result (Unit {0})
    → Option (LuaCustomer lua)
    → Type 0
IsOutcome matches before new (ok _) after = matches × (after ≡ some new)
IsOutcome matches before new (err e) after = (after ≡ before) ⊎ (matches × (after ≡ some new))

an_error :
    (Q : Result (Unit {0}) → Type 0) (text : String)
    → ((e : Error) → Q (err e))
    → Q (result_of (eval_error text))
unfolding result_of
an_error Q text h = elim (Bool-cases (str_eq text "customer not found")) [
  | inl missing ↦ rw missing (h _)
  | inr a ↦ elim (Bool-cases (str_eq text "version mismatch")) [
    | inl stale ↦ rw (a, stale) (h _)
    | inr b ↦ rw (a, b) (h _)
  ]
]

same_version : (a b : ℤ) → is_zero (a -ℤ b) ≡ true → a ≡ b
unfolding ◌-ℤ◌
same_version a b h = ground arith

accepted_eq :
    (amount : ℤ) (date : Time) (c d : Customer)
    → apply_payment amount date c ≡ ok d
    → d ≡ after_payment amount date c
accepted_eq amount date c d accepted =
    let (_, _, e) =
      Ensures-ok (IsAccepted amount date c) (apply_payment amount date c)
        (apply_payment-accepts amount date c) accepted in
    e

module _ {lua : LuaNumbers} where
  refused-IsOutcome :
      (matches : Type 0) (text : String) (before : Option (LuaCustomer lua)) (new : LuaCustomer lua)
      (reply : EvalReply) (after : Option (LuaCustomer lua))
      → IsEvaluated (error_reply text) before reply after
      → IsOutcome matches before new (result_of reply) after
  refused-IsOutcome matches text before new (eval_result reply) after bad = absurd bad
  refused-IsOutcome matches text before new (eval_error e) after same =
      an_error (λ x. IsOutcome matches before new x after) e (λ _. inl same)

  stored-IsOutcome :
      (matches : Type 0) (before : Option (LuaCustomer lua)) (c : LuaCustomer lua)
      (reply : EvalReply) (after : Option (LuaCustomer lua))
      → matches
      → IsEvaluated (stored "OK" c) before reply after
      → IsOutcome matches before (encoded c) (result_of reply) after
  unfolding result_of
  stored-IsOutcome matches before c (eval_result reply) after m (replied, there) =
      rw replied (m, there)
  stored-IsOutcome matches before c (eval_error e) after m (inl same) =
      an_error (λ x. IsOutcome matches before (encoded c) x after) e (λ _. inl same)
  stored-IsOutcome matches before c (eval_error e) after m (inr there) =
      an_error (λ x. IsOutcome matches before (encoded c) x after) e (λ _. inr (m, there))

module _ {lua : LuaNumbers} (redis : Scripting lua) (format_time : Time → String) where
  open redis use {Server, at, eval, eval_runs}

  evaluated-IsOutcome :
      (amount version : ℤ) (date : Time) (c : Customer) (reply : EvalReply)
      (after : Option (LuaCustomer lua))
      → IsShortAccount amount c
      → IsShort version
      → IsEvaluated
          (script
            (lua.number amount)
            (lua.number version)
            (format_time date)
            (some (of_customer lua format_time c)))
          (some (of_customer lua format_time c))
          reply
          after
      → IsOutcome
          (c.version ≡ version)
          (some (of_customer lua format_time c))
          (encoded (charged (lua.number amount) (format_time date) (of_customer lua format_time c)))
          (result_of reply)
          after
  unfolding script
  evaluated-IsOutcome amount version date c reply after h v ran =
      elim (Bool-cases (lua.equals (lua.number c.version) (lua.number version))) [
        | inl same ↦
            stored-IsOutcome (c.version ≡ version) _ _ reply after
              (same_version c.version version (
                sym (
                  lua.equals_exact c.version version (short_fits c.version h.version)
                    (short_fits version v))
                ∙ same))
              (rw same at ran)
        | inr other ↦
            refused-IsOutcome (c.version ≡ version) "version mismatch" _ _ reply after
              (rw other at ran)
      ]

  -- Where the entry of a customer in Redis has whole numbers of at most 14 digits, which the
  -- payment and the version counted up keep so, and ApplyPayment accepts the payment, an update
  -- of its balance that reports success was given the version of the entry and leaves the
  -- customer that ApplyPayment makes of it, with the version counted up; an error leaves the
  -- entry as it was, or it was reported after such an update. The script does not refuse what
  -- ApplyPayment refuses.
  pub update_balance-IsOutcome :
      (id : String) (amount version : ℤ) (date : Time) (c d : Customer) (s : Server)
      → apply_payment amount date c ≡ ok d
      → at (customer_key id) s ≡ some (of_customer lua format_time c)
      → IsShortAccount amount c
      → IsShort version
      → IsOutcome
          (c.version ≡ version)
          (at (customer_key id) s)
          (of_customer lua format_time (bumped d))
          (update_balance redis id amount version (format_time date) s).0
          (at (customer_key id) (update_balance redis id amount version (format_time date) s).1)
  unfolding update_balance
  update_balance-IsOutcome id amount version date c d s accepted there h v =
      rw
        (
          there,
          accepted_eq amount date c d accepted,
          ← encoded-charged lua format_time amount date c h,
        )
        (evaluated-IsOutcome amount version date c _ _ h v (
          rw there at (
            eval_runs (customer_key id)
              (script (lua.number amount) (lua.number version) (format_time date)) s)))
