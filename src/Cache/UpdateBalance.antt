-- ===== src/Cache/UpdateBalance.antt =====
-- `UpdateBalance` of repository/redis/customer_repository.go: a Lua script over the JSON of a customer.
-- Lua's numbers are floats, and cjson writes them with 14 digits: they are a parameter. So is EVAL.
pub mod Agrees
pub mod Run
use gigmile_test.Prelude.{
  ℕ, ◌^◌, ◌<◌, ◌≡◌, ◌⊎◌, String, Bool, not, Option, none, some, str_eq, if◌then◌else◌,
}
use gigmile_test.Prelude.Int.{ℤ, pos, magnitude, ◌+ℤ◌, ◌-ℤ◌, is_zero, ltb_ℤ}
use gigmile_test.Domain.Errors.{
  redis_customer_not_found, redis_version_mismatch, wrap, external, message,
}
use gigmile_test.Cache.Keys.{customer_key}
use gigmile_test.Result.{Result, ok, err}

-- A whole number of at most 14 digits.
abbrev pub IsShort : ℤ → Type 0
IsShort a = magnitude a < 10 ^ 14

pub record LuaNumbers : Type 1 where
  pub Number : Type 0
  -- `tonumber` of a decimal text, and what cjson makes of one
  pub number : ℤ → Number
  pub plus : Number → Number → Number
  pub minus : Number → Number → Number
  pub equals : Number → Number → Bool
  pub less : Number → Number → Bool
  -- what a number is once cjson has written and read it
  pub rewritten : Number → Number
  pub rewritten_exact : (a : ℤ) → IsShort a → rewritten (number a) ≡ number a
  -- whole numbers are exact up to 2^53
  pub plus_exact : (a b : ℤ) → IsShort a → IsShort b → plus (number a) (number b) ≡ number (a +ℤ b)
  pub minus_exact :
      (a b : ℤ) → IsShort a → IsShort b → minus (number a) (number b) ≡ number (a -ℤ b)
  pub equals_exact :
      (a b : ℤ)
      → magnitude a < 2 ^ 53
      → magnitude b < 2 ^ 53
      → equals (number a) (number b) ≡ is_zero (a -ℤ b)
  pub less_exact :
      (a b : ℤ)
      → magnitude a < 2 ^ 53
      → magnitude b < 2 ^ 53
      → less (number a) (number b) ≡ ltb_ℤ a b

module _ (lua : LuaNumbers) where
  open lua use {Number, number, plus, minus, equals, less}

  -- The table that `cjson.decode` makes of a customer's JSON.
  pub record LuaCustomer : Type 0 where
    pub id : String
    pub asset_value : Number
    pub repayment_term_weeks : Number
    pub outstanding_balance : Number
    pub total_paid : Number
    pub deployment_date : String
    pub last_payment_date : Option String
    pub status : String
    pub version : Number

-- How the script ends: with an error's text, or with a reply and the table that it has stored.
pub data ScriptEnd (lua : LuaNumbers) : Type 0 where
  error_reply : String → ScriptEnd lua
  stored : String → LuaCustomer lua → ScriptEnd lua

-- What `client.Eval(…).Result()` returns: the text of an error, or the reply.
pub data EvalReply : Type 0 where
  eval_error : String → EvalReply
  eval_result : String → EvalReply

module _ (lua : LuaNumbers) where
  open lua use {Number, number, minus, less}

  -- `customer.OutstandingBalance`, with an overpayment clamped
  unfoldable pub script_balance : Number → Number → Number
  script_balance outstanding amount =
      let balance = minus outstanding amount in
      if less balance (number (pos 0)) then number (pos 0) else balance

module _ {lua : LuaNumbers} where
  open lua use {Number, number, plus, equals}

  unfoldable pub charged : Number → String → LuaCustomer lua → LuaCustomer lua
  charged amount now c = record c {
    outstanding_balance = script_balance lua c.outstanding_balance amount;
    total_paid = plus c.total_paid amount;
    last_payment_date = some now;
    version = plus c.version (number (pos 1));
    status =
        if equals (script_balance lua c.outstanding_balance amount) (number (pos 0))
        then "COMPLETED"
        else c.status;
  }

  -- The script, by what GET finds.
  unfoldable pub script : Number → Number → String → Option (LuaCustomer lua) → ScriptEnd lua
  script amount expected_version now none = error_reply "customer not found"
  script amount expected_version now (some customer) =
      if not (equals customer.version expected_version)
      then error_reply "version mismatch"
      else stored "OK" (charged amount now customer)

-- `cjson.encode`, as it is decoded the next time
abbrev pub encoded : {lua : LuaNumbers} → LuaCustomer lua → LuaCustomer lua
encoded {lua} c = record c {
  asset_value = lua.rewritten c.asset_value;
  repayment_term_weeks = lua.rewritten c.repayment_term_weeks;
  outstanding_balance = lua.rewritten c.outstanding_balance;
  total_paid = lua.rewritten c.total_paid;
  version = lua.rewritten c.version;
}

-- A server of Redis that runs scripts. Where no error is reported, the script was run.
abbrev pub IsEvaluated :
    {lua : LuaNumbers}
    → ScriptEnd lua
    → Option (LuaCustomer lua)
    → EvalReply
    → Option (LuaCustomer lua)
    → Type 0
IsEvaluated (error_reply text) before (eval_result reply) after = ⊥
IsEvaluated (error_reply text) before (eval_error e) after = after ≡ before
IsEvaluated (stored reply' c) before (eval_result reply) after =
    (reply ≡ reply') × (after ≡ some (encoded c))
IsEvaluated (stored reply' c) before (eval_error e) after =
    (after ≡ before) ⊎ (after ≡ some (encoded c))

pub record Scripting (lua : LuaNumbers) : Type 1 where
  pub Server : Type 0
  pub at : String → Server → Option (LuaCustomer lua)
  pub eval : String → (Option (LuaCustomer lua) → ScriptEnd lua) → Server → EvalReply × Server
  pub eval_runs :
      (k : String) (f : Option (LuaCustomer lua) → ScriptEnd lua) (s : Server)
      → IsEvaluated (f (at k s)) (at k s) (eval k f s).0 (at k (eval k f s).1)

-- By the texts of the errors.
unfoldable pub result_of : EvalReply → Result (Unit {0})
result_of (eval_error text) =
    if str_eq text "customer not found"
    then err redis_customer_not_found
    else if str_eq text "version mismatch"
    then err redis_version_mismatch
    else err (wrap "failed to update balance" (external text))
result_of (eval_result reply) =
    if not (str_eq reply "OK") then err (message "unexpected result from update") else ok tt

module _ {lua : LuaNumbers} (redis : Scripting lua) where
  open redis use {Server, eval}

  -- `now` is the text of the instant.
  unfoldable pub update_balance : String → ℤ → ℤ → String → Server → Result (Unit {0}) × Server
  update_balance customer_id amount version now s =
      let (reply, t) =
        eval (customer_key customer_id) (script (lua.number amount) (lua.number version) now) s in
      (result_of reply, t)
