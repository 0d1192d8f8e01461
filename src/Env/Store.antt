-- ===== src/Env/Store.antt =====
-- Redis, as its client shows it. An entry may be gone at any time, by expiry or eviction; a write
-- that reports an error may have been carried out or not.
use gigmile_test.Prelude.{ℕ, ◌<◌, String, ◌≡◌, ◌≢◌, ◌⊎◌, Bool, Option, none, some, List}
use gigmile_test.Prelude.Int.{pos}
use gigmile_test.Domain.Customer.{Customer}
use gigmile_test.Domain.Payment.{Payment}
use gigmile_test.Result.{Result, ok, err}

-- The texts that the service stores, by what `json.Marshal` was given.
pub data Json : Type 0 where
  customer_json : Customer → Json
  payment_json : Payment → Json

-- `json.Unmarshal` into a Customer. A text made from a Payment would set the fields of the same
-- names and leave the others zero.
unfoldable pub unmarshal_customer : Json → Customer
unmarshal_customer (customer_json c) = c
unmarshal_customer (payment_json p) = record {
  id = p.id;
  asset_value = pos 0;
  repayment_term_weeks = pos 0;
  outstanding_balance = pos 0;
  total_paid = pos 0;
  deployment_date = pos 0;
  last_payment_date = none;
  status = p.status;
  version = pos 0;
}

unfoldable pub unmarshal_payment : Json → Payment
unmarshal_payment (payment_json p) = p
unmarshal_payment (customer_json c) = record {
  id = c.id;
  customer_id = "";
  amount = pos 0;
  transaction_reference = "";
  transaction_date = pos 0;
  status = c.status;
  processed_at = pos 0;
  created_at = pos 0;
}

-- A key holds a text, or a list of references.
pub data Value : Type 0 where
  text : Json → Value
  refs : List String → Value

abbrev pub Entries : Type 0
Entries = String → Option Value

-- No entry is new or changed.
abbrev pub IsWithin : Entries → Entries → Type 0
IsWithin after before = (j : String) → (after j ≡ none) ⊎ (after j ≡ before j)

-- At most the entry at `key` is new, and it is `v`.
abbrev pub IsWritten : String → Value → Entries → Entries → Type 0
IsWritten key v after before =
    (j : String) → (after j ≡ none) ⊎ (after j ≡ before j) ⊎ ((key ≡ j) × (after j ≡ some v))

abbrev pub IsGot : Option Value → Result Json → Type 0
IsGot found (ok j) = found ≡ some (text j)
IsGot found (err e) = Unit

abbrev pub IsDeleted : Option Value → Result (Unit {0}) → Type 0
IsDeleted after (ok _) = after ≡ none
IsDeleted after (err e) = Unit

-- EXISTS counts the keys that are there.
abbrev pub IsThere : Option Value → Result ℕ → Type 0
IsThere found (ok n) = 0 < n → found ≢ none
IsThere found (err e) = Unit

pub record Redis : Type 1 where
  pub Store : Type 0
  pub entries : Store → Entries
  pub get : String → Store → Result Json × Store
  pub get_keeps : (k : String) (s : Store) → IsWithin (entries (get k s).1) (entries s)
  pub get_gets : (k : String) (s : Store) → IsGot (entries s k) (get k s).0
  -- the last number is the time to live in seconds, 0 for ever
  pub set : String → Json → ℕ → Store → Result (Unit {0}) × Store
  pub set_writes :
      (k : String) (v : Json) (ttl : ℕ) (s : Store)
      → IsWritten k (text v) (entries (set k v ttl s).1) (entries s)
  -- whether the entry was set
  pub set_nx : String → Json → Store → Result Bool × Store
  pub set_nx_writes :
      (k : String) (v : Json) (s : Store)
      → IsWritten k (text v) (entries (set_nx k v s).1) (entries s)
  pub del : String → Store → Result (Unit {0}) × Store
  pub del_keeps : (k : String) (s : Store) → IsWithin (entries (del k s).1) (entries s)
  pub del_deletes : (k : String) (s : Store) → IsDeleted (entries (del k s).1 k) (del k s).0
  pub exists : String → Store → Result ℕ × Store
  pub exists_keeps : (k : String) (s : Store) → IsWithin (entries (exists k s).1) (entries s)
  pub exists_there : (k : String) (s : Store) → IsThere (entries s k) (exists k s).0
  -- a reference appended to a list
  pub rpush : String → String → Store → Result (Unit {0}) × Store
  pub rpush_keeps :
      (k ref : String) (s : Store) (j : String)
      → (entries (rpush k ref s).1 j ≡ none)
        ⊎ (entries (rpush k ref s).1 j ≡ entries s j)
        ⊎ ((l : List String) × (entries (rpush k ref s).1 j ≡ some (refs l)))
