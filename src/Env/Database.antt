-- ===== src/Env/Database.antt =====
-- MySQL, as gorm shows it: the statements that the repositories issue, and what SQL promises of
-- them. A statement that fails is assumed to leave the tables alone. Texts are compared as they are,
-- as utf8mb4_unicode_ci compares those of digits and capital letters (Env/Columns): it takes two
-- texts for one that differ only in case. The instants of a payment, and the date of the last
-- payment of a customer, are whole seconds where they come from a client, and are taken to be
-- stored as they are.
use gigmile_test.Prelude.{
  ℕ, String, ◌≡◌, Bool, true, Option, none, some, List, [], ◌∷◌, str_eq, length, all, take, drop,
  ◌≤◌, ◌%◌, ◌==◌, if◌then◌else◌,
}
use mathlib.Core.List.{Memᴰ, Permᴰ}
use gigmile_test.Prelude.Int.{ℤ, pos, pos_part, magnitude, is_zero, leb_ℤ, ◌+ℤ◌, ◌-ℤ◌, ◌<ℤ◌}
use gigmile_test.Domain.Time.{Time}
use gigmile_test.Domain.Errors.{is_record_not_found}
use gigmile_test.Persistence.{CustomerModel, PaymentModel}
use gigmile_test.Result.{Result, ok, err}

pub record Tables : Type 0 where
  pub customers : String → Option CustomerModel
  pub payments : List PaymentModel

abbrev pub put_customer :
    String → CustomerModel → (String → Option CustomerModel) → String → Option CustomerModel
put_customer id m rows j = if str_eq id j then some m else rows j

abbrev pub select : (PaymentModel → Bool) → List PaymentModel → List PaymentModel
select p [] = []
select p (m ∷ ms) = if p m then m ∷ select p ms else select p ms

abbrev pub has_reference : String → PaymentModel → Bool
has_reference ref m = str_eq m.transaction_reference ref

abbrev pub has_customer : String → PaymentModel → Bool
has_customer id m = str_eq m.customer_id id

-- SELECT … LIMIT 1, where `found` is the row that is there
abbrev pub IsFirst {ℓ} : {A : Type ℓ} → Option A → Result A → Type ℓ
IsFirst found (ok a) = found ≡ some a
IsFirst found (err e) = is_record_not_found e ≡ true → found ≡ none

-- UPDATE customers SET … WHERE id = ? AND version = ?: the rows affected, and the tables after it
unfoldable pub update_where : String → ℤ → (CustomerModel → CustomerModel) → Tables → ℕ × Tables
update_where id version change t = elim (t.customers id) [
  | none ↦ (0, t)
  | some m ↦
      if is_zero (m.version -ℤ version)
      then (1, record t { customers = put_customer id (change m) t.customers })
      else (0, t)
]

abbrev pub IsUpdate : ℕ × Tables → Tables → Result ℕ → Tables → Type 0
IsUpdate spec before (ok rows) after = spec ≡ (rows, after)
IsUpdate spec before (err e) after = after ≡ before

-- INSERT INTO payments: the reference is unique.
abbrev pub IsInsert : PaymentModel → Tables → Result (Unit {0}) → Tables → Type 0
IsInsert m before (ok _) after =
    (select (has_reference m.transaction_reference) before.payments ≡ [])
    × (after ≡ record before { payments = m ∷ before.payments })
IsInsert m before (err e) after = after ≡ before

-- SELECT COUNT(*)
abbrev pub IsCount : List PaymentModel → Result ℤ → Type 0
IsCount found (ok n) = n ≡ pos (length found)
IsCount found (err e) = Unit

-- ORDER BY transaction_date DESC: rows of the same date stand in any order.
abbrev pub is_not_after : PaymentModel → PaymentModel → Bool
is_not_after m x = leb_ℤ x.transaction_date m.transaction_date

abbrev pub IsLatestFirst : List PaymentModel → Type 0
IsLatestFirst [] = Unit
IsLatestFirst (m ∷ ms) = (all (is_not_after m) ms ≡ true) × IsLatestFirst ms

pub record IsOrdering (found ordered : List PaymentModel) : Type 0 where
  pub same_rows : Permᴰ found ordered
  pub latest_first : IsLatestFirst ordered

-- SELECT … ORDER BY … LIMIT … OFFSET: a part of the rows found, in the order. gorm leaves out an
-- OFFSET that is not positive.
abbrev pub IsPage : List PaymentModel → ℤ → ℤ → Result (List PaymentModel) → Type 0
IsPage found limit offset (ok page) =
    (ordered : List PaymentModel) × IsOrdering found ordered
    × (page ≡ take (pos_part limit) (drop (pos_part offset) ordered))
IsPage found limit offset (err e) = Unit

-- A whole second, which a TIMESTAMP and a DATETIME hold as it is.
abbrev pub is_whole : Time → Bool
is_whole t = magnitude t % 1000000000 == 0

abbrev pub is_whole_or_none : Option Time → Bool
is_whole_or_none none = true
is_whole_or_none (some t) = is_whole t

-- A row as the table stores it: instants are rounded.
pub record IsStored (m row : CustomerModel) : Type 0 where
  pub id : row.id ≡ m.id
  pub asset_value : row.asset_value ≡ m.asset_value
  pub outstanding_balance : row.outstanding_balance ≡ m.outstanding_balance
  pub total_paid : row.total_paid ≡ m.total_paid
  pub repayment_term_weeks : row.repayment_term_weeks ≡ m.repayment_term_weeks
  pub status : row.status ≡ m.status
  pub version : row.version ≡ m.version
  pub deployed : is_whole m.deployment_date ≡ true → row.deployment_date ≡ m.deployment_date
  pub last_paid :
      is_whole_or_none m.last_payment_date ≡ true → row.last_payment_date ≡ m.last_payment_date

-- INSERT INTO customers: the identifier is the key.
abbrev pub IsInsertCustomer : CustomerModel → Tables → Result (Unit {0}) → Tables → Type 0
IsInsertCustomer m before (ok _) after =
    (before.customers m.id ≡ none)
    × ((row : CustomerModel) × IsStored m row
        × (after ≡ record before { customers = put_customer m.id row before.customers }))
IsInsertCustomer m before (err e) after = after ≡ before

-- SELECT … WHERE status = ? LIMIT: rows of the table; gorm leaves out a LIMIT that is not positive.
abbrev pub IsRows : String → ℤ → Tables → Result (List CustomerModel) → Type 0
IsRows status limit t (ok ms) =
    ((m : CustomerModel) → Memᴰ m ms → (t.customers m.id ≡ some m) × (m.status ≡ status))
    × (pos 0 <ℤ limit → length ms ≤ pos_part limit)
IsRows status limit t (err e) = Unit

-- SELECT COALESCE(SUM(amount), 0)
abbrev pub sum_of : List PaymentModel → ℤ
sum_of [] = pos 0
sum_of (m ∷ ms) = m.amount +ℤ sum_of ms

abbrev pub IsSum : List PaymentModel → Result ℤ → Type 0
IsSum found (ok n) = n ≡ sum_of found
IsSum found (err e) = Unit

pub record Sql : Type 1 where
  pub Db : Type 0
  pub tables : Db → Tables
  pub first_customer : String → Db → Result CustomerModel × Db
  pub first_customer_reads : (id : String) (db : Db) → tables (first_customer id db).1 ≡ tables db
  pub first_customer_finds :
      (id : String) (db : Db) → IsFirst ((tables db).customers id) (first_customer id db).0
  pub update_customer : String → ℤ → (CustomerModel → CustomerModel) → Db → Result ℕ × Db
  pub update_customer_writes :
      (id : String) (version : ℤ) (change : CustomerModel → CustomerModel) (db : Db)
      → IsUpdate
          (update_where id version change (tables db))
          (tables db)
          (update_customer id version change db).0
          (tables (update_customer id version change db).1)
  pub insert_payment : PaymentModel → Db → Result (Unit {0}) × Db
  pub insert_payment_writes :
      (m : PaymentModel) (db : Db)
      → IsInsert m (tables db) (insert_payment m db).0 (tables (insert_payment m db).1)
  -- the first payment with a reference
  pub first_payment : String → Db → Result PaymentModel × Db
  pub first_payment_reads : (ref : String) (db : Db) → tables (first_payment ref db).1 ≡ tables db
  -- the number of payments that a condition holds of
  pub count_payments : (PaymentModel → Bool) → Db → Result ℤ × Db
  pub count_payments_reads :
      (p : PaymentModel → Bool) (db : Db) → tables (count_payments p db).1 ≡ tables db
  pub count_payments_counts :
      (p : PaymentModel → Bool) (db : Db)
      → IsCount (select p (tables db).payments) (count_payments p db).0
  -- the payments that a condition holds of, the latest first; and a part of them, given by LIMIT
  -- and OFFSET
  pub find_payments : (PaymentModel → Bool) → Db → Result (List PaymentModel) × Db
  pub find_payments_reads :
      (p : PaymentModel → Bool) (db : Db) → tables (find_payments p db).1 ≡ tables db
  pub find_page : (PaymentModel → Bool) → ℤ → ℤ → Db → Result (List PaymentModel) × Db
  pub find_page_reads :
      (p : PaymentModel → Bool) (limit offset : ℤ) (db : Db)
      → tables (find_page p limit offset db).1 ≡ tables db
  -- gorm leaves out a LIMIT that is not positive
  pub find_page_finds :
      (p : PaymentModel → Bool) (limit offset : ℤ) (db : Db)
      → pos 0 <ℤ limit
      → IsPage (select p (tables db).payments) limit offset (find_page p limit offset db).0
  pub insert_customer : CustomerModel → Db → Result (Unit {0}) × Db
  pub insert_customer_writes :
      (m : CustomerModel) (db : Db)
      → IsInsertCustomer m (tables db) (insert_customer m db).0 (tables (insert_customer m db).1)
  -- the customers with a status, the latest first
  pub find_customers : String → ℤ → Db → Result (List CustomerModel) × Db
  pub find_customers_reads :
      (status : String) (limit : ℤ) (db : Db)
      → tables (find_customers status limit db).1 ≡ tables db
  pub find_customers_finds :
      (status : String) (limit : ℤ) (db : Db)
      → IsRows status limit (tables db) (find_customers status limit db).0
  -- the sum of the amounts of the payments that a condition holds of
  pub sum_payments : (PaymentModel → Bool) → Db → Result ℤ × Db
  pub sum_payments_reads :
      (p : PaymentModel → Bool) (db : Db) → tables (sum_payments p db).1 ≡ tables db
  pub sum_payments_sums :
      (p : PaymentModel → Bool) (db : Db)
      → IsSum (select p (tables db).payments) (sum_payments p db).0
