-- ===== src/Memory.antt =====
-- A database and a cache in memory that keep the promises of `Sql` and `Redis`. The database can be
-- told to refuse every UPDATE, as it does when its disk is full.
pub mod Sort
pub mod Streams
use gigmile_test.Prelude.{
  ℕ, suc, String, ◌≡◌, refl, ◌⊎◌, inl, inr, Bool, true, false, Option, none, some, List, [], ◌∷◌,
  ◌++◌, arith, str_eq, eq_iff, length, take, drop, all, all-take, all-drop, length-take, Bool-cases,
  if◌then◌else◌,
}
use gigmile_test.Prelude.Int.{ℤ, pos, pos_part}
use gigmile_test.Domain.Errors.{gorm_record_not_found, redis_nil, external}
use gigmile_test.Persistence.{CustomerModel, PaymentModel}
use gigmile_test.Env.{Env}
use gigmile_test.Env.Database.{
  Sql, Tables, select, put_customer, sum_of, IsInsertCustomer, has_reference, update_where, IsFirst,
  IsUpdate, IsInsert,
}
use gigmile_test.Env.Store.{
  Redis, Json, Value, text, refs, Entries, IsWithin, IsWritten, IsGot, IsThere,
}
use gigmile_test.Memory.Sort.{by_date, by_date-IsOrdering}
use gigmile_test.Mysql.Up.{IsUp}
use gigmile_test.Result.{Result, ok, err}

abbrev pub first {ℓ} : {A : Type ℓ} → Option A → Result A
first none = err gorm_record_not_found
first (some a) = ok a

pub first-IsFirst {ℓ} : {A : Type ℓ} (o : Option A) → IsFirst o (first o)
first-IsFirst none = λ _. refl
first-IsFirst (some a) = refl

abbrev pub head {ℓ} : {A : Type ℓ} → List A → Option A
head [] = none
head (a ∷ rest) = some a

-- an UPDATE, on a disk that is full or not
abbrev pub update : Bool → String → ℤ → (CustomerModel → CustomerModel) → Tables → Result ℕ × Tables
update true id version change db = (err (external "Error 1114 (HY000): The table is full"), db)
update false id version change db =
    let (rows, t) = update_where id version change db in (ok rows, t)

pub update-IsUpdate :
    (full : Bool) (id : String) (version : ℤ) (change : CustomerModel → CustomerModel) (db : Tables)
    → IsUpdate
        (update_where id version change db)
        db
        (update full id version change db).0
        (update full id version change db).1
update-IsUpdate true id version change db = refl
update-IsUpdate false id version change db = refl

abbrev pub insert_unless : List PaymentModel → PaymentModel → Tables → Result (Unit {0}) × Tables
insert_unless [] m db = (ok tt, record db { payments = m ∷ db.payments })
insert_unless (x ∷ xs) m db = (err (external "Error 1062 (23000): Duplicate entry"), db)

abbrev pub insert : PaymentModel → Tables → Result (Unit {0}) × Tables
insert m db = insert_unless (select (has_reference m.transaction_reference) db.payments) m db

pub insert_unless-IsInsert :
    (found : List PaymentModel) (m : PaymentModel) (db : Tables)
    → select (has_reference m.transaction_reference) db.payments ≡ found
    → IsInsert m db (insert_unless found m db).0 (insert_unless found m db).1
insert_unless-IsInsert [] m db e = (e, refl)
insert_unless-IsInsert (x ∷ xs) m db e = refl

abbrev pub insert_customer_unless :
    Option CustomerModel → CustomerModel → Tables → Result (Unit {0}) × Tables
insert_customer_unless none m db =
    (ok tt, record db { customers = put_customer m.id m db.customers })
insert_customer_unless (some old) m db = (err (external "Error 1062 (23000): Duplicate entry"), db)

pub insert_customer_unless-IsInsertCustomer :
    (found : Option CustomerModel) (m : CustomerModel) (db : Tables)
    → db.customers m.id ≡ found
    → IsInsertCustomer m db
        (insert_customer_unless found m db).0
        (insert_customer_unless found m db).1
insert_customer_unless-IsInsertCustomer none m db e = (
  e,
  (
    m,
    record {
      id = refl;
      asset_value = refl;
      outstanding_balance = refl;
      total_paid = refl;
      repayment_term_weeks = refl;
      status = refl;
      version = refl;
      deployed = λ _. refl;
      last_paid = λ _. refl;
    },
    refl,
  ),
)
insert_customer_unless-IsInsertCustomer (some old) m db e = refl

abbrev pub memory_sql : Bool → Sql
memory_sql full = record {
  Db = Tables;
  tables = λ db. db;
  first_customer = λ id db. (first (db.customers id), db);
  first_customer_reads = λ id db. refl;
  first_customer_finds = λ id db. first-IsFirst (db.customers id);
  update_customer = update full;
  update_customer_writes = update-IsUpdate full;
  insert_payment = insert;
  insert_payment_writes = λ m db. insert_unless-IsInsert _ m db refl;
  first_payment = λ ref db. (first (head (select (has_reference ref) db.payments)), db);
  first_payment_reads = λ ref db. refl;
  count_payments = λ p db. (ok (pos (length (select p db.payments))), db);
  count_payments_reads = λ p db. refl;
  count_payments_counts = λ p db. refl;
  find_payments = λ p db. (ok (select p db.payments), db);
  find_payments_reads = λ p db. refl;
  find_page = λ p limit offset db.
      (ok (take (pos_part limit) (drop (pos_part offset) (by_date (select p db.payments)))), db);
  find_page_reads = λ p limit offset db. refl;
  find_page_finds = λ p limit offset db positive.
      (by_date (select p db.payments), by_date-IsOrdering (select p db.payments), refl);
  insert_customer = λ m db. insert_customer_unless (db.customers m.id) m db;
  insert_customer_writes = λ m db. insert_customer_unless-IsInsertCustomer _ m db refl;
  -- The rows are a function, which this database cannot list.
  find_customers = λ status limit db. (err (external "not supported"), db);
  find_customers_reads = λ status limit db. refl;
  find_customers_finds = λ status limit db. tt;
  sum_payments = λ p db. (ok (sum_of (select p db.payments)), db);
  sum_payments_reads = λ p db. refl;
  sum_payments_sums = λ p db. refl;
}

abbrev pub get_from : Option Value → Result Json
get_from none = err redis_nil
get_from (some (text j)) = ok j
get_from (some (refs l)) = err (external "WRONGTYPE")

pub get_from-IsGot : (o : Option Value) → IsGot o (get_from o)
get_from-IsGot none = tt
get_from-IsGot (some (text j)) = refl
get_from-IsGot (some (refs l)) = tt

abbrev pub put : String → Value → Entries → Entries
put k v e j = if str_eq k j then some v else e j

pub put-IsWritten : (k : String) (v : Value) (e : Entries) → IsWritten k v (put k v e) e
put-IsWritten k v e j = elim (Bool-cases (str_eq k j)) [
  | inl same ↦ inr (inr ((eq_iff k j).0 same, rw same refl))
  | inr other ↦ inr (inl (rw other refl))
]

abbrev pub remove : String → Entries → Entries
remove k e j = if str_eq k j then none else e j

pub remove-IsWithin : (k : String) (e : Entries) → IsWithin (remove k e) e
remove-IsWithin k e j = elim (Bool-cases (str_eq k j)) [
  | inl same ↦ inl (rw same refl)
  | inr other ↦ inr (rw other refl)
]

pub remove_self : (k : String) (e : Entries) → remove k e k ≡ none
remove_self k e = rw ((eq_iff k k).1 refl) refl

abbrev pub set_new : Option Value → String → Json → Entries → Result Bool × Entries
set_new none k v e = (ok true, put k (text v) e)
set_new (some old) k v e = (ok false, e)

pub set_new-IsWritten :
    (o : Option Value) (k : String) (v : Json) (e : Entries)
    → IsWritten k (text v) (set_new o k v e).1 e
set_new-IsWritten none k v e j = put-IsWritten k (text v) e j
set_new-IsWritten (some old) k v e j = inr (inl refl)

abbrev pub count_of : Option Value → ℕ
count_of none = 0
count_of (some v) = 1

pub count_of-IsThere : (o : Option Value) → IsThere o (ok (count_of o))
count_of-IsThere none = λ h. absurd (omega arith)
count_of-IsThere (some v) = λ h e. cc

abbrev pub push : Option Value → String → List String
push (some (refs l)) ref = l ++ ref ∷ []
push _ ref = ref ∷ []

pub push_writes :
    (k ref : String) (e : Entries) (j : String)
    → (put k (refs (push (e k) ref)) e j ≡ none)
      ⊎ (put k (refs (push (e k) ref)) e j ≡ e j)
      ⊎ ((l : List String) × (put k (refs (push (e k) ref)) e j ≡ some (refs l)))
push_writes k ref e j = elim (Bool-cases (str_eq k j)) [
  | inl same ↦ inr (inr (push (e k) ref, rw same refl))
  | inr other ↦ inr (inl (rw other refl))
]

abbrev pub memory_redis : Redis
memory_redis = record {
  Store = Entries;
  entries = λ e. e;
  get = λ k e. (get_from (e k), e);
  get_keeps = λ k e j. inr refl;
  get_gets = λ k e. get_from-IsGot (e k);
  set = λ k v ttl e. (ok tt, put k (text v) e);
  set_writes = λ k v ttl e. put-IsWritten k (text v) e;
  set_nx = λ k v e. set_new (e k) k v e;
  set_nx_writes = λ k v e. set_new-IsWritten (e k) k v e;
  del = λ k e. (ok tt, remove k e);
  del_keeps = remove-IsWithin;
  del_deletes = remove_self;
  exists = λ k e. (ok (count_of (e k)), e);
  exists_keeps = λ k e j. inr refl;
  exists_there = λ k e. count_of-IsThere (e k);
  rpush = λ k ref e. (ok tt, put k (refs (push (e k) ref)) e);
  rpush_keeps = push_writes;
}

-- A clock that counts up, and numbered identifiers.
abbrev pub memory_on : Bool → Env
memory_on full = record {
  sql = memory_sql full;
  redis = memory_redis;
  time_at = λ n. pos (suc n);
  uuid_at = λ n. "id";
  has_publisher = true;
}

abbrev pub memory : Env
memory = memory_on false

-- Where the disk is not full, the database is in order.
pub memory-IsUp : IsUp memory
memory-IsUp = record {
  first_customer = λ id db m there. rw there refl;
  update_customer = λ id version change db h. (_, refl);
  insert_payment = λ m db h. rw h.new refl;
  count_payments = λ p db. (_, refl);
}
