-- ===== src/Scripts/SeedMysql.antt =====
-- scripts/seed_mysql.go: customers that are stored in MySQL, by a statement of its own, which is a
-- parameter. `log.Fatalf` ends the program: what follows an error is not done. The date of
-- deployment, fourteen days ago, is an argument.
pub mod Ends
pub mod Reset
pub mod Books
use Prim.Native.String.{◌++◌ as str_append}
use gigmile_test.Prelude.{String, ◌≡◌, Option, none, some, List, [], ◌∷◌, str_eq, if◌then◌else◌}
use gigmile_test.Prelude.Int.{ℤ, pos}
use gigmile_test.Domain.Time.{Time, zero_time}
use gigmile_test.Env.{Env}
use gigmile_test.Env.Database.{Sql, Tables, put_customer}
use gigmile_test.Persistence.{CustomerModel, customer_to_domain}
use gigmile_test.Result.{Result, ok, err}
use gigmile_test.World.{Action, pure, ◌>>=◌, ◌>>◌, on_db}

pub record SeedCustomer : Type 0 where
  pub id : String
  pub asset_value : ℤ
  pub term_weeks : ℤ

-- a row of the table in the script
abbrev pub seed : String → SeedCustomer
seed id = record { id = id; asset_value = pos 100000000; term_weeks = pos 50 }

unfoldable pub customers : List SeedCustomer
customers =
    seed "GIG00001"
    ∷ (seed "GIG00002" ∷ (seed "GIG00003" ∷ (seed "GIG00004" ∷ (seed "GIG00005" ∷ []))))

-- VALUES. The columns that it leaves out get their defaults.
abbrev pub values : Time → SeedCustomer → CustomerModel
values deployment_date c = record {
  id = c.id;
  asset_value = c.asset_value;
  outstanding_balance = c.asset_value;
  total_paid = pos 0;
  repayment_term_weeks = c.term_weeks;
  deployment_date = deployment_date;
  last_payment_date = none;
  status = "ACTIVE";
  version = pos 1;
  created_at = zero_time;
  updated_at = zero_time;
}

-- ON DUPLICATE KEY UPDATE
abbrev pub on_duplicate : CustomerModel → CustomerModel → CustomerModel
on_duplicate new old = record old {
  asset_value = new.asset_value;
  outstanding_balance = new.outstanding_balance;
  total_paid = new.total_paid;
}

-- The row after INSERT … ON DUPLICATE KEY UPDATE, by the row that was there.
abbrev pub upserted :
    (CustomerModel → CustomerModel → CustomerModel)
    → CustomerModel
    → Option CustomerModel
    → CustomerModel
upserted change new none = new
upserted change new (some old) = change new old

-- The table sets the two instants of a row itself, and may round the others.
pub record IsLike (m row : CustomerModel) : Type 0 where
  pub id : row.id ≡ m.id
  pub asset_value : row.asset_value ≡ m.asset_value
  pub outstanding_balance : row.outstanding_balance ≡ m.outstanding_balance
  pub total_paid : row.total_paid ≡ m.total_paid
  pub repayment_term_weeks : row.repayment_term_weeks ≡ m.repayment_term_weeks
  pub status : row.status ≡ m.status
  pub version : row.version ≡ m.version

pub record IsUpserted (change : CustomerModel → CustomerModel → CustomerModel) (new : CustomerModel)
    (before after : Tables) : Type 0 where
  pub row : CustomerModel
  pub like : IsLike (upserted change new (before.customers new.id)) row
  pub tables : after ≡ record before { customers = put_customer new.id row before.customers }

abbrev pub Upserted :
    (CustomerModel → CustomerModel → CustomerModel)
    → CustomerModel
    → Tables
    → Result (Unit {0})
    → Tables
    → Type 0
Upserted change new before (ok _) after = IsUpserted change new before after
Upserted change new before (err e) after = after ≡ before

-- The statement, as database/sql carries it out.
pub record Upserts (sql : Sql) : Type 0 where
  pub exec :
      (CustomerModel → CustomerModel → CustomerModel)
      → CustomerModel
      → sql.Db
      → Result (Unit {0}) × sql.Db
  pub exec_writes :
      (change : CustomerModel → CustomerModel → CustomerModel) (new : CustomerModel) (db : sql.Db)
      → Upserted change new
          (sql.tables db)
          (exec change new db).0
          (sql.tables (exec change new db).1)

module _ {env : Env} (upserts : Upserts env.sql) where
  unfoldable pub seed_customer : Time → SeedCustomer → Action env (Unit {0})
  seed_customer deployment_date c = on_db (upserts.exec on_duplicate (values deployment_date c))

  unfoldable pub seed_customers : Time → List SeedCustomer → Action env (Unit {0})
  seed_customers deployment_date [] = pure tt
  seed_customers deployment_date (c ∷ cs) = do
    seed_customer deployment_date c
    seed_customers deployment_date cs

  unfoldable pub seed_mysql : Time → Action env (Unit {0})
  unfolding seed_customers
  seed_mysql deployment_date = seed_customers deployment_date customers

module _ (environ : String → String) where
  unfoldable pub get_env : String → String → String
  get_env key default_value = if str_eq (environ key) "" then default_value else environ key

  -- The data source's name.
  unfoldable pub dsn : String
  dsn = str_append (get_env "MYSQL_USER" "root") (
      str_append ":" (
        str_append (get_env "MYSQL_PASSWORD" "my-secret-pw") (
          str_append "@tcp(" (
            str_append (get_env "MYSQL_HOST" "localhost:3306")
              (str_append ")/" (str_append (get_env "MYSQL_DB" "gigmile") "?parseTime=true"))))))
