-- ===== src/Mysql/Up.antt =====
-- What a database in order promises beyond `Sql`: no statement that its schema allows fails. The
-- schema of migrations/001_create_tables.sql limits what a row can hold (Env/Columns); the values
-- that the service makes itself, of its clock and its generator of identifiers, are taken to fit.
use gigmile_test.Prelude.{ℕ, String, ◌≡◌, Bool, some}
use gigmile_test.Prelude.Int.{ℤ}
use gigmile_test.Persistence.{CustomerModel, PaymentModel}
use gigmile_test.Env.{Env}
use gigmile_test.Env.Columns.{IsInsertable, IsUpdatable}
use gigmile_test.Result.{ok}

module _ (env : Env) where
  open env use {sql}

  pub record IsUp : Type 0 where
    pub first_customer :
        (id : String) (db : sql.Db) (m : CustomerModel)
        → (sql.tables db).customers id ≡ some m
        → (sql.first_customer id db).0 ≡ ok m
    pub update_customer :
        (id : String) (version : ℤ) (change : CustomerModel → CustomerModel) (db : sql.Db)
        → ((m : CustomerModel) → (sql.tables db).customers id ≡ some m → IsUpdatable m (change m))
        → (rows : ℕ) × ((sql.update_customer id version change db).0 ≡ ok rows)
    pub insert_payment :
        (m : PaymentModel) (db : sql.Db)
        → IsInsertable m.customer_id m.transaction_reference m.transaction_date (sql.tables db)
        → (sql.insert_payment m db).0 ≡ ok tt
    pub count_payments :
        (p : PaymentModel → Bool) (db : sql.Db) → (n : ℤ) × ((sql.count_payments p db).0 ≡ ok n)
