-- ===== src/Tests/Scripts.antt =====
-- The scripts on a database and a cache in memory.
use gigmile_test.Prelude.{◌≡◌, refl, inl, inr, false, String, some, arith, str_eq, if◌then◌else◌}
use gigmile_test.Prelude.Int.{pos}
use gigmile_test.Domain.Customer.{Customer, new_customer}
use gigmile_test.Persistence.{CustomerModel, customer_to_domain}
use gigmile_test.Result.{ok}
use gigmile_test.World.Rules.{tables_of}
use gigmile_test.Memory.{memory}
use gigmile_test.Env.Database.{Tables, put_customer}
use gigmile_test.Service.Coherence.{IsCoherent}
use gigmile_test.Service.Books.{IsBooked}
use gigmile_test.Scripts.Seed as Seed
use gigmile_test.Scripts.Seed.{seed_redis}
use gigmile_test.Scripts.Seed.Coherent.{IsSeedable, All, seed_redis-IsCoherent}
use gigmile_test.Scripts.SeedMysql as SeedMysql
use gigmile_test.Scripts.SeedMysql.{
  Upserts, IsUpserted, upserted, seed_customers, seed_mysql, get_env, dsn,
}
use gigmile_test.Scripts.SeedMysql.Reset.{IsBroken, seed_mysql-IsBroken}
use gigmile_test.Scripts.SeedMysql.Books.{IsOpen, AreOpen, seed_mysql-IsBooked}
use gigmile_test.Tests.Fixtures.{start, rows, the_row, start-IsCoherent}
use gigmile_test.Tests.Ledger.{paid, paid_row}
use gigmile_test.Tests.Router.{start-Keeps}

upsert-IsUpserted :
    (change : CustomerModel → CustomerModel → CustomerModel) (new : CustomerModel) (t : Tables)
    → IsUpserted change new t (record t {
      customers = put_customer new.id (upserted change new (t.customers new.id)) t.customers;
    })
upsert-IsUpserted change new t = record {
  row = upserted change new (t.customers new.id);
  like = record {
    id = refl;
    asset_value = refl;
    outstanding_balance = refl;
    total_paid = refl;
    repayment_term_weeks = refl;
    status = refl;
    version = refl;
  };
  tables = refl;
}

abbrev upserts : Upserts memory.sql
upserts = record {
  exec = λ change new t. (
    ok tt,
    record t {
      customers = put_customer new.id (upserted change new (t.customers new.id)) t.customers;
    },
  );
  exec_writes = upsert-IsUpserted;
}

same_seed :
    (m : CustomerModel) (d : Customer)
    → rows "GIG00001" ≡ some m
    → new_customer "GIG00001" (pos 100000000) (pos 50) (pos 5) ≡ ok d
    → customer_to_domain m ≡ d
unfolding new_customer customer_to_domain
same_seed m d there made = ground arith

start-IsSeedable : All (IsSeedable (pos 5) rows) Seed.customers
unfolding Seed.customers
start-IsSeedable = (
  λ m d there made. inr (same_seed m d there made),
  (
    λ m d there made. absurd (cc there),
    (
      λ m d there made. absurd (cc there),
      (λ m d there made. absurd (cc there), (λ m d there made. absurd (cc there), tt)),
    ),
  ),
)

seed_redis-IsCoherent_example :
    IsCoherent (seed_redis (pos 5) start).1
    × (tables_of (seed_redis (pos 5) start).1 ≡ tables_of start)
seed_redis-IsCoherent_example =
    seed_redis-IsCoherent (pos 5) start (start-IsCoherent false) start-IsSeedable

start-IsOpen : (id : String) → IsOpen id (tables_of start)
start-IsOpen id = record {
  unpaid = omega arith;
  unfinished = λ m there. let (_, same) = the_row id m there in rw same refl;
}

start-AreOpen : AreOpen SeedMysql.customers (tables_of start)
unfolding SeedMysql.customers
start-AreOpen = (
  start-IsOpen "GIG00001",
  (
    start-IsOpen "GIG00002",
    (start-IsOpen "GIG00003", (start-IsOpen "GIG00004", (start-IsOpen "GIG00005", tt))),
  ),
)

seed_mysql-IsBooked_example : IsBooked (tables_of (seed_mysql upserts (pos 5) start).1)
seed_mysql-IsBooked_example =
    seed_mysql-IsBooked upserts (pos 5) start start-AreOpen start-Keeps.booked

done : (seed_mysql upserts (pos 5) paid).0 ≡ ok tt
unfolding seed_mysql SeedMysql.customers SeedMysql.seed_customer
done = refl

seed_mysql-IsBroken_example :
    IsBroken "GIG00001" paid_row (tables_of paid) (tables_of (seed_mysql upserts (pos 5) paid).1)
unfolding SeedMysql.customers
seed_mysql-IsBroken_example =
    seed_mysql-IsBroken upserts (pos 5) "GIG00001" paid_row paid done (inl refl) refl

-- What the environment holds, or what the script falls back to.
abbrev environ : String → String
environ name = if str_eq name "MYSQL_DB" then "rides" else ""

data_source : dsn environ ≡ "root:my-secret-pw@tcp(localhost:3306)/rides?parseTime=true"
unfolding dsn get_env
data_source = refl
