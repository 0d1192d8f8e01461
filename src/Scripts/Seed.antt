-- ===== src/Scripts/Seed.antt =====
-- scripts/seed.go: customers that are stored in Redis. `log.Fatalf` ends the program: what follows an
-- error is not done. The date of deployment, fourteen days ago, is an argument.
pub mod Coherent
use Prim.Native.String.{◌++◌ as str_append}
use gigmile_test.Prelude.{String, List, [], ◌∷◌}
use gigmile_test.Prelude.Int.{ℤ, pos}
use gigmile_test.Domain.Customer.{Customer, new_customer}
use gigmile_test.Domain.Time.{Time}
use gigmile_test.Env.{Env}
use gigmile_test.Env.Store.{customer_json}
use gigmile_test.World.{Action, pure, lift, ◌>>=◌, ◌>>◌, on_store}

pub record SeedCustomer : Type 0 where
  pub id : String
  pub asset_value : ℤ
  pub term_weeks : ℤ

-- a row of the table in the script
abbrev pub seed : String → SeedCustomer
seed id = record { id = id; asset_value = pos 100000000; term_weeks = pos 50 }

unfoldable pub customers : List SeedCustomer
customers =
    seed "GIG00001"
    ∷ (seed "GIG00002" ∷ (seed "GIG00003" ∷ (seed "GIG00004" ∷ (seed "GIG00005" ∷ []))))

module _ {env : Env} where
  open env use {redis}

  -- The entry never expires.
  unfoldable pub seed_customer : Time → SeedCustomer → Action env (Unit {0})
  seed_customer deployment_date c = do
    customer ← lift (new_customer c.id c.asset_value c.term_weeks deployment_date)
    on_store (redis.set (str_append "customer:" c.id) (customer_json customer) 0)

  unfoldable pub seed_customers : Time → List SeedCustomer → Action env (Unit {0})
  seed_customers deployment_date [] = pure tt
  seed_customers deployment_date (c ∷ cs) = do
    seed_customer deployment_date c
    seed_customers deployment_date cs

  unfoldable pub seed_redis : Time → Action env (Unit {0})
  unfolding seed_customers
  seed_redis deployment_date = seed_customers deployment_date customers
