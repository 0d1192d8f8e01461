-- ===== src/Mysql/Customers/Create.antt =====
-- A new customer's row.
use gigmile_test.Prelude.{◌≡◌, refl, ap, inr, true, none, if◌then◌else◌}
use gigmile_test.Prelude.Int.{pos, is_zero}
use gigmile_test.Domain.Time.{Time}
use gigmile_test.Domain.Customer.{Customer}
use gigmile_test.Persistence.{CustomerModel, customer_to_domain, customer_from_domain}
use gigmile_test.Env.{Env}
use gigmile_test.Env.Database.{Tables, IsInsertCustomer, put_customer, is_whole, is_whole_or_none}
use gigmile_test.Result.{Result, ok, err, wrap_error}
use gigmile_test.World.{State}
use gigmile_test.World.Rules.{Post, IsQuiet, tables_of}
use gigmile_test.Mysql.Customers.{create, with_defaults}

-- The row is there, and has the fields of the customer, at version 1 where it had none; instants
-- may be rounded, and are not where they are whole seconds.
pub record IsCreated (c : Customer) (before after : Tables) : Type 0 where
  pub row : CustomerModel
  pub absent : before.customers c.id ≡ none
  pub tables : after ≡ record before { customers = put_customer c.id row before.customers }
  pub customer : customer_to_domain row ≡ record c {
    deployment_date = row.deployment_date;
    last_payment_date = row.last_payment_date;
    version = if is_zero c.version then pos 1 else c.version;
  }
  pub deployed : is_whole c.deployment_date ≡ true → row.deployment_date ≡ c.deployment_date
  pub last_paid :
      is_whole_or_none c.last_payment_date ≡ true → row.last_payment_date ≡ c.last_payment_date

module _ {env : Env} where
  open env use {sql}

  abbrev pub Created : Customer → State env → Post env (Unit {0})
  Created c s (ok _) t = IsCreated c (tables_of s) (tables_of t) × (t.heap ≡ s.heap)
  Created c s (err e) t = IsQuiet s t

  inserted-Created :
      (c : Customer) (at : Time) (s t : State env) (x : Result (Unit {0}))
      → t.heap ≡ s.heap
      → t.store ≡ s.store
      → IsInsertCustomer (with_defaults at (customer_from_domain c)) (tables_of s) x (tables_of t)
      → Created c s (wrap_error "failed to create customer" x) t
  unfolding customer_to_domain customer_from_domain
  inserted-Created c at s t (ok u) heap store (absent, (row, stored, tables)) = (
    record {
      row = row;
      absent = absent;
      tables = tables;
      customer = simp (
        stored.id, stored.asset_value, stored.outstanding_balance, stored.total_paid,
        stored.repayment_term_weeks, stored.status, stored.version,
      );
      deployed = stored.deployed;
      last_paid = stored.last_paid;
    },
    heap,
  )
  inserted-Created c at s t (err e) heap store same = record {
    read = record {
      tables = same;
      entries = λ j. inr (ap (λ (x : env.redis.Store). env.redis.entries x j) store);
    };
    heap = heap;
  }

  -- A customer is created as a row under an identifier that had none, with the fields of the
  -- customer, at version 1 if its version is 0; its instants are those of the customer where
  -- these are whole seconds, and may be rounded where they are not. Every other row and all
  -- payments stay; an error writes to no table and no cache. Neither writes to an object.
  pub create-Created : (c : Customer) (s : State env) → Created c s (create c s).0 (create c s).1
  unfolding create
  create-Created c s = inserted-Created c _ s _ _ refl refl (sql.insert_customer_writes _ s.db)
