-- ===== src/Mysql/Customers/Balance.antt =====
-- `update_balance`: the row of the given version, changed without the object in between.
use gigmile_test.Prelude.{ℕ, zero, suc, String, ◌≡◌, refl, some}
use gigmile_test.Prelude.Int.{ℤ, pos, add64, sub64}
use gigmile_test.Domain.Time.{Time}
use gigmile_test.Persistence.{CustomerModel}
use gigmile_test.Env.{Env}
use gigmile_test.Env.Database.{put_customer, update_where, IsUpdate}
use gigmile_test.Env.Store.{IsWithin}
use gigmile_test.Result.{Result, ok, err}
use gigmile_test.World.{State}
use gigmile_test.World.Rules.{Post, IsQuiet, tables_of, entries_of}
use gigmile_test.Cache.Keys.{customer_key}
use gigmile_test.Cache.Customers as Cache
use gigmile_test.Mysql.Customers.{update_balance, updated, balance_changes}
use gigmile_test.Mysql.Customers.Save.{update_where-IsUpdated}

-- What a successful call has done: one row written, of the given version, and nothing else.
pub record IsBalanceUpdated {env : Env} (id : String) (amount version : ℤ) (s t : State env)
    : Type 0 where
  pub row : CustomerModel
  pub at : Time
  pub there : (tables_of s).customers id ≡ some row
  pub same_version : row.version ≡ version
  pub tables : tables_of t ≡ record (tables_of s) {
    customers =
        put_customer id
          (record row {
            outstanding_balance = sub64 row.outstanding_balance amount;
            total_paid = add64 row.total_paid amount;
            version = add64 row.version (pos 1);
            updated_at = at;
          })
          (tables_of s).customers;
  }
  pub entries : IsWithin (entries_of t) (entries_of s)
  pub heap : t.heap ≡ s.heap

module _ {env : Env} where
  open env use {sql, redis}

  abbrev pub BalanceUpdated : String → ℤ → ℤ → State env → Post env (Unit {0})
  BalanceUpdated id amount version s (ok _) t = IsBalanceUpdated id amount version s t
  BalanceUpdated id amount version s (err e) t = IsQuiet s t

  updated-BalanceUpdated :
      (id : String) (amount version : ℤ) (at : Time) (s t : State env) (reply : Result ℕ)
      → IsWithin (entries_of t) (entries_of s)
      → t.heap ≡ s.heap
      → IsUpdate
          (update_where id version (balance_changes amount at) (tables_of s))
          (tables_of s)
          reply
          (tables_of t)
      → BalanceUpdated id amount version s (updated reply t).0 (updated reply t).1
  unfolding balance_changes
  updated-BalanceUpdated id amount version at s t (err e) h same u = record {
    read = record { tables = u; entries = h };
    heap = same;
  }
  updated-BalanceUpdated id amount version at s t (ok zero) h same u = record {
    read = record {
      tables =
          rw u at (update_where-IsUpdated id version (balance_changes amount at) (tables_of s));
      entries = h;
    };
    heap = same;
  }
  updated-BalanceUpdated id amount version at s t (ok (suc n)) h same u =
      let (row, there, matches, changed) =
        rw u at (update_where-IsUpdated id version (balance_changes amount at) (tables_of s)) in
      record {
        row = row;
        at = at;
        there = there;
        same_version = matches;
        tables = changed;
        entries = h;
        heap = same;
      }

  -- An update of a balance that reports success has written one row, of the given version: the
  -- amount is taken off the balance and added to the total on int64, the version is counted up,
  -- and no other field but the time of the update changes, so that the balance is not clamped and
  -- the status stays; any other has written to no table. Neither writes to an object or brings
  -- anything new into the cache.
  pub update_balance-BalanceUpdated :
      (id : String) (amount version : ℤ) (s : State env)
      → BalanceUpdated id amount version s
          (update_balance id amount version s).0
          (update_balance id amount version s).1
  unfolding update_balance Cache.delete
  update_balance-BalanceUpdated id amount version s =
      updated-BalanceUpdated id amount version (env.time_at s.times) s _ _
        (redis.del_keeps (customer_key id) s.store) refl
        (sql.update_customer_writes id version (balance_changes amount (env.time_at s.times)) s.db)
