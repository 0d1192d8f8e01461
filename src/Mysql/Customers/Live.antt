-- ===== src/Mysql/Customers/Live.antt =====
-- With the database in order, a customer that has a row is found, and an object of the row's version
-- is saved.
use gigmile_test.Prelude.{ℕ, suc, String, ◌≡◌, ap, ◌∙◌, sym, Option, some, true, arith}
use gigmile_test.Prelude.Int.{ℤ, is_zero, ◌-ℤ◌}
use gigmile_test.Domain.Time.{Time}
use gigmile_test.Persistence.{CustomerModel, customer_from_domain}
use gigmile_test.Env.{Env}
use gigmile_test.Env.Columns.{IsUpdatable}
use gigmile_test.Env.Database.{Tables, update_where, IsUpdate}
use gigmile_test.Result.{Result, ok, err, IsOk}
use gigmile_test.World.{State, Ref}
use gigmile_test.World.Rules.{tables_of}
use gigmile_test.Cache.Customers as Cache
use gigmile_test.Mysql.Customers.{save, saved, save_changes, find_by_id, or_query, found}
use gigmile_test.Mysql.Customers.Find.{Found, cache_find-Found}
use gigmile_test.Mysql.Customers.Save.{update_where-some}
use gigmile_test.Mysql.Up.{IsUp}

zero_difference : (v : ℤ) → is_zero (v -ℤ v) ≡ true
unfolding ◌-ℤ◌
zero_difference v = ground arith

updated_one :
    (id : String) (m : CustomerModel) (change : CustomerModel → CustomerModel)
    (before after : Tables) (x : Result ℕ)
    → before.customers id ≡ some m
    → ((rows : ℕ) × (x ≡ ok rows))
    → IsUpdate (update_where id m.version change before) before x after
    → x ≡ ok 1
updated_one id m change before after (ok rows) there _ written =
    ap (λ (y : ℕ × Tables). ok y.0)
      (sym written
        ∙ update_where-some id m.version change before m there (zero_difference m.version))
updated_one id m change before after (err e) there (rows, h) written = absurd (cc h)

same_model :
    (m m' : CustomerModel) (found : Option CustomerModel)
    → found ≡ some m
    → found ≡ some m'
    → m' ≡ m
same_model m m' found h k = cc

module _ {env : Env} where
  open env use {sql}

  saved-IsOk :
      (r : Ref) (x : Result ℕ) (n : ℕ) (t : State env) → x ≡ ok (suc n) → IsOk (saved r x t).0
  saved-IsOk r x n t h = rw h tt

  pub save-IsOk :
      (r : Ref) (s : State env) (m : CustomerModel)
      → IsUp env
      → (tables_of s).customers (s.heap r).id ≡ some m
      → m.version ≡ (s.heap r).version
      → ((at : Time) → IsUpdatable m (save_changes (customer_from_domain (s.heap r)) at m))
      → IsOk (save r s).0
  unfolding save Cache.delete customer_from_domain save_changes
  save-IsOk r s m up there version fits = saved-IsOk r _ 0 _ (
      rw (← version) (
        updated_one (s.heap r).id m
          (save_changes (customer_from_domain (s.heap r)) (env.time_at s.times)) (tables_of s) _ _
          there
          (up.update_customer (s.heap r).id m.version _ s.db
            (λ m' there'. rw (same_model m m' _ there there') (fits (env.time_at s.times))))
          (sql.update_customer_writes (s.heap r).id m.version _ s.db)))

  found-IsOk :
      (x : Result CustomerModel) (m : CustomerModel) (t : State env) → x ≡ ok m → IsOk (found x t).0
  found-IsOk x m t h = rw h tt

  or_query-IsOk :
      (id : String) (m : CustomerModel) (s : State env) (x : Result Ref) (t : State env)
      → IsUp env
      → (tables_of s).customers id ≡ some m
      → Found id s x t
      → IsOk (or_query id x t).0
  or_query-IsOk id m s (ok r) t up there h = tt
  or_query-IsOk id m s (err e) t up there h =
      found-IsOk _ m _ (up.first_customer id t.db m (rw h.tables there))

  pub find_by_id-IsOk :
      (id : String) (s : State env) (m : CustomerModel)
      → IsUp env
      → (tables_of s).customers id ≡ some m
      → IsOk (find_by_id id s).0
  unfolding find_by_id
  find_by_id-IsOk id s m up there = or_query-IsOk id m s _ _ up there (cache_find-Found id s)
