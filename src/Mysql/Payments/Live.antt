-- ===== src/Mysql/Payments/Live.antt =====
-- With the database in order, a reference that is neither in the cache nor in the table is reported
-- as new, and a payment with it is saved.
use gigmile_test.Prelude.{
  ℕ, zero, suc, Option, String, ◌≡◌, refl, ap, ◌∙◌, Bool, true, false, none, List, [], arith,
  length, ltb, str_eq,
}
use gigmile_test.Prelude.Int.{ℤ, pos, ltb_ℤ}
use gigmile_test.Domain.Payment.{Payment}
use gigmile_test.Persistence.{PaymentModel, payment_from_domain}
use gigmile_test.Env.{Env}
use gigmile_test.Env.Columns.{IsInsertable}
use gigmile_test.Env.Database.{has_reference, IsCount}
use gigmile_test.Env.Store.{Value, IsThere}
use gigmile_test.Result.{Result, ok, err, IsOk, wrap_error}
use gigmile_test.World.{State, continue, pure, ◌>>=◌}
use gigmile_test.World.Rules.{tables_of, entries_of}
use gigmile_test.Cache.Keys.{payment_key}
use gigmile_test.Cache.Payments as Cache
use gigmile_test.Cache.Payments.Reads.{exists-IsQuiet}
use gigmile_test.Mysql.Payments.{
  identified, created, unless_known, save, exists_in_db, count_in_db, or_count,
  exists_by_transaction_reference,
}
use gigmile_test.Mysql.Payments.Reads.{with_reference}
use gigmile_test.Mysql.Payments.Insert.{insert_as}
use gigmile_test.Mysql.Up.{IsUp}

-- The cache did not say that it has the reference.
abbrev IsUnknown : Result Bool → Type 0
IsUnknown (ok true) = ⊥
IsUnknown (ok false) = Unit
IsUnknown (err e) = Unit

count_of_none :
    (found : List PaymentModel) (x : Result ℤ)
    → found ≡ []
    → ((n : ℤ) × (x ≡ ok n))
    → IsCount found x
    → x ≡ ok (pos 0)
count_of_none found (ok n) e _ counted =
    ap (λ (y : ℤ). ok y) (counted ∙ ap (λ (l : List PaymentModel). pos (length l)) e)
count_of_none found (err e') e (n, h) counted = absurd (cc h)

module _ {env : Env} where
  open env use {sql, redis}

  counted_none :
      (ref : String) (x : Result ℤ) (t : State env)
      → x ≡ ok (pos 0)
      → (continue
          (wrap_error "database error" x)
          (λ count. exists_in_db ref (ltb_ℤ (pos 0) count))
          t).0
        ≡ ok false
  counted_none ref x t h = rw h refl

  none_in_db :
      (ref : String) (t : State env)
      → IsUp env
      → with_reference ref (tables_of t) ≡ []
      → (count_in_db ref t).0 ≡ ok false
  none_in_db ref t up new = counted_none ref _ _ (
      count_of_none (with_reference ref (tables_of t)) _ new
        (up.count_payments (has_reference ref) t.db)
        (sql.count_payments_counts (has_reference ref) t.db))

  counted-IsUnknown :
      (there : Option Value) (x : Result ℕ) (t : State env)
      → there ≡ none
      → IsThere there x
      → IsUnknown
          (continue (wrap_error "failed to check payment existence" x) (λ n. pure (ltb 0 n)) t).0
  counted-IsUnknown there (ok zero) t absent h = tt
  counted-IsUnknown there (ok (suc n)) t absent h = absurd (h (omega arith) absent)
  counted-IsUnknown there (err e) t absent h = tt

  cache_exists-IsUnknown :
      (ref : String) (s : State env)
      → entries_of s (payment_key ref) ≡ none
      → IsUnknown (Cache.exists_by_transaction_reference ref s).0
  unfolding Cache.exists_by_transaction_reference
  cache_exists-IsUnknown ref s absent =
      counted-IsUnknown (entries_of s (payment_key ref)) _ _ absent
        (redis.exists_there (payment_key ref) s.store)

  or_count_new :
      (ref : String) (x : Result Bool) (t : State env)
      → IsUp env
      → IsUnknown x
      → with_reference ref (tables_of t) ≡ []
      → (or_count ref x t).0 ≡ ok false
  or_count_new ref (ok true) t up h new = absurd h
  or_count_new ref (ok false) t up h new = none_in_db ref t up new
  or_count_new ref (err e) t up h new = none_in_db ref t up new

  -- A reference that is neither in the cache nor in the table is reported as new.
  pub exists_new :
      (ref : String) (s : State env)
      → IsUp env
      → entries_of s (payment_key ref) ≡ none
      → with_reference ref (tables_of s) ≡ []
      → (exists_by_transaction_reference ref s).0 ≡ ok false
  unfolding exists_by_transaction_reference
  exists_new ref s up absent new =
      or_count_new ref _ _ up (cache_exists-IsUnknown ref s absent)
        (ap (with_reference ref) (exists-IsQuiet ref s).read.tables ∙ new)

  created-IsOk : (x : Result (Unit {0})) (t : State env) → x ≡ ok tt → IsOk (created x t).0
  created-IsOk x t h = rw h tt

  insert-IsOk :
      (p : Payment) (unnamed : Bool) (t : State env)
      → IsUp env
      → IsInsertable p.customer_id p.transaction_reference p.transaction_date (tables_of t)
      → IsOk ((identified p unnamed >>= insert_as) t).0
  unfolding payment_from_domain
  insert-IsOk p true t up new =
      created-IsOk _ _
        (up.insert_payment (payment_from_domain (record p { id = env.uuid_at t.uuids })) t.db new)
  insert-IsOk p false t up new =
      created-IsOk _ _ (up.insert_payment (payment_from_domain p) t.db new)

  unless_known-IsOk :
      (p : Payment) (x : Result Bool) (t : State env)
      → IsUp env
      → IsUnknown x
      → IsInsertable p.customer_id p.transaction_reference p.transaction_date (tables_of t)
      → IsOk (unless_known p x t).0
  unless_known-IsOk p (ok true) t up h new = absurd h
  unless_known-IsOk p (ok false) t up h new = insert-IsOk p (str_eq p.id "") t up new
  unless_known-IsOk p (err e) t up h new = insert-IsOk p (str_eq p.id "") t up new

  -- A payment that the schema allows, and whose reference is not in the cache, is saved.
  pub save-IsOk :
      (p : Payment) (s : State env)
      → IsUp env
      → entries_of s (payment_key p.transaction_reference) ≡ none
      → IsInsertable p.customer_id p.transaction_reference p.transaction_date (tables_of s)
      → IsOk (save p s).0
  unfolding save
  save-IsOk p s up absent new =
      unless_known-IsOk p _ _ up (cache_exists-IsUnknown p.transaction_reference s absent)
        (rw (exists-IsQuiet p.transaction_reference s).read.tables new)
