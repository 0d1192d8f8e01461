-- ===== src/Mysql/Payments/Reads.antt =====
-- The look for a reference writes nothing, and does not miss a payment that is in the table.
use gigmile_test.Prelude.{
  ℕ, suc, String, ◌≡◌, refl, Bool, true, false, List, [], ◌∷◌, arith, length,
}
use gigmile_test.Prelude.Int.{ℤ, pos, ltb_ℤ}
use gigmile_test.Domain.Payment.{Payment}
use gigmile_test.Persistence.{PaymentModel}
use gigmile_test.Env.{Env}
use gigmile_test.Env.Database.{Tables, has_reference, select, IsCount}
use gigmile_test.Result.{Result, ok, err}
use gigmile_test.World.{State, pure}
use gigmile_test.World.Rules.{
  Post, IsQuiet, IsQuiet-trans, continue_rule, wrap_rule, db-IsQuiet, rest-IsQuiet, tables_of,
}
use gigmile_test.Cache.Payments.Reads.{exists-IsQuiet}
use gigmile_test.Mysql.Payments.{
  found, find_by_transaction_reference, cache_found, exists_in_db, count_in_db, or_count,
  exists_by_transaction_reference,
}

-- The payments in the table with a reference.
abbrev pub with_reference : String → Tables → List PaymentModel
with_reference ref t = select (has_reference ref) t.payments

positive_found : (k : ℕ) (n : ℤ) → n ≡ pos (suc k) → ltb_ℤ (pos 0) n ≡ false → ⊥
positive_found k n e h = ground arith

empty_of_count :
    (found : List PaymentModel) (n : ℤ)
    → n ≡ pos (length found)
    → ltb_ℤ (pos 0) n ≡ false
    → found ≡ []
empty_of_count [] n e h = refl
empty_of_count (m ∷ ms) n e h = absurd (positive_found (length ms) n e h)

module _ {env : Env} where
  open env use {sql}

  found-IsQuiet :
      (s t : State env) (r : Result PaymentModel) → IsQuiet s t → IsQuiet s (found r t).1
  found-IsQuiet s t (ok m) h = IsQuiet-trans s t _ h (rest-IsQuiet t _ _ _)
  found-IsQuiet s t (err e) h = h

  pub find-IsQuiet :
      (ref : String) (s : State env) → IsQuiet s (find_by_transaction_reference ref s).1
  unfolding find_by_transaction_reference
  find-IsQuiet ref s = found-IsQuiet s _ _ (db-IsQuiet s _ (sql.first_payment_reads ref s.db))

  cache_found-IsQuiet :
      (s t : State env) (r : Result Payment) → IsQuiet s t → IsQuiet s (cache_found r t).1
  cache_found-IsQuiet s t (ok p) h = IsQuiet-trans s t _ h (rest-IsQuiet t _ _ _)
  cache_found-IsQuiet s t (err e) h = h

  -- `false` is said only of a reference that no payment in the table has.
  abbrev pub Checked : String → State env → Post env Bool
  Checked ref s (ok true) t = IsQuiet s t
  Checked ref s (ok false) t = IsQuiet s t × (with_reference ref (tables_of s) ≡ [])
  Checked ref s (err e) t = IsQuiet s t

  exists_in_db-Checked :
      (ref : String) (s t : State env) (b : Bool)
      → IsQuiet s t
      → (b ≡ false → with_reference ref (tables_of s) ≡ [])
      → Checked ref s (exists_in_db ref b t).0 (exists_in_db ref b t).1
  exists_in_db-Checked ref s t false h none_there = (h, none_there refl)
  exists_in_db-Checked ref s t true h none_there =
      continue_rule (λ _ u. IsQuiet s u) (Checked ref s) _ (λ _. pure true) _
        (cache_found-IsQuiet s _ _ (IsQuiet-trans s t _ h (find-IsQuiet ref t))) (λ _ u q. q)
        (λ _ u q. q)

  Counted : String → State env → Post env ℤ
  Counted ref s r t = IsQuiet s t × IsCount (with_reference ref (tables_of s)) r

  count_in_db-Checked :
      (ref : String) (s t : State env)
      → IsQuiet s t
      → Checked ref s (count_in_db ref t).0 (count_in_db ref t).1
  unfolding Counted
  count_in_db-Checked ref s t h =
      continue_rule (Counted ref s) (Checked ref s) _ _ _
        (wrap_rule (Counted ref s) (Counted ref s) "database error" _ _ counted (λ _ p. p)
          (λ _ p. p))
        (λ n u p. exists_in_db-Checked ref s u _ p.0 (empty_of_count _ n p.1)) (λ _ u p. p.0)
    where
      counted :
          Counted ref s
            (sql.count_payments (has_reference ref) t.db).0
            (record t { db = (sql.count_payments (has_reference ref) t.db).1 })
      counted = (
        IsQuiet-trans s t _ h (db-IsQuiet t _ (sql.count_payments_reads (has_reference ref) t.db)),
        rw (← h.read.tables) (sql.count_payments_counts (has_reference ref) t.db),
      )

  or_count-Checked :
      (ref : String) (s t : State env) (r : Result Bool)
      → IsQuiet s t
      → Checked ref s (or_count ref r t).0 (or_count ref r t).1
  or_count-Checked ref s t (ok true) h = h
  or_count-Checked ref s t (ok false) h = count_in_db-Checked ref s t h
  or_count-Checked ref s t (err e) h = count_in_db-Checked ref s t h

  -- The look for a reference writes to no table and no object and puts nothing new into the
  -- cache, and says that a reference is new only if no payment in the table has it.
  pub exists-Checked :
      (ref : String) (s : State env)
      → Checked ref s
          (exists_by_transaction_reference ref s).0
          (exists_by_transaction_reference ref s).1
  unfolding exists_by_transaction_reference
  exists-Checked ref s = or_count-Checked ref s _ _ (exists-IsQuiet ref s)
