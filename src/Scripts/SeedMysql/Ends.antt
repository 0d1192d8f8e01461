-- ===== src/Scripts/SeedMysql/Ends.antt =====
-- The seeds, one after the other, and the row that each writes.
use mathlib.Core.Path.{subst}
use gigmile_test.Prelude.{
  ◌++◌, Option, ◌≡◌, refl, ap, ◌⊎◌, inl, inr, some, false, String, List, [], ◌∷◌, str_eq, eq_iff,
  Bool-cases,
}
use gigmile_test.Domain.Time.{Time}
use gigmile_test.Env.{Env}
use gigmile_test.Env.Database.{Tables}
use gigmile_test.Persistence.{CustomerModel}
use gigmile_test.Result.{Result, ok, err}
use gigmile_test.World.{State, continue}
use gigmile_test.World.Rules.{tables_of}
use gigmile_test.Scripts.SeedMysql.{
  SeedCustomer, customers, values, on_duplicate, upserted, IsLike, IsUpserted, Upserted, Upserts,
  seed_customer, seed_customers, seed_mysql,
}

abbrev pub There : (CustomerModel → Type 0) → String → Tables → Type 0
There P id t = (row : CustomerModel) × (t.customers id ≡ some row) × P row

-- A seed writes its own row and no other, and no payment.
pub upserted_row :
    (date : Time) (c : SeedCustomer) (before after : Tables) (id : String) (row : CustomerModel)
    → IsUpserted on_duplicate (values date c) before after
    → before.customers id ≡ some row
    → There
        (λ row'.
          ((str_eq c.id id ≡ false) × (row' ≡ row))
          ⊎ ((c.id ≡ id) × IsLike (on_duplicate (values date c) row) row'))
        id
        after
upserted_row date c before after id row i there = elim (Bool-cases (str_eq c.id id)) [
  | inl same ↦
      let e : c.id ≡ id = (eq_iff c.id id).0 same in
      let old : before.customers c.id ≡ some row = rw e there in
      (
        i.row,
        rw (i.tables, same) refl,
        inr (
          e,
          subst
              (λ (o : Option CustomerModel). IsLike (upserted on_duplicate (values date c) o) i.row)
              old i.like,
        ),
      )
  | inr other ↦ (row, rw (i.tables, other) there, inl (other, refl))
]

-- The seeds, one after the other.
abbrev pub Seeded : Time → List SeedCustomer → Tables → Tables → Type 0
Seeded date [] before after = after ≡ before
Seeded date (c ∷ cs) before after =
    (between : Tables) × IsUpserted on_duplicate (values date c) before between
    × Seeded date cs between after

-- All of the seeds, where no error is reported; or the seeds up to an error.
abbrev pub Ended : Time → List SeedCustomer → Tables → Result (Unit {0}) → Tables → Type 0
Ended date cs before (ok _) after = Seeded date cs before after
Ended date cs before (err e) after =
    (first : List SeedCustomer) × (rest : List SeedCustomer) × (cs ≡ first ++ rest)
    × Seeded date first before after

after_first :
    (date : Time) (c : SeedCustomer) (cs : List SeedCustomer) (before between after : Tables)
    (x : Result (Unit {0}))
    → IsUpserted on_duplicate (values date c) before between
    → Ended date cs between x after
    → Ended date (c ∷ cs) before x after
after_first date c cs before between after (ok _) i rest = (between, i, rest)
after_first date c cs before between after (err e) i (first, rest, split, seeded) =
    (c ∷ first, rest, ap (λ (l : List SeedCustomer). c ∷ l) split, (between, i, seeded))

module _ {env : Env} (upserts : Upserts env.sql) where
  -- the first seed, and the seeds after it
  continue-Ended :
      (date : Time) (c : SeedCustomer) (cs : List SeedCustomer) (before : Tables) (s : State env)
      (x : Result (Unit {0}))
      → Upserted on_duplicate (values date c) before x (tables_of s)
      → Ended date cs
          (tables_of s)
          (seed_customers upserts date cs s).0
          (tables_of (seed_customers upserts date cs s).1)
      → Ended date
          (c ∷ cs)
          before
          (continue x (λ _. seed_customers upserts date cs) s).0
          (tables_of (continue x (λ _. seed_customers upserts date cs) s).1)
  continue-Ended date c cs before s (ok _) i rest =
      after_first date c cs before (tables_of s) _ _ i rest
  continue-Ended date c cs before s (err e) same rest = ([], c ∷ cs, refl, same)

  seed_customers-Ended :
      (date : Time) (cs : List SeedCustomer) (s : State env)
      → Ended date cs
          (tables_of s)
          (seed_customers upserts date cs s).0
          (tables_of (seed_customers upserts date cs s).1)
  unfolding seed_customers seed_customer
  seed_customers-Ended date [] s = refl
  seed_customers-Ended date (c ∷ cs) s =
      continue-Ended date c cs (tables_of s) _ _
        (upserts.exec_writes on_duplicate (values date c) s.db)
        (seed_customers-Ended date cs
          (record s { db = (upserts.exec on_duplicate (values date c) s.db).1 }))

  -- The script that seeds MySQL carries out its statement for all five customers, in their order,
  -- where it reports no error, and for the first of them otherwise; nothing else is written.
  pub seed_mysql-Ended :
      (date : Time) (s : State env)
      → Ended date customers
          (tables_of s)
          (seed_mysql upserts date s).0
          (tables_of (seed_mysql upserts date s).1)
  unfolding seed_mysql
  seed_mysql-Ended date s = seed_customers-Ended date customers s
