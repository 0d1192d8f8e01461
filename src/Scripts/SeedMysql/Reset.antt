-- ===== src/Scripts/SeedMysql/Reset.antt =====
-- What the seeds do to rows that are there: the figures are set back, the status and the version stay.
use mathlib.Core.Path.{subst}
use gigmile_test.Prelude.{
  ◌≡◌, refl, ap, sym, ◌∙◌, ◌⊎◌, inl, inr, some, true, false, String, List, [], ◌∷◌, arith, str_eq,
  eq_iff,
}
use gigmile_test.Prelude.Int.{ℤ, pos, is_zero, ◌≤ℤ◌}
use gigmile_test.Domain.Time.{Time}
use gigmile_test.Domain.Customer.{status_completed}
use gigmile_test.Domain.Customer.Balance.{IsSound}
use gigmile_test.Env.{Env}
use gigmile_test.Env.Database.{Tables}
use gigmile_test.Persistence.{CustomerModel, customer_to_domain}
use gigmile_test.Result.{Result, ok}
use gigmile_test.World.{State}
use gigmile_test.World.Rules.{tables_of}
use gigmile_test.Service.Ledger.{IsLedger, paid_by}
use gigmile_test.Scripts.SeedMysql.{
  SeedCustomer, customers, values, on_duplicate, IsLike, Upserts, seed_mysql,
}
use gigmile_test.Scripts.SeedMysql.Ends.{There, upserted_row, Seeded, Ended, seed_mysql-Ended}

pub record IsReset (m row : CustomerModel) : Type 0 where
  pub status : row.status ≡ m.status
  pub version : row.version ≡ m.version
  pub paid : row.total_paid ≡ pos 0
  pub owed : row.outstanding_balance ≡ pos 100000000

record IsOld (m row : CustomerModel) : Type 0 where
  status : row.status ≡ m.status
  version : row.version ≡ m.version

abbrev pub AreWorth : ℤ → List SeedCustomer → Type 0
AreWorth value [] = Unit {0}
AreWorth value (c ∷ cs) = (c.asset_value ≡ value) × AreWorth value cs

-- The identifier is one of the seeds'.
abbrev pub IsSeed : String → List SeedCustomer → Type 0
IsSeed id [] = ⊥
IsSeed id (c ∷ cs) = (c.id ≡ id) ⊎ IsSeed id cs

like-IsReset :
    (date : Time) (c : SeedCustomer) (m row row' : CustomerModel)
    → c.asset_value ≡ pos 100000000
    → IsOld m row
    → IsLike (on_duplicate (values date c) row) row'
    → IsReset m row'
like-IsReset date c m row row' worth old like = record {
  status = like.status ∙ old.status;
  version = like.version ∙ old.version;
  paid = like.total_paid;
  owed = like.outstanding_balance ∙ worth;
}

reset-IsOld : (m row : CustomerModel) → IsReset m row → IsOld m row
reset-IsOld m row h = record { status = h.status; version = h.version }

again-IsReset :
    (date : Time) (m : CustomerModel) (id : String) (cs : List SeedCustomer) (before after : Tables)
    → AreWorth (pos 100000000) cs
    → Seeded date cs before after
    → There (IsReset m) id before
    → There (IsReset m) id after
again-IsReset date m id [] before after worth same reset = rw same reset
again-IsReset date m id (c ∷ cs) before after worth (between, i, rest) (row, there, reset) =
    let (row', there', made) = upserted_row date c before between id row i there in
    again-IsReset date m id cs between after worth.1 rest (
      row',
      there',
      elim made [
        | inl (_, same) ↦ rw same reset
        | inr (_, like) ↦ like-IsReset date c m row row' worth.0 (reset-IsOld m row reset) like
      ],
    )

is_reset :
    (date : Time) (m : CustomerModel) (id : String) (cs : List SeedCustomer) (before after : Tables)
    → AreWorth (pos 100000000) cs
    → Seeded date cs before after
    → IsSeed id cs
    → There (IsOld m) id before
    → There (IsReset m) id after
is_reset date m id [] before after worth same named old = absurd named
is_reset date m id (c ∷ cs) before after worth (between, i, rest) (inl e) (row, there, old) =
    let (row', there', made) = upserted_row date c before between id row i there in
    again-IsReset date m id cs between after worth.1 rest (
      row',
      there',
      elim made [
        | inl (other, _) ↦ absurd (cc (other, (eq_iff c.id id).1 e))
        | inr (_, like) ↦ like-IsReset date c m row row' worth.0 old like
      ],
    )
is_reset date m id (c ∷ cs) before after worth (between, i, rest) (inr named) (row, there, old) =
    let (row', there', made) = upserted_row date c before between id row i there in
    is_reset date m id cs between after worth.1 rest named (
      row',
      there',
      elim made [
        | inl (_, same) ↦ rw same old
        | inr (_, like) ↦ reset-IsOld m row' (like-IsReset date c m row row' worth.0 old like)
      ],
    )

pub same_payments :
    (date : Time) (cs : List SeedCustomer) (before after : Tables)
    → Seeded date cs before after
    → after.payments ≡ before.payments
same_payments date [] before after same = ap (λ (t : Tables). t.payments) same
same_payments date (c ∷ cs) before after (between, i, rest) =
    same_payments date cs between after rest ∙ ap (λ (t : Tables). t.payments) i.tables

completed-unsound :
    (m row : CustomerModel)
    → str_eq m.status status_completed ≡ true
    → IsReset m row
    → ¬ IsSound (customer_to_domain row)
unfolding customer_to_domain
completed-unsound m row completed reset sound =
    let wrong : false ≡ true =
      sym (ap is_zero reset.owed)
      ∙ (sym sound.completed
          ∙ (ap (λ (x : String). str_eq x status_completed) reset.status ∙ completed)) in
    cc wrong

pub worth : AreWorth (pos 100000000) customers
unfolding customers
worth = (refl, (refl, (refl, (refl, (refl, tt)))))

not_covered : (n n' t : ℤ) → pos 1 ≤ℤ n → n' ≡ n → t ≡ pos 0 → ¬ (n' ≤ℤ t)
not_covered n n' t h e z k =
    let covered : n ≤ℤ pos 0 = subst (λ (x : ℤ). n ≤ℤ x) z (subst (λ (x : ℤ). x ≤ℤ t) e k) in
    absurd (omega arith)

-- What a run without an error makes of the row of a seed.
pub record IsBroken (id : String) (m : CustomerModel) (before after : Tables) : Type 0 where
  pub row : CustomerModel
  pub there : after.customers id ≡ some row
  pub reset : IsReset m row
  pub payments : after.payments ≡ before.payments
  pub unsound : str_eq m.status status_completed ≡ true → ¬ IsSound (customer_to_domain row)
  pub unbalanced : pos 1 ≤ℤ paid_by id before.payments → ¬ IsLedger after

row-IsBroken :
    (date : Time) (id : String) (m : CustomerModel) (before after : Tables)
    → Seeded date customers before after
    → IsSeed id customers
    → before.customers id ≡ some m
    → IsBroken id m before after
row-IsBroken date id m before after seeded named there =
    let (row, there', reset) =
      is_reset date m id customers before after worth seeded named
        (m, there, record { status = refl; version = refl }) in
    let payments = same_payments date customers before after seeded in
    record {
      row = row;
      there = there';
      reset = reset;
      payments = payments;
      unsound = λ completed. completed-unsound m row completed reset;
      unbalanced = λ paid ledger.
          not_covered (paid_by id before.payments) (paid_by id after.payments) row.total_paid paid
            (ap (paid_by id) payments) reset.paid (ledger id row there');
    }

module _ {env : Env} (upserts : Upserts env.sql) where
  -- Where the script that seeds MySQL reports no error, the row of a seed that was there keeps
  -- its status and its version, and has the value of a seed to pay again and nothing paid, with
  -- every payment still recorded: the account of a customer who had paid in full is not sound,
  -- and where payments of the customer were recorded that count, more is recorded than the row
  -- has.
  pub seed_mysql-IsBroken :
      (date : Time) (id : String) (m : CustomerModel) (s : State env)
      → (seed_mysql upserts date s).0 ≡ ok tt
      → IsSeed id customers
      → (tables_of s).customers id ≡ some m
      → IsBroken id m (tables_of s) (tables_of (seed_mysql upserts date s).1)
  seed_mysql-IsBroken date id m s done named there =
      row-IsBroken date id m _ _
        (subst
          (λ (x : Result (Unit {0})).
            Ended date customers (tables_of s) x (tables_of (seed_mysql upserts date s).1))
          done (seed_mysql-Ended upserts date s))
        named there
