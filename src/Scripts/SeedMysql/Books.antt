-- ===== src/Scripts/SeedMysql/Books.antt =====
-- Where the seeds keep the books in order.
use mathlib.Core.Path.{subst}
use gigmile_test.Prelude.{
  ◌≡◌, refl, ap, sym, ◌∙◌, ◌⊎◌, inl, inr, some, none, false, Option, String, List, [], ◌∷◌, ◌++◌,
  arith, str_eq, eq_iff, Bool-cases,
}
use gigmile_test.Prelude.Int.{ℤ, pos, ◌≤ℤ◌, ◌-ℤ◌}
use gigmile_test.Domain.Time.{Time}
use gigmile_test.Domain.Customer.{status_completed}
use gigmile_test.Domain.Customer.Balance.{IsSound}
use gigmile_test.Env.{Env}
use gigmile_test.Env.Database.{Tables, put_customer}
use gigmile_test.Persistence.{CustomerModel, customer_to_domain}
use gigmile_test.Result.{Result, ok, err}
use gigmile_test.World.{State}
use gigmile_test.World.Rules.{tables_of}
use gigmile_test.Service.Ledger.{paid_by}
use gigmile_test.Service.Books.{IsBooked}
use gigmile_test.Scripts.SeedMysql.{
  SeedCustomer, customers, values, on_duplicate, upserted, IsLike, IsUpserted, Upserts, seed_mysql,
}
use gigmile_test.Scripts.SeedMysql.Ends.{Seeded, Ended, seed_mysql-Ended}
use gigmile_test.Scripts.SeedMysql.Reset.{AreWorth, worth}

abbrev pub IsUnfinished : String → Option CustomerModel → Type 0
IsUnfinished id found =
    (m : CustomerModel) → found ≡ some m → str_eq m.status status_completed ≡ false

-- No payment of the customer is recorded that counts, and the row, if there is one, is not completed.
pub record IsOpen (id : String) (t : Tables) : Type 0 where
  pub unpaid : paid_by id t.payments ≤ℤ pos 0
  pub unfinished : IsUnfinished id (t.customers id)

abbrev pub AreOpen : List SeedCustomer → Tables → Type 0
AreOpen [] t = Unit {0}
AreOpen (c ∷ cs) t = IsOpen c.id t × AreOpen cs t

-- The row of a seed, whether or not there was one.
record IsFresh (row : CustomerModel) : Type 0 where
  asset_value : row.asset_value ≡ pos 100000000
  outstanding_balance : row.outstanding_balance ≡ pos 100000000
  total_paid : row.total_paid ≡ pos 0
  active : str_eq row.status status_completed ≡ false

like-IsFresh :
    (date : Time) (c : SeedCustomer) (found : Option CustomerModel) (row : CustomerModel)
    → c.asset_value ≡ pos 100000000
    → IsUnfinished c.id found
    → IsLike (upserted on_duplicate (values date c) found) row
    → IsFresh row
like-IsFresh date c none row worth unfinished like = record {
  asset_value = like.asset_value ∙ worth;
  outstanding_balance = like.outstanding_balance ∙ worth;
  total_paid = like.total_paid;
  active = ap (λ (x : String). str_eq x status_completed) like.status;
}
like-IsFresh date c (some m) row worth unfinished like = record {
  asset_value = like.asset_value ∙ worth;
  outstanding_balance = like.outstanding_balance ∙ worth;
  total_paid = like.total_paid;
  active = ap (λ (x : String). str_eq x status_completed) like.status ∙ unfinished m refl;
}

fresh-IsSound : (row : CustomerModel) → IsFresh row → IsSound (customer_to_domain row)
unfolding customer_to_domain ◌-ℤ◌
fresh-IsSound row h = ground arith

module _ (date : Time) (c : SeedCustomer) (before after : Tables)
    (i : IsUpserted on_duplicate (values date c) before after)
    (worth : c.asset_value ≡ pos 100000000) (open_one : IsOpen c.id before) where
  row-IsFresh : IsFresh i.row
  row-IsFresh = like-IsFresh date c (before.customers c.id) i.row worth open_one.unfinished i.like

  -- A row after the seed is the seed's, or was there before.
  row_after :
      (id : String) (m : CustomerModel)
      → after.customers id ≡ some m
      → ((c.id ≡ id) × (m ≡ i.row)) ⊎ (before.customers id ≡ some m)
  row_after id m there =
      let put : put_customer c.id i.row before.customers id ≡ some m =
        ap (λ (t : Tables). t.customers id) (sym i.tables) ∙ there in
      elim (Bool-cases (str_eq c.id id)) [
        | inl same ↦ inl ((eq_iff c.id id).0 same, cc (rw same at put))
        | inr other ↦ inr (rw other at put)
      ]

  same_payments : after.payments ≡ before.payments
  same_payments = ap (λ (t : Tables). t.payments) i.tables

  seeded-IsBooked : IsBooked before → IsBooked after
  seeded-IsBooked booked = record {
    sound = λ id m there. elim (row_after id m there) [
      | inl (_, row) ↦ rw row (fresh-IsSound i.row row-IsFresh)
      | inr old ↦ booked.sound id m old
    ];
    ledger = λ id m there. elim (row_after id m there) [
      | inl (same, row) ↦
          subst (λ (x : ℤ). paid_by id after.payments ≤ℤ x)
            (sym (ap (λ (r : CustomerModel). r.total_paid) row ∙ row-IsFresh.total_paid))
            (rw (same_payments, ← same) open_one.unpaid)
      | inr old ↦ rw same_payments (booked.ledger id m old)
    ];
    distinct = rw same_payments booked.distinct;
  }

  seeded-IsOpen : (id : String) → IsOpen id before → IsOpen id after
  seeded-IsOpen id h = record {
    unpaid = rw same_payments h.unpaid;
    unfinished = λ m there. elim (row_after id m there) [
      | inl (_, row) ↦ rw row row-IsFresh.active
      | inr old ↦ h.unfinished m old
    ];
  }

  seeded-AreOpen : (cs : List SeedCustomer) → AreOpen cs before → AreOpen cs after
  seeded-AreOpen [] h = tt
  seeded-AreOpen (d ∷ ds) h = (seeded-IsOpen d.id h.0, seeded-AreOpen ds h.1)

all-IsBooked :
    (date : Time) (cs : List SeedCustomer) (before after : Tables)
    → AreWorth (pos 100000000) cs
    → AreOpen cs before
    → Seeded date cs before after
    → IsBooked before
    → IsBooked after
all-IsBooked date [] before after worth are_open same booked = rw same booked
all-IsBooked date (c ∷ cs) before after worth are_open (between, i, rest) booked =
    all-IsBooked date cs between after worth.1
      (seeded-AreOpen date c before between i worth.0 are_open.0 cs are_open.1) rest
      (seeded-IsBooked date c before between i worth.0 are_open.0 booked)

first-AreWorth :
    (value : ℤ) (first rest : List SeedCustomer)
    → AreWorth value (first ++ rest)
    → AreWorth value first
first-AreWorth value [] rest h = tt
first-AreWorth value (c ∷ cs) rest h = (h.0, first-AreWorth value cs rest h.1)

first-AreOpen :
    (t : Tables) (first rest : List SeedCustomer) → AreOpen (first ++ rest) t → AreOpen first t
first-AreOpen t [] rest h = tt
first-AreOpen t (c ∷ cs) rest h = (h.0, first-AreOpen t cs rest h.1)

run-IsBooked :
    (date : Time) (before after : Tables) (x : Result (Unit {0}))
    → AreOpen customers before
    → Ended date customers before x after
    → IsBooked before
    → IsBooked after
run-IsBooked date before after (ok _) are_open seeded booked =
    all-IsBooked date customers before after worth are_open seeded booked
run-IsBooked date before after (err e) are_open (first, rest, split, seeded) booked =
    all-IsBooked date first before after
      (first-AreWorth (pos 100000000) first rest
        (subst (λ (cs : List SeedCustomer). AreWorth (pos 100000000) cs) split worth))
      (first-AreOpen before first rest
        (subst (λ (cs : List SeedCustomer). AreOpen cs before) split are_open))
      seeded booked

module _ {env : Env} (upserts : Upserts env.sql) where
  -- The script that seeds MySQL keeps the books in order, whatever fails on the way, where no
  -- payment of a seed is recorded that counts and no row of a seed is completed: the accounts are
  -- sound, no more is recorded than the rows have, and references stand in one payment each.
  pub seed_mysql-IsBooked :
      (date : Time) (s : State env)
      → AreOpen customers (tables_of s)
      → IsBooked (tables_of s)
      → IsBooked (tables_of (seed_mysql upserts date s).1)
  seed_mysql-IsBooked date s are_open booked =
      run-IsBooked date (tables_of s) _ _ are_open (seed_mysql-Ended upserts date s) booked
