-- ===== src/Service/Books.antt =====
-- The books as a whole: sound accounts, a ledger that agrees with them, and references that stand in
-- one payment each; and how much more they have room for.
pub mod Kept
use mathlib.Core.Path.{subst}
use gigmile_test.Prelude.{
  ℕ, suc, ◌+◌, ◌*◌, ◌^◌, ◌<◌, ◌≤◌, String, ◌≡◌, refl, ap, ◌∙◌, sym, inl, inr, some, List, [], ◌∷◌,
  arith,
}
use gigmile_test.Prelude.Int.{
  ℤ, pos, negsuc, pos_part, neg_part, ◌+ℤ◌, ◌<ℤ◌, ◌≤ℤ◌, +ℤ_parts, add64, wrap64, IsInt64,
}
use gigmile_test.Domain.Customer.{Customer, status_completed}
use gigmile_test.Domain.Customer.Balance.{
  IsSound, apply_payment-IsSound, apply_payment-eq_ok, after_payment,
}
use gigmile_test.Persistence.{CustomerModel, PaymentModel, customer_to_domain}
use gigmile_test.Env.{Env}
use gigmile_test.Env.Database.{Tables, select, has_reference}
use gigmile_test.Result.{Result}
use gigmile_test.World.{State, Request}
use gigmile_test.World.Rules.{tables_of}
use gigmile_test.Mysql.Customers.Save.{bumped}
use gigmile_test.Service.Coherence.{IsCoherent}
use gigmile_test.Service.Ledger.{
  IsLedger, HasSpace, charged_total, charged_row, process_payment-IsLedger,
}
use gigmile_test.Service.Process.{Response, process_payment}
use gigmile_test.Service.Process.Apply.{IsCharged, HasRooms}
use gigmile_test.Service.Process.Outcome.{
  Outcome, refused, duplicate, failed, lost, unrecorded, settled, process_payment-Ends,
}
use gigmile_test.Service.Process.Record.{IsRecorded}

abbrev pub AreDistinct : List PaymentModel → Type 0
AreDistinct [] = Unit {0}
AreDistinct (p ∷ ps) = (select (has_reference p.transaction_reference) ps ≡ []) × AreDistinct ps

pub record IsBooked (t : Tables) : Type 0 where
  pub sound :
      (id : String) (m : CustomerModel) → t.customers id ≡ some m → IsSound (customer_to_domain m)
  pub ledger : IsLedger t
  pub distinct : AreDistinct t.payments

-- Room in every row for so many payments of at most `most` kobo.
abbrev pub HasBudget : ℕ → ℕ → Tables → Type 0
HasBudget most n t =
    (id : String) (m : CustomerModel)
    → t.customers id ≡ some m
    → (pos_part m.version + n < 2 ^ 63)
      × (neg_part m.version ≤ 2 ^ 63)
      × (pos_part m.total_paid + n * most < 2 ^ 63)

-- An amount in int64, of at most `most` kobo.
abbrev pub IsModest : ℕ → Request → Type 0
IsModest most req =
    (pos_part req.transaction_amount ≤ most) × (neg_part req.transaction_amount ≤ 2 ^ 63)

pub room : (most n : ℕ) (t : Tables) → HasBudget most (suc n) t → HasRooms t
room most n t budget id m there =
    let (versions, least, _) = budget id m there in (omega (arith, versions), least)

less : (most n : ℕ) → n * most ≤ suc n * most
less most n = grind arith

-- Room for one payment more is room.
pub fewer : (most n : ℕ) (t : Tables) → HasBudget most (suc n) t → HasBudget most n t
fewer most n t budget id m there =
    let (versions, least, totals) = budget id m there in
    (omega arith, least, omega (arith, less most n))

total_fits :
    (most n : ℕ) (total amount : ℤ)
    → pos 0 ≤ℤ total
    → pos_part total + suc n * most < 2 ^ 63
    → pos_part amount ≤ most
    → neg_part amount ≤ 2 ^ 63
    → IsInt64 (total +ℤ amount) × (pos_part (total +ℤ amount) + n * most < 2 ^ 63)
unfolding ◌+ℤ◌
total_fits most n (pos k) amount p f a b = ground arith
total_fits most n (negsuc k) amount p f a b = absurd (omega arith)

counted_fits :
    (n : ℕ) (version : ℤ)
    → pos_part version + suc n < 2 ^ 63
    → neg_part version ≤ 2 ^ 63
    → (pos_part (add64 version (pos 1)) + n < 2 ^ 63) × (neg_part (add64 version (pos 1)) ≤ 2 ^ 63)
unfolding add64 wrap64 ◌+ℤ◌
counted_fits n version f b = ground arith

bumped-IsSound : (c : Customer) → IsSound c → IsSound (bumped c)
bumped-IsSound c h = record {
  value_pos = h.value_pos;
  value_fits = h.value_fits;
  paid_nonneg = h.paid_nonneg;
  paid_fits = h.paid_fits;
  balance = h.balance;
  completed = h.completed;
}

module _ (most n : ℕ) (req : Request) (before : Tables) (modest : IsModest most req)
    (booked : IsBooked before) (budget : HasBudget most (suc n) before) where
  row_fits :
      (m : CustomerModel)
      → before.customers req.customer_id ≡ some m
      → IsInt64 (m.total_paid +ℤ req.transaction_amount)
        × (pos_part (m.total_paid +ℤ req.transaction_amount) + n * most < 2 ^ 63)
  unfolding customer_to_domain
  row_fits m there =
      total_fits most n m.total_paid req.transaction_amount
        (booked.sound req.customer_id m there).paid_nonneg (budget req.customer_id m there).2
        modest.0 modest.1

  pub budget-HasSpace : HasSpace req before
  budget-HasSpace m there = (row_fits m there).0

  module _ (after : Tables) (c : Customer) (i : IsCharged req before after c) where
    row-IsSound : IsSound (customer_to_domain i.row')
    unfolding customer_to_domain
    row-IsSound =
        let paid =
          after_payment req.transaction_amount req.transaction_date (customer_to_domain i.row) in
        rw i.charged (
          bumped-IsSound paid (
            apply_payment-IsSound req.transaction_amount req.transaction_date
              (customer_to_domain i.row) (booked.sound req.customer_id i.row i.there)
              (row_fits i.row i.there).0.0
              (apply_payment-eq_ok req.transaction_amount req.transaction_date
                (customer_to_domain i.row) i.positive i.active)))

    pub charged-IsSound :
        (id : String) (m : CustomerModel)
        → after.customers id ≡ some m
        → IsSound (customer_to_domain m)
    charged-IsSound id m there = elim (charged_row req before after c i id m there) [
      | inl (_, row) ↦ rw row row-IsSound
      | inr (_, old) ↦ booked.sound id m old
    ]

    row-HasBudget :
        (pos_part i.row'.version + n < 2 ^ 63)
        × (neg_part i.row'.version ≤ 2 ^ 63)
        × (pos_part i.row'.total_paid + n * most < 2 ^ 63)
    unfolding customer_to_domain
    row-HasBudget =
        let (versions, least, _) = budget req.customer_id i.row i.there in
        let version : i.row'.version ≡ add64 i.row.version (pos 1) =
          ap (λ (d : Customer). d.version) i.charged in
        let counted = counted_fits n i.row.version versions least in
        rw (version, charged_total req before after c i budget-HasSpace)
          (counted.0, counted.1, (row_fits i.row i.there).1)

    pub charged-HasBudget : HasBudget most n after
    charged-HasBudget id m there = elim (charged_row req before after c i id m there) [
      | inl (_, row) ↦ rw row row-HasBudget
      | inr (_, old) ↦ fewer most n before budget id m old
    ]
