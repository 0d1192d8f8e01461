-- ===== src/Service/Books/Kept.antt =====
-- What a request leaves of the books.
use gigmile_test.Mysql.Payments.Reads.{with_reference}
use gigmile_test.Prelude.{◌≢◌, Bool, inl, inr, List, Bool-cases, ℕ, suc, ◌≡◌, ap, String, ◌∷◌, []}
use gigmile_test.Env.Database.{Tables, select, has_reference}
use gigmile_test.Persistence.{PaymentModel}
use gigmile_test.Domain.Customer.{Customer}
use gigmile_test.Result.{Result}
use gigmile_test.World.{Request}
use gigmile_test.Service.Ledger.{charged-IsLedger, recorded-IsLedger}
use gigmile_test.Service.Process.{Response}
use gigmile_test.Service.Process.Apply.{IsCharged}
use gigmile_test.Service.Process.Outcome.{
  Outcome, refused, duplicate, failed, lost, unrecorded, settled,
}
use gigmile_test.Service.Process.Record.{IsRecorded}
use gigmile_test.Service.Books.{
  IsBooked, HasBudget, IsModest, fewer, budget-HasSpace, charged-IsSound, charged-HasBudget,
}

-- The books are kept, with room for n more payments.
pub record Keeps (most n : ℕ) (t : Tables) : Type 0 where
  pub booked : IsBooked t
  pub budget : HasBudget most n t

module _ (most n : ℕ) (req : Request) (before : Tables) (modest : IsModest most req)
    (keeps : Keeps most (suc n) before) where
  charged-Keeps :
      (after : Tables) (c : Customer) → IsCharged req before after c → Keeps most n after
  charged-Keeps after c i =
      let b = keeps.booked in
      let budget = keeps.budget in
      record {
        booked = record {
          sound = charged-IsSound most n req before modest b budget after c i;
          ledger =
              charged-IsLedger req before after c i
                (budget-HasSpace most n req before modest b budget) b.ledger;
          distinct = rw (ap (λ (t : Tables). t.payments) i.tables) b.distinct;
        };
        budget = charged-HasBudget most n req before modest b budget after c i;
      }

  recorded-Keeps :
      (charged after : Tables) (c : Customer)
      → IsCharged req before charged c
      → IsRecorded req charged after
      → Keeps most n after
  recorded-Keeps charged after c i r =
      let k = charged-Keeps charged c i in
      let customers : after.customers ≡ charged.customers =
        ap (λ (t : Tables). t.customers) r.tables in
      record {
        booked = record {
          sound = rw customers k.booked.sound;
          ledger =
              recorded-IsLedger req before charged after c i r
                (budget-HasSpace most n req before modest keeps.booked keeps.budget)
                keeps.booked.ledger;
          distinct =
              rw (ap (λ (t : Tables). t.payments) r.tables)
                (rw r.of_request.reference r.fresh, k.booked.distinct);
        };
        budget = rw customers k.budget;
      }

  unwritten : (after : Tables) → after ≡ before → Keeps most n after
  unwritten after same =
      rw same (record { booked = keeps.booked; budget = fewer most n before keeps.budget })

  pub ends-Keeps :
      (after : Tables) (x : Result Response) → Outcome req before after x → Keeps most n after
  ends-Keeps after x (refused _ _ same) = unwritten after same
  ends-Keeps after x (duplicate _ _ same) = unwritten after same
  ends-Keeps after x (failed _ _ same) = unwritten after same
  ends-Keeps after x (lost c e _ i) = charged-Keeps after c i
  ends-Keeps after x (unrecorded c _ i) = charged-Keeps after c i
  ends-Keeps after x (settled c charged _ i r) = recorded-Keeps charged after c i r

added :
    (p : PaymentModel → Bool) (m : PaymentModel) (ms : List PaymentModel)
    → select p ms ≢ []
    → select p (m ∷ ms) ≢ []
added p m ms h = elim (Bool-cases (p m)) [ inl it ↦ rw it (λ e. cc) | inr other ↦ rw other h ]

-- A reference that is in the table stays in it.
pub ends-known :
    (ref : String) (req : Request) (before after : Tables) (x : Result Response)
    → Outcome req before after x
    → with_reference ref before ≢ []
    → with_reference ref after ≢ []
ends-known ref req before after x (refused _ _ same) known = rw same known
ends-known ref req before after x (duplicate _ _ same) known = rw same known
ends-known ref req before after x (failed _ _ same) known = rw same known
ends-known ref req before after x (lost c e _ i) known = rw i.tables known
ends-known ref req before after x (unrecorded c _ i) known = rw i.tables known
ends-known ref req before after x (settled c charged _ i r) known =
    rw (r.tables, i.tables) (added (has_reference ref) r.row before.payments known)
