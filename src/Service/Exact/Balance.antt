-- ===== src/Service/Exact/Balance.antt =====
-- The total of every row is what is recorded, to the kobo.
use gigmile_test.Prelude.{◌≡◌, ap, sym, ◌∙◌, inl, inr, some, ◌∷◌, arith, String}
use gigmile_test.Prelude.Int.{ℤ, ◌+ℤ◌, +ℤ_parts, eq_of_parts}
use gigmile_test.Domain.Customer.{Customer}
use gigmile_test.Env.Database.{Tables}
use gigmile_test.Persistence.{CustomerModel}
use gigmile_test.Result.{Result}
use gigmile_test.World.{Request}
use gigmile_test.Service.Exact.Whole.{Whole, untouched, whole}
use gigmile_test.Service.Ledger.{paid_by, HasSpace, charged_total, charged_row, paid_now, paid_not}
use gigmile_test.Service.Process.{Response}
use gigmile_test.Service.Process.Apply.{IsCharged}
use gigmile_test.Service.Process.Record.{IsRecorded}

-- For every customer, the recorded payments that count come to the total of the row.
abbrev pub IsBalanced : Tables → Type 0
IsBalanced t =
    (id : String) (m : CustomerModel)
    → t.customers id ≡ some m
    → paid_by id t.payments ≡ m.total_paid

swapped : (a b : ℤ) → a +ℤ b ≡ b +ℤ a
swapped a b = eq_of_parts (a +ℤ b) (b +ℤ a) (omega (arith, +ℤ_parts a b, +ℤ_parts b a))

recorded-IsBalanced :
    (req : Request) (before between after : Tables) (c : Customer)
    → IsCharged req before between c
    → IsRecorded req between after
    → HasSpace req before
    → IsBalanced before
    → IsBalanced after
recorded-IsBalanced req before between after c i r space balanced id m there =
    let there_between : between.customers id ≡ some m =
      ap (λ (t : Tables). t.customers id) (sym r.tables) ∙ there in
    let payments : after.payments ≡ r.row ∷ before.payments =
      ap (λ (t : Tables). t.payments) r.tables ∙ ap (λ (t : Tables). r.row ∷ t.payments) i.tables in
    elim (charged_row req before between c i id m there_between) [
      | inl (same, row) ↦
          ap (paid_by id) payments
          ∙ paid_now req id r.row before.payments r.of_request same
          ∙ ap (λ (n : ℤ). req.transaction_amount +ℤ n) (balanced id i.row (rw (← same) i.there))
          ∙ swapped req.transaction_amount i.row.total_paid
          ∙ sym (charged_total req before between c i space)
          ∙ sym (ap (λ (x : CustomerModel). x.total_paid) row)
      | inr (other, old) ↦
          ap (paid_by id) payments
          ∙ paid_not req id r.row before.payments r.of_request other
          ∙ balanced id m old
    ]

pub whole-IsBalanced :
    (req : Request) (before after : Tables) (x : Result Response)
    → Whole req before after x
    → HasSpace req before
    → IsBalanced before
    → IsBalanced after
whole-IsBalanced req before after x (untouched same) space balanced = rw same balanced
whole-IsBalanced req before after x (whole c between _ i r) space balanced =
    recorded-IsBalanced req before between after c i r space balanced
