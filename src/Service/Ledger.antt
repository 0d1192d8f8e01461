-- ===== src/Service/Ledger.antt =====
-- The rows of the customers and the payments recorded: no more is recorded than was credited.
use gigmile_test.Prelude.{
  String, Bool, ◌&&◌, ◌≡◌, refl, ap, ◌∙◌, sym, ◌⊎◌, inl, inr, true, false, some, List, ◌∷◌, arith,
  str_eq, eq_iff, Bool-cases,
}
use gigmile_test.Prelude.Int.{ℤ, pos, ◌+ℤ◌, ◌≤ℤ◌, ◌<ℤ◌, +ℤ_parts, add64, wrap64-id, IsInt64}
use gigmile_test.Domain.Customer.{Customer}
use gigmile_test.Persistence.{CustomerModel, PaymentModel, customer_to_domain}
use gigmile_test.Env.{Env}
use gigmile_test.Env.Database.{Tables, select, sum_of, put_customer, IsSum}
use gigmile_test.Result.{Result, ok, err, wrap_error}
use gigmile_test.World.{State, Request}
use gigmile_test.World.Rules.{Post, IsQuiet, db-IsQuiet, tables_of}
use gigmile_test.Mysql.Payments.{is_paid_by, get_total_paid_by_customer}
use gigmile_test.Service.Coherence.{IsCoherent}
use gigmile_test.Service.Process.{Response, process_payment}
use gigmile_test.Service.Process.Apply.{IsCharged}
use gigmile_test.Service.Process.Outcome.{
  Outcome, refused, duplicate, failed, lost, unrecorded, settled, process_payment-Ends,
}
use gigmile_test.Service.Process.Record.{IsRecorded, IsPaymentRow}

-- A payment counts for its customer where it is complete.
abbrev pub counts_for : String → PaymentModel → Bool
counts_for id m = str_eq m.customer_id id && str_eq m.status "COMPLETE"

-- The payments of a customer that count, and their sum.
abbrev pub paid_by : String → List PaymentModel → ℤ
paid_by id ps = sum_of (select (counts_for id) ps)

-- For every customer, the recorded payments come to at most the total of the row.
abbrev pub IsLedger : Tables → Type 0
IsLedger t =
    (id : String) (m : CustomerModel)
    → t.customers id ≡ some m
    → paid_by id t.payments ≤ℤ m.total_paid

-- The request's amount can be added to the total of its customer.
abbrev pub HasSpace : Request → Tables → Type 0
HasSpace req t =
    (m : CustomerModel)
    → t.customers req.customer_id ≡ some m
    → IsInt64 (m.total_paid +ℤ req.transaction_amount)

pub charged_total :
    (req : Request) (before after : Tables) (c : Customer) (i : IsCharged req before after c)
    → HasSpace req before
    → i.row'.total_paid ≡ i.row.total_paid +ℤ req.transaction_amount
unfolding customer_to_domain add64
charged_total req before after c i space =
    ap (λ (d : Customer). d.total_paid) i.charged
    ∙ wrap64-id (i.row.total_paid +ℤ req.transaction_amount) (space i.row i.there)

more : (a b n : ℤ) → pos 0 <ℤ b → n ≤ℤ a → n ≤ℤ (a +ℤ b)
more a b n positive h = omega (arith, +ℤ_parts a b)

both : (a b n : ℤ) → n ≤ℤ a → (b +ℤ n) ≤ℤ (a +ℤ b)
both a b n h = omega (arith, +ℤ_parts a b, +ℤ_parts b n)

-- The row that was charged, or another one.
pub charged_row :
    (req : Request) (before after : Tables) (c : Customer) (i : IsCharged req before after c)
    (id : String) (m : CustomerModel)
    → after.customers id ≡ some m
    → ((req.customer_id ≡ id) × (m ≡ i.row'))
      ⊎ ((str_eq req.customer_id id ≡ false) × (before.customers id ≡ some m))
charged_row req before after c i id m there =
    let put : put_customer req.customer_id i.row' before.customers id ≡ some m =
      ap (λ (t : Tables). t.customers id) (sym i.tables) ∙ there in
    elim (Bool-cases (str_eq req.customer_id id)) [
      | inl same ↦ inl ((eq_iff req.customer_id id).0 same, cc (rw same at put))
      | inr other ↦ inr (other, rw other at put)
    ]

-- A charge alone.
pub charged-IsLedger :
    (req : Request) (before after : Tables) (c : Customer)
    → IsCharged req before after c
    → HasSpace req before
    → IsLedger before
    → IsLedger after
charged-IsLedger req before after c i space ledger id m there =
    let same_payments : after.payments ≡ before.payments =
      ap (λ (t : Tables). t.payments) i.tables in
    elim (charged_row req before after c i id m there) [
      | inl (same, row) ↦
          rw (same_payments, row, charged_total req before after c i space)
            (more i.row.total_paid req.transaction_amount (paid_by id before.payments) i.positive
              (ledger id i.row (rw (← same) i.there)))
      | inr (_, old) ↦ rw same_payments (ledger id m old)
    ]

pub paid_now :
    (req : Request) (id : String) (p : PaymentModel) (ps : List PaymentModel)
    → IsPaymentRow req p
    → req.customer_id ≡ id
    → paid_by id (p ∷ ps) ≡ req.transaction_amount +ℤ paid_by id ps
paid_now req id p ps row same =
    let ours : str_eq p.customer_id id ≡ true = (eq_iff p.customer_id id).1 (row.customer ∙ same) in
    let complete : str_eq p.status "COMPLETE" ≡ true = (eq_iff p.status "COMPLETE").1 row.status in
    rw (ours, complete) (ap (λ (a : ℤ). a +ℤ paid_by id ps) row.amount)

pub paid_not :
    (req : Request) (id : String) (p : PaymentModel) (ps : List PaymentModel)
    → IsPaymentRow req p
    → str_eq req.customer_id id ≡ false
    → paid_by id (p ∷ ps) ≡ paid_by id ps
paid_not req id p ps row other =
    let theirs : str_eq p.customer_id id ≡ false =
      ap (λ (c : String). str_eq c id) row.customer ∙ other in
    rw theirs refl

-- A charge and its payment.
pub recorded-IsLedger :
    (req : Request) (before between after : Tables) (c : Customer)
    → IsCharged req before between c
    → IsRecorded req between after
    → HasSpace req before
    → IsLedger before
    → IsLedger after
recorded-IsLedger req before between after c i r space ledger id m there =
    let there_between : between.customers id ≡ some m =
      ap (λ (t : Tables). t.customers id) (sym r.tables) ∙ there in
    let payments : after.payments ≡ r.row ∷ before.payments =
      ap (λ (t : Tables). t.payments) r.tables ∙ ap (λ (t : Tables). r.row ∷ t.payments) i.tables in
    elim (charged_row req before between c i id m there_between) [
      | inl (same, row) ↦
          rw
            (
              payments,
              paid_now req id r.row before.payments r.of_request same,
              row,
              charged_total req before between c i space,
            )
            (both i.row.total_paid req.transaction_amount (paid_by id before.payments)
              (ledger id i.row (rw (← same) i.there)))
      | inr (other, old) ↦
          rw (payments, paid_not req id r.row before.payments r.of_request other) (ledger id m old)
    ]

ends-IsLedger :
    (req : Request) (before after : Tables) (x : Result Response)
    → Outcome req before after x
    → HasSpace req before
    → IsLedger before
    → IsLedger after
ends-IsLedger req before after x (refused _ _ same) space ledger = rw same ledger
ends-IsLedger req before after x (duplicate _ _ same) space ledger = rw same ledger
ends-IsLedger req before after x (failed _ _ same) space ledger = rw same ledger
ends-IsLedger req before after x (lost c e _ i) space ledger =
    charged-IsLedger req before after c i space ledger
ends-IsLedger req before after x (unrecorded c _ i) space ledger =
    charged-IsLedger req before after c i space ledger
ends-IsLedger req before after x (settled c between _ i r) space ledger =
    recorded-IsLedger req before between after c i r space ledger

module _ {env : Env} where
  -- A request on a coherent state keeps the books, whatever fails on the way: where for every
  -- customer the complete payments recorded come to at most the total of the row, they do so
  -- afterwards. The amount can be added to the total of the customer within int64.
  pub process_payment-IsLedger :
      (req : Request) (s : State env)
      → IsCoherent s
      → HasSpace req (tables_of s)
      → IsLedger (tables_of s)
      → IsLedger (tables_of (process_payment req s).1)
  process_payment-IsLedger req s h space ledger =
      ends-IsLedger req (tables_of s) (tables_of (process_payment req s).1)
        (process_payment req s).0 (process_payment-Ends req s h) space ledger

  -- What the sum of the payments says of the row.
  abbrev pub Totalled : String → State env → Post env ℤ
  Totalled id s (ok n) t =
      IsQuiet s t
      × (n ≡ paid_by id (tables_of s).payments)
      × ((m : CustomerModel) → (tables_of s).customers id ≡ some m → n ≤ℤ m.total_paid)
  Totalled id s (err e) t = IsQuiet s t

  totalled :
      (id : String) (s t : State env) (x : Result ℤ)
      → IsLedger (tables_of s)
      → IsQuiet s t
      → IsSum (select (counts_for id) (tables_of s).payments) x
      → Totalled id s (wrap_error "failed to calculate total" x) t
  totalled id s t (ok n) ledger quiet sum = (quiet, sum, λ m there. rw sum (ledger id m there))
  totalled id s t (err e) ledger quiet sum = quiet

  -- Where the books are kept, the total that the repository of payments answers for a customer is
  -- the exact sum of the complete payments, and at most the total of the row; an answer and an
  -- error write to no table and no object.
  pub get_total-Totalled :
      (id : String) (s : State env)
      → IsLedger (tables_of s)
      → Totalled id s (get_total_paid_by_customer id s).0 (get_total_paid_by_customer id s).1
  unfolding get_total_paid_by_customer
  get_total-Totalled id s ledger =
      totalled id s _ _ ledger (db-IsQuiet s _ (env.sql.sum_payments_reads (is_paid_by id) s.db))
        (env.sql.sum_payments_sums (is_paid_by id) s.db)
