-- ===== src/Tests/Ledger.antt =====
-- Payments and rows of a database in memory.
use gigmile_test.Prelude.{
  ◌≡◌, refl, String, eq_iff, inl, inr, false, none, some, [], ◌∷◌, arith, str_eq, Bool-cases,
  if◌then◌else◌,
}
use gigmile_test.Prelude.Int.{pos, ◌+ℤ◌}
use gigmile_test.Domain.Payment.{status_complete}
use gigmile_test.Persistence.{CustomerModel, PaymentModel}
use gigmile_test.Result.{ok}
use gigmile_test.World.{State}
use gigmile_test.World.Rules.{tables_of}
use gigmile_test.Memory.{memory}
use gigmile_test.Mysql.Customers as Customers
use gigmile_test.Mysql.Customers.Create.{Created, create-Created}
use gigmile_test.Mysql.Payments.{get_total_paid_by_customer}
use gigmile_test.Service.Ledger.{IsLedger, HasSpace, process_payment-IsLedger}
use gigmile_test.Service.Process.{process_payment}
use gigmile_test.Tests.Fixtures.{row, customer, request, the_row, start, start-IsCoherent}

pub start-IsLedger : IsLedger (tables_of start)
start-IsLedger id m there = let (_, same) = the_row id m there in rw same (omega arith)

start-HasSpace : HasSpace request (tables_of start)
unfolding ◌+ℤ◌
start-HasSpace m there =
    let (_, same) = the_row "GIG00001" m there in rw same (omega arith, omega arith)

process_payment-IsLedger_example : IsLedger (tables_of (process_payment request start).1)
process_payment-IsLedger_example =
    process_payment-IsLedger request start (start-IsCoherent false) start-HasSpace start-IsLedger

-- A customer who has paid ten thousand naira, in one payment.
abbrev pub paid_row : CustomerModel
paid_row = record row { total_paid = pos 1000000; outstanding_balance = pos 99000000 }

abbrev pub payment_row : PaymentModel
payment_row = record {
  id = "id";
  customer_id = "GIG00001";
  amount = pos 1000000;
  transaction_reference = "VPAY1";
  transaction_date = pos 63899592856000000000;
  status = status_complete;
  processed_at = none;
  created_at = pos 2;
}

abbrev pub paid : State memory
paid = record start {
  db = record {
    customers = λ id. if str_eq "GIG00001" id then some paid_row else none;
    payments = payment_row ∷ [];
  };
}

pub the_paid_row :
    (id : String) (m : CustomerModel)
    → (tables_of paid).customers id ≡ some m
    → ("GIG00001" ≡ id) × (m ≡ paid_row)
the_paid_row id m h = elim (Bool-cases (str_eq "GIG00001" id)) [
  | inl same ↦ ((eq_iff "GIG00001" id).0 same, cc (rw same at h))
  | inr other ↦ absurd (cc (rw other at h))
]

pub paid-IsLedger : IsLedger (tables_of paid)
unfolding ◌+ℤ◌
paid-IsLedger id m there =
    let (here, row) = the_paid_row id m there in rw (← here, row) (omega arith)

total : (get_total_paid_by_customer "GIG00001" paid).0 ≡ ok (pos 1000000)
unfolding get_total_paid_by_customer ◌+ℤ◌
total = refl

create-Created_example :
    Created
      (record customer { id = "GIG00002" })
      start
      (Customers.create (record customer { id = "GIG00002" }) start).0
      (Customers.create (record customer { id = "GIG00002" }) start).1
create-Created_example = create-Created (record customer { id = "GIG00002" }) start
