-- ===== src/Tests/Fixtures.antt =====
-- A customer of the seed script, its row, a request of ten thousand naira, and a state with that row
-- alone.
use gigmile_test.Prelude.{
  String, ◌≡◌, inl, inr, Bool, false, Option, none, some, [], str_eq, eq_iff, Bool-cases, arith,
  if◌then◌else◌,
}
use gigmile_test.Prelude.Int.{pos}
use gigmile_test.Domain.Customer.{Customer, status_active}
use gigmile_test.Persistence.{CustomerModel}
use gigmile_test.World.{State, Request}
use gigmile_test.World.Rules.{tables_of}
use gigmile_test.Memory.{memory, memory_on}
use gigmile_test.Service.Coherence.{IsCoherent}
use gigmile_test.Service.Process.Apply.{HasRooms}

abbrev pub customer : Customer
customer = record {
  id = "GIG00001";
  asset_value = pos 100000000;
  repayment_term_weeks = pos 50;
  outstanding_balance = pos 100000000;
  total_paid = pos 0;
  deployment_date = pos 5;
  last_payment_date = none;
  status = status_active;
  version = pos 1;
}

abbrev pub row : CustomerModel
row = record {
  id = "GIG00001";
  asset_value = pos 100000000;
  outstanding_balance = pos 100000000;
  total_paid = pos 0;
  repayment_term_weeks = pos 50;
  deployment_date = pos 5;
  last_payment_date = none;
  status = status_active;
  version = pos 1;
  created_at = pos 1;
  updated_at = pos 1;
}

abbrev pub rows : String → Option CustomerModel
rows id = if str_eq "GIG00001" id then some row else none

abbrev pub request : Request
request = record {
  customer_id = "GIG00001";
  payment_status = "COMPLETE";
  transaction_amount = pos 1000000;
  transaction_date = pos 63899592856000000000;
  transaction_reference = "VPAY1";
}

abbrev pub start_on : (full : Bool) → State (memory_on full)
start_on full = record {
  db = record { customers = rows; payments = [] };
  store = λ k. none;
  heap = λ r. customer;
  next_ref = 0;
  tasks = [];
  times = 0;
  uuids = 0;
}

abbrev pub start : State memory
start = start_on false

pub the_row : (id : String) (m : CustomerModel) → rows id ≡ some m → ("GIG00001" ≡ id) × (m ≡ row)
the_row id m h = elim (Bool-cases (str_eq "GIG00001" id)) [
  | inl same ↦ ((eq_iff "GIG00001" id).0 same, ground arith)
  | inr other ↦ absurd (ground arith)
]

pub start-IsCoherent : (full : Bool) → IsCoherent (start_on full)
start-IsCoherent full = record {
  keyed = λ id m h. let (e, same) = the_row id m h in rw same e;
  cache = λ id j there. absurd (cc);
}

pub start-HasRooms : (full : Bool) → HasRooms (tables_of (start_on full))
start-HasRooms full id m h = let (e, same) = the_row id m h in rw same (omega arith)
