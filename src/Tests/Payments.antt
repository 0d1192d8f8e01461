-- ===== src/Tests/Payments.antt =====
-- Requests on a database and a cache in memory.
use gigmile_test.Prelude.{◌≡◌, refl, ◌≢◌, arith, true, false, none, [], ◌∷◌}
use gigmile_test.Prelude.Int.{pos, add64, sub64}
use gigmile_test.Domain.Errors.{external, wrap, error_text}
use gigmile_test.Domain.Customer.{Customer, apply_payment, new_balance}
use gigmile_test.Domain.Customer.Balance.{after_payment}
use gigmile_test.Domain.Payment.{Payment, new_payment, status_complete}
use gigmile_test.Persistence.{PaymentModel, customer_to_domain, payment_from_domain}
use gigmile_test.Env.Database.{update_where}
use gigmile_test.Result.{ok, err}
use gigmile_test.World.{State}
use gigmile_test.World.Rules.{tables_of}
use gigmile_test.Memory.{memory, memory-IsUp}
use gigmile_test.Cache.Customers as CustomerCache
use gigmile_test.Cache.Payments as PaymentCache
use gigmile_test.Cache.Keys.{customer_key, payment_key}
use gigmile_test.Mysql.Customers as Customers
use gigmile_test.Mysql.Payments as Payments
use gigmile_test.Mysql.Duplicate.{is_duplicate_error}
use gigmile_test.Mysql.Customers.Balance.{BalanceUpdated, update_balance-BalanceUpdated}
use gigmile_test.Mysql.Customers.Save.{Saved, save-Saved, save_failed, bumped}
use gigmile_test.Mysql.Payments.Reads.{with_reference}
use gigmile_test.Mysql.Payments.Insert.{Inserted, save-Inserted}
use gigmile_test.Service.Coherence.{IsCoherent}
use gigmile_test.Service.Process.{
  response_for, process_payment, charge, apply_at, settle, record_payment, respond, check,
}
use gigmile_test.Service.Process.Apply.{IsCharged}
use gigmile_test.Service.Process.Outcome.{Outcome, process_payment-Ends, process_payment_idempotent}
use gigmile_test.Service.Process.Keeps.{process_payment-IsCoherent}
use gigmile_test.Service.Process.Race.{duplicate-IsCharged_again}
use gigmile_test.Service.Process.Due.{IsDue}
use gigmile_test.Service.Process.Live.{IsSettled, process_payment-IsSettled}
use gigmile_test.Service.Process.Record.{Recorded, record_payment-Recorded}
use gigmile_test.Tests.Fixtures.{
  row, start, start_on, request, rows, start-IsCoherent, start-HasRooms, customer,
}

-- the request's payment in the table
abbrev payment_row : PaymentModel
payment_row = record {
  id = "id";
  customer_id = "GIG00001";
  amount = pos 1000000;
  transaction_reference = "VPAY1";
  transaction_date = pos 63899592856000000000;
  status = status_complete;
  processed_at = none;
  created_at = pos 2;
}

-- The state after another request with the same reference, before its row was charged.
abbrev known : State memory
known = record start { db = record { customers = rows; payments = payment_row ∷ [] } }

known-IsCoherent : IsCoherent known
known-IsCoherent = record {
  keyed = (start-IsCoherent false).keyed;
  cache = λ id j there. absurd (cc);
}

reference_known : with_reference "VPAY1" (tables_of known) ≢ []
reference_known = λ e. cc

-- The row that the request charges.
abbrev charged : Customer
charged = bumped (after_payment (pos 1000000) (pos 63899592856000000000) customer)

process_payment-Ends_example :
    Outcome request
      (tables_of start)
      (tables_of (process_payment request start).1)
      (process_payment request start).0
process_payment-Ends_example = process_payment-Ends request start (start-IsCoherent false)

-- A payment to a customer that is in no cache goes through.
payment_settled :
    (process_payment request start).0 ≡ ok (response_for "payment processed successfully" charged)
unfolding process_payment check Payments.exists_by_transaction_reference
    PaymentCache.exists_by_transaction_reference settle charge Customers.find_by_id
    CustomerCache.find_by_id apply_at apply_payment Customers.save CustomerCache.save
    CustomerCache.delete update_where record_payment new_payment Payments.save respond new_balance
    customer_to_domain add64 sub64 customer_key payment_key
payment_settled = refl

process_payment_idempotent_example : tables_of (process_payment request known).1 ≡ tables_of known
process_payment_idempotent_example = process_payment_idempotent request known reference_known

process_payment-IsCoherent_example : IsCoherent (process_payment request start).1
process_payment-IsCoherent_example =
    process_payment-IsCoherent request start (start-IsCoherent false) (start-HasRooms false)

passed_the_check :
    (settle request known).0 ≡ ok (response_for "payment processed successfully" charged)
unfolding settle charge Customers.find_by_id CustomerCache.find_by_id apply_at apply_payment
    Customers.save CustomerCache.save CustomerCache.delete update_where record_payment new_payment
    Payments.save PaymentCache.exists_by_transaction_reference respond new_balance
    is_duplicate_error payment_from_domain customer_to_domain add64 sub64 customer_key payment_key
    error_text
passed_the_check = refl

duplicate-IsCharged_again_example :
    (c : Customer) × (response_for "payment processed successfully" charged
      ≡ response_for "payment processed successfully" c)
    × IsCharged request (tables_of known) (tables_of (settle request known).1) c
duplicate-IsCharged_again_example =
    duplicate-IsCharged_again request known known-IsCoherent reference_known passed_the_check

save-Saved_example : Saved 0 start (Customers.save 0 start).0 (Customers.save 0 start).1
save-Saved_example = save-Saved 0 start

disk_full :
    (Customers.save 0 (start_on true)).0
    ≡ err (wrap "database error" (external "Error 1114 (HY000): The table is full"))
disk_full = (save_failed 0 (start_on true) _ refl).0

abbrev payment : Payment
payment = record {
  id = "";
  customer_id = "GIG00001";
  amount = pos 1000000;
  transaction_reference = "VPAY1";
  transaction_date = pos 63899592856000000000;
  status = status_complete;
  processed_at = pos 0;
  created_at = pos 2;
}

save-Inserted_example :
    Inserted payment start (Payments.save payment start).0 (Payments.save payment start).1
save-Inserted_example = save-Inserted payment start

record_payment-Recorded_example :
    Recorded request 0 start (record_payment request 0 start).0 (record_payment request 0 start).1
record_payment-Recorded_example = record_payment-Recorded request 0 start

-- The request is due.
start-IsDue : IsDue request row start
start-IsDue = record {
  there = refl;
  active = refl;
  positive = omega arith;
  named = refl;
  referred = refl;
  new = refl;
  absent = refl;
  fits = record { customer = refl; reference = refl; date = refl };
  plain = refl;
  current = λ j there. absurd (cc);
}

process_payment-IsSettled_example :
    IsSettled request
      (tables_of start)
      (tables_of (process_payment request start).1)
      (process_payment request start).0
process_payment-IsSettled_example =
    process_payment-IsSettled request row start memory-IsUp (start-IsCoherent false) start-IsDue
      refl

update_balance-BalanceUpdated_example :
    BalanceUpdated "GIG00001"
      (pos 1000000)
      (pos 1)
      start
      (Customers.update_balance "GIG00001" (pos 1000000) (pos 1) start).0
      (Customers.update_balance "GIG00001" (pos 1000000) (pos 1) start).1
update_balance-BalanceUpdated_example =
    update_balance-BalanceUpdated "GIG00001" (pos 1000000) (pos 1) start
