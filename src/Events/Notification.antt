-- ===== src/Events/Notification.antt =====
-- internal/application/service/notification_service.go: a message that the service only logs is a
-- message sent.
use gigmile_test.Prelude.{String, List, [], ◌∷◌, ◌++◌, if◌then◌else◌}
use gigmile_test.Prelude.Int.{ℤ, pos, quot64}
use gigmile_test.Domain.Errors.{message}
use gigmile_test.Result.{Result, ok, err}
use gigmile_test.Events.Event.{DomainEvent, pointer, struct, PaymentProcessedEvent}

pub data Sms : Type 0 where
  -- to a customer: the payment and the balance, in naira
  received : String → ℤ → ℤ → Sms
  congratulations : String → Sms

unfoldable pub received_for : PaymentProcessedEvent → Sms
unfolding quot64
received_for e =
    let p = e.payload in
    received p.customer_id (quot64 p.amount (pos 100)) (quot64 p.outstanding_balance (pos 100))

-- The messages sent so far, the last one at the end.
abbrev pub notify : PaymentProcessedEvent → List Sms → List Sms
notify e sent =
    let first = sent ++ received_for e ∷ [] in
    if e.payload.is_fully_paid then first ++ congratulations e.payload.customer_id ∷ [] else first

unfoldable pub handle_payment_processed : DomainEvent → List Sms → Result (Unit {0}) × List Sms
handle_payment_processed (pointer e) sent = (ok tt, notify e sent)
handle_payment_processed (struct e) sent = (err (message "invalid event type"), sent)
