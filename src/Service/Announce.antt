-- ===== src/Service/Announce.antt =====
-- `publishPaymentProcessedEvent` of payment_service.go, which a goroutine runs after the answer.
pub mod Published
pub mod Started
use gigmile_test.Domain.Customer.{Customer, get_payment_progress, is_fully_paid}
use gigmile_test.Domain.Time.{Time}
use gigmile_test.Env.{Env}
use gigmile_test.Result.{Result, ok, err}
use gigmile_test.World.{Action, State, Ref, Request, ◌>>=◌, load, now}
use gigmile_test.Events.Event.{
  pointer, PaymentProcessedEvent, PaymentProcessedPayload, new_payment_processed_event,
}
use gigmile_test.Events.Publisher.{publish}
use gigmile_test.Events.Streams.{Streams}

abbrev pub payload_for : Customer → Request → Time → PaymentProcessedPayload
payload_for c req at = record {
  customer_id = c.id;
  transaction_reference = req.transaction_reference;
  amount = req.transaction_amount;
  outstanding_balance = c.outstanding_balance;
  total_paid = c.total_paid;
  payment_progress = get_payment_progress c;
  is_fully_paid = is_fully_paid c;
  processed_at = at;
}

abbrev pub publish_made : (redis : Streams) → Result PaymentProcessedEvent → redis.Log → redis.Log
publish_made redis (err e) l = l
publish_made redis (ok e) l = (publish redis (pointer e) l).1

module _ {env : Env} where
  -- The event is made of the object as it is when the goroutine runs.
  unfoldable pub event_for : Ref → Request → Action env PaymentProcessedEvent
  event_for r req = do c ← load r; at ← now; new_payment_processed_event c.id (payload_for c req at)

  -- An error of the publisher is logged.
  unfoldable pub publish_payment_processed_event :
      (redis : Streams) → Ref → Request → State env → redis.Log → State env × redis.Log
  publish_payment_processed_event redis r req s l =
      let (made, t) = event_for r req s in (t, publish_made redis made l)
