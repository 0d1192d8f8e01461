-- ===== src/Events/Event.antt =====
-- internal/domain/events.go
use gigmile_test.Prelude.{String, Bool, ◌+◌, ◌/◌}
use gigmile_test.Prelude.Int.{ℤ, pos, negsuc, sub_ℕ}
use gigmile_test.Float64.{Float64, nan, inf, finite}
use gigmile_test.Domain.Errors.{external}
use gigmile_test.Domain.Time.{Time}
use gigmile_test.Env.{Env}
use gigmile_test.Result.{Result, ok, err}
use gigmile_test.World.{Action, pure, ◌>>=◌, now, new_uuid}

abbrev pub event_type_payment_received : String
event_type_payment_received = "payment.received"

abbrev pub event_type_payment_processed : String
event_type_payment_processed = "payment.processed"

abbrev pub event_type_payment_failed : String
event_type_payment_failed = "payment.failed"

abbrev pub event_type_customer_updated : String
event_type_customer_updated = "customer.updated"

pub record BaseEvent : Type 0 where
  pub event_id : String
  pub event_type : String
  pub aggregate_id : String
  pub occurred_at : Time

pub record PaymentProcessedPayload : Type 0 where
  pub customer_id : String
  pub transaction_reference : String
  pub amount : ℤ
  pub outstanding_balance : ℤ
  pub total_paid : ℤ
  pub payment_progress : Float64
  pub is_fully_paid : Bool
  pub processed_at : Time

-- The fields of the embedded struct, and the payload.
pub record PaymentProcessedEvent : Type 0 where
  pub base : BaseEvent
  pub payload : PaymentProcessedPayload

-- The values of the interface: the methods have value receivers, so that a pointer and a struct both
-- implement it.
pub data DomainEvent : Type 0 where
  pointer : PaymentProcessedEvent → DomainEvent
  struct : PaymentProcessedEvent → DomainEvent

abbrev pub event_of : DomainEvent → PaymentProcessedEvent
event_of (pointer e) = e
event_of (struct e) = e

abbrev pub get_event_id : DomainEvent → String
get_event_id event = (event_of event).base.event_id

abbrev pub get_event_type : DomainEvent → String
get_event_type event = (event_of event).base.event_type

abbrev pub get_aggregate_id : DomainEvent → String
get_aggregate_id event = (event_of event).base.aggregate_id

abbrev pub get_occurred_at : DomainEvent → Time
get_occurred_at event = (event_of event).base.occurred_at

abbrev pub get_payload : DomainEvent → PaymentProcessedPayload
get_payload event = (event_of event).payload

module _ {env : Env} where
  unfoldable pub new_payment_processed_event :
      String → PaymentProcessedPayload → Action env PaymentProcessedEvent
  new_payment_processed_event customer_id payload = do
    id ← new_uuid
    at ← now
    pure (record {
      base = record {
        event_id = id;
        event_type = event_type_payment_processed;
        aggregate_id = customer_id;
        occurred_at = at;
      };
      payload = payload;
    })

-- A text, by what `json.Unmarshal` into a PaymentProcessedEvent makes of it.
pub data EventText : Type 0 where
  event_text : PaymentProcessedEvent → EventText
  malformed : EventText

-- `json.Marshal`: there is no JSON for a float that is not finite. The instants are of the years that
-- RFC 3339 can write.
abbrev pub marshal_by : Float64 → PaymentProcessedEvent → Result EventText
marshal_by nan e = err (external "json: unsupported value: NaN")
marshal_by (inf neg) e = err (external "json: unsupported value: Inf")
marshal_by (finite neg m x) e = ok (event_text e)

unfoldable pub marshal : DomainEvent → Result EventText
marshal event = marshal_by (get_payload event).payment_progress (event_of event)

abbrev pub unmarshal : EventText → Result PaymentProcessedEvent
unmarshal (event_text e) = ok e
unmarshal malformed = err (external "invalid character")

-- `t.Unix()`: whole seconds since 1970, which is 62135596800 seconds after the year 1
abbrev pub unix : Time → ℤ
unix (pos n) = sub_ℕ (n / 1000000000) 62135596800
unix (negsuc n) = negsuc (n / 1000000000 + 62135596800)
