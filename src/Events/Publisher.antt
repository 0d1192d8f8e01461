-- ===== src/Events/Publisher.antt =====
-- internal/infrastructure/messaging/redis_publisher.go
use Prim.Native.String.{◌++◌}
use gigmile_test.Prelude.{ℕ, String, some}
use gigmile_test.Domain.Errors.{wrap}
use gigmile_test.Result.{Result, ok, err}
use gigmile_test.Events.Event.{
  DomainEvent, EventText, get_event_id, get_event_type, get_aggregate_id, get_occurred_at, marshal,
  unix,
}
use gigmile_test.Events.Streams.{Streams, Values}

unfoldable pub stream_key : String → String
stream_key event_type = "events:" ++ event_type

-- `MaxLen`
abbrev pub max_len : ℕ
max_len = 100000

abbrev pub values_of : DomainEvent → EventText → Values
values_of event data_text = record {
  event_id = get_event_id event;
  event_type = get_event_type event;
  aggregate_id = get_aggregate_id event;
  occurred_at = unix (get_occurred_at event);
  data_text = some data_text;
}

abbrev pub added : Result String → Result (Unit {0})
added (ok id) = ok tt
added (err e) = err (wrap "failed to publish event" e)

module _ (redis : Streams) where
  open redis use {Log, xadd}

  abbrev pub add : DomainEvent → Result EventText → Log → Result (Unit {0}) × Log
  add event (err e) l = (err (wrap "failed to marshal event" e), l)
  add event (ok data_text) l =
      let (reply, l') =
        xadd (stream_key (get_event_type event)) max_len (values_of event data_text) l in
      (added reply, l')

  unfoldable pub publish : DomainEvent → Log → Result (Unit {0}) × Log
  publish event l = add event (marshal event) l
