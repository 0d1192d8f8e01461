-- ===== src/Events/Subscriber.antt =====
-- internal/infrastructure/messaging/redis_subscriber.go
use Prim.Native.String.{◌++◌}
use gigmile_test.Prelude.{String, Option, none, some, List, [], ◌∷◌, str_eq, codes, if◌then◌else◌}
use gigmile_test.Domain.Errors.{message, wrap, is_redis_nil, error_text}
use gigmile_test.Result.{Result, ok, err}
use gigmile_test.Stdlib.ParseFloat.{eq_codes}
use gigmile_test.Events.Event.{
  DomainEvent, EventText, PaymentProcessedEvent, pointer, unmarshal, event_type_payment_processed,
}
use gigmile_test.Events.Notification.{Sms}
use gigmile_test.Events.Publisher.{stream_key}
use gigmile_test.Events.Streams.{Streams, Message}

-- What a handler changes: the messages sent so far.
abbrev pub EventHandler : Type 0
EventHandler = DomainEvent → List Sms → Result (Unit {0}) × List Sms

pub record Subscriber : Type 0 where
  pub handlers : String → Option EventHandler
  pub consumer_name : String
  pub group_name : String

abbrev pub new_subscriber : String → Subscriber
new_subscriber consumer_name = record {
  handlers = λ t. none;
  consumer_name = consumer_name;
  group_name = "payment-processors";
}

abbrev pub decoded :
    EventHandler → Result PaymentProcessedEvent → List Sms → Result (Unit {0}) × List Sms
decoded handler (err e) sent = (err (wrap "failed to unmarshal event" e), sent)
decoded handler (ok event) sent = handler (pointer event) sent

abbrev pub dispatch : EventHandler → String → EventText → List Sms → Result (Unit {0}) × List Sms
dispatch handler event_type event_data sent =
    if str_eq event_type event_type_payment_processed
    then decoded handler (unmarshal event_data) sent
    else (err (message ("unknown event type: " ++ event_type)), sent)

abbrev pub with_data :
    EventHandler → String → Option EventText → List Sms → Result (Unit {0}) × List Sms
with_data handler event_type none sent = (err (message "invalid event data format"), sent)
with_data handler event_type (some event_data) sent = dispatch handler event_type event_data sent

abbrev pub with_handler :
    Option EventHandler → String → Message → List Sms → Result (Unit {0}) × List Sms
with_handler none event_type m sent =
    (err (message ("no handler for event type: " ++ event_type)), sent)
with_handler (some handler) event_type m sent = with_data handler event_type m.values.data_text sent

unfoldable pub handle_message :
    Subscriber → String → Message → List Sms → Result (Unit {0}) × List Sms
handle_message s event_type m sent = with_handler (s.handlers event_type) event_type m sent

abbrev pub group_made : Subscriber → Result (Unit {0}) → Result Subscriber
group_made s (ok _) = ok s
group_made s (err e) =
    if eq_codes (error_text e) (codes "BUSYGROUP Consumer Group name already exists")
    then ok s
    else err (wrap "failed to create consumer group" e)

module _ (redis : Streams) where
  open redis use {Log, xgroup_create}

  -- The streams, and the messages that the handlers sent.
  pub record Worker : Type 0 where
    pub log : Log
    pub sent : List Sms

  -- The subscriber with the handler; after an error the program ends.
  unfoldable pub subscribe : String → EventHandler → Subscriber → Log → Result Subscriber × Log
  subscribe event_type handler s l =
      let s' = record s {
        handlers = λ t. if str_eq event_type t then some handler else s.handlers t;
      } in
      let (reply, l') = xgroup_create (stream_key event_type) s.group_name l in
      (group_made s' reply, l')

module _ {redis : Streams} where
  open redis use {Log, xread_group, xack}

  -- The end of a round: a message is acknowledged if its handler returned no error.
  abbrev pub acknowledge :
      Subscriber → String → Message → Result (Unit {0}) × List Sms → Log → Worker redis
  acknowledge s event_type m (err e, sent) l = record { log = l; sent = sent }
  acknowledge s event_type m (ok _, sent) l = record {
    log = (xack (stream_key event_type) s.group_name m.id l).1;
    sent = sent;
  }

  unfoldable pub process_message : Subscriber → String → Message → Worker redis → Worker redis
  process_message s event_type m w =
      acknowledge s event_type m (handle_message s event_type m w.sent) w.log

  unfoldable pub process_messages : Subscriber → String → List Message → Worker redis → Worker redis
  process_messages s event_type [] w = w
  process_messages s event_type (m ∷ ms) w =
      process_messages s event_type ms (process_message s event_type m w)

  unfoldable pub process_streams :
      Subscriber → String → List (List Message) → Worker redis → Worker redis
  process_streams s event_type [] w = w
  process_streams s event_type (ms ∷ streams) w =
      process_streams s event_type streams (process_messages s event_type ms w)

  -- What was read for an event type, and `rest`, the loop over the others.
  abbrev pub after_read :
      Subscriber
      → String
      → (Worker redis → Result (Unit {0}) × Worker redis)
      → Result (List (List Message))
      → Worker redis
      → Result (Unit {0}) × Worker redis
  after_read s event_type rest (ok streams) w = rest (process_streams s event_type streams w)
  after_read s event_type rest (err e) w =
      if is_redis_nil e then rest w else (err (wrap "failed to read from stream" e), w)

  -- The list has the event types with a handler in the order in which `range` yields them.
  unfoldable pub process_events :
      Subscriber → List String → Worker redis → Result (Unit {0}) × Worker redis
  process_events s [] w = (ok tt, w)
  process_events s (event_type ∷ types) w =
      let (reply, l) =
        xread_group (stream_key event_type) ">" s.group_name s.consumer_name 10 w.log in
      after_read s event_type (process_events s types) reply (record w { log = l })

  -- The rounds until the context is done, by their orders. An error is logged.
  unfoldable pub start : Subscriber → List (List String) → Worker redis → Worker redis
  start s [] w = w
  start s (types ∷ rounds) w = start s rounds (process_events s types w).1
