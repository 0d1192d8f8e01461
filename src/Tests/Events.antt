-- ===== src/Tests/Events.antt =====
-- The events on streams in memory.
use gigmile_test.Prelude.{
  String, ◌≡◌, ◌≢◌, refl, sym, ap, ◌∙◌, eq_iff, ◌⊎◌, inl, inr, none, some, List, [], ◌∷◌, arith,
  true, false,
}
use mathlib.Core.List.{Memᴰ}
use mathlib.Core.List.Memᴰ.{eq_of_singleton, cases_cons}
use gigmile_test.Prelude.Int.{pos}
use gigmile_test.Float64.{finite, mul, div, of_int64}
use gigmile_test.Domain.Customer.{get_payment_progress}
use gigmile_test.Domain.Time.{Time}
use gigmile_test.Result.{Ensures}
use gigmile_test.World.Rules.{IsQuiet}
use gigmile_test.Memory.Streams.{memory_streams, memory_streams-IsServing}
use gigmile_test.Events.Event.{
  PaymentProcessedEvent, event_text, malformed, pointer, event_type_payment_processed,
}
use gigmile_test.Events.Notification.{
  received, congratulations, notify, received_for, handle_payment_processed,
}
use gigmile_test.Events.Publisher.{values_of, stream_key}
use gigmile_test.Events.Streams.{Stream, Message, Group}
use gigmile_test.Events.Subscriber.{
  Worker, process_events, start, handle_message, process_message, process_messages, process_streams,
  subscribe,
}
use gigmile_test.Events.Worker.{main}
use gigmile_test.Events.Worker.Delivery.{AreDistinct, name}
use gigmile_test.Events.Worker.Handled.{subscribed, Handled, handle_message-Handled}
use gigmile_test.Events.Worker.Kept.{Kept, main-Kept, events_key}
use gigmile_test.Service.Announce.{payload_for, publish_payment_processed_event}
use gigmile_test.Service.Announce.Published.{Announced, publish-Announced, announced-told}
use gigmile_test.Service.Announce.Started.{Starts, process_payment-Starts}
use gigmile_test.Service.Process.{process_payment}
use gigmile_test.Tests.Fixtures.{start-IsCoherent, customer, request, start as begin}

abbrev event : PaymentProcessedEvent
event = record {
  base = record {
    event_id = "e1";
    event_type = event_type_payment_processed;
    aggregate_id = "GIG00001";
    occurred_at = pos 1;
  };
  payload = record {
    customer_id = "GIG00001";
    transaction_reference = "VPAY1";
    amount = pos 1000000;
    outstanding_balance = pos 0;
    total_paid = pos 100000000;
    payment_progress = finite false 0 0;
    is_fully_paid = true;
    processed_at = pos 1;
  };
}

-- An event, and a text that is none.
abbrev good : Message
good = record { id = "1"; values = values_of (pointer event) (event_text event) }

abbrev bad : Message
bad = record { id = "2"; values = values_of (pointer event) malformed }

-- Both are on the stream, and there is no group yet.
abbrev two_waiting : String → Stream
two_waiting key = record { entries = good ∷ bad ∷ []; groups = λ h. none }

abbrev worker : Worker memory_streams
worker = record { log = two_waiting; sent = [] }

abbrev rounds : List (List String)
rounds = (event_type_payment_processed ∷ []) ∷ (event_type_payment_processed ∷ []) ∷ []

-- One is told and acknowledged, and the other stays pending.
told :
    Ensures
      (λ (w : Worker memory_streams).
        (w.sent ≡ received "GIG00001" (pos 10000) (pos 0) ∷ congratulations "GIG00001" ∷ [])
        × ((w.log events_key).groups name ≡ some (record { unread = []; pending = bad ∷ [] })))
      (main "worker-1" rounds worker)
unfolding main subscribe start process_events process_streams process_messages process_message
    handle_message handle_payment_processed received_for stream_key
told = (refl, refl)

ids_differ : (a b : Message) → a ≡ good → b ≡ bad → a.id ≢ b.id
ids_differ a b p q same =
    let one_two : ◌≡◌ {A = String} "1" "2" =
      sym (ap (λ (m : Message). m.id) p) ∙ (same ∙ ap (λ (m : Message). m.id) q) in
    absurd (cc ((eq_iff "1" "2").1 one_two))

which : (m : Message) → Memᴰ m (good ∷ bad ∷ []) → (m ≡ good) ⊎ (m ≡ bad)
which m h = elim (cases_cons h) [ inl p ↦ inl p | inr rest ↦ inr (eq_of_singleton rest) ]

two_distinct : AreDistinct (good ∷ bad ∷ [])
two_distinct a b x y same = elim (which a x) [
  | inl p ↦ elim (which b y) [ inl q ↦ p ∙ sym q | inr q ↦ absurd (ids_differ a b p q same) ]
  | inr p ↦ elim (which b y) [ inl q ↦ absurd (ids_differ b a q p (sym same)) | inr q ↦ p ∙ sym q ]
]

main-Kept_example : Ensures (Kept "worker-1" rounds bad) (main "worker-1" rounds worker)
main-Kept_example = main-Kept "worker-1" rounds bad worker two_distinct (Memᴰ.tail (Memᴰ.head refl))

-- The message that failed is the one that is left.
abbrev failed_group : Group
failed_group = record { unread = []; pending = bad ∷ [] }

abbrev one_failed : String → Stream
one_failed key = record { entries = good ∷ bad ∷ []; groups = λ h. some failed_group }

abbrev stuck : Worker memory_streams
stuck = record { log = one_failed; sent = [] }

handle_message-Handled_example :
    Handled event_type_payment_processed bad []
      (handle_message (subscribed "worker-1") event_type_payment_processed bad [])
handle_message-Handled_example =
    handle_message-Handled "worker-1" event_type_payment_processed bad []

publish-Announced_example :
    let (t, l) = publish_payment_processed_event memory_streams 0 request begin two_waiting in
    IsQuiet begin t × Announced customer request "id" (pos 1) (pos 2) two_waiting l
publish-Announced_example = publish-Announced memory_streams 0 request begin two_waiting

abbrev idle_group : Group
idle_group = record { unread = []; pending = [] }

abbrev nothing_waiting : String → Stream
nothing_waiting key = record { entries = []; groups = λ h. some idle_group }

abbrev waiter : Worker memory_streams
waiter = record { log = nothing_waiting; sent = [] }

announced-told_example :
    let (t, l) = publish_payment_processed_event memory_streams 0 request begin nothing_waiting in
    let (x, u) =
      process_events
        (subscribed "worker-1")
        (event_type_payment_processed ∷ [])
        (record waiter { log = l }) in
    (e : PaymentProcessedEvent) × (at : Time) × (e.payload ≡ payload_for customer request at)
    × (u.sent ≡ notify e [])
unfolding get_payment_progress mul div of_int64
announced-told_example =
    announced-told "worker-1" 0 request idle_group begin waiter memory_streams-IsServing refl refl
      (omega arith) tt

process_payment-Starts_example :
    Starts request [] (process_payment request begin).0 (process_payment request begin).1
process_payment-Starts_example = process_payment-Starts request begin (start-IsCoherent false) refl
