-- ===== src/Events/Worker/Told.antt =====
-- With Redis in order, what is put on the worker's stream is read and told.
use gigmile_test.Prelude.{
  ℕ, ◌-◌, ◌<◌, String, ◌≡◌, refl, sym, ap, ◌∙◌, some, List, [], ◌∷◌, ◌++◌, length, take, arith,
  eq_iff,
}
use gigmile_test.Result.{Result, ok, err}
use gigmile_test.Events.Event.{PaymentProcessedEvent, event_text, event_type_payment_processed}
use gigmile_test.Events.Notification.{notify, handle_payment_processed}
use gigmile_test.Events.Publisher.{max_len}
use gigmile_test.Events.Streams.{Streams, Stream, Message, Values, Group, Adds, concat, extended}
use gigmile_test.Events.Subscriber.{
  Subscriber, Worker, handle_message, process_message, process_messages, process_streams,
  process_events, after_read,
}
use gigmile_test.Events.Worker.Delivery.{name}
use gigmile_test.Events.Worker.Handled.{subscribed}
use gigmile_test.Events.Worker.Kept.{events_key}

-- Every XADD is carried out, and a read of a group with unread messages gives the first of them.
pub record IsServing (redis : Streams) : Type 0 where
  pub xadd :
      (key : String) (bound : ℕ) (v : Values) (l : redis.Log)
      → (id : String) × ((redis.xadd key bound v l).0 ≡ ok id)
  pub xread_group :
      (key group consumer : String) (count : ℕ) (l : redis.Log) (g : Group)
      → (redis.streams l key).groups group ≡ some g
      → 0 < length g.unread
      → (lists : List (List Message)) × ((redis.xread_group key ">" group consumer count l).0
          ≡ ok lists)
        × (concat lists ≡ take count g.unread)

-- A group that has read everything has the new message to read.
pub extended_unread :
    (m : Message) (before after : String → Stream) (g : Group)
    → Adds events_key max_len m before after
    → length (before events_key).entries < max_len
    → (before events_key).groups name ≡ some g
    → g.unread ≡ []
    → (after events_key).groups name ≡ some (record { unread = m ∷ []; pending = g.pending })
extended_unread m before after g adds short there read =
    let none_dropped = adds.short short in
    let at_key : after events_key ≡ extended adds.dropped m (before events_key) =
      rw (adds.streams, (eq_iff events_key events_key).1 refl) refl in
    let stays : 0 - (length (before events_key).entries - 0) ≡ 0 = omega arith in
    rw (at_key, none_dropped, there, read, stays) refl

module _ {redis : Streams} where
  process_messages-append :
      (s : Subscriber) (event_type : String) (xs ys : List Message) (w : Worker redis)
      → process_messages s event_type (xs ++ ys) w
        ≡ process_messages s event_type ys (process_messages s event_type xs w)
  unfolding process_messages
  process_messages-append s event_type [] ys w = refl
  process_messages-append s event_type (x ∷ xs) ys w = process_messages-append s event_type xs ys _

  process_streams-eq :
      (s : Subscriber) (event_type : String) (lists : List (List Message)) (w : Worker redis)
      → process_streams s event_type lists w ≡ process_messages s event_type (concat lists) w
  unfolding process_streams process_messages
  process_streams-eq s event_type [] w = refl
  process_streams-eq s event_type (ms ∷ lists) w =
      process_streams-eq s event_type lists _
      ∙ sym (process_messages-append s event_type ms (concat lists) w)

  -- One event is handled.
  one_told :
      (consumer_name : String) (m : Message) (e : PaymentProcessedEvent) (w : Worker redis)
      → m.values.data_text ≡ some (event_text e)
      → (process_messages (subscribed consumer_name) event_type_payment_processed (m ∷ []) w).sent
        ≡ notify e w.sent
  unfolding process_messages process_message handle_message handle_payment_processed
  one_told consumer_name m e w holds = rw holds refl

  read_told :
      (consumer_name : String) (m : Message) (e : PaymentProcessedEvent) (w : Worker redis)
      (x : Result (List (List Message))) (lists : List (List Message))
      → m.values.data_text ≡ some (event_text e)
      → x ≡ ok lists
      → concat lists ≡ m ∷ []
      → (after_read
          (subscribed consumer_name)
          event_type_payment_processed
          (process_events (subscribed consumer_name) [])
          x
          w).1.sent
        ≡ notify e w.sent
  unfolding process_events
  read_told consumer_name m e w (ok lists') lists holds h one =
      let same : lists' ≡ lists = cc h in
      ap (λ (u : Worker redis). u.sent)
        (process_streams-eq (subscribed consumer_name) event_type_payment_processed lists' w)
      ∙ rw (same, one) (one_told consumer_name m e w holds)
  read_told consumer_name m e w (err _) lists holds h one = absurd (cc h)

  -- An event that is the one thing to read is told in the next round.
  pub round_told :
      (consumer_name : String) (m : Message) (e : PaymentProcessedEvent) (g : Group)
      (w : Worker redis)
      → IsServing redis
      → (redis.streams w.log events_key).groups name ≡ some g
      → g.unread ≡ m ∷ []
      → m.values.data_text ≡ some (event_text e)
      → (process_events (subscribed consumer_name) (event_type_payment_processed ∷ []) w).1.sent
        ≡ notify e w.sent
  unfolding process_events
  round_told consumer_name m e g w serving there unread holds =
      let (lists, reply, first) =
        serving.xread_group events_key name consumer_name 10 w.log g there
          (rw unread (omega arith)) in
      read_told consumer_name m e _ _ lists holds reply (first ∙ rw unread refl)
