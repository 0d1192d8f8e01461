-- ===== src/Events/Worker/Handled.antt =====
-- What the worker makes of a message.
use gigmile_test.Prelude.{
  String, ◌≡◌, ◌≢◌, refl, sym, inl, inr, true, false, Option, none, some, List, [], ◌∷◌, ◌++◌,
  str_eq, eq_iff, Bool-cases, if◌then◌else◌,
}
use mathlib.Core.List.{Memᴰ}
use mathlib.Core.List.Memᴰ.{append_left, append_right}
use gigmile_test.Result.{Result, ok, err}
use gigmile_test.Events.Event.{
  PaymentProcessedEvent, EventText, event_text, malformed, event_type_payment_processed,
}
use gigmile_test.Events.Notification.{
  Sms, received_for, congratulations, notify, handle_payment_processed,
}
use gigmile_test.Events.Streams.{Message}
use gigmile_test.Events.Subscriber.{Subscriber, new_subscriber, handle_message, with_data}

-- The worker's subscriber after its subscription.
abbrev pub subscribed : String → Subscriber
subscribed consumer_name = record (new_subscriber consumer_name) {
  handlers =
      λ t. if str_eq event_type_payment_processed t then some handle_payment_processed else none;
}

-- The message is an event that the customer has been told of.
pub record IsSent (m : Message) (sent : List Sms) : Type 0 where
  pub event : PaymentProcessedEvent
  pub holds : m.values.data_text ≡ some (event_text event)
  pub told : Memᴰ (received_for event) sent
  pub congratulated :
      event.payload.is_fully_paid ≡ true → Memᴰ (congratulations event.payload.customer_id) sent

-- Either the event of the message was notified, or there is none for this type and nothing was sent.
abbrev pub Handled : String → Message → List Sms → Result (Unit {0}) × List Sms → Type 0
Handled event_type m before (ok _, after) =
    (event_type ≡ event_type_payment_processed)
    × (e : PaymentProcessedEvent) × (m.values.data_text ≡ some (event_text e))
    × (after ≡ notify e before)
Handled event_type m before (err e, after) =
    ((event : PaymentProcessedEvent)
      → m.values.data_text ≡ some (event_text event)
      → event_type ≢ event_type_payment_processed)
    × (after ≡ before)

other_type :
    (event_type : String)
    → str_eq event_type_payment_processed event_type ≡ false
    → event_type ≢ event_type_payment_processed
other_type event_type other same =
    absurd (cc (other, (eq_iff event_type_payment_processed event_type).1 (sym same)))

-- A message for a payment, by its data.
processed_Handled :
    (m : Message) (before : List Sms) (d : Option EventText)
    → m.values.data_text ≡ d
    → Handled event_type_payment_processed m before
        (with_data handle_payment_processed event_type_payment_processed d before)
unfolding handle_payment_processed
processed_Handled m before none h = (λ e there. absurd (cc (h, there)), refl)
processed_Handled m before (some malformed) h = (λ e there. absurd (cc (h, there)), refl)
processed_Handled m before (some (event_text e)) h = (refl, e, h, refl)

-- The worker handles a message without an error only as a payment that was processed, which is
-- notified; it reports an error only where the message holds no event or its type is another, and
-- then nothing is sent.
pub handle_message-Handled :
    (consumer_name event_type : String) (m : Message) (before : List Sms)
    → Handled event_type m before (handle_message (subscribed consumer_name) event_type m before)
unfolding handle_message
handle_message-Handled consumer_name event_type m before =
    elim (Bool-cases (str_eq event_type_payment_processed event_type)) [
      | inl same ↦
          rw (← (eq_iff event_type_payment_processed event_type).0 same)
            (processed_Handled m before m.values.data_text refl)
      | inr other ↦ rw other (λ e there. other_type event_type other, refl)
    ]

notify_keeps :
    (e : PaymentProcessedEvent) (sent : List Sms) (x : Sms) → Memᴰ x sent → Memᴰ x (notify e sent)
notify_keeps e sent x h = elim (Bool-cases e.payload.is_fully_paid) [
  | inl paid ↦ rw paid (append_left _ (append_left _ h))
  | inr owing ↦ rw owing (append_left _ h)
]

told_now : (e : PaymentProcessedEvent) (sent : List Sms) → Memᴰ (received_for e) (notify e sent)
told_now e sent = elim (Bool-cases e.payload.is_fully_paid) [
  | inl paid ↦ rw paid (append_left _ (append_right sent (Memᴰ.head refl)))
  | inr owing ↦ rw owing (append_right sent (Memᴰ.head refl))
]

congratulated_now :
    (e : PaymentProcessedEvent) (sent : List Sms)
    → e.payload.is_fully_paid ≡ true
    → Memᴰ (congratulations e.payload.customer_id) (notify e sent)
congratulated_now e sent paid =
    simp paid (append_right (sent ++ received_for e ∷ []) (Memᴰ.head refl))

-- What a message handled does for itself, and for the others.
pub Handled-IsSent :
    (event_type : String) (m : Message) (before after : List Sms)
    → Handled event_type m before (ok tt, after)
    → IsSent m after
Handled-IsSent event_type m before after (same, e, there, notified) = rw notified (record {
  event = e;
  holds = there;
  told = told_now e before;
  congratulated = congratulated_now e before;
})

IsSent-notify :
    (n : Message) (e : PaymentProcessedEvent) (sent : List Sms)
    → IsSent n sent
    → IsSent n (notify e sent)
IsSent-notify n e sent h = record {
  event = h.event;
  holds = h.holds;
  told = notify_keeps e sent _ h.told;
  congratulated = λ paid. notify_keeps e sent _ (h.congratulated paid);
}

pub Handled-keeps :
    (event_type : String) (m n : Message) (before : List Sms) (x : Result (Unit {0}))
    (after : List Sms)
    → Handled event_type m before (x, after)
    → IsSent n before
    → IsSent n after
Handled-keeps event_type m n before (ok _) after (same, e, there, notified) h =
    rw notified (IsSent-notify n e before h)
Handled-keeps event_type m n before (err e) after (_, same) h = rw same h
