-- ===== src/Events/Worker/Delivery.antt =====
-- No event is lost: a message that the worker's group holds is held until the customer was told.
use gigmile_test.Prelude.{
  ℕ, String, ◌≡◌, refl, ◌⊎◌, inl, inr, List, [], ◌∷◌, str_eq, eq_iff, Bool-cases,
}
use mathlib.Core.List.{Memᴰ}
use mathlib.Core.List.Memᴰ.{append_left, append_right}
use gigmile_test.Domain.Errors.{Error, is_redis_nil}
use gigmile_test.Result.{Result, ok, err}
use gigmile_test.Events.Publisher.{stream_key}
use gigmile_test.Events.Notification.{Sms}
use gigmile_test.Events.Streams.{
  Streams, Message, Stream, Acks, Delivers, IsAcked, IsDelivered, concat,
}
use gigmile_test.Events.Streams.Moves.{
  IsWatched, IsHeld, Preserves, Acks-Preserves, Delivers-Preserves, Delivers-within, Preserves-same,
}
use gigmile_test.Events.Subscriber.{
  Worker, acknowledge, process_message, process_messages, process_streams, process_events,
  after_read, start,
}
use gigmile_test.Events.Worker.Handled.{
  subscribed, IsSent, Handled, handle_message-Handled, Handled-IsSent, Handled-keeps,
}

-- The identifiers of the messages differ.
abbrev pub AreDistinct : List Message → Type 0
AreDistinct all = (a b : Message) → Memᴰ a all → Memᴰ b all → a.id ≡ b.id → a ≡ b

acked :
    (key name id : String) (st st' : String → Stream) (x : Result ℕ)
    → IsAcked key name id st x st'
    → (st' ≡ st) ⊎ Acks key name id st st'
acked key name id st st' (ok n) (inl same) = inl same.1
acked key name id st st' (ok n) (inr a) = inr a
acked key name id st st' (err e) (inl same) = inl same
acked key name id st st' (err e) (inr a) = inr a

abbrev pub name : String
name = "payment-processors"

module _ {redis : Streams} (consumer_name : String) (all : List Message) (key : String)
    (m : Message) (distinct : AreDistinct all) (ours : Memᴰ m all) where
  open redis use {streams, xack, xack_acks, xread_group_delivers}

  -- The group is there, and the message is in it or was sent.
  abbrev pub Safe : Worker redis → Type 0
  Safe w =
      IsWatched all key name (streams w.log) × (IsSent m w.sent ⊎ IsHeld m key name (streams w.log))

  moved :
      (D : Type 0) (w w' : Worker redis)
      → D
      → Preserves all key name m D (streams w.log) (streams w'.log)
      → (IsSent m w.sent → IsSent m w'.sent)
      → Safe w
      → Safe w'
  moved D w w' d p keeps (watched, inl sent) = (p.watched watched, inl (keeps sent))
  moved D w w' d p keeps (watched, inr h) = (p.watched watched, inr (p.still d h))

  -- An acknowledgement of a message that was handled.
  acknowledged :
      (key' : String) (n : Message) (w w' : Worker redis)
      → (key' ≡ key → Memᴰ n all)
      → IsSent n w'.sent
      → (IsSent m w.sent → IsSent m w'.sent)
      → Acks key' name n.id (streams w.log) (streams w'.log)
      → Safe w
      → Safe w'
  acknowledged key' n w w' theirs told keeps a safe =
      let p = Acks-Preserves all key name m key' n.id (streams w.log) (streams w'.log) a in
      elim (Bool-cases (str_eq key' key)) [
        | inr other ↦
            moved _ w w' (λ same. absurd (cc (other, (eq_iff key' key).1 same))) p keeps safe
        | inl here ↦ elim (Bool-cases (str_eq n.id m.id)) [
          | inl same ↦
              let e =
                distinct n m (theirs ((eq_iff key' key).0 here)) ours ((eq_iff n.id m.id).0 same) in
              (p.watched safe.0, inl (rw e at told))
          | inr other ↦ moved _ w w' (λ same. other) p keeps safe
        ]
      ]

  acknowledge-Safe :
      (event_type : String) (n : Message) (w : Worker redis) (x : Result (Unit {0}))
      (after : List Sms)
      → (stream_key event_type ≡ key → Memᴰ n all)
      → Handled event_type n w.sent (x, after)
      → Safe w
      → Safe (acknowledge (subscribed consumer_name) event_type n (x, after) w.log)
  acknowledge-Safe event_type n w (err e) after theirs handled (watched, inl sent) =
      (watched, inl (Handled-keeps event_type n m w.sent (err e) after handled sent))
  acknowledge-Safe event_type n w (err e) after theirs handled (watched, inr h) = (watched, inr h)
  acknowledge-Safe event_type n w (ok u) after theirs handled safe =
      let w' = acknowledge (subscribed consumer_name) event_type n (ok u, after) w.log in
      let keeps = Handled-keeps event_type n m w.sent (ok u) after handled in
      elim (acked _ _ n.id _ _ _ (xack_acks (stream_key event_type) name n.id w.log)) [
        | inl same ↦ moved Unit w w' tt (Preserves-same all key name m _ _ same) keeps safe
        | inr a ↦
            acknowledged (stream_key event_type) n w w' theirs
              (Handled-IsSent event_type n w.sent after handled) keeps a safe
      ]

  process_message-Safe :
      (event_type : String) (n : Message) (w : Worker redis)
      → (stream_key event_type ≡ key → Memᴰ n all)
      → Safe w
      → Safe (process_message (subscribed consumer_name) event_type n w)
  unfolding process_message
  process_message-Safe event_type n w theirs safe =
      acknowledge-Safe event_type n w _ _ theirs
        (handle_message-Handled consumer_name event_type n w.sent) safe

  process_messages-Safe :
      (event_type : String) (ms : List Message) (w : Worker redis)
      → ((n : Message) → Memᴰ n ms → stream_key event_type ≡ key → Memᴰ n all)
      → Safe w
      → Safe (process_messages (subscribed consumer_name) event_type ms w)
  unfolding process_messages
  process_messages-Safe event_type [] w theirs safe = safe
  process_messages-Safe event_type (n ∷ ms) w theirs safe =
      process_messages-Safe event_type ms _ (λ x h. theirs x (Memᴰ.tail h))
        (process_message-Safe event_type n w (theirs n (Memᴰ.head refl)) safe)

  process_streams-Safe :
      (event_type : String) (lists : List (List Message)) (w : Worker redis)
      → ((n : Message) → Memᴰ n (concat lists) → stream_key event_type ≡ key → Memᴰ n all)
      → Safe w
      → Safe (process_streams (subscribed consumer_name) event_type lists w)
  unfolding process_streams
  process_streams-Safe event_type [] w theirs safe = safe
  process_streams-Safe event_type (ms ∷ lists) w theirs safe =
      process_streams-Safe event_type lists _ (λ x h. theirs x (append_right ms h))
        (process_messages-Safe event_type ms w (λ x h. theirs x (append_left _ h)) safe)

  -- A read, and what was read handled.
  delivered-Safe :
      (event_type : String) (count : ℕ) (lists : List (List Message)) (w w' : Worker redis)
      → w'.sent ≡ w.sent
      → Delivers (stream_key event_type) name count (concat lists) (streams w.log) (streams w'.log)
      → Safe w
      → Safe (process_streams (subscribed consumer_name) event_type lists w')
  delivered-Safe event_type count lists w w' sent d safe =
      process_streams-Safe event_type lists w'
        (Delivers-within all key name m _ count (concat lists) _ _ d safe.0)
        (moved Unit w w' tt (Delivers-Preserves all key name m _ count (concat lists) _ _ d)
          (λ told. rw sent told) safe)

  unread-Safe :
      (event_type : String) (count : ℕ) (e : Error) (w w' : Worker redis)
      → w'.sent ≡ w.sent
      → IsDelivered (stream_key event_type) name count (streams w.log) (err e) (streams w'.log)
      → Safe w
      → Safe w'
  unread-Safe event_type count e w w' sent (inl same) safe =
      moved Unit w w' tt (Preserves-same all key name m _ _ same) (λ told. rw sent told) safe
  unread-Safe event_type count e w w' sent (inr (_, ms, d)) safe =
      moved Unit w w' tt (Delivers-Preserves all key name m _ count ms _ _ d) (λ told. rw sent told)
        safe

  after_read-Safe :
      (event_type : String) (rest : Worker redis → Result (Unit {0}) × Worker redis)
      (x : Result (List (List Message))) (w w' : Worker redis)
      → w'.sent ≡ w.sent
      → IsDelivered (stream_key event_type) name 10 (streams w.log) x (streams w'.log)
      → ((u : Worker redis) → Safe u → Safe (rest u).1)
      → Safe w
      → Safe (after_read (subscribed consumer_name) event_type rest x w').1
  after_read-Safe event_type rest (ok lists) w w' sent d go safe =
      go _ (delivered-Safe event_type 10 lists w w' sent d safe)
  after_read-Safe event_type rest (err e) w w' sent d go safe = elim (Bool-cases (is_redis_nil e)) [
    | inl nothing ↦ rw nothing (go w' (unread-Safe event_type 10 e w w' sent d safe))
    | inr failed ↦ rw failed (unread-Safe event_type 10 e w w' sent d safe)
  ]

  process_events-Safe :
      (types : List String) (w : Worker redis)
      → Safe w
      → Safe (process_events (subscribed consumer_name) types w).1
  unfolding process_events
  process_events-Safe [] w safe = safe
  process_events-Safe (event_type ∷ types) w safe =
      after_read-Safe event_type (process_events (subscribed consumer_name) types) _ w _ refl
        (xread_group_delivers (stream_key event_type) name consumer_name 10 w.log)
        (process_events-Safe types) safe

  pub start-Safe :
      (rounds : List (List String)) (w : Worker redis)
      → Safe w
      → Safe (start (subscribed consumer_name) rounds w)
  unfolding start
  start-Safe [] w safe = safe
  start-Safe (types ∷ rounds) w safe = start-Safe rounds _ (process_events-Safe types w safe)
