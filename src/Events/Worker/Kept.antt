-- ===== src/Events/Worker/Kept.antt =====
-- The worker's program from its start on.
use gigmile_test.Prelude.{
  ℕ, ◌==◌, String, ◌≡◌, refl, ◌⊎◌, inl, inr, true, Option, none, some, List, [], ◌∷◌, arith, codes,
  Bool-cases, Option-cases,
}
use mathlib.Core.List.{Memᴰ}
use gigmile_test.Domain.Errors.{Error, error_text}
use gigmile_test.Result.{Result, ok, err, Ensures}
use gigmile_test.Stdlib.ParseFloat.{eq_codes}
use gigmile_test.Events.Event.{event_type_payment_processed}
use gigmile_test.Events.Publisher.{stream_key}
use gigmile_test.Events.Streams.{Streams, Message, Group, Stream, IsCreated, IsBusy, created}
use gigmile_test.Events.Streams.Moves.{IsWatched, IsHeld, held, put_group_same}
use gigmile_test.Events.Subscriber.{Worker, group_made, subscribe}
use gigmile_test.Events.Worker.{serve, main}
use gigmile_test.Events.Worker.Delivery.{AreDistinct, start-Safe, name}
use gigmile_test.Events.Worker.Handled.{subscribed, IsSent}

pub eq_codes_sound : (a b : List ℕ) → eq_codes a b ≡ true → a ≡ b
eq_codes_sound [] [] h = refl
eq_codes_sound [] (y ∷ b) h = absurd (cc h)
eq_codes_sound (x ∷ a) [] h = absurd (cc h)
eq_codes_sound (x ∷ a) (y ∷ b) h = elim (Bool-cases (x == y)) [
  | inl same ↦
      let tail = eq_codes_sound a b (rw same at h) in
      let head : x ≡ y = ground arith in rw (head, tail) refl
  | inr other ↦ absurd (cc (rw other at h))
]

-- The stream of the worker's events.
abbrev pub events_key : String
events_key = stream_key event_type_payment_processed

-- What a group has that is there, and what it will have otherwise.
abbrev pub held_by : Option Group → List Message → List Message
held_by none entries = entries
held_by (some g) entries = held g

abbrev pub waiting : (String → Stream) → List Message
waiting st = held_by ((st events_key).groups name) (st events_key).entries

-- The group is there, with the messages of `all` at most, and holds all that was waiting.
record IsReady (before after : String → Stream) : Type 0 where
  watched : IsWatched (waiting before) events_key name after
  kept : (m : Message) → Memᴰ m (waiting before) → IsHeld m events_key name after

created-IsReady :
    (before after : String → Stream)
    → (before events_key).groups name ≡ none
    → after ≡ created events_key name before
    → IsReady before after
created-IsReady before after absent made =
    let g : Group = record { unread = (before events_key).entries; pending = [] } in
    let there : (after events_key).groups name ≡ some g =
      rw made (put_group_same events_key name g before) in
    record {
      watched = record { group = g; there = there; within = λ x h. rw absent h };
      kept = λ m h. (g, there, rw absent at h);
    }

found-IsReady :
    (before after : String → Stream) (g : Group)
    → (before events_key).groups name ≡ some g
    → after ≡ before
    → IsReady before after
found-IsReady before after g there same = record {
  watched = record { group = g; there = rw same there; within = λ x h. rw there h };
  kept = λ m h. (g, rw same there, rw there at h);
}

busy-IsReady :
    (e : Error) (before after : String → Stream)
    → IsBusy e
    → IsCreated events_key name before (err e) after
    → IsReady before after
busy-IsReady e before after busy (inl (same, there)) =
    elim (Option-cases ((before events_key).groups name)) [
      | inl absent ↦ absurd (there busy absent)
      | inr (g, found) ↦ found-IsReady before after g found same
    ]
busy-IsReady e before after busy (inr (idle, _, _)) = absurd (idle busy)

module _ {redis : Streams} (consumer_name : String) (rounds : List (List String))
    (m : Message) where
  open redis use {streams, xgroup_create_creates}

  abbrev pub Kept : Worker redis → Type 0
  Kept w = IsSent m w.sent ⊎ IsHeld m events_key name (streams w.log)

  served :
      (x : Result (Unit {0})) (w w' : Worker redis)
      → AreDistinct (waiting (streams w.log))
      → Memᴰ m (waiting (streams w.log))
      → IsCreated events_key name (streams w.log) x (streams w'.log)
      → Ensures Kept (serve (group_made (subscribed consumer_name) x) rounds w')
  served (ok u) w w' distinct ours (absent, made) =
      let ready = created-IsReady (streams w.log) (streams w'.log) absent made in
      (start-Safe consumer_name _ events_key m distinct ours rounds w'
        (ready.watched, inr (ready.kept m ours))).1
  served (err e) w w' distinct ours reply =
      elim (Bool-cases
        (eq_codes (error_text e) (codes "BUSYGROUP Consumer Group name already exists"))) [
          | inl same ↦
              let ready =
                busy-IsReady e (streams w.log) (streams w'.log) (eq_codes_sound _ _ same) reply in
              rw same
                (start-Safe consumer_name _ events_key m distinct ours rounds w'
                  (ready.watched, inr (ready.kept m ours))).1
          | inr other ↦ rw other tt
        ]

  -- No event is lost by the worker: whatever Redis fails to do, in whatever order and however
  -- often it reads, a message that its group has not read or has not acknowledged at the start,
  -- or that is on the stream where there is no group yet, is still unread or pending in the end,
  -- or it is an event that the customer was told of, with the congratulations if the asset is
  -- paid. The identifiers of these messages differ.
  pub main-Kept :
      (w : Worker redis)
      → AreDistinct (waiting (streams w.log))
      → Memᴰ m (waiting (streams w.log))
      → Ensures Kept (main consumer_name rounds w)
  unfolding main subscribe
  main-Kept w distinct ours =
      served _ w _ distinct ours (xgroup_create_creates events_key name w.log)
