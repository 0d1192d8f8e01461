-- ===== src/Events/Worker.antt =====
-- cmd/worker/main.go, from the subscription on.
pub mod Handled
pub mod Delivery
pub mod Kept
pub mod Told
use gigmile_test.Prelude.{String, List}
use gigmile_test.Result.{Result, ok, err}
use gigmile_test.Events.Event.{event_type_payment_processed}
use gigmile_test.Events.Notification.{handle_payment_processed}
use gigmile_test.Events.Streams.{Streams}
use gigmile_test.Events.Subscriber.{Subscriber, Worker, new_subscriber, subscribe, start}

module _ {redis : Streams} where
  abbrev pub serve : Result Subscriber → List (List String) → Worker redis → Result (Worker redis)
  serve (err e) rounds w = err e
  serve (ok s) rounds w = ok (start s rounds w)

  -- A failed subscription ends the program; otherwise the worker's state when its context is done.
  unfoldable pub main : String → List (List String) → Worker redis → Result (Worker redis)
  main consumer_name rounds w =
      let (subscribed, l) =
        subscribe redis event_type_payment_processed handle_payment_processed
          (new_subscriber consumer_name) w.log in
      serve subscribed rounds (record w { log = l })
