-- ===== src/Service/Announce/Published.antt =====
-- What the goroutine that announces a payment puts on the stream.
use gigmile_test.Prelude.{◌+◌, ◌<◌, String, ◌≡◌, refl, ap, ◌⊎◌, inl, inr, some, [], ◌∷◌, length}
use gigmile_test.Float64.{Float64, nan, inf, finite}
use gigmile_test.Domain.Customer.{Customer, get_payment_progress, is_fully_paid}
use gigmile_test.Domain.Time.{Time}
use gigmile_test.Env.{Env}
use gigmile_test.Result.{Result, ok, err}
use gigmile_test.World.{State, Ref, Request}
use gigmile_test.World.Rules.{IsQuiet, rest-IsQuiet}
use gigmile_test.Events.Event.{
  PaymentProcessedEvent, PaymentProcessedPayload, EventText, unix, event_text, marshal, marshal_by,
  pointer, new_payment_processed_event, event_type_payment_processed,
}
use gigmile_test.Events.Publisher.{publish, add, stream_key, max_len, values_of}
use gigmile_test.Events.Streams.{Streams, Stream, Adds, IsAdded, Values, Message, Group}
use gigmile_test.Events.Notification.{notify}
use gigmile_test.Events.Subscriber.{Worker, process_events}
use gigmile_test.Events.Worker.Delivery.{name}
use gigmile_test.Events.Worker.Handled.{subscribed}
use gigmile_test.Events.Worker.Kept.{events_key}
use gigmile_test.Events.Worker.Told.{IsServing, extended_unread, round_told}
use gigmile_test.Service.Announce.{payload_for, event_for, publish_payment_processed_event}

-- The figures of a customer and a request
abbrev pub figures_of : Customer → Request → Time → PaymentProcessedPayload
figures_of c req at = record {
  customer_id = c.id;
  transaction_reference = req.transaction_reference;
  amount = req.transaction_amount;
  outstanding_balance = c.outstanding_balance;
  total_paid = c.total_paid;
  payment_progress = get_payment_progress c;
  is_fully_paid = is_fully_paid c;
  processed_at = at;
}

-- The fields of an event's entry, and its JSON
abbrev pub fields_of : PaymentProcessedEvent → Values
fields_of e = record {
  event_id = e.base.event_id;
  event_type = e.base.event_type;
  aggregate_id = e.base.aggregate_id;
  occurred_at = unix e.base.occurred_at;
  data_text = some (event_text e);
}

-- An event of a payment, of the identifier that was drawn.
pub record IsEventOf (c : Customer) (req : Request) (drawn : String) (at later : Time)
    (e : PaymentProcessedEvent) : Type 0 where
  pub identifier : e.base.event_id ≡ drawn
  pub type_given : e.base.event_type ≡ "payment.processed"
  pub aggregate : e.base.aggregate_id ≡ c.id
  pub occurred : e.base.occurred_at ≡ later
  pub figures : e.payload ≡ figures_of c req at

-- Nothing was put on a stream, or one event with the figures of the customer and the request.
abbrev pub Announced :
    Customer → Request → String → Time → Time → (String → Stream) → (String → Stream) → Type 0
Announced c req drawn at later before after =
    (after ≡ before)
    ⊎ ((e : PaymentProcessedEvent) × (id : String) × IsEventOf c req drawn at later e
        × Adds "events:payment.processed" 100000 (record { id = id; values = fields_of e }) before
            after)

added_Announced :
    (c : Customer) (req : Request) (drawn : String) (at later : Time) (e : PaymentProcessedEvent)
    (key : String) (x : Result String) (before after : String → Stream)
    → IsEventOf c req drawn at later e
    → key ≡ events_key
    → IsAdded key 100000 (fields_of e) before x after
    → Announced c req drawn at later before after
unfolding stream_key
added_Announced c req drawn at later e key (ok id) before after made ours adds =
    inr (e, id, made, rw ours at adds)
added_Announced c req drawn at later e key (err _) before after made ours (inl same) = inl same
added_Announced c req drawn at later e key (err _) before after made ours (inr (id, adds)) =
    inr (e, id, made, rw ours at adds)

marshalled :
    (x : Float64) (e : PaymentProcessedEvent) (t : EventText)
    → marshal_by x e ≡ ok t
    → t ≡ event_text e
marshalled nan e t h = absurd (cc h)
marshalled (inf neg) e t h = absurd (cc h)
marshalled (finite neg m x) e t h = cc h

module _ (redis : Streams) where
  open redis use {Log, streams, xadd, xadd_adds}

  published :
      (c : Customer) (req : Request) (drawn : String) (at later : Time) (e : PaymentProcessedEvent)
      (x : Result EventText) (l : Log)
      → IsEventOf c req drawn at later e
      → ((t : EventText) → x ≡ ok t → t ≡ event_text e)
      → Announced c req drawn at later (streams l) (streams (add redis (pointer e) x l).1)
  published c req drawn at later e (err _) l made text = inl refl
  published c req drawn at later e (ok t) l made text = rw (text t refl) (
      added_Announced c req drawn at later e (stream_key e.base.event_type) _ (streams l) _ made
        (ap stream_key made.type_given)
        (xadd_adds (stream_key e.base.event_type) max_len (values_of (pointer e) (event_text e)) l))

module _ {env : Env} (redis : Streams) where
  open redis use {Log, streams}

  -- The goroutine that announces a payment puts nothing on a stream, or one entry on the stream
  -- of processed payments, with a new identifier, the type, the identifier of the customer, the
  -- second of the event and its JSON, whose figures are those of the object as it is then and of
  -- the request; it writes to no table, no object and no cache.
  pub publish-Announced :
      (r : Ref) (req : Request) (s : State env) (l : Log)
      → let (t, l') = publish_payment_processed_event redis r req s l in
        IsQuiet s t
        × Announced
            (s.heap r)
            req
            (env.uuid_at s.uuids)
            (env.time_at s.times)
            (env.time_at (s.times + 1))
            (streams l)
            (streams l')
  unfolding publish_payment_processed_event event_for new_payment_processed_event publish marshal
  publish-Announced r req s l = (
    rest-IsQuiet s _ _ _,
    published redis (s.heap r) req _ _ _ _ _ l
        (record {
          identifier = refl;
          type_given = refl;
          aggregate = refl;
          occurred = refl;
          figures = refl;
        })
        (marshalled _ _),
  )

abbrev pub IsFinite : Float64 → Type 0
IsFinite (finite neg m x) = Unit
IsFinite _ = ⊥

finite_marshalled :
    (x : Float64) (e : PaymentProcessedEvent) → IsFinite x → marshal_by x e ≡ ok (event_text e)
finite_marshalled (finite neg m x) e h = refl
finite_marshalled nan e h = absurd h
finite_marshalled (inf neg) e h = absurd h

accepted_Adds :
    (m : Values) (x : Result String) (id : String) (before after : String → Stream)
    → x ≡ ok id
    → IsAdded events_key max_len m before x after
    → Adds events_key max_len (record { id = id; values = m }) before after
accepted_Adds m (ok id') id before after h adds = rw (ap id_of h) at adds
  where
    id_of : Result String → String
    id_of (ok i) = i
    id_of (err _) = ""
accepted_Adds m (err e) id before after h adds = absurd (cc h)

module _ {env : Env} where
  -- The event that the goroutine makes.
  abbrev event_made : Ref → Request → State env → PaymentProcessedEvent
  event_made r req s = record {
    base = record {
      event_id = env.uuid_at s.uuids;
      event_type = event_type_payment_processed;
      aggregate_id = (s.heap r).id;
      occurred_at = env.time_at (s.times + 1);
    };
    payload = payload_for (s.heap r) req (env.time_at s.times);
  }

module _ {env : Env} {redis : Streams} where
  open redis use {streams}

  -- With a Redis that takes every entry and reads what is unread, an announcement of a payment,
  -- with a progress that is a finite number, on a stream of fewer than 100000 entries whose group
  -- has read everything, is told in the next round of the worker, with the figures that the
  -- customer has when the goroutine runs.
  pub announced-told :
      (consumer_name : String) (r : Ref) (req : Request) (g : Group) (s : State env)
      (w : Worker redis)
      → IsServing redis
      → (streams w.log events_key).groups name ≡ some g
      → g.unread ≡ []
      → length (streams w.log events_key).entries < max_len
      → IsFinite (get_payment_progress (s.heap r))
      → let (t, l) = publish_payment_processed_event redis r req s w.log in
        let (x, u) =
          process_events
            (subscribed consumer_name)
            (event_type_payment_processed ∷ [])
            (record w { log = l }) in
        (e : PaymentProcessedEvent) × (at : Time) × (e.payload ≡ figures_of (s.heap r) req at)
        × (u.sent ≡ notify e w.sent)
  unfolding publish_payment_processed_event event_for new_payment_processed_event publish marshal
  announced-told consumer_name r req g s w serving there read short is_finite =
      let e = event_made r req s in
      let v = values_of (pointer e) (event_text e) in
      let (id, taken) = serving.xadd events_key max_len v w.log in
      let m : Message = record { id = id; values = v } in
      let (y, l) = redis.xadd events_key max_len v w.log in
      let adds =
        accepted_Adds v y id (streams w.log) (streams l) taken
          (redis.xadd_adds events_key max_len v w.log) in
      let unread = extended_unread m (streams w.log) (streams l) g adds short there read in
      (
        e,
        env.time_at s.times,
        refl,
        rw (finite_marshalled (get_payment_progress (s.heap r)) e is_finite) (
            round_told consumer_name m e (record { unread = m ∷ []; pending = g.pending })
              (record w { log = l }) serving unread refl refl),
      )
