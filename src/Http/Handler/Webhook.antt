-- ===== src/Http/Handler/Webhook.antt =====
-- The handler of a payment: which bodies reach the service, and what becomes of them.
use gigmile_test.Prelude.{
  ◌≡◌, refl, ap, ◌∙◌, sym, ◌⊎◌, inl, inr, true, false, some, str_eq, codes, Bool-cases,
  Option-cases,
}
use gigmile_test.Float64.{Float64}
use gigmile_test.Domain.Time.{Time}
use gigmile_test.Env.{Env}
use gigmile_test.Result.{Result, ok, err, IsErr}
use gigmile_test.World.{State, Request}
use gigmile_test.Stdlib.ParseFloat.{parse_float}
use gigmile_test.Stdlib.ParseTime.{parse_time}
use gigmile_test.Domain.Customer.{Customer}
use gigmile_test.Persistence.{CustomerModel}
use gigmile_test.Env.Database.{Tables}
use gigmile_test.World.Rules.{tables_of}
use gigmile_test.Mysql.Up.{IsUp}
use gigmile_test.Service.Coherence.{IsCoherent}
use gigmile_test.Service.Process.Apply.{IsCharged}
use gigmile_test.Service.Process.Due.{IsDue}
use gigmile_test.Service.Process.Live.{process_payment-IsSettled}
use gigmile_test.Service.Process.Record.{IsRecorded}
use gigmile_test.Service.Process.Record.Live.{success_with}
use gigmile_test.Http.Dto.{PaymentRequest, validate, kobo, get_amount_in_kobo, get_transaction_date}
use gigmile_test.Http.Handler.{
  Reply, respond_json, payment_body, payment_response, process_payment_reply, service_request,
  forward, dated, validated, process_payment,
}

-- A decoded body that is well formed, and the request that it stands for.
pub record StandsFor (r : PaymentRequest) (req : Request) : Type 0 where
  pub customer : str_eq r.customer_id "" ≡ false
  pub status : str_eq r.payment_status "" ≡ false
  pub amount_given : str_eq r.transaction_amount "" ≡ false
  pub date_given : str_eq r.transaction_date "" ≡ false
  pub reference : str_eq r.transaction_reference "" ≡ false
  pub number : Float64
  pub date : Time
  pub amount_read : parse_float (codes r.transaction_amount) ≡ some number
  pub date_read : parse_time (codes r.transaction_date) ≡ some date
  pub request : req ≡ service_request r (kobo number) date

valid : (r : PaymentRequest) (req : Request) → StandsFor r req → validate r ≡ ok tt
unfolding validate
valid r req h =
    rw (h.customer, h.status, h.amount_given, h.date_given, h.reference, h.amount_read, h.date_read)
      refl

module _ {env : Env} where
  -- Turned away: no request stands for the body, the reply is a 400, and nothing was done.
  abbrev pub TurnedAway : (r : PaymentRequest) → State env → Reply × State env → Type 0
  TurnedAway r s (reply, t) = ((req : Request) → ¬ StandsFor r req) × (reply.status ≡ 400) × (t ≡ s)

  abbrev pub Forwarded : (r : PaymentRequest) → State env → Reply × State env → Type 0
  Forwarded r s handled = (req : Request) × StandsFor r req × (handled ≡ forward req s)

  invalid_reply :
      (r : PaymentRequest) (x : Result (Unit {0})) (s : State env)
      → IsErr x
      → ((validated r x s).0.status ≡ 400) × ((validated r x s).1 ≡ s)
  invalid_reply r (ok _) s h = absurd h
  invalid_reply r (err e) s h = (refl, refl)

  turned_away :
      (r : PaymentRequest) (s : State env)
      → ((req : Request) → ¬ StandsFor r req)
      → IsErr (validate r)
      → TurnedAway r s (process_payment (ok r) s)
  unfolding process_payment
  turned_away r s bad invalid =
      (bad, (invalid_reply r (validate r) s invalid).0, (invalid_reply r (validate r) s invalid).1)

  forwarded :
      (r : PaymentRequest) (s : State env) (number : Float64) (date : Time)
      → parse_float (codes r.transaction_amount) ≡ some number
      → parse_time (codes r.transaction_date) ≡ some date
      → validate r ≡ ok tt
      → process_payment (ok r) s ≡ forward (service_request r (kobo number) date) s
  unfolding process_payment get_amount_in_kobo get_transaction_date
  forwarded r s number date n d valid = rw (valid, n) (rw (d, dated) refl)

  -- parsed, with no empty field
  parsed_outcome :
      (r : PaymentRequest) (s : State env)
      → str_eq r.customer_id "" ≡ false
      → str_eq r.payment_status "" ≡ false
      → str_eq r.transaction_amount "" ≡ false
      → str_eq r.transaction_date "" ≡ false
      → str_eq r.transaction_reference "" ≡ false
      → TurnedAway r s (process_payment (ok r) s) ⊎ Forwarded r s (process_payment (ok r) s)
  unfolding validate
  parsed_outcome r s a b c d e = elim (Option-cases (parse_float (codes r.transaction_amount))) [
    | inl bad ↦
        inl (turned_away r s (λ req h. cc (bad, h.amount_read)) (rw (a, b, c, d, e, bad) tt))
    | inr (number, good) ↦ elim (Option-cases (parse_time (codes r.transaction_date))) [
      | inl bad ↦
          inl (turned_away r s (λ req h. cc (bad, h.date_read)) (rw (a, b, c, d, e, good, bad) tt))
      | inr (date, fine) ↦ inr (
        service_request r (kobo number) date,
        record {
          customer = a;
          status = b;
          amount_given = c;
          date_given = d;
          reference = e;
          number = number;
          date = date;
          amount_read = good;
          date_read = fine;
          request = refl;
        },
        forwarded r s number date good fine (rw (a, b, c, d, e, good, fine) refl),
      )
    ]
  ]

  pub process_payment_outcome :
      (r : PaymentRequest) (s : State env)
      → TurnedAway r s (process_payment (ok r) s) ⊎ Forwarded r s (process_payment (ok r) s)
  unfolding validate
  process_payment_outcome r s = elim (Bool-cases (str_eq r.customer_id "")) [
    | inl bad ↦ inl (turned_away r s (λ req h. cc (bad, h.customer)) (rw bad tt))
    | inr a ↦ elim (Bool-cases (str_eq r.payment_status "")) [
      | inl bad ↦ inl (turned_away r s (λ req h. cc (bad, h.status)) (rw (a, bad) tt))
      | inr b ↦ elim (Bool-cases (str_eq r.transaction_amount "")) [
        | inl bad ↦ inl (turned_away r s (λ req h. cc (bad, h.amount_given)) (rw (a, b, bad) tt))
        | inr c ↦ elim (Bool-cases (str_eq r.transaction_date "")) [
          | inl bad ↦ inl (turned_away r s (λ req h. cc (bad, h.date_given)) (rw (a, b, c, bad) tt))
          | inr d ↦ elim (Bool-cases (str_eq r.transaction_reference "")) [
            | inl bad ↦
                inl (turned_away r s (λ req h. cc (bad, h.reference)) (rw (a, b, c, d, bad) tt))
            | inr e ↦ parsed_outcome r s a b c d e
          ]
        ]
      ]
    ]
  ]

  -- A body that a request stands for is forwarded as that request.
  pub accepted :
      (r : PaymentRequest) (req : Request) (s : State env)
      → StandsFor r req
      → process_payment (ok r) s ≡ forward req s
  accepted r req s h =
      forwarded r s h.number h.date h.amount_read h.date_read (valid r req h)
      ∙ ap (λ (q : Request). forward q s) (sym h.request)

  -- With a database that fails no statement its schema allows, and whatever Redis does, a body
  -- that a complete request stands for, which is due on a coherent state (a positive amount, an
  -- active customer with a row, a new reference, no older copy of the customer in the cache), is
  -- replied to with a 200 and the figures of the row that was charged, and the payment is
  -- recorded. Identifier and references are of digits and capital letters, at most 50 and 100 of
  -- them, and the date is one that the column holds.
  pub webhook-IsSettled :
      (r : PaymentRequest) (req : Request) (m : CustomerModel) (s : State env)
      → StandsFor r req
      → IsUp env
      → IsCoherent s
      → IsDue req m s
      → str_eq req.payment_status "COMPLETE" ≡ true
      → (c : Customer) × (between : Tables) × ((process_payment (ok r) s).0
          ≡ respond_json 200 (payment_body (payment_response (success_with c))))
        × IsCharged req (tables_of s) between c
        × IsRecorded req between (tables_of (process_payment (ok r) s).1)
  webhook-IsSettled r req m s h up coherent due complete =
      let settled = process_payment-IsSettled req m s up coherent due complete in
      (
        settled.answered,
        settled.between,
        ap (λ (x : Reply × State env). x.0) (accepted r req s h)
            ∙ ap process_payment_reply settled.answer,
        settled.charged,
        rw (accepted r req s h) settled.recorded,
      )
