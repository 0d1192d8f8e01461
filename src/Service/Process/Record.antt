-- ===== src/Service/Process/Record.antt =====
-- `record_payment`: the payment's row, and the answer after it.
pub mod Live
use gigmile_test.Prelude.{
  ◌+◌, String, ◌≡◌, refl, ap, ◌∙◌, ◌⊎◌, inl, inr, Bool, true, false, none, [], ◌∷◌, str_eq,
  Bool-cases, if◌then◌else◌,
}
use mathlib.Core.Path.{subst}
use gigmile_test.Prelude.Int.{pos, leb_ℤ}
use gigmile_test.Domain.Time.{Time}
use gigmile_test.Domain.Errors.{Error, wrap, is_duplicate_transaction}
use gigmile_test.Domain.Customer.{Customer}
use gigmile_test.Domain.Payment.{Payment, new_payment, status_complete}
use gigmile_test.Persistence.{PaymentModel, payment_from_domain}
use gigmile_test.Env.{Env}
use gigmile_test.Env.Database.{Tables}
use gigmile_test.Result.{Result, ok, err, Ensures}
use gigmile_test.World.{Action, State, Ref, Request, attempt, ◌>>=◌, ◌>>◌, raise}
use gigmile_test.World.Rules.{
  Post, IsRead, IsRead-trans, IsKept, IsRead-IsKept, IsKept-trans, IsQuiet, continue_rule,
  wrap_rule, rest-IsQuiet, tables_of,
}
use gigmile_test.Mysql.Payments as Payments
use gigmile_test.Mysql.Payments.Reads.{with_reference}
use gigmile_test.Mysql.Payments.Insert.{IsInserted, Inserted, save-Inserted, row_of}
use gigmile_test.Service.Process.{Response, response_for, respond, announce, answer, record_payment}

-- The row of a request's payment. The instant of processing is not in it.
pub record IsPaymentRow (req : Request) (m : PaymentModel) : Type 0 where
  pub customer : m.customer_id ≡ req.customer_id
  pub amount : m.amount ≡ req.transaction_amount
  pub reference : m.transaction_reference ≡ req.transaction_reference
  pub date : m.transaction_date ≡ req.transaction_date
  pub status : m.status ≡ status_complete
  pub unprocessed : m.processed_at ≡ none

-- One row for the request's payment was added, and its reference was new.
pub record IsRecorded (req : Request) (before after : Tables) : Type 0 where
  pub row : PaymentModel
  pub of_request : IsPaymentRow req row
  pub fresh : with_reference req.transaction_reference before ≡ []
  pub tables : after ≡ record before { payments = row ∷ before.payments }

IsBuilt : Request → Payment → Type 0
IsBuilt req p =
    (p.transaction_reference ≡ req.transaction_reference)
    × ((id : String) → IsPaymentRow req (row_of id p))

new_payment-builds :
    (req : Request) (at : Time)
    → Ensures (IsBuilt req) (
        new_payment at req.customer_id req.transaction_amount req.transaction_reference
          req.transaction_date status_complete)
unfolding IsBuilt new_payment payment_from_domain
new_payment-builds req at = elim (Bool-cases (str_eq req.customer_id "")) [
  | inl bad ↦ rw bad tt
  | inr named ↦ elim (Bool-cases (leb_ℤ req.transaction_amount (pos 0))) [
    | inl bad ↦ rw (named, bad) tt
    | inr paid ↦ elim (Bool-cases (str_eq req.transaction_reference "")) [
      | inl bad ↦ rw (named, paid, bad) tt
      | inr referred ↦
          rw (named, paid, referred)
            (
              refl,
              λ id. record {
                customer = refl;
                amount = refl;
                reference = refl;
                date = refl;
                status = refl;
                unprocessed = refl;
              },
            )
    ]
  ]
]

module _ {env : Env} where
  -- The answer with the figures of the object `r`, and the payment in the table or nothing written.
  abbrev pub Recorded : Request → Ref → State env → Post env Response
  Recorded req r s (ok resp) t =
      (resp ≡ response_for "payment processed successfully" (s.heap r))
      × IsKept s t
      × ((tables_of t ≡ tables_of s) ⊎ IsRecorded req (tables_of s) (tables_of t))
  Recorded req r s (err e) t = IsRead s t

  -- the state after the payment's save, and what `answer` does in it
  answered :
      (req : Request) (r : Ref) (t : State env) (has : Bool)
      → let (x, u) = (announce req r has >> respond "payment processed successfully" r) t in
        (x ≡ ok (response_for "payment processed successfully" (t.heap r))) × IsRead t u
  unfolding respond
  answered req r t true = (refl, (rest-IsQuiet t _ _ _).read)
  answered req r t false = (refl, (rest-IsQuiet t _ _ _).read)

  inserted-IsRecorded :
      (req : Request) (p : Payment) (s t : State env)
      → IsBuilt req p
      → IsInserted p s t
      → IsRecorded req (tables_of s) (tables_of t)
  unfolding IsBuilt
  inserted-IsRecorded req p s t (same, rows) i = record {
    row = row_of i.id p;
    of_request = rows i.id;
    fresh = rw same at i.fresh;
    tables = i.tables;
  }

  answer_duplicate-Recorded :
      (req : Request) (r : Ref) (s t : State env) (e : Error) (duplicate : Bool)
      → IsQuiet s t
      → let m =
          if duplicate
          then respond "payment processed successfully" r
          else raise (wrap "failed to save payment" e) in
        Recorded req r s (m t).0 (m t).1
  unfolding respond
  answer_duplicate-Recorded req r s t e true h = (
    ap (λ (g : Ref → Customer). response_for "payment processed successfully" (g r)) h.heap,
    IsRead-IsKept s t h.read,
    inl h.read.tables,
  )
  answer_duplicate-Recorded req r s t e false h = h.read

  answer-Recorded :
      (req : Request) (r : Ref) (p : Payment) (s t : State env) (x : Result (Unit {0}))
      → IsBuilt req p
      → Inserted p s x t
      → Recorded req r s (answer req r x t).0 (answer req r x t).1
  answer-Recorded req r p s t (err e) built quiet =
      answer_duplicate-Recorded req r s t e (is_duplicate_transaction e) quiet
  answer-Recorded req r p s t (ok _) built inserted =
      let t' : State env = record t { times = t.times + 1 } in
      let (x, read) = answered req r t' env.has_publisher in
      rw x (
        ap (λ (g : Ref → Customer). response_for "payment processed successfully" (g r))
            inserted.heap,
        IsKept-trans s t' _
            (record {
              customers = ap (λ (y : Tables). y.customers) inserted.tables;
              entries = inserted.entries;
            })
            (IsRead-IsKept t' _ read),
        inr (rw read.tables (inserted-IsRecorded req p s t built inserted)),
      )

  recorded_since :
      (req : Request) (r : Ref) (s t : State env) (x : Result Response) (u : State env)
      → IsQuiet s t
      → Recorded req r t x u
      → Recorded req r s x u
  recorded_since req r s t (ok resp) u h (answered_so, kept, wrote) = (
    answered_so
        ∙ ap (λ (g : Ref → Customer). response_for "payment processed successfully" (g r)) h.heap,
    IsKept-trans s t u (IsRead-IsKept s t h.read) kept,
    subst (λ (before : Tables). (tables_of u ≡ before) ⊎ IsRecorded req before (tables_of u))
        h.read.tables wrote,
  )
  recorded_since req r s t (err e) u h read = IsRead-trans s t u h.read read

  abbrev Built : Request → State env → Post env Payment
  Built req s (ok p) t = IsQuiet s t × IsBuilt req p
  Built req s (err e) t = IsQuiet s t

  built-Built :
      (req : Request) (s t : State env) (x : Result Payment)
      → IsQuiet s t
      → Ensures (IsBuilt req) x
      → Built req s x t
  built-Built req s t (ok p) h b = (h, b)
  built-Built req s t (err e) h b = h

  abbrev pub save_and_answer : Request → Ref → Payment → Action env Response
  save_and_answer req r p = do saved ← attempt (Payments.save p); answer req r saved

  -- After a charge, an answer carries the figures of the object that was charged, and the tables
  -- are as they were or have one more payment, with the fields of the request, a new reference
  -- and no instant of processing; an error leaves the tables as they were.
  pub record_payment-Recorded :
      (req : Request) (r : Ref) (s : State env)
      → Recorded req r s (record_payment req r s).0 (record_payment req r s).1
  unfolding record_payment
  record_payment-Recorded req r s =
      continue_rule (Built req s) (Recorded req r s) _ (save_and_answer req r) _
        (wrap_rule (Built req s) (Built req s) "invalid payment data" _ _
          (built-Built req s _ _ (rest-IsQuiet s _ _ _) (new_payment-builds req _)) (λ _ p. p)
          (λ _ p. p))
        (λ p t built.
          recorded_since req r s t _ _ built.0
            (answer-Recorded req r p t _ _ built.1 (save-Inserted p t)))
        (λ _ t quiet. quiet.read)
