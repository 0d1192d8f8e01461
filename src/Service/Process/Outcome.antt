-- ===== src/Service/Process/Outcome.antt =====
-- What a whole request does to the tables, and what it answers.
use mathlib.Core.Path.{subst}
use gigmile_test.Prelude.{
  ◌≡◌, ◌≢◌, refl, ap, ◌∙◌, inl, inr, Bool, true, false, [], str_eq, Bool-cases,
}
use gigmile_test.Domain.Errors.{Error}
use gigmile_test.Domain.Customer.{Customer}
use gigmile_test.Env.{Env}
use gigmile_test.Env.Database.{Tables}
use gigmile_test.Result.{Result, ok, err}
use gigmile_test.World.{State, Ref, Request, continue}
use gigmile_test.World.Rules.{Post, IsRead, continue_rule, wrap_rule, tables_of}
use gigmile_test.Mysql.Payments.Reads.{Checked, exists-Checked, with_reference}
use gigmile_test.Mysql.Customers.Find.{Found, find_by_id-Found}
use gigmile_test.Service.Coherence.{IsCoherent, IsRead-IsCoherent}
use gigmile_test.Service.Process.{
  Response, not_complete, response_for, respond, answer_duplicate, settle, unless_exists, check,
  process_payment,
}
use gigmile_test.Service.Process.Apply.{IsCharged}
use gigmile_test.Service.Process.Charge.{Charged, charge-Charged}
use gigmile_test.Service.Process.Record.{IsRecorded, Recorded, record_payment-Recorded}

-- The outcomes of a request, by the tables before and after it and by its result.
pub data Outcome (req : Request) (before after : Tables) (x : Result Response) : Type 0 where
  -- the payment is not complete, and nothing is written
  refused :
      str_eq req.payment_status "COMPLETE" ≡ false
      → x ≡ ok (not_complete req.payment_status)
      → after ≡ before
      → Outcome req before after x
  -- the reference is known, and nothing is written
  duplicate :
      (c : Customer)
      → x ≡ ok (response_for "duplicate transaction - already processed" c)
      → after ≡ before
      → Outcome req before after x
  -- an error before anything was written
  failed : (e : Error) → x ≡ err e → after ≡ before → Outcome req before after x
  -- the row was charged, and the payment could not be recorded
  lost :
      (c : Customer) (e : Error)
      → x ≡ err e
      → IsCharged req before after c
      → Outcome req before after x
  -- the row was charged; the payment was not recorded, since its reference turned out to be known
  unrecorded :
      (c : Customer)
      → x ≡ ok (response_for "payment processed successfully" c)
      → IsCharged req before after c
      → Outcome req before after x
  -- the row was charged, and the payment recorded
  settled :
      (c : Customer) (charged : Tables)
      → x ≡ ok (response_for "payment processed successfully" c)
      → IsCharged req before charged c
      → IsRecorded req charged after
      → Outcome req before after x

module _ {env : Env} where
  abbrev pub Ends : Request → State env → Post env Response
  Ends req s x t = Outcome req (tables_of s) (tables_of t) x

  recorded-Ends :
      (req : Request) (r : Ref) (s t : State env) (x : Result Response) (u : State env)
      → IsCharged req (tables_of s) (tables_of t) (t.heap r)
      → Recorded req r t x u
      → Ends req s x u
  recorded-Ends req r s t (err e) u c read = lost (t.heap r) e refl (rw read.tables c)
  recorded-Ends req r s t (ok resp) u c (a, kept, inl same) =
      unrecorded (t.heap r) (ap (λ (y : Response). ok y) a) (rw same c)
  recorded-Ends req r s t (ok resp) u c (a, kept, inr recorded) =
      settled (t.heap r) (tables_of t) (ap (λ (y : Response). ok y) a) c recorded

  -- After the check, the rest of a request on a coherent state.
  pub settle-Ends :
      (req : Request) (s : State env) → IsCoherent s → Ends req s (settle req s).0 (settle req s).1
  unfolding settle
  settle-Ends req s h =
      continue_rule (Charged req s) (Ends req s) _ _ _ (charge-Charged req s h)
        (λ r t c. recorded-Ends req r s t _ _ c.0 (record_payment-Recorded req r t))
        (λ e t read. failed e refl read.tables)

  pub answer_duplicate-Ends :
      (req : Request) (s : State env)
      → Ends req s (answer_duplicate req s).0 (answer_duplicate req s).1
  unfolding answer_duplicate respond
  answer_duplicate-Ends req s =
      continue_rule (λ _ t. IsRead s t) (Ends req s) _ _ _
        (wrap_rule (Found req.customer_id s) (λ _ t. IsRead s t)
          "failed to get customer for duplicate payment" _ _ (find_by_id-Found req.customer_id s)
          (λ r p. p.0) (λ e p. p))
        (λ r t p. duplicate (t.heap r) refl p.tables) (λ e t p. failed e refl p.tables)

  pub written_nothing :
      (req : Request) (s : State env) → tables_of (answer_duplicate req s).1 ≡ tables_of s
  unfolding answer_duplicate respond
  written_nothing req s =
      continue_rule {A = Ref} {B = Response} (λ _ t. IsRead s t) (λ _ t. tables_of t ≡ tables_of s)
        _ _ _
        (wrap_rule (Found req.customer_id s) (λ _ t. IsRead s t)
          "failed to get customer for duplicate payment" _ _ (find_by_id-Found req.customer_id s)
          (λ r p. p.0) (λ e p. p))
        (λ r t p. p.tables) (λ e t p. p.tables)

  ends_since :
      (req : Request) (s t : State env) (x : Result Response) (u : State env)
      → IsRead s t
      → Ends req t x u
      → Ends req s x u
  ends_since req s t x u h e =
      subst (λ (before : Tables). Outcome req before (tables_of u) x) h.tables e

  unless_exists-Ends :
      (req : Request) (s : State env) (x : Result Bool) (t : State env)
      → IsCoherent s
      → Checked req.transaction_reference s x t
      → Ends req s (continue x (unless_exists req) t).0 (continue x (unless_exists req) t).1
  unless_exists-Ends req s (ok true) t h quiet =
      ends_since req s t (answer_duplicate req t).0 (answer_duplicate req t).1 quiet.read
        (answer_duplicate-Ends req t)
  unless_exists-Ends req s (ok false) t h (quiet, _) =
      ends_since req s t (settle req t).0 (settle req t).1 quiet.read
        (settle-Ends req t (IsRead-IsCoherent s t quiet.read h))
  unless_exists-Ends req s (err e) t h quiet = failed e refl quiet.read.tables

  pub check-Checked :
      (req : Request) (s : State env)
      → Checked req.transaction_reference s (check req s).0 (check req s).1
  unfolding check
  check-Checked req s =
      wrap_rule (Checked req.transaction_reference s) (Checked req.transaction_reference s)
        "failed to check payment existence" _ _ (exists-Checked req.transaction_reference s)
        (λ _ p. p) (λ _ p. p)

  -- On a coherent state a request ends in one of six outcomes, whatever fails on the way:
  -- refused, duplicate or failed with no table written; charged and recorded, with the figures of
  -- the charged row in the answer; charged and not recorded, answered with an error, or, because
  -- the reference was known after all, with success. A charge writes one row, of an active
  -- customer, by one payment of a positive amount, and counts its version up by one.
  pub process_payment-Ends :
      (req : Request) (s : State env)
      → IsCoherent s
      → Outcome req (tables_of s) (tables_of (process_payment req s).1) (process_payment req s).0
  unfolding process_payment
  process_payment-Ends req s h = elim (Bool-cases (str_eq req.payment_status "COMPLETE")) [
    | inl complete ↦ rw complete (unless_exists-Ends req s _ _ h (check-Checked req s))
    | inr other ↦ rw other (refused other refl refl)
  ]

  known_writes_nothing :
      (req : Request) (s : State env) (x : Result Bool) (t : State env)
      → with_reference req.transaction_reference (tables_of s) ≢ []
      → Checked req.transaction_reference s x t
      → tables_of (continue x (unless_exists req) t).1 ≡ tables_of s
  known_writes_nothing req s (ok true) t known quiet = written_nothing req t ∙ quiet.read.tables
  known_writes_nothing req s (ok false) t known (quiet, new) = absurd (known new)
  known_writes_nothing req s (err e) t known quiet = quiet.read.tables

  -- A request whose reference is in the payments table writes to no table, whatever the cache
  -- holds and whatever fails.
  pub process_payment_idempotent :
      (req : Request) (s : State env)
      → with_reference req.transaction_reference (tables_of s) ≢ []
      → tables_of (process_payment req s).1 ≡ tables_of s
  unfolding process_payment
  process_payment_idempotent req s known =
      elim (Bool-cases (str_eq req.payment_status "COMPLETE")) [
        | inl complete ↦ rw complete (known_writes_nothing req s _ _ known (check-Checked req s))
        | inr other ↦ rw other refl
      ]
