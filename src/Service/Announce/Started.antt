-- ===== src/Service/Announce/Started.antt =====
-- A request that records a payment starts the goroutine that announces it.
use gigmile_test.Prelude.{
  ◌+◌, ◌≡◌, refl, ap, ◌∙◌, ◌⊎◌, inl, inr, Bool, true, false, List, str_eq, Bool-cases,
  if◌then◌else◌,
}
use mathlib.Core.List.{Memᴰ}
use mathlib.Core.List.Memᴰ.{append_right}
use gigmile_test.Domain.Errors.{Error, wrap, is_duplicate_transaction}
use gigmile_test.Domain.Payment.{Payment}
use gigmile_test.Persistence.{PaymentModel}
use gigmile_test.Env.{Env}
use gigmile_test.Env.Database.{Tables}
use gigmile_test.Result.{Result, ok, err}
use gigmile_test.World.{State, Ref, Request, publish, raise, continue, ◌>>◌}
use gigmile_test.World.Rules.{Post, continue_rule, tables_of}
use gigmile_test.Mysql.Payments.Insert.{Inserted, save-Inserted}
use gigmile_test.Mysql.Payments.Reads.{Checked}
use gigmile_test.Service.Coherence.{IsCoherent, IsRead-IsCoherent}
use gigmile_test.Service.Process.{
  Response, response_for, respond, announce, answer, record_payment, settle, answer_duplicate,
  unless_exists, process_payment,
}
use gigmile_test.Service.Process.Outcome.{written_nothing, check-Checked}
use gigmile_test.Service.Process.Record.{save_and_answer}
use gigmile_test.Service.Process.Charge.{Charged, charge-Charged}

module _ {env : Env} where
  -- No payment was recorded, or the goroutine was started for the object that the answer describes.
  abbrev pub Starts : Request → List PaymentModel → Post env Response
  Starts req before (ok resp) t =
      ((tables_of t).payments ≡ before)
      ⊎ ((r : Ref) × Memᴰ (publish r req) t.tasks
          × (resp ≡ response_for "payment processed successfully" (t.heap r)))
  Starts req before (err e) t = (tables_of t).payments ≡ before

  refused_save :
      (req : Request) (r : Ref) (before : List PaymentModel) (t : State env) (e : Error)
      (duplicate : Bool)
      → (tables_of t).payments ≡ before
      → let m =
          if duplicate
          then respond "payment processed successfully" r
          else raise (wrap "failed to save payment" e) in
        Starts req before (m t).0 (m t).1
  unfolding respond
  refused_save req r before t e true same = inl same
  refused_save req r before t e false same = same

  started :
      (req : Request) (r : Ref) (before : List PaymentModel) (t : State env) (has : Bool)
      → has ≡ true
      → let (x, u) = (do announce req r has; respond "payment processed successfully" r) t in
        Starts req before x u
  unfolding respond
  started req r before t true _ = inr (r, append_right t.tasks (Memᴰ.head refl), refl)
  started req r before t false h = absurd (cc h)

  answer-Starts :
      (req : Request) (r : Ref) (p : Payment) (s t : State env) (x : Result (Unit {0}))
      → env.has_publisher ≡ true
      → Inserted p s x t
      → Starts req (tables_of s).payments (answer req r x t).0 (answer req r x t).1
  answer-Starts req r p s t (err e) has quiet =
      refused_save req r (tables_of s).payments t e (is_duplicate_transaction e)
        (ap (λ (y : Tables). y.payments) quiet.read.tables)
  answer-Starts req r p s t (ok _) has inserted =
      started req r (tables_of s).payments (record t { times = t.times + 1 }) env.has_publisher has

  SamePayments : List PaymentModel → Post env Payment
  SamePayments before x t = (tables_of t).payments ≡ before

  record_payment-Starts :
      (req : Request) (r : Ref) (s : State env)
      → env.has_publisher ≡ true
      → Starts req (tables_of s).payments (record_payment req r s).0 (record_payment req r s).1
  unfolding record_payment SamePayments
  record_payment-Starts req r s has =
      continue_rule (SamePayments (tables_of s).payments) (Starts req (tables_of s).payments) _
        (save_and_answer req r) _ refl
        (λ p t same. rw (← same) (answer-Starts req r p t _ _ has (save-Inserted p t)))
        (λ _ t same. same)

  no_payment :
      (req : Request) (before : List PaymentModel) (x : Result Response) (t : State env)
      → (tables_of t).payments ≡ before
      → Starts req before x t
  no_payment req before (ok resp) t same = inl same
  no_payment req before (err e) t same = same

  settle-Starts :
      (req : Request) (s : State env)
      → IsCoherent s
      → env.has_publisher ≡ true
      → Starts req (tables_of s).payments (settle req s).0 (settle req s).1
  unfolding settle
  settle-Starts req s h has =
      continue_rule (Charged req s) (Starts req (tables_of s).payments) _ _ _
        (charge-Charged req s h)
        (λ r t c.
          let same : (tables_of t).payments ≡ (tables_of s).payments =
            ap (λ (y : Tables). y.payments) c.0.tables in
          rw (← same) (record_payment-Starts req r t has))
        (λ e t read. ap (λ (y : Tables). y.payments) read.tables)

  unless_exists-Starts :
      (req : Request) (s : State env) (x : Result Bool) (t : State env)
      → IsCoherent s
      → env.has_publisher ≡ true
      → Checked req.transaction_reference s x t
      → Starts req
          (tables_of s).payments
          (continue x (unless_exists req) t).0
          (continue x (unless_exists req) t).1
  unless_exists-Starts req s (ok true) t h has quiet =
      no_payment req (tables_of s).payments (answer_duplicate req t).0 (answer_duplicate req t).1
        (ap (λ (y : Tables). y.payments) (written_nothing req t ∙ quiet.read.tables))
  unless_exists-Starts req s (ok false) t h has (quiet, _) =
      let same : (tables_of t).payments ≡ (tables_of s).payments =
        ap (λ (y : Tables). y.payments) quiet.read.tables in
      rw (← same) (settle-Starts req t (IsRead-IsCoherent s t quiet.read h) has)
  unless_exists-Starts req s (err e) t h has quiet =
      ap (λ (y : Tables). y.payments) quiet.read.tables

  -- Where the service has a publisher, a request on a coherent state that leaves more payments in
  -- the table has started the goroutine that announces the payment, for the object whose figures
  -- are in its answer, and it answers no error.
  pub process_payment-Starts :
      (req : Request) (s : State env)
      → IsCoherent s
      → env.has_publisher ≡ true
      → Starts req (tables_of s).payments (process_payment req s).0 (process_payment req s).1
  unfolding process_payment
  process_payment-Starts req s h has = elim (Bool-cases (str_eq req.payment_status "COMPLETE")) [
    | inl complete ↦ rw complete (unless_exists-Starts req s _ _ h has (check-Checked req s))
    | inr other ↦ rw other (inl refl)
  ]
