-- ===== src/Service/Process/Record/Live.antt =====
-- With the database in order, the payment of a request whose reference is new is recorded.
use gigmile_test.Prelude.{◌+◌, ◌≡◌, refl, ap, ◌∙◌, true, false, none, [], arith, str_eq, eq_iff}
use mathlib.Core.Path.{subst}
use gigmile_test.Prelude.Int.{pos, ◌<ℤ◌}
use gigmile_test.Domain.Customer.{Customer, get_payment_progress, is_fully_paid}
use gigmile_test.Domain.Payment.{Payment, new_payment, status_complete}
use gigmile_test.Domain.Time.{Time}
use gigmile_test.Env.{Env}
use gigmile_test.Env.Columns.{Fits, ArePlain, IsInsertable}
use gigmile_test.Env.Database.{Tables}
use gigmile_test.Result.{Result, ok, err, IsOk}
use gigmile_test.World.{State, Ref, Request}
use gigmile_test.World.Rules.{
  none_within, Post, IsQuiet, continue_rule, wrap_rule, rest-IsQuiet, tables_of, entries_of,
}
use gigmile_test.Cache.Keys.{payment_key}
use gigmile_test.Persistence.{payment_from_domain}
use gigmile_test.Mysql.Up.{IsUp}
use gigmile_test.Mysql.Payments as Payments
use gigmile_test.Mysql.Payments.Reads.{with_reference}
use gigmile_test.Mysql.Payments.Insert.{Inserted, save-Inserted}
use gigmile_test.Mysql.Payments.Live.{save-IsOk}
use gigmile_test.Service.Process.Apply.{IsCharged}
use gigmile_test.Service.Process.{Response, response_for, answer, record_payment}
use gigmile_test.Service.Process.Record.{
  IsBuilt, IsRecorded, Built, answered, built-Built, inserted-IsRecorded, new_payment-builds,
  save_and_answer,
}

-- What the request has to have for a payment to be made of it.
new_payment-IsOk :
    (req : Request) (at : Time)
    → pos 0 <ℤ req.transaction_amount
    → str_eq req.customer_id "" ≡ false
    → str_eq req.transaction_reference "" ≡ false
    → IsOk (
        new_payment at req.customer_id req.transaction_amount req.transaction_reference
          req.transaction_date status_complete)
unfolding new_payment
new_payment-IsOk req at positive named referred = ground arith

-- The request's payment is one that nothing in the schema stands against.
abbrev pub IsPayable : Request → Tables → Type 0
IsPayable req t = IsInsertable req.customer_id req.transaction_reference req.transaction_date t

-- The fields of a successful answer
abbrev pub success_with : Customer → Response
success_with c = record {
  success = true;
  message = "payment processed successfully";
  customer_id = c.id;
  outstanding_balance = c.outstanding_balance;
  total_paid = c.total_paid;
  payment_progress = get_payment_progress c;
  is_fully_paid = is_fully_paid c;
}

succeeded : (c : Customer) → response_for "payment processed successfully" c ≡ success_with c
unfolding response_for
succeeded c = refl

-- The row that was charged is the owner of the payment.
pub charged-IsPayable :
    (req : Request) (before after : Tables) (c : Customer)
    → IsCharged req before after c
    → Fits req.customer_id req.transaction_reference req.transaction_date
    → ArePlain before
    → with_reference req.transaction_reference before ≡ []
    → IsPayable req after
charged-IsPayable req before after c i fits plain new = record {
  fits = fits;
  plain = rw i.tables plain;
  owner = i.row';
  there = rw i.tables (rw ((eq_iff req.customer_id req.customer_id).1 refl) refl);
  new = rw i.tables new;
}

module _ {env : Env} where
  -- The answer with the figures of `c`, and the request's payment in the table.
  abbrev pub Done : Request → Customer → Tables → Post env Response
  Done req c before (ok resp) t = (resp ≡ success_with c) × IsRecorded req before (tables_of t)
  Done req c before (err e) t = ⊥

  abbrev Made : Request → State env → Post env Payment
  Made req s (ok p) t = IsQuiet s t × IsBuilt req p
  Made req s (err e) t = ⊥

  made :
      (req : Request) (s : State env) (x : Result Payment) (t : State env)
      → IsOk x
      → Built req s x t
      → Made req s x t
  made req s (ok p) t good built = built
  made req s (err e) t bad built = absurd bad

  answer-Done :
      (req : Request) (r : Ref) (p : Payment) (s : State env) (x : Result (Unit {0}))
      (t : State env)
      → IsBuilt req p
      → IsOk x
      → Inserted p s x t
      → Done req (s.heap r) (tables_of s) (answer req r x t).0 (answer req r x t).1
  answer-Done req r p s (err e) t built bad _ = absurd bad
  answer-Done req r p s (ok _) t built good inserted =
      let t' : State env = record t { times = t.times + 1 } in
      let (x, read) = answered req r t' env.has_publisher in
      rw x (
        succeeded (t.heap r) ∙ ap (λ (g : Ref → Customer). success_with (g r)) inserted.heap,
        rw read.tables (inserted-IsRecorded req p s t built inserted),
      )

  done_since :
      (req : Request) (r : Ref) (s t : State env) (x : Result Response) (u : State env)
      → IsQuiet s t
      → Done req (t.heap r) (tables_of t) x u
      → Done req (s.heap r) (tables_of s) x u
  done_since req r s t x u h done =
      subst (λ (before : Tables). Done req (s.heap r) before x u) h.read.tables
        (subst (λ (g : Ref → Customer). Done req (g r) (tables_of t) x u) h.heap done)

  payment_saved :
      (req : Request) (p : Payment) (s t : State env)
      → IsUp env
      → IsBuilt req p
      → IsQuiet s t
      → IsPayable req (tables_of s)
      → entries_of s (payment_key req.transaction_reference) ≡ none
      → IsOk (Payments.save p t).0
  unfolding IsBuilt payment_from_domain
  payment_saved req p s t up (e, rows) h payable absent =
      save-IsOk p t up
        (rw e (
          none_within (payment_key req.transaction_reference) (entries_of s) (entries_of t) absent
            h.read.entries))
        (let customer : p.customer_id ≡ req.customer_id = (rows "").customer in
          let date : p.transaction_date ≡ req.transaction_date = (rows "").date in
          rw (e, customer, date, h.read.tables) payable)

  pub record_payment-Done :
      (req : Request) (r : Ref) (s : State env)
      → IsUp env
      → pos 0 <ℤ req.transaction_amount
      → str_eq req.customer_id "" ≡ false
      → str_eq req.transaction_reference "" ≡ false
      → IsPayable req (tables_of s)
      → entries_of s (payment_key req.transaction_reference) ≡ none
      → Done req (s.heap r) (tables_of s) (record_payment req r s).0 (record_payment req r s).1
  unfolding record_payment
  record_payment-Done req r s up positive named referred payable absent =
      continue_rule (Made req s) (Done req (s.heap r) (tables_of s)) _ (save_and_answer req r) _
        (wrap_rule (Made req s) (Made req s) "invalid payment data" _ _
          (made req s _ _ (new_payment-IsOk req _ positive named referred)
            (built-Built req s _ _ (rest-IsQuiet s _ _ _) (new_payment-builds req _)))
          (λ _ p. p) (λ _ p. p))
        (λ p t built. done_since req r s t _ _ built.0 (
          answer-Done req r p t _ _ built.1
            (payment_saved req p s t up built.1 built.0 payable absent) (save-Inserted p t)))
        (λ _ t bad. absurd bad)
