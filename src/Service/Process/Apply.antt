-- ===== src/Service/Process/Apply.antt =====
-- A payment applied to an object that agrees with the row, and the row that its save writes.
use gigmile_test.Prelude.{
  String, ◌≡◌, refl, ap, ◌∙◌, sym, inl, inr, false, some, arith, str_eq, Bool-cases, if_self,
}
use mathlib.Core.Path.{subst}
use gigmile_test.Prelude.Int.{ℤ, pos, ◌<ℤ◌, leb_ℤ}
use gigmile_test.Domain.Time.{Time}
use gigmile_test.Domain.Customer.{Customer, apply_payment, status_completed}
use gigmile_test.Domain.Customer.Balance.{after_payment}
use gigmile_test.Persistence.{CustomerModel, customer_to_domain, customer_from_domain}
use gigmile_test.Env.{Env}
use gigmile_test.Env.Database.{Tables, put_customer}
use gigmile_test.Result.{Result, ok, err, Ensures}
use gigmile_test.World.{State, Ref, Request, write, wrapping, continue}
use gigmile_test.World.Rules.{Post, IsRead, wrap_rule, tables_of}
use gigmile_test.Mysql.Customers as Customers
use gigmile_test.Mysql.Customers.{save_changes}
use gigmile_test.Mysql.Customers.Find.{Found, find_by_id-Found}
use gigmile_test.Mysql.Customers.Save.{IsSaved, bumped}
use gigmile_test.Service.Coherence.{Rows, Agrees, IsCoherent, origin-Agrees}
use gigmile_test.Service.Coherence.Update.{HasRoom}
use gigmile_test.Service.Process.{apply_at}

-- The version of every row can be counted up within an int64.
abbrev pub HasRooms : Tables → Type 0
HasRooms t = (id : String) (m : CustomerModel) → t.customers id ≡ some m → HasRoom m

-- One payment charged to the row of the customer, whose figures the caller is given.
pub record IsCharged (req : Request) (before after : Tables) (answer : Customer) : Type 0 where
  pub row : CustomerModel
  pub row' : CustomerModel
  pub there : before.customers req.customer_id ≡ some row
  pub positive : pos 0 <ℤ req.transaction_amount
  pub active : str_eq row.status status_completed ≡ false
  pub tables :
      after ≡ record before { customers = put_customer req.customer_id row' before.customers }
  pub charged :
      customer_to_domain row'
      ≡ bumped (after_payment req.transaction_amount req.transaction_date (customer_to_domain row))
  pub answered : answer ≡ customer_to_domain row'

-- An object that a payment was applied to, and that was not saved yet.
pub record IsReady (req : Request) (rows : Rows) (d : Customer) : Type 0 where
  pub read : Customer
  pub agrees : Agrees req.customer_id rows read
  pub positive : pos 0 <ℤ req.transaction_amount
  pub active : str_eq read.status status_completed ≡ false
  pub applied : d ≡ after_payment req.transaction_amount req.transaction_date read

abbrev pub IsAccepted : ℤ → Time → Customer → Customer → Type 0
IsAccepted amount date c d =
    (pos 0 <ℤ amount)
    × (str_eq c.status status_completed ≡ false)
    × (d ≡ after_payment amount date c)

pub apply_payment-accepts :
    (amount : ℤ) (date : Time) (c : Customer)
    → Ensures (IsAccepted amount date c) (apply_payment amount date c)
unfolding apply_payment
apply_payment-accepts amount date c = elim (Bool-cases (leb_ℤ amount (pos 0))) [
  | inl bad ↦ rw bad tt
  | inr good ↦ elim (Bool-cases (str_eq c.status status_completed)) [
    | inl done ↦ rw (good, done) tt
    | inr active ↦ rw (good, active) (ground arith, active, refl)
  ]
]

-- The row that a save writes, for an object that is a payment ahead of the row.
charged_row :
    (req : Request) (d : Customer) (row : CustomerModel) (at : Time)
    → d ≡ after_payment req.transaction_amount req.transaction_date (customer_to_domain row)
    → customer_to_domain (save_changes (customer_from_domain d) at row)
      ≡ bumped (after_payment req.transaction_amount req.transaction_date (customer_to_domain row))
unfolding customer_to_domain customer_from_domain save_changes
charged_row req d row at e = rw e refl

module _ {env : Env} where
  -- the customer is found, and agrees with the row
  abbrev pub Held : Request → State env → Post env Ref
  Held req s (ok r) t = IsRead s t × Agrees req.customer_id (tables_of s).customers (t.heap r)
  Held req s (err e) t = IsRead s t

  pub find-Held :
      (req : Request) (s : State env) (text : String)
      → IsCoherent s
      → Held req s
          (wrapping text (Customers.find_by_id req.customer_id) s).0
          (wrapping text (Customers.find_by_id req.customer_id) s).1
  find-Held req s text h =
      wrap_rule (Found req.customer_id s) (Held req s) text _ _ (find_by_id-Found req.customer_id s)
        (λ r p. (p.0, origin-Agrees req.customer_id s _ h p.1)) (λ e p. p)

  abbrev pub Ready : Request → Ref → State env → Post env (Unit {0})
  Ready req r s (ok _) t = IsRead s t × IsReady req (tables_of s).customers (t.heap r)
  Ready req r s (err e) t = IsRead s t

  written-Ready :
      (req : Request) (r : Ref) (s t : State env) (applied : Result Customer)
      → Held req s (ok r) t
      → Ensures (IsAccepted req.transaction_amount req.transaction_date (t.heap r)) applied
      → Ready req r s
          (continue applied (λ c'. write r c') t).0
          (continue applied (λ c'. write r c') t).1
  written-Ready req r s t (err e) (h, agrees) _ = h
  written-Ready req r s t (ok d) (h, agrees) (positive, active, applied) = (
    record { tables = h.tables; entries = h.entries },
    record {
      read = t.heap r;
      agrees = agrees;
      positive = positive;
      active = active;
      applied = if_self r d (t.heap r) ∙ applied;
    },
  )

  pub apply-Ready :
      (req : Request) (r : Ref) (s t : State env)
      → Held req s (ok r) t
      → Ready req r s (apply_at r req t).0 (apply_at r req t).1
  unfolding apply_at
  apply-Ready req r s t held =
      written-Ready req r s t _ held
        (apply_payment-accepts req.transaction_amount req.transaction_date (t.heap r))

  pub saved-IsCharged :
      (req : Request) (r : Ref) (s t u : State env)
      → IsRead s t
      → IsReady req (tables_of s).customers (t.heap r)
      → IsSaved (t.heap r) r t u
      → IsCharged req (tables_of s) (tables_of u) (u.heap r)
  unfolding customer_to_domain
  saved-IsCharged req r s t u h ready saved = record {
    row = saved.row;
    row' = row';
    there = there;
    positive = ready.positive;
    active =
        subst (λ (c : Customer). str_eq c.status status_completed ≡ false) (sym current)
          ready.active;
    tables =
        subst
          (λ (id : String).
            tables_of u
            ≡ record (tables_of s) { customers = put_customer id row' (tables_of s).customers })
          same_id
          (subst
            (λ (x : Tables).
              tables_of u ≡ record x { customers = put_customer (t.heap r).id row' x.customers })
            h.tables saved.tables);
    charged = charged;
    answered = saved.object ∙ (ap bumped applied ∙ sym charged);
  }
    where
      row' : CustomerModel
      row' = save_changes (customer_from_domain (t.heap r)) saved.at saved.row

      same_id : (t.heap r).id ≡ req.customer_id
      same_id = ap (λ (c : Customer). c.id) ready.applied ∙ ready.agrees.same_id

      there : (tables_of s).customers req.customer_id ≡ some saved.row
      there =
          subst (λ (id : String). (tables_of s).customers id ≡ some saved.row) same_id
            (rw (← h.tables) saved.there)

      current : customer_to_domain saved.row ≡ ready.read
      current =
          ready.agrees.same saved.row there
            (saved.same_version ∙ ap (λ (c : Customer). c.version) ready.applied)

      applied :
          t.heap r
          ≡ after_payment req.transaction_amount req.transaction_date (customer_to_domain saved.row)
      applied =
          ready.applied
          ∙ ap (after_payment req.transaction_amount req.transaction_date) (sym current)

      charged :
          customer_to_domain row'
          ≡ bumped (
              after_payment req.transaction_amount req.transaction_date
                (customer_to_domain saved.row))
      charged = charged_row req (t.heap r) saved.row saved.at applied
