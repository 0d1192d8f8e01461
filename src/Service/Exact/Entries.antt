-- ===== src/Service/Exact/Entries.antt =====
-- A request brings no reference into Redis: the goroutines do that, which have not run.
use gigmile_test.Prelude.{
  String, ◌≡◌, refl, ap, ◌∙◌, inl, inr, Bool, true, false, none, Bool-cases, str_eq, if◌then◌else◌,
}
use gigmile_test.Domain.Customer.{Customer, apply_payment}
use gigmile_test.Domain.Errors.{Error, is_optimistic_lock, wrap}
use gigmile_test.Env.{Env}
use gigmile_test.Result.{Result, ok, err}
use gigmile_test.World.{
  Action, State, Ref, Request, continue, wrapping, attempt, raise, ◌>>=◌, ◌>>◌, write, pure,
}
use gigmile_test.World.Rules.{IsRead, IsKept, none_within, entries_of}
use gigmile_test.Cache.Keys.{payment_key, customer_key-ne-payment_key}
use gigmile_test.Mysql.Customers as Customers
use gigmile_test.Mysql.Customers.Find.{Found, find_by_id-Found}
use gigmile_test.Mysql.Customers.Save.{Saved, save-Saved}
use gigmile_test.Mysql.Payments.Reads.{Checked}
use gigmile_test.Service.Process.{
  Response, apply_at, retry, charge, unless_conflict, answer_duplicate, respond, settle,
  record_payment, unless_exists, check, process_payment,
}
use gigmile_test.Service.Process.Outcome.{check-Checked}
use gigmile_test.Service.Process.Record.{Recorded, record_payment-Recorded}

module _ {env : Env} where
  -- No payment comes into the cache that was not there.
  pub record AddsNone (s t : State env) : Type 0 where
    pub absent :
        (ref : String)
        → entries_of s (payment_key ref) ≡ none
        → entries_of t (payment_key ref) ≡ none

  pub AddsNone-trans : (s t u : State env) → AddsNone s t → AddsNone t u → AddsNone s u
  AddsNone-trans s t u h k = record { absent = λ ref e. k.absent ref (h.absent ref e) }

  pub IsRead-AddsNone : (s t : State env) → IsRead s t → AddsNone s t
  IsRead-AddsNone s t h = record {
    absent = λ ref e. none_within (payment_key ref) (entries_of s) (entries_of t) e h.entries;
  }

  pub IsKept-AddsNone : (s t : State env) → IsKept s t → AddsNone s t
  IsKept-AddsNone s t h = record {
    absent = λ ref e. none_within (payment_key ref) (entries_of s) (entries_of t) e h.entries;
  }

-- An action that never does.
abbrev Adding : {env : Env} {A : Type 0} → Action env A → Type 0
Adding {env} m = (s : State env) → AddsNone s (m s).1

continue-AddsNone :
    {env : Env} {A B : Type 0} (s : State env) (r : Result A) (f : A → Action env B) (t : State env)
    → AddsNone s t
    → ((a : A) → Adding (f a))
    → AddsNone s (continue r f t).1
continue-AddsNone s (ok a) f t h rest = AddsNone-trans s t _ h (rest a t)
continue-AddsNone s (err e) f t h rest = h

bind-Adding :
    {env : Env} {A B : Type 0} (m : Action env A) (f : A → Action env B)
    → Adding m
    → ((a : A) → Adding (f a))
    → Adding (m >>= f)
bind-Adding m f h rest s = continue-AddsNone s (m s).0 f (m s).1 (h s) rest

module _ {env : Env} where
  same-AddsNone : (s t : State env) → t.store ≡ s.store → AddsNone s t
  same-AddsNone s t same = record {
    absent = λ ref e. ap (λ (x : env.redis.Store). env.redis.entries x (payment_key ref)) same ∙ e;
  }

  found-AddsNone :
      (id : String) (s : State env) (x : Result Ref) (t : State env) → Found id s x t → AddsNone s t
  found-AddsNone id s (ok r) t h = IsRead-AddsNone s t h.0
  found-AddsNone id s (err e) t h = IsRead-AddsNone s t h

  applied-AddsNone :
      (r : Ref) (s : State env) (x : Result Customer) → AddsNone s (continue x (λ c. write r c) s).1
  applied-AddsNone r s (ok c) = same-AddsNone s _ refl
  applied-AddsNone r s (err e) = same-AddsNone s _ refl

  apply-Adding : (r : Ref) (req : Request) → Adding (apply_at {env = env} r req)
  unfolding apply_at
  apply-Adding r req s =
      applied-AddsNone r s (apply_payment req.transaction_amount req.transaction_date (s.heap r))

  saved-AddsNone :
      (r : Ref) (s : State env) (x : Result (Unit {0})) (t : State env)
      → Saved r s x t
      → AddsNone s t
  saved-AddsNone r s (ok _) t h = record {
    absent = λ ref e. elim (h.entries (payment_key ref)) [
      | inl gone ↦ gone
      | inr (inl same) ↦ same ∙ e
      | inr (inr (key, _)) ↦ absurd (customer_key-ne-payment_key (s.heap r).id ref key)
    ];
  }
  saved-AddsNone r s (err e) t h = IsRead-AddsNone s t h.read

  save-Adding : (r : Ref) → Adding (Customers.save {env = env} r)
  save-Adding r s = saved-AddsNone r s _ _ (save-Saved r s)

  -- a lookup, an application and what follows them
  found_applied-Adding :
      {B : Type 0} (req : Request) (found applied : String) (f : Ref → Action env B)
      → ((r : Ref) → Adding (f r))
      → Adding (do
        r ← wrapping found (Customers.find_by_id req.customer_id)
        wrapping applied (apply_at r req)
        f r)
  found_applied-Adding req found applied f rest =
      bind-Adding (wrapping found (Customers.find_by_id req.customer_id))
        (λ r. do wrapping applied (apply_at r req); f r)
        (λ s. found-AddsNone req.customer_id s _ _ (find_by_id-Found req.customer_id s))
        (λ r.
          bind-Adding (wrapping applied (apply_at r req)) (λ _. f r) (apply-Adding r req)
            (λ _. rest r))

  retry-Adding : (req : Request) → Adding (retry {env = env} req)
  unfolding retry
  retry-Adding req =
      found_applied-Adding req "failed to get customer on retry" "failed to apply payment on retry"
        (λ r. do wrapping "failed to save customer" (Customers.save r); pure r)
        (λ r.
          bind-Adding (wrapping "failed to save customer" (Customers.save r)) (λ _. pure r)
            (save-Adding r) (λ _ t. same-AddsNone t t refl))

  conflict-Adding :
      (req : Request) (e : Error) (conflict : Bool)
      → Adding {env = env}
          (if conflict then retry req else raise (wrap "failed to save customer" e))
  conflict-Adding req e true s = retry-Adding req s
  conflict-Adding req e false s = same-AddsNone s s refl

  unless_conflict-Adding :
      (req : Request) (r : Ref) (x : Result (Unit {0}))
      → Adding (unless_conflict {env = env} req r x)
  unless_conflict-Adding req r (ok _) s = same-AddsNone s s refl
  unless_conflict-Adding req r (err e) s = conflict-Adding req e (is_optimistic_lock e) s

  -- A charge puts no payment into the cache.
  pub charge-AddsNone : (req : Request) (s : State env) → AddsNone s (charge req s).1
  unfolding charge
  charge-AddsNone req =
      found_applied-Adding req "failed to get customer" "failed to apply payment"
        (λ r. do saved ← attempt (Customers.save r); unless_conflict req r saved)
        (λ r.
          bind-Adding (attempt (Customers.save r)) (unless_conflict req r) (save-Adding r)
            (unless_conflict-Adding req r))

  answer_duplicate-Adding : (req : Request) → Adding (answer_duplicate {env = env} req)
  unfolding answer_duplicate respond
  answer_duplicate-Adding req =
      bind-Adding
        (wrapping "failed to get customer for duplicate payment"
          (Customers.find_by_id req.customer_id))
        (λ r. respond "duplicate transaction - already processed" r)
        (λ s. found-AddsNone req.customer_id s _ _ (find_by_id-Found req.customer_id s))
        (λ r s. same-AddsNone s s refl)

  recorded-AddsNone :
      (req : Request) (r : Ref) (s : State env) (x : Result Response) (t : State env)
      → Recorded req r s x t
      → AddsNone s t
  recorded-AddsNone req r s (ok resp) t (_, kept, _) = IsKept-AddsNone s t kept
  recorded-AddsNone req r s (err e) t read = IsRead-AddsNone s t read

  settle-Adding : (req : Request) → Adding (settle {env = env} req)
  unfolding settle
  settle-Adding req =
      bind-Adding (charge req) (record_payment req) (charge-AddsNone req)
        (λ r s. recorded-AddsNone req r s _ _ (record_payment-Recorded req r s))

  unless_exists-Adding : (req : Request) (b : Bool) → Adding (unless_exists {env = env} req b)
  unless_exists-Adding req true s = answer_duplicate-Adding req s
  unless_exists-Adding req false s = settle-Adding req s

  checked-AddsNone :
      (ref : String) (s : State env) (x : Result Bool) (t : State env)
      → Checked ref s x t
      → AddsNone s t
  checked-AddsNone ref s (ok true) t quiet = IsRead-AddsNone s t quiet.read
  checked-AddsNone ref s (ok false) t (quiet, _) = IsRead-AddsNone s t quiet.read
  checked-AddsNone ref s (err e) t quiet = IsRead-AddsNone s t quiet.read

  -- Nor does a request.
  pub process_payment-AddsNone :
      (req : Request) (s : State env) → AddsNone s (process_payment req s).1
  unfolding process_payment
  process_payment-AddsNone req s = elim (Bool-cases (str_eq req.payment_status "COMPLETE")) [
    | inl complete ↦ rw complete (
        bind-Adding (check req) (unless_exists req)
          (λ t. checked-AddsNone req.transaction_reference t _ _ (check-Checked req t))
          (unless_exists-Adding req) s)
    | inr other ↦ rw other (same-AddsNone s s refl)
  ]
