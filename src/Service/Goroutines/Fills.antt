-- ===== src/Service/Goroutines/Fills.antt =====
-- The goroutines keep the cache coherent, as long as the objects that they hold agree with the rows.
use gigmile_test.Prelude.{
  String, ◌≡◌, refl, sym, ◌∙◌, ◌⊎◌, inl, inr, Bool, true, false, Option, none, some, List,
}
use mathlib.Core.Path.{subst}
use gigmile_test.Domain.Customer.{Customer}
use gigmile_test.Domain.Payment.{Payment}
use gigmile_test.Env.{Env}
use gigmile_test.Env.Store.{
  Json, Value, Entries, IsWritten, text, refs, customer_json, payment_json, unmarshal_customer,
}
use gigmile_test.Result.{Result, ok, err, wrap_error}
use gigmile_test.World.{State, Ref, continue}
use gigmile_test.World.Rules.{tables_of, entries_of}
use gigmile_test.Cache.Keys.{
  customer_key, payment_key, customer_key-injective, customer_key-ne-payment_key,
  customer_payments_key,
}
use gigmile_test.Cache.Customers as Customers
use gigmile_test.Cache.Payments as Payments
use gigmile_test.Cache.Payments.{listed}
use gigmile_test.Service.Coherence.{Rows, Agrees, IsCoherent}
use gigmile_test.Service.Goroutines.{run_cache_customer, run_cache_payment}

-- The entry of a customer is gone, as it was, no customer at all, or one that agrees with the row.
abbrev pub Harmless : Rows → String → Option Value → Option Value → Type 0
Harmless rows id before after =
    (after ≡ none)
    ⊎ (after ≡ before)
    ⊎ ((l : List String) × (after ≡ some (refs l)))
    ⊎ ((c : Customer) × (after ≡ some (text (customer_json c))) × Agrees id rows c)

copy-Harmless :
    (rows : Rows) (id : String) (before after : Option Value) (j : Json)
    → Harmless rows id before after
    → ((j' : Json) → before ≡ some (text j') → Agrees id rows (unmarshal_customer j'))
    → after ≡ some (text j)
    → Agrees id rows (unmarshal_customer j)
unfolding unmarshal_customer
copy-Harmless rows id before after j (inl gone) old there = absurd (cc (gone, there))
copy-Harmless rows id before after j (inr (inl same)) old there = old j (sym same ∙ there)
copy-Harmless rows id before after j (inr (inr (inl (l, list)))) old there =
    absurd (cc (list, there))
copy-Harmless rows id before after j (inr (inr (inr (c, new, agrees)))) old there =
    let same : customer_json c ≡ j = cc (new, there) in rw (← same) agrees

-- Storing an object that agrees with its row.
pub customer-Harmless :
    (rows : Rows) (c : Customer) (before after : Entries) (id : String)
    → Agrees c.id rows c
    → IsWritten (customer_key c.id) (text (customer_json c)) after before
    → Harmless rows id (before (customer_key id)) (after (customer_key id))
customer-Harmless rows c before after id agrees written = elim (written (customer_key id)) [
  | inl gone ↦ inl gone
  | inr (inl same) ↦ inr (inl same)
  | inr (inr (key, new)) ↦ inr (
      inr (
        inr (
          c,
          new,
          subst (λ (i : String). Agrees i rows c) (customer_key-injective c.id id key) agrees,
        )))
]

payment-Harmless :
    (rows : Rows) (p : Payment) (before after : Entries) (id : String)
    → IsWritten (payment_key p.transaction_reference) (text (payment_json p)) after before
    → Harmless rows id (before (customer_key id)) (after (customer_key id))
payment-Harmless rows p before after id written = elim (written (customer_key id)) [
  | inl gone ↦ inl gone
  | inr (inl same) ↦ inr (inl same)
  | inr (inr (key, new)) ↦ absurd (customer_key-ne-payment_key id p.transaction_reference (sym key))
]

list-Harmless :
    (rows : Rows) (id : String) (before after : Option Value)
    → (after ≡ none) ⊎ (after ≡ before) ⊎ ((l : List String) × (after ≡ some (refs l)))
    → Harmless rows id before after
list-Harmless rows id before after (inl gone) = inl gone
list-Harmless rows id before after (inr (inl same)) = inr (inl same)
list-Harmless rows id before after (inr (inr list)) = inr (inr (inl list))

module _ {env : Env} where
  open env use {redis}

  -- Only the cache has changed, and it is as coherent as before.
  pub record IsFilled (s t : State env) : Type 0 where
    pub tables : tables_of t ≡ tables_of s
    pub heap : t.heap ≡ s.heap
    pub tasks : t.tasks ≡ s.tasks
    pub coherent : IsCoherent s → IsCoherent t

  pub IsFilled-trans : (s t u : State env) → IsFilled s t → IsFilled t u → IsFilled s u
  IsFilled-trans s t u a b = record {
    tables = b.tables ∙ a.tables;
    heap = b.heap ∙ a.heap;
    tasks = b.tasks ∙ a.tasks;
    coherent = λ h. b.coherent (a.coherent h);
  }

  pub store-IsFilled :
      (s : State env) (store : redis.Store)
      → ((id : String)
          → Harmless
              (tables_of s).customers
              id
              (entries_of s (customer_key id))
              (redis.entries store (customer_key id)))
      → IsFilled s (record s { store = store })
  store-IsFilled s store harmless = record {
    tables = refl;
    heap = refl;
    tasks = refl;
    coherent = λ h. record {
      keyed = h.keyed;
      cache = λ id j there.
          copy-Harmless (tables_of s).customers id (entries_of s (customer_key id))
            (redis.entries store (customer_key id)) j (harmless id) (h.cache id) there;
    };
  }

  pub run_cache_customer-IsFilled :
      (r : Ref) (s : State env)
      → Agrees (s.heap r).id (tables_of s).customers (s.heap r)
      → IsFilled s (run_cache_customer r s)
  unfolding run_cache_customer Customers.save
  run_cache_customer-IsFilled r s agrees = store-IsFilled s _ (λ id.
      customer-Harmless (tables_of s).customers (s.heap r) (entries_of s) _ id agrees (
        redis.set_writes (customer_key (s.heap r).id) (customer_json (s.heap r)) Customers.cache_ttl
          s.store))

  listed-IsFilled :
      (p : Payment) (x : Result Bool) (s t : State env)
      → IsFilled s t
      → IsFilled s (continue (wrap_error "failed to save payment" x) (listed p) t).1
  listed-IsFilled p (err e) s t h = h
  listed-IsFilled p (ok false) s t h = h
  listed-IsFilled p (ok true) s t h = IsFilled-trans s t _ h (
      store-IsFilled t _ (λ id. list-Harmless (tables_of t).customers id _ _ (
        redis.rpush_keeps (customer_payments_key p.customer_id) p.transaction_reference t.store
          (customer_key id))))

  pub run_cache_payment-IsFilled :
      (p : Payment) (s : State env) → IsFilled s (run_cache_payment p s)
  unfolding run_cache_payment Payments.save
  run_cache_payment-IsFilled p s = listed-IsFilled p _ s _ (
      store-IsFilled s _ (λ id.
        payment-Harmless (tables_of s).customers p (entries_of s) _ id
          (redis.set_nx_writes (payment_key p.transaction_reference) (payment_json p) s.store)))
