-- ===== src/Service/Process/Due.antt =====
-- A payment that nothing stands against, and its charge: with the database in order, it goes through.
use gigmile_test.Prelude.{
  String, ◌≡◌, refl, ap, ◌∙◌, sym, inl, inr, false, true, some, none, [], str_eq, if_self, arith,
  Bool-cases,
}
use mathlib.Core.Path.{subst}
use gigmile_test.Prelude.Int.{is_zero, pos, ◌<ℤ◌}
use gigmile_test.Domain.Time.{Time}
use gigmile_test.Domain.Customer.{Customer, apply_payment, new_balance, status_completed}
use gigmile_test.Domain.Customer.Balance.{after_payment, apply_payment-eq_ok}
use gigmile_test.Persistence.{CustomerModel, customer_to_domain, customer_from_domain}
use gigmile_test.Env.{Env}
use gigmile_test.Env.Columns.{Fits, ArePlain, IsUpdatable, is_stamp}
use gigmile_test.Env.Database.{Tables}
use gigmile_test.Env.Store.{Json, Entries, IsWritten, text, unmarshal_customer, customer_json}
use gigmile_test.Result.{Result, ok, err, IsOk}
use gigmile_test.World.{State, Ref, Request, continue, write}
use gigmile_test.World.Rules.{
  none_within, Post, IsRead, continue_rule, wrap_rule, tables_of, entries_of,
}
use gigmile_test.Cache.Keys.{customer_key, payment_key, customer_key-ne-payment_key}
use gigmile_test.Mysql.Customers.{save_changes}
use gigmile_test.Mysql.Up.{IsUp}
use gigmile_test.Mysql.Customers.Find.{IsOrigin, cached, stored, Found, find_by_id-Found}
use gigmile_test.Mysql.Customers.Save.{Saved, save-Saved, bumped}
use gigmile_test.Mysql.Customers.Live.{find_by_id-IsOk, save-IsOk}
use gigmile_test.Mysql.Payments.Reads.{with_reference}
use gigmile_test.Service.Coherence.{IsCoherent}
use gigmile_test.Service.Process.{apply_at, charge, unless_conflict}
use gigmile_test.Service.Process.Charge.{save_or_retry}

same_row :
    (x : Tables) (id : String) (m n : CustomerModel)
    → x.customers id ≡ some m
    → x.customers id ≡ some n
    → n ≡ m
same_row x id m n h k = cc

-- The row that the charge writes is one that its columns hold.
charged-IsUpdatable :
    (req : Request) (m : CustomerModel) (d : Customer) (at : Time)
    → is_stamp req.transaction_date ≡ true
    → d ≡ after_payment req.transaction_amount req.transaction_date (customer_to_domain m)
    → IsUpdatable m (save_changes (customer_from_domain d) at m)
unfolding customer_to_domain customer_from_domain save_changes
charged-IsUpdatable req m d at dated e = rw e (record {
  date = λ day h. subst (λ (t : Time). is_stamp t ≡ true) (same_day h) dated;
  status = elim (Bool-cases (is_zero (new_balance m.outstanding_balance req.transaction_amount))) [
    | inl done ↦ rw done (inr (omega arith))
    | inr open_still ↦ rw open_still (inl refl)
  ];
})
  where
    same_day : {day : Time} → some req.transaction_date ≡ some day → req.transaction_date ≡ day
    same_day h = cc h

written_elsewhere :
    (req : Request) (c : Customer) (x y : Entries)
    → x (payment_key req.transaction_reference) ≡ none
    → IsWritten (customer_key c.id) (text (customer_json c)) y x
    → y (payment_key req.transaction_reference) ≡ none
written_elsewhere req c x y h w = elim (w (payment_key req.transaction_reference)) [
  | inl gone ↦ gone
  | inr (inl same) ↦ same ∙ h
  | inr (inr (key, _)) ↦ absurd (customer_key-ne-payment_key c.id req.transaction_reference key)
]

module _ {env : Env} where
  -- A payment of a positive amount to an active customer with a row, whose reference is neither in the
  -- table nor in the cache; the columns hold its fields, and tell the references recorded apart; and
  -- no copy of the customer in the cache is older than the row.
  pub record IsDue (req : Request) (m : CustomerModel) (s : State env) : Type 0 where
    pub there : (tables_of s).customers req.customer_id ≡ some m
    pub active : str_eq m.status status_completed ≡ false
    pub positive : pos 0 <ℤ req.transaction_amount
    pub named : str_eq req.customer_id "" ≡ false
    pub referred : str_eq req.transaction_reference "" ≡ false
    pub new : with_reference req.transaction_reference (tables_of s) ≡ []
    pub absent : entries_of s (payment_key req.transaction_reference) ≡ none
    pub fits : Fits req.customer_id req.transaction_reference req.transaction_date
    pub plain : ArePlain (tables_of s)
    pub current :
        (j : Json)
        → entries_of s (customer_key req.customer_id) ≡ some (text j)
        → (unmarshal_customer j).version ≡ m.version

  -- Calls that only read change nothing of it.
  pub IsRead-IsDue :
      (req : Request) (m : CustomerModel) (s t : State env)
      → IsRead s t
      → IsDue req m s
      → IsDue req m t
  IsRead-IsDue req m s t h due = record {
    there = rw h.tables due.there;
    active = due.active;
    positive = due.positive;
    named = due.named;
    referred = due.referred;
    new = rw h.tables due.new;
    absent =
        none_within (payment_key req.transaction_reference) (entries_of s) (entries_of t) due.absent
          h.entries;
    fits = due.fits;
    plain = rw h.tables due.plain;
    current = λ j there. due.current j (elim (h.entries (customer_key req.customer_id)) [
      | inl gone ↦ cc
      | inr same ↦ sym same ∙ there
    ]);
  }

  origin-eq :
      (req : Request) (m : CustomerModel) (s : State env) (c : Customer)
      → IsCoherent s
      → IsDue req m s
      → IsOrigin req.customer_id (entries_of s) (tables_of s) c
      → c ≡ customer_to_domain m
  origin-eq req m s c h due (cached j there e) =
      e ∙ sym ((h.cache req.customer_id j there).same m due.there (sym (due.current j there)))
  origin-eq req m s c h due (stored n there e) =
      e ∙ ap customer_to_domain (same_row (tables_of s) req.customer_id m n due.there there)

  -- The object that the call left at `r`, without a table written.
  abbrev At : {A : Type 0} → Ref → Customer → State env → Post env A
  At r c s (ok _) t = IsRead s t × (t.heap r ≡ c)
  At r c s (err e) t = ⊥

  abbrev Held : Customer → State env → Post env Ref
  Held c s (ok r) t = IsRead s t × (t.heap r ≡ c)
  Held c s (err e) t = ⊥

  found-Held :
      (req : Request) (m : CustomerModel) (s : State env) (x : Result Ref) (t : State env)
      → IsCoherent s
      → IsDue req m s
      → IsOk x
      → Found req.customer_id s x t
      → Held (customer_to_domain m) s x t
  found-Held req m s (ok r) t h due good (read, origin) =
      (read, origin-eq req m s (t.heap r) h due origin)
  found-Held req m s (err e) t h due bad _ = absurd bad

  written-At :
      (req : Request) (r : Ref) (c : Customer) (s t : State env) (x : Result Customer)
      → IsRead s t
      → x ≡ ok c
      → At r c s (continue x (λ c'. write r c') t).0 (continue x (λ c'. write r c') t).1
  written-At req r c s t x h e =
      rw e (record { tables = h.tables; entries = h.entries }, if_self r c (t.heap r))

  apply-At :
      (req : Request) (m : CustomerModel) (r : Ref) (s t : State env)
      → IsDue req m s
      → IsRead s t
      → t.heap r ≡ customer_to_domain m
      → At r
          (after_payment req.transaction_amount req.transaction_date (customer_to_domain m))
          s
          (apply_at r req t).0
          (apply_at r req t).1
  unfolding apply_at customer_to_domain
  apply-At req m r s t due h e = written-At req r _ s t _ h (
      ap (apply_payment req.transaction_amount req.transaction_date) e
      ∙ apply_payment-eq_ok req.transaction_amount req.transaction_date (customer_to_domain m)
          due.positive due.active)

  -- The charge went through at the first try, and the cache still does not know the reference.
  abbrev pub Live : Request → Post env Ref
  Live req (ok r) t = entries_of t (payment_key req.transaction_reference) ≡ none
  Live req (err e) t = ⊥

  saved-Live :
      (req : Request) (r : Ref) (t : State env) (x : Result (Unit {0})) (u : State env)
      → entries_of t (payment_key req.transaction_reference) ≡ none
      → IsOk x
      → Saved r t x u
      → Live req (unless_conflict req r x u).0 (unless_conflict req r x u).1
  saved-Live req r t (ok _) u absent good saved =
      written_elsewhere req (bumped (t.heap r)) (entries_of t) (entries_of u) absent saved.entries
  saved-Live req r t (err e) u absent bad _ = absurd bad

  save_or_retry-Live :
      (req : Request) (m : CustomerModel) (r : Ref) (s t : State env)
      → IsUp env
      → IsCoherent s
      → IsDue req m s
      → IsRead s t
      → t.heap r ≡ after_payment req.transaction_amount req.transaction_date (customer_to_domain m)
      → Live req (save_or_retry req r t).0 (save_or_retry req r t).1
  unfolding customer_to_domain
  save_or_retry-Live req m r s t up coherent due h e =
      saved-Live req r t _ _ (IsRead-IsDue req m s t h due).absent
        (save-IsOk r t m up
          (subst (λ (id : String). (tables_of t).customers id ≡ some m)
            (sym (coherent.keyed req.customer_id m due.there) ∙ sym (ap (λ (c : Customer). c.id) e))
            (IsRead-IsDue req m s t h due).there)
          (sym (ap (λ (c : Customer). c.version) e))
          (λ at. charged-IsUpdatable req m (t.heap r) at due.fits.date e))
        (save-Saved r t)

  pub charge-Live :
      (req : Request) (m : CustomerModel) (s : State env)
      → IsUp env
      → IsCoherent s
      → IsDue req m s
      → Live req (charge req s).0 (charge req s).1
  unfolding charge
  charge-Live req m s up coherent due =
      continue_rule (Held (customer_to_domain m) s) (Live req) _ _ _
        (wrap_rule (Held (customer_to_domain m) s) (Held (customer_to_domain m) s)
          "failed to get customer" _ _
          (found-Held req m s _ _ coherent due (find_by_id-IsOk req.customer_id s m up due.there)
            (find_by_id-Found req.customer_id s))
          (λ _ p. p) (λ _ p. p))
        (λ r t held.
          continue_rule
            (At r (after_payment req.transaction_amount req.transaction_date (customer_to_domain m))
              s)
            (Live req) _ (λ _. save_or_retry req r) _
            (wrap_rule
              (At r
                (after_payment req.transaction_amount req.transaction_date (customer_to_domain m))
                s)
              (At r
                (after_payment req.transaction_amount req.transaction_date (customer_to_domain m))
                s)
              "failed to apply payment" _ _ (apply-At req m r s t due held.0 held.1) (λ _ p. p)
              (λ _ p. p))
            (λ _ u p. save_or_retry-Live req m r s u up coherent due p.0 p.1) (λ _ u p. p))
        (λ _ t p. p)
