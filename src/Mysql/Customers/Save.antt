-- ===== src/Mysql/Customers/Save.antt =====
-- A save goes through only for the version that the row has; otherwise it writes to no table and to
-- no object.
use gigmile_test.Prelude.{
  ℕ, zero, suc, String, ◌≡◌, refl, ap, ◌∙◌, inl, inr, none, some, true, false, arith, ◌==◌,
  Option-cases, Bool-cases, if_self, if◌then◌else◌,
}
use mathlib.Core.Path.{subst}
use gigmile_test.Prelude.Int.{ℤ, pos, add64, is_zero, ◌-ℤ◌}
use gigmile_test.Domain.Errors.{Error, wrap}
use gigmile_test.Domain.Time.{Time}
use gigmile_test.Domain.Customer.{Customer}
use gigmile_test.Persistence.{CustomerModel, customer_from_domain}
use gigmile_test.Env.{Env}
use gigmile_test.Env.Database.{Tables, put_customer, update_where, IsUpdate}
use gigmile_test.Env.Store.{Entries, text, customer_json, IsWithin, IsWritten}
use gigmile_test.Result.{Result, ok, err}
use gigmile_test.World.{State, Ref}
use gigmile_test.World.Rules.{Post, IsQuiet, tables_of, entries_of}
use gigmile_test.Cache.Keys.{customer_key}
use gigmile_test.Cache.Customers as Cache
use gigmile_test.Mysql.Customers.{saved, save, save_changes}

is_zero_sub : (a b : ℤ) → is_zero (a -ℤ b) ≡ true → a ≡ b
unfolding ◌-ℤ◌
is_zero_sub a b h = ground arith

-- What an UPDATE by identifier and version has done, by the number of rows affected.
abbrev pub IsUpdated : String → ℤ → (CustomerModel → CustomerModel) → Tables → ℕ × Tables → Type 0
IsUpdated id v f t (zero, t') = t' ≡ t
IsUpdated id v f t (suc n, t') =
    (m : CustomerModel) × (t.customers id ≡ some m)
    × (m.version ≡ v)
    × (t' ≡ record t { customers = put_customer id (f m) t.customers })

-- The three cases of the UPDATE.
update_where-none :
    (id : String) (v : ℤ) (f : CustomerModel → CustomerModel) (t : Tables)
    → t.customers id ≡ none
    → update_where id v f t ≡ (0, t)
unfolding update_where
update_where-none id v f t e = ground arith

pub update_where-some :
    (id : String) (v : ℤ) (f : CustomerModel → CustomerModel) (t : Tables) (m : CustomerModel)
    → t.customers id ≡ some m
    → is_zero (m.version -ℤ v) ≡ true
    → update_where id v f t ≡ (1, record t { customers = put_customer id (f m) t.customers })
unfolding update_where
update_where-some id v f t m e same = rw (e, update_where) (rw same)

update_where-other :
    (id : String) (v : ℤ) (f : CustomerModel → CustomerModel) (t : Tables) (m : CustomerModel)
    → t.customers id ≡ some m
    → is_zero (m.version -ℤ v) ≡ false
    → update_where id v f t ≡ (0, t)
unfolding update_where
update_where-other id v f t m e other = rw (e, update_where) (rw other)

pub update_where-IsUpdated :
    (id : String) (v : ℤ) (f : CustomerModel → CustomerModel) (t : Tables)
    → IsUpdated id v f t (update_where id v f t)
update_where-IsUpdated id v f t = elim (Option-cases (t.customers id)) [
  | inl e ↦ rw (update_where-none id v f t e) refl
  | inr (m, e) ↦ elim (Bool-cases (is_zero (m.version -ℤ v))) [
    | inl same ↦ rw (update_where-some id v f t m e same) (m, e, is_zero_sub m.version v same, refl)
    | inr other ↦ rw (update_where-other id v f t m e other) refl
  ]
]

-- The customer after a save: `customer.Version++`.
abbrev pub bumped : Customer → Customer
bumped c = record c { version = add64 c.version (pos 1) }

-- A save of the customer `c`, at the address `r`, that went through.
pub record IsSaved {env : Env} (c : Customer) (r : Ref) (s t : State env) : Type 0 where
  pub row : CustomerModel
  pub at : Time
  pub there : (tables_of s).customers c.id ≡ some row
  pub same_version : row.version ≡ c.version
  pub tables : tables_of t ≡ record (tables_of s) {
    customers =
        put_customer c.id (save_changes (customer_from_domain c) at row) (tables_of s).customers;
  }
  pub object : t.heap r ≡ bumped c
  pub entries :
      IsWritten (customer_key c.id) (text (customer_json (bumped c))) (entries_of t) (entries_of s)

abbrev IsStored : Customer → Entries → Entries → Type 0
IsStored c = IsWritten (customer_key c.id) (text (customer_json c))

-- A write after a deletion.
written_within : (c : Customer) (x y z : Entries) → IsWithin y x → IsStored c z y → IsStored c z x
written_within c x y z h w j = elim (w j) [
  | inl gone ↦ inl gone
  | inr (inl kept) ↦ elim (h j) [
    | inl gone ↦ inl (kept ∙ gone)
    | inr same ↦ inr (inl (kept ∙ same))
  ]
  | inr (inr new) ↦ inr (inr new)
]

module _ {env : Env} where
  open env use {sql, redis}

  abbrev pub Saved : Ref → State env → Post env (Unit {0})
  Saved r s (ok _) t = IsSaved (s.heap r) r s t
  Saved r s (err e) t = IsQuiet s t

  updated :
      (r : Ref) (at : Time) (s : State env)
      → IsUpdated
          (s.heap r).id
          (s.heap r).version
          (save_changes (customer_from_domain (s.heap r)) at)
          (tables_of s)
          (update_where
            (s.heap r).id
            (s.heap r).version
            (save_changes (customer_from_domain (s.heap r)) at)
            (tables_of s))
  updated r at s = update_where-IsUpdated _ _ _ _

  saved-Saved :
      (r : Ref) (at : Time) (s t : State env) (reply : Result ℕ)
      → IsWithin (entries_of t) (entries_of s)
      → t.heap ≡ s.heap
      → IsUpdate
          (update_where
            (s.heap r).id
            (s.heap r).version
            (save_changes (customer_from_domain (s.heap r)) at)
            (tables_of s))
          (tables_of s)
          reply
          (tables_of t)
      → Saved r s (saved r reply t).0 (saved r reply t).1
  unfolding Cache.save
  saved-Saved r at s t (err e) h same u = record {
    read = record { tables = u; entries = h };
    heap = same;
  }
  saved-Saved r at s t (ok zero) h same u = record {
    read = record { tables = rw u at (updated r at s); entries = h };
    heap = same;
  }
  saved-Saved r at s t (ok (suc n)) h same u =
      let (row, there, version, changed) = rw u at (updated r at s) in
      let heap' : Ref → Customer = λ q. if r == q then bumped (t.heap r) else t.heap q in
      let c' : heap' r ≡ bumped (s.heap r) =
        if_self r _ _ ∙ ap (λ (g : Ref → Customer). bumped (g r)) same in
      record {
        row = row;
        at = at;
        there = there;
        same_version = version;
        tables = changed;
        object = c';
        entries = written_within (bumped (s.heap r)) (entries_of s) (entries_of t) _ h (
            subst
              (λ (c : Customer).
                IsStored c
                  (redis.entries
                    (redis.set (customer_key (heap' r).id) (customer_json (heap' r)) Cache.cache_ttl
                      t.store).1)
                  (entries_of t))
              c'
              (redis.set_writes (customer_key (heap' r).id) (customer_json (heap' r))
                Cache.cache_ttl t.store));
      }

  -- A save that reports success has written the row of the version that the object had, counted
  -- the version up in the row and in the object, and put at most that object into the cache; any
  -- other has written to no table and no object and put nothing new into the cache.
  pub save-Saved : (r : Ref) (s : State env) → Saved r s (save r s).0 (save r s).1
  unfolding save Cache.delete
  save-Saved r s =
      saved-Saved r _ s _ _ (redis.del_keeps (customer_key (s.heap r).id) s.store) refl
        (sql.update_customer_writes (s.heap r).id (s.heap r).version _ s.db)

  saved_failed :
      (r : Ref) (x : Result ℕ) (e : Error) (t : State env)
      → x ≡ err e
      → saved r x t ≡ (err (wrap "database error" e), t)
  saved_failed r x e t h = rw h refl

  -- What a save leaves whose UPDATE fails: the object as it was.
  pub save_failed :
      (r : Ref) (s : State env) (e : Error)
      → (sql.update_customer
          (s.heap r).id
          (s.heap r).version
          (save_changes (customer_from_domain (s.heap r)) (env.time_at s.times))
          s.db).0
        ≡ err e
      → ((save r s).0 ≡ err (wrap "database error" e))
        × (tables_of (save r s).1 ≡ tables_of s)
        × ((save r s).1.heap ≡ s.heap)
        × ((save r s).1.tasks ≡ s.tasks)
  unfolding save Cache.delete
  save_failed r s e h =
      let t =
        (sql.update_customer (s.heap r).id (s.heap r).version
          (save_changes (customer_from_domain (s.heap r)) (env.time_at s.times)) s.db).1 in
      let unchanged : sql.tables t ≡ tables_of s = rw h at (
        sql.update_customer_writes (s.heap r).id (s.heap r).version
          (save_changes (customer_from_domain (s.heap r)) (env.time_at s.times)) s.db) in
      let stopped = saved_failed r _ e _ h in
      (
        ap (λ (y : Result (Unit {0}) × State env). y.0) stopped,
        ap (λ (y : Result (Unit {0}) × State env). tables_of y.1) stopped ∙ unchanged,
        ap (λ (y : Result (Unit {0}) × State env). y.1.heap) stopped,
        ap (λ (y : Result (Unit {0}) × State env). y.1.tasks) stopped,
      )
