-- ===== src/World/Rules.antt =====
-- How an action's outcome follows from those of its parts, and what calls that only read leave alone.
use gigmile_test.Prelude.{ℕ, List, String, ◌≡◌, refl, ap, ◌∙◌, ◌⊎◌, inl, inr, Option, none}
use gigmile_test.Domain.Errors.{Error, wrap}
use gigmile_test.Env.{Env}
use gigmile_test.Env.Database.{Tables}
use gigmile_test.Env.Store.{Value, Entries, IsWithin}
use gigmile_test.Result.{Result, ok, err, wrap_error}
use gigmile_test.World.{Action, State, Task, continue}

pub IsWithin-refl : (a : Entries) → IsWithin a a
IsWithin-refl a j = inr refl

within_trans :
    {x y z : Option Value} → (z ≡ none) ⊎ (z ≡ y) → (y ≡ none) ⊎ (y ≡ x) → (z ≡ none) ⊎ (z ≡ x)
within_trans (inl p) q = inl p
within_trans (inr p) (inl q) = inl (p ∙ q)
within_trans (inr p) (inr q) = inr (p ∙ q)

pub IsWithin-trans : (a b c : Entries) → IsWithin b a → IsWithin c b → IsWithin c a
IsWithin-trans a b c h k j = within_trans (k j) (h j)

-- An entry that is not there does not come back.
pub none_within : (k : String) (x y : Entries) → x k ≡ none → IsWithin y x → y k ≡ none
none_within k x y h within = elim (within k) [ inl gone ↦ gone | inr same ↦ same ∙ h ]

-- What a call may ensure of its result and of the state after it.
abbrev pub Post : Env → Type 0 → Type 1
Post env A = Result A → State env → Type 0

module _ {env : Env} {A B : Type 0} where
  -- The rest of a block, by how the call before it ended.
  pub continue_rule :
      (P : Post env A) (Q : Post env B) (r : Result A) (f : A → Action env B) (s : State env)
      → P r s
      → ((a : A) (t : State env) → P (ok a) t → Q (f a t).0 (f a t).1)
      → ((e : Error) (t : State env) → P (err e) t → Q (err e) t)
      → Q (continue r f s).0 (continue r f s).1
  continue_rule P Q (ok a) f s p on_ok on_err = on_ok a s p
  continue_rule P Q (err e) f s p on_ok on_err = on_err e s p

module _ {env : Env} {A : Type 0} where
  pub wrap_rule :
      (P Q : Post env A) (text : String) (r : Result A) (s : State env)
      → P r s
      → ((a : A) → P (ok a) s → Q (ok a) s)
      → ((e : Error) → P (err e) s → Q (err (wrap text e)) s)
      → Q (wrap_error text r) s
  wrap_rule P Q text (ok a) s p on_ok on_err = on_ok a p
  wrap_rule P Q text (err e) s p on_ok on_err = on_err e p

module _ {env : Env} where
  open env use {sql, redis}

  abbrev pub tables_of : State env → Tables
  tables_of s = sql.tables s.db

  abbrev pub entries_of : State env → Entries
  entries_of s = redis.entries s.store

  -- Nothing was written to a table, and nothing new came into the cache.
  pub record IsRead (s t : State env) : Type 0 where
    pub tables : tables_of t ≡ tables_of s
    pub entries : IsWithin (entries_of t) (entries_of s)

  pub IsRead-refl : (s : State env) → IsRead s s
  IsRead-refl s = record { tables = refl; entries = IsWithin-refl (entries_of s) }

  pub IsRead-trans : (s t u : State env) → IsRead s t → IsRead t u → IsRead s u
  IsRead-trans s t u h k = record {
    tables = k.tables ∙ h.tables;
    entries = IsWithin-trans (entries_of s) (entries_of t) (entries_of u) h.entries k.entries;
  }

  -- No object was written to either.
  pub record IsQuiet (s t : State env) : Type 0 where
    pub read : IsRead s t
    pub heap : t.heap ≡ s.heap

  pub IsQuiet-refl : (s : State env) → IsQuiet s s
  IsQuiet-refl s = record { read = IsRead-refl s; heap = refl }

  pub IsQuiet-trans : (s t u : State env) → IsQuiet s t → IsQuiet t u → IsQuiet s u
  IsQuiet-trans s t u h k = record {
    read = IsRead-trans s t u h.read k.read;
    heap = k.heap ∙ h.heap;
  }

  pub store-IsQuiet :
      (s : State env) (store : redis.Store)
      → IsWithin (redis.entries store) (entries_of s)
      → IsQuiet s (record s { store = store })
  store-IsQuiet s store h = record { read = record { tables = refl; entries = h }; heap = refl }

  pub db-IsQuiet :
      (s : State env) (db : sql.Db) → sql.tables db ≡ tables_of s → IsQuiet s (record s { db = db })
  db-IsQuiet s db h = record {
    read = record { tables = h; entries = IsWithin-refl (entries_of s) };
    heap = refl;
  }

  -- Neither the goroutines started nor the clock and the identifiers count.
  pub rest-IsQuiet :
      (s : State env) (tasks : List Task) (times uuids : ℕ)
      → IsQuiet s (record s { tasks = tasks; times = times; uuids = uuids })
  rest-IsQuiet s tasks times uuids = record {
    read = record { tables = refl; entries = IsWithin-refl (entries_of s) };
    heap = refl;
  }

  -- No row of a customer was written, and nothing new came into the cache.
  pub record IsKept (s t : State env) : Type 0 where
    pub customers : (tables_of t).customers ≡ (tables_of s).customers
    pub entries : IsWithin (entries_of t) (entries_of s)

  pub IsRead-IsKept : (s t : State env) → IsRead s t → IsKept s t
  IsRead-IsKept s t h = record {
    customers = ap (λ (x : Tables). x.customers) h.tables;
    entries = h.entries;
  }

  pub IsKept-trans : (s t u : State env) → IsKept s t → IsKept t u → IsKept s u
  IsKept-trans s t u h k = record {
    customers = k.customers ∙ h.customers;
    entries = IsWithin-trans (entries_of s) (entries_of t) (entries_of u) h.entries k.entries;
  }
