-- ===== src/Service/Coherence.antt =====
-- When the cache may be trusted: a cached customer of the row's version is the row.
pub mod Update
use gigmile_test.Prelude.{String, ◌≡◌, refl, ap, Option, ◌∙◌, sym, ◌⊎◌, inl, inr, some, none, arith}
use gigmile_test.Prelude.Int.{◌≤ℤ◌}
use gigmile_test.Domain.Customer.{Customer}
use gigmile_test.Persistence.{CustomerModel, customer_to_domain}
use gigmile_test.Env.{Env}
use gigmile_test.Env.Database.{Tables}
use gigmile_test.Env.Store.{Json, IsWithin, Value, text, unmarshal_customer}
use gigmile_test.World.{State}
use gigmile_test.World.Rules.{IsRead, tables_of, entries_of}
use gigmile_test.Cache.Keys.{customer_key}
use gigmile_test.Mysql.Customers.Find.{IsOrigin, cached, stored}

abbrev pub Rows : Type 0
Rows = String → Option CustomerModel

-- A copy of the customer `id`: not newer than the row, and equal to it at the row's version.
pub record Agrees (id : String) (rows : Rows) (c : Customer) : Type 0 where
  pub same_id : c.id ≡ id
  pub not_newer : (m : CustomerModel) → rows id ≡ some m → c.version ≤ℤ m.version
  pub same :
      (m : CustomerModel) → rows id ≡ some m → m.version ≡ c.version → customer_to_domain m ≡ c

module _ {env : Env} where
  pub record IsCoherent (s : State env) : Type 0 where
    pub keyed : (id : String) (m : CustomerModel) → (tables_of s).customers id ≡ some m → m.id ≡ id
    pub cache :
        (id : String) (j : Json)
        → entries_of s (customer_key id) ≡ some (text j)
        → Agrees id (tables_of s).customers (unmarshal_customer j)

  same_row :
      (id : String) (s : State env) (m n : CustomerModel)
      → (tables_of s).customers id ≡ some m
      → (tables_of s).customers id ≡ some n
      → n ≡ m
  same_row id s m n h k = cc

  pub origin-Agrees :
      (id : String) (s : State env) (c : Customer)
      → IsCoherent s
      → IsOrigin id (entries_of s) (tables_of s) c
      → Agrees id (tables_of s).customers c
  unfolding customer_to_domain
  origin-Agrees id s c h (cached j there e) = rw e (h.cache id j there)
  origin-Agrees id s c h (stored m there e) = record {
    same_id = rw e (h.keyed id m there);
    not_newer = λ n there'. rw (e, same_row id s m n there there') (omega arith);
    same = λ n there' _. rw (e, same_row id s m n there there') refl;
  }

  -- What changes no row of a customer and brings nothing new into the cache keeps it coherent.
  pub kept-IsCoherent :
      (s t : State env)
      → (tables_of t).customers ≡ (tables_of s).customers
      → IsWithin (entries_of t) (entries_of s)
      → IsCoherent s
      → IsCoherent t
  kept-IsCoherent s t same within h = record {
    keyed = rw same h.keyed;
    cache = λ id j there. rw same (
        h.cache id j
          (elim (within (customer_key id)) [ inl gone ↦ cc | inr kept ↦ sym kept ∙ there ]));
  }

  pub IsRead-IsCoherent : (s t : State env) → IsRead s t → IsCoherent s → IsCoherent t
  IsRead-IsCoherent s t r h =
      kept-IsCoherent s t (ap (λ (x : Tables). x.customers) r.tables) r.entries h
