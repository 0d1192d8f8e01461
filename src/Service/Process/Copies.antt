-- ===== src/Service/Process/Copies.antt =====
-- After a save the cache is coherent again, with the saved object in it.
use mathlib.Core.Path.{subst}
use gigmile_test.Prelude.{String, ◌≡◌, ap, ◌∙◌, sym, inl, inr, some}
use gigmile_test.Prelude.Int.{pos, add64}
use gigmile_test.Domain.Customer.{Customer}
use gigmile_test.Persistence.{CustomerModel, customer_to_domain}
use gigmile_test.Env.{Env}
use gigmile_test.Env.Database.{Tables, put_customer}
use gigmile_test.Env.Store.{Json, text, customer_json, unmarshal_customer}
use gigmile_test.World.{State, Ref, Request}
use gigmile_test.World.Rules.{IsRead, tables_of, entries_of}
use gigmile_test.Cache.Keys.{customer_key, customer_key-injective}
use gigmile_test.Mysql.Customers.Save.{IsSaved, bumped}
use gigmile_test.Service.Coherence.{Rows, Agrees, IsCoherent}
use gigmile_test.Service.Coherence.Update.{written_row, old-Agrees, new-Agrees}
use gigmile_test.Service.Process.Apply.{HasRooms, IsCharged, IsReady, saved-IsCharged}

module _ {env : Env} where
  -- what a coherent state becomes when a row is charged and a copy of the new row is cached
  module _ (req : Request) (s t u : State env) (d : Customer) (coherent : IsCoherent s)
      (read : IsRead s t) (c : IsCharged req (tables_of s) (tables_of u) d)
      (rooms : HasRooms (tables_of s)) where
    rows' : (tables_of u).customers ≡ put_customer req.customer_id c.row' (tables_of s).customers
    rows' = ap (λ (x : Tables). x.customers) c.tables

    counted : c.row'.version ≡ add64 c.row.version (pos 1)
    unfolding customer_to_domain
    counted = ap (λ (x : Customer). x.version) c.charged

    same_id : c.row'.id ≡ req.customer_id
    unfolding customer_to_domain
    same_id = ap (λ (x : Customer). x.id) c.charged ∙ coherent.keyed req.customer_id c.row c.there

    keyed : (id : String) (m : CustomerModel) → (tables_of u).customers id ≡ some m → m.id ≡ id
    keyed id m h =
        elim (written_row (tables_of s).customers req.customer_id c.row c.row' c.there counted id m
          (subst (λ (rows : Rows). rows id ≡ some m) rows' h)) [
            | inl (e, new) ↦ rw new (same_id ∙ e)
            | inr old ↦ coherent.keyed id m old
          ]

    old_copy :
        (id : String) (j : Json)
        → entries_of t (customer_key id) ≡ some (text j)
        → Agrees id (tables_of u).customers (unmarshal_customer j)
    old_copy id j there = rw rows' (
        old-Agrees (tables_of s).customers req.customer_id c.row c.row' c.there counted id
          (unmarshal_customer j) (rooms req.customer_id c.row c.there)
          (coherent.cache id j (elim (read.entries (customer_key id)) [
            | inl gone ↦ cc
            | inr kept ↦ sym kept ∙ there
          ])))

    new_copy :
        (id : String) (copy : Customer)
        → copy ≡ d
        → copy.id ≡ id
        → Agrees id (tables_of u).customers copy
    unfolding customer_to_domain
    new_copy id copy e same = rw rows' (
        new-Agrees (tables_of s).customers req.customer_id c.row c.row' c.there counted id copy
          (sym same_id ∙ sym (ap (λ (x : Customer). x.id) (e ∙ c.answered)) ∙ same) same
          (ap (λ (x : Customer). x.version) (e ∙ c.answered)) (sym (e ∙ c.answered)))

  pub saved-IsCoherent :
      (req : Request) (r : Ref) (s t u : State env)
      → IsCoherent s
      → IsRead s t
      → IsReady req (tables_of s).customers (t.heap r)
      → IsSaved (t.heap r) r t u
      → HasRooms (tables_of s)
      → IsCoherent u
  unfolding unmarshal_customer
  saved-IsCoherent req r s t u coherent h ready saved rooms = record {
    keyed = keyed req s t u (u.heap r) coherent h c rooms;
    cache = λ id j there. elim (saved.entries (customer_key id)) [
      | inl gone ↦ cc
      | inr (inl kept) ↦ old_copy req s t u (u.heap r) coherent h c rooms id j (sym kept ∙ there)
      | inr (inr (key, new)) ↦
          let e : j ≡ customer_json (bumped (t.heap r)) = cc in
          rw e (
            new_copy req s t u (u.heap r) coherent h c rooms id (bumped (t.heap r))
              (sym saved.object) (customer_key-injective (t.heap r).id id key))
    ];
  }
    where
      c : IsCharged req (tables_of s) (tables_of u) (u.heap r)
      c = saved-IsCharged req r s t u h ready saved
