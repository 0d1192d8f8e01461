-- ===== src/Scripts/Seed/Coherent.antt =====
-- What the seeds in Redis mean for the service.
use mathlib.Core.Path.{subst}
use gigmile_test.Prelude.{◌≡◌, refl, sym, ◌∙◌, ◌⊎◌, inl, inr, some, String, List, [], ◌∷◌, arith}
use gigmile_test.Prelude.Int.{ℤ, pos, ◌<ℤ◌}
use gigmile_test.Domain.Customer.{Customer, new_customer}
use gigmile_test.Domain.Time.{Time}
use gigmile_test.Env.{Env}
use gigmile_test.Env.Store.{customer_json}
use gigmile_test.Persistence.{CustomerModel, customer_to_domain}
use gigmile_test.Result.{Result, ok, err}
use gigmile_test.World.{Action, State, continue, on_store}
use gigmile_test.World.Rules.{tables_of, entries_of}
use gigmile_test.Cache.Keys.{customer_key}
use gigmile_test.Service.Coherence.{Rows, Agrees, IsCoherent}
use gigmile_test.Service.Goroutines.Fills.{
  IsFilled, IsFilled-trans, store-IsFilled, customer-Harmless,
}
use gigmile_test.Scripts.Seed.{SeedCustomer, customers, seed_customer, seed_customers, seed_redis}

-- A row under the identifier of a seed is newer than the seed, or is the seed.
abbrev pub IsSeedable : Time → Rows → SeedCustomer → Type 0
IsSeedable date rows c =
    (m : CustomerModel) (d : Customer)
    → rows c.id ≡ some m
    → new_customer c.id c.asset_value c.term_weeks date ≡ ok d
    → (pos 1 <ℤ m.version) ⊎ (customer_to_domain m ≡ d)

abbrev pub All : (SeedCustomer → Type 0) → List SeedCustomer → Type 0
All P [] = Unit {0}
All P (c ∷ cs) = P c × All P cs

-- A new customer has the identifier given and version 1.
new_customer-fields :
    (id : String) (value weeks : ℤ) (date : Time) (d : Customer)
    → new_customer id value weeks date ≡ ok d
    → (d.id ≡ id) × (d.version ≡ pos 1)
unfolding new_customer
new_customer-fields id value weeks date d h = ground arith

lt_irrefl : ¬ (pos 1 <ℤ pos 1)
lt_irrefl h = omega arith

seed-Agrees :
    (date : Time) (rows : Rows) (c : SeedCustomer) (d : Customer)
    → IsSeedable date rows c
    → new_customer c.id c.asset_value c.term_weeks date ≡ ok d
    → Agrees c.id rows d
unfolding customer_to_domain
seed-Agrees date rows c d seedable made =
    let (id, version) = new_customer-fields c.id c.asset_value c.term_weeks date d made in
    record {
      same_id = id;
      not_newer = λ m there. elim (seedable m d there made) [
        | inl newer ↦ rw version (omega arith)
        | inr same ↦ rw (← same) (omega arith)
      ];
      same = λ m there v. elim (seedable m d there made) [
        | inl newer ↦ absurd (lt_irrefl (subst (λ (x : ℤ). pos 1 <ℤ x) (v ∙ version) newer))
        | inr same ↦ same
      ];
    }

continue-IsFilled :
    {env : Env} {A B : Type 0} (s : State env) (r : Result A) (f : A → Action env B) (t : State env)
    → IsFilled s t
    → ((a : A) → r ≡ ok a → IsFilled t (f a t).1)
    → IsFilled s (continue r f t).1
continue-IsFilled s (ok a) f t h rest = IsFilled-trans s t _ h (rest a refl)
continue-IsFilled s (err e) f t h rest = h

module _ {env : Env} where
  open env use {redis}

  unchanged : (s : State env) → IsFilled s s
  unchanged s = record { tables = refl; heap = refl; tasks = refl; coherent = λ h. h }

  stored-IsFilled :
      (date : Time) (c : SeedCustomer) (d : Customer) (s : State env)
      → IsSeedable date (tables_of s).customers c
      → new_customer c.id c.asset_value c.term_weeks date ≡ ok d
      → IsFilled s (on_store (redis.set (customer_key c.id) (customer_json d) 0) s).1
  stored-IsFilled date c d s seedable made =
      let (same, _) = new_customer-fields c.id c.asset_value c.term_weeks date d made in
      let agrees = seed-Agrees date (tables_of s).customers c d seedable made in
      store-IsFilled s _ (λ id.
        customer-Harmless (tables_of s).customers d (entries_of s)
          (redis.entries (redis.set (customer_key c.id) (customer_json d) 0 s.store).1) id
          (subst (λ (i : String). Agrees i (tables_of s).customers d) (sym same) agrees)
          (simp same (redis.set_writes (customer_key c.id) (customer_json d) 0 s.store)))

  seed_customer-IsFilled :
      (date : Time) (c : SeedCustomer) (s : State env)
      → IsSeedable date (tables_of s).customers c
      → IsFilled s (seed_customer date c s).1
  unfolding seed_customer customer_key
  seed_customer-IsFilled date c s seedable =
      continue-IsFilled s (new_customer c.id c.asset_value c.term_weeks date)
        (λ d. on_store (redis.set (customer_key c.id) (customer_json d) 0)) s (unchanged s)
        (λ d made. stored-IsFilled date c d s seedable made)

  seed_customers-IsFilled :
      (date : Time) (cs : List SeedCustomer) (s : State env)
      → All (IsSeedable date (tables_of s).customers) cs
      → IsFilled s (seed_customers date cs s).1
  unfolding seed_customers
  seed_customers-IsFilled date [] s seedable = unchanged s
  seed_customers-IsFilled date (c ∷ cs) s seedable =
      let first = seed_customer-IsFilled date c s seedable.0 in
      continue-IsFilled s (seed_customer date c s).0 (λ _. seed_customers date cs)
        (seed_customer date c s).1 first
        (λ _ _.
          seed_customers-IsFilled date cs (seed_customer date c s).1 (rw first.tables seedable.1))

  -- The script that seeds Redis writes to no table and leaves a coherent cache coherent, whatever
  -- fails on the way, where each row under the identifier of a seed is newer than version 1 or is
  -- the seeded customer.
  pub seed_redis-IsCoherent :
      (date : Time) (s : State env)
      → IsCoherent s
      → All (IsSeedable date (tables_of s).customers) customers
      → IsCoherent (seed_redis date s).1 × (tables_of (seed_redis date s).1 ≡ tables_of s)
  unfolding seed_redis
  seed_redis-IsCoherent date s h seedable =
      let filled = seed_customers-IsFilled date customers s seedable in
      (filled.coherent h, filled.tables)
