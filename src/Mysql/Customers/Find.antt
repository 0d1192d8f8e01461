-- ===== src/Mysql/Customers/Find.antt =====
-- A lookup writes nothing, and its customer is the cache's or the table's.
use gigmile_test.Prelude.{
  String, ◌≡◌, refl, ◌∙◌, some, ◌+◌, [], ◌∷◌, ◌++◌, ◌==◌, if_self, if◌then◌else◌,
}
use gigmile_test.Domain.Errors.{Error}
use gigmile_test.Domain.Customer.{Customer}
use gigmile_test.Persistence.{CustomerModel, customer_to_domain}
use gigmile_test.Env.{Env}
use gigmile_test.Env.Database.{Tables, IsFirst}
use gigmile_test.Env.Store.{Json, Entries, text, unmarshal_customer, IsGot}
use gigmile_test.Result.{Result, ok, err}
use gigmile_test.World.{State, Ref, cache_customer}
use gigmile_test.World.Rules.{Post, IsRead, store-IsQuiet, tables_of, entries_of}
use gigmile_test.Cache.Keys.{customer_key}
use gigmile_test.Cache.Customers as Cache
use gigmile_test.Mysql.Customers.{found, or_query, find_by_id}

-- Where the customer of a lookup comes from: an entry of the cache, or the row.
pub data IsOrigin (id : String) (entries : Entries) (t : Tables) (c : Customer) : Type 0 where
  cached :
      (j : Json)
      → entries (customer_key id) ≡ some (text j)
      → c ≡ unmarshal_customer j
      → IsOrigin id entries t c
  stored :
      (m : CustomerModel)
      → t.customers id ≡ some m
      → c ≡ customer_to_domain m
      → IsOrigin id entries t c

module _ {env : Env} where
  open env use {sql, redis}

  abbrev pub Found : String → State env → Post env Ref
  Found id s (ok r) t = IsRead s t × IsOrigin id (entries_of s) (tables_of s) (t.heap r)
  Found id s (err e) t = IsRead s t

  cached-Found :
      (id : String) (s t : State env) (r : Result Json)
      → IsRead s t
      → IsGot (entries_of s (customer_key id)) r
      → Found id s (Cache.cached r t).0 (Cache.cached r t).1
  cached-Found id s t (ok j) h got = (
    record { tables = h.tables; entries = h.entries },
    cached j got (if_self t.next_ref (unmarshal_customer j) (t.heap t.next_ref)),
  )
  cached-Found id s t (err e) h got = h

  pub cache_find-Found :
      (id : String) (s : State env) → Found id s (Cache.find_by_id id s).0 (Cache.find_by_id id s).1
  unfolding Cache.find_by_id
  cache_find-Found id s =
      cached-Found id s _ _ (store-IsQuiet s _ (redis.get_keeps (customer_key id) s.store)).read
        (redis.get_gets (customer_key id) s.store)

  found-Found :
      (id : String) (s t : State env) (r : Result CustomerModel)
      → IsRead s t
      → IsFirst ((tables_of s).customers id) r
      → Found id s (found r t).0 (found r t).1
  found-Found id s t (ok m) h first = (
    record { tables = h.tables; entries = h.entries },
    stored m first (if_self t.next_ref (customer_to_domain m) (t.heap t.next_ref)),
  )
  found-Found id s t (err e) h first = h

  or_query-Found :
      (id : String) (s t : State env) (r : Result Ref)
      → Found id s r t
      → Found id s (or_query id r t).0 (or_query id r t).1
  or_query-Found id s t (ok r) h = h
  or_query-Found id s t (err e) h =
      found-Found id s _ _
        (record { tables = sql.first_customer_reads id t.db ∙ h.tables; entries = h.entries })
        (rw (← h.tables) (sql.first_customer_finds id t.db))

  -- A lookup of a customer writes to no table and puts nothing new into the cache, and the
  -- customer that it finds is the one of a cache entry under its key, or of its row.
  pub find_by_id-Found :
      (id : String) (s : State env) → Found id s (find_by_id id s).0 (find_by_id id s).1
  unfolding find_by_id
  find_by_id-Found id s = or_query-Found id s _ _ (cache_find-Found id s)

  -- What a lookup leaves that the cache misses and the table answers: a new object, and a goroutine
  -- that holds it.
  abbrev pub missed : Ref → String → CustomerModel → State env → State env
  missed r id m s = record s {
    db = (sql.first_customer id s.db).1;
    store = (redis.get (customer_key id) s.store).1;
    heap = λ q. if r == q then customer_to_domain m else s.heap q;
    next_ref = r + 1;
    tasks = s.tasks ++ cache_customer r ∷ [];
  }

  pub find_by_id-missed :
      (id : String) (s : State env) (e : Error) (m : CustomerModel)
      → (redis.get (customer_key id) s.store).0 ≡ err e
      → (sql.first_customer id s.db).0 ≡ ok m
      → find_by_id id s ≡ (ok s.next_ref, missed s.next_ref id m s)
  unfolding find_by_id Cache.find_by_id
  find_by_id-missed id s e m a b = rw (a, or_query) (rw (b, found) refl)
