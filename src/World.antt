-- ===== src/World.antt =====
-- The state that the service's code runs on, and the actions over it. Customers are passed by
-- pointer, and goroutines keep such pointers: they are addresses in a heap.
pub mod Rules
use gigmile_test.Prelude.{ℕ, suc, ◌+◌, String, Bool, List, [], ◌∷◌, ◌++◌, ◌==◌, if◌then◌else◌}
use gigmile_test.Prelude.Int.{ℤ}
use gigmile_test.Domain.Time.{Time}
use gigmile_test.Domain.Errors.{Error}
use gigmile_test.Domain.Customer.{Customer}
use gigmile_test.Domain.Payment.{Payment}
use gigmile_test.Env.{Env}
use gigmile_test.Env.Database.{Sql}
use gigmile_test.Env.Store.{Redis}
use gigmile_test.Result.{Result, ok, err, wrap_error}

-- The address of a customer that `&domain.Customer{…}` made.
abbrev pub Ref : Type 0
Ref = ℕ

-- service.ProcessPaymentRequest
pub record Request : Type 0 where
  pub customer_id : String
  pub payment_status : String
  pub transaction_amount : ℤ
  pub transaction_date : Time
  pub transaction_reference : String

-- A goroutine that was started and has not run yet.
pub data Task : Type 0 where
  -- `go r.redisRepo.Save(context.Background(), customer)`
  cache_customer : Ref → Task
  -- `go r.redisRepo.Save(context.Background(), payment)`; nothing writes to the payment afterwards
  cache_payment : Payment → Task
  -- `go s.publishPaymentProcessedEvent(customer, req)`
  publish : Ref → Request → Task

module _ (env : Env) where
  open env use {sql, redis}

  pub record State : Type 0 where
    pub db : sql.Db
    pub store : redis.Store
    pub heap : Ref → Customer
    pub next_ref : Ref
    pub tasks : List Task
    -- how often the clock and the generator of UUIDs have been asked
    pub times : ℕ
    pub uuids : ℕ

-- A call returns a value or an error, and the state after it in both cases.
abbrev pub Action : Env → Type 0 → Type 0
Action env A = State env → Result A × State env

module _ {env : Env} {A : Type 0} where
  abbrev pub pure : A → Action env A
  pure a s = (ok a, s)

  abbrev pub raise : Error → Action env A
  raise e s = (err e, s)

  abbrev pub lift : Result A → Action env A
  lift r s = (r, s)

  -- the error as a value, for code that looks at it and goes on
  abbrev pub attempt : Action env A → Action env (Result A)
  attempt m s = let (r, s') = m s in (ok r, s')

  -- `if err != nil { return …, fmt.Errorf("text: %w", err) }`
  abbrev pub wrapping : String → Action env A → Action env A
  wrapping text m s = let (r, s') = m s in (wrap_error text r, s')

module _ {env : Env} {A B : Type 0} where
  abbrev pub continue : Result A → (A → Action env B) → Action env B
  continue (ok a) f s = f a s
  continue (err e) f s = (err e, s)

  infixl 5 ◌>>=◌ ◌>>◌
  abbrev pub ◌>>=◌ : Action env A → (A → Action env B) → Action env B
  ◌>>=◌ m f s = let (r, s') = m s in continue r f s'

  abbrev pub ◌>>◌ : Action env A → Action env B → Action env B
  m >> k = m >>= λ _. k

module _ {env : Env} where
  open env use {sql, redis, time_at, uuid_at}

  -- a statement of the database, a command of Redis
  abbrev pub on_db : {A : Type 0} → (sql.Db → Result A × sql.Db) → Action env A
  on_db op s = let (r, db) = op s.db in (r, record s { db = db })

  abbrev pub on_store : {A : Type 0} → (redis.Store → Result A × redis.Store) → Action env A
  on_store op s = let (r, store) = op s.store in (r, record s { store = store })

  abbrev pub alloc : Customer → Action env Ref
  alloc c s = (
    ok s.next_ref,
    record s { heap = λ r. if s.next_ref == r then c else s.heap r; next_ref = s.next_ref + 1 },
  )

  abbrev pub load : Ref → Action env Customer
  load r s = (ok (s.heap r), s)

  abbrev pub write : Ref → Customer → Action env (Unit {0})
  write r c s = (ok tt, record s { heap = λ q. if r == q then c else s.heap q })

  abbrev pub spawn : Task → Action env (Unit {0})
  spawn t s = (ok tt, record s { tasks = s.tasks ++ t ∷ [] })

  abbrev pub now : Action env Time
  now s = (ok (time_at s.times), record s { times = s.times + 1 })

  abbrev pub new_uuid : Action env String
  new_uuid s = (ok (uuid_at s.uuids), record s { uuids = s.uuids + 1 })
