-- ===== src/Lib.antt =====
-- The GigMile payment service: a notification of a payment moves the balance of a customer who buys
-- an asset in instalments.
--
-- The program. A handler (internal/interface/http/handler/payment_handler.go) decodes and validates a
-- body and hands the payment to `ProcessPayment` (internal/application/service/payment_service.go),
-- which answers a payment that is not complete at once, looks for a payment with the same reference,
-- charges the customer (FindByID, ApplyPayment, Save, and once more after a version conflict), saves
-- the payment, and starts a goroutine that publishes an event. The repositories under
-- internal/infrastructure/repository/mysql keep customers and payments in MySQL and cache both in
-- Redis, through those under internal/infrastructure/repository/redis; a lookup that misses the cache
-- starts a goroutine that fills it. The events go to a stream of Redis, and a worker
-- (cmd/worker/main.go) reads them from there and tells the customers.
--
-- The files.
--   Domain: internal/domain/customer.go and payment.go. `apply_payment` is ApplyPayment and so on;
--     the names are the source's. Domain/Errors: the error variables, and the comparisons with them.
--     Domain/Customer/Balance: the account.
--   Persistence: internal/infrastructure/persistence/models.go.
--   Env: what the service calls and does not implement. Env/Database: the statements that gorm sends
--     to MySQL, over the two tables. Env/Columns: what the columns hold. Env/Store: the commands of
--     Redis, over its entries.
--   World: the state (database, Redis, heap, goroutines started, how often the clock and the
--     generator of UUIDs were asked) and actions on it. A call returns a value or an error, and the
--     state in both cases. World/Rules: reasoning about actions.
--   Cache: internal/infrastructure/repository/redis; Cache/UpdateBalance: its Lua script.
--   Mysql: internal/infrastructure/repository/mysql. Mysql/Duplicate: isDuplicateError. Mysql/Up: what
--     a database in order promises beyond Env/Database.
--   Service/Process: ProcessPayment, cut into the parts between which other requests may come in.
--     Service/Coherence: what the cache and the rows have to do with each other.
--     Service/Goroutines: the goroutines that fill the cache, as steps.
--     Service/Queries: GetCustomer, GetCustomerPayments and GetCustomerPaymentsPaginated.
--     Service/Announce: publishPaymentProcessedEvent. Service/Ledger: the rows and the payments.
--     Service/Books: the accounts, the payments and the references together. Service/Exact: what is
--     charged and what is recorded, with a database in order.
--   Events: internal/domain/events.go, internal/infrastructure/messaging, the notification service
--     (internal/application/service/notification_service.go) and cmd/worker/main.go.
--     Events/Streams: streams of Redis and their consumer groups, as an interface.
--   Http: internal/interface/http/dto/payment_dto.go and internal/interface/http/handler;
--     Http/Middleware: internal/interface/http/middleware; Http/Router: internal/interface/http/router,
--     and what becomes of requests that are served one after the other.
--   Scripts: scripts/seed.go and scripts/seed_mysql.go.
--   Config: internal/config/config.go.
--   Stdlib: what the code uses of Go's strconv.Atoi, strconv.ParseFloat and time.Parse (the layout
--     `2006-01-02 15:04:05`), on the codes of a text.
--   Float64: Go's float64. Memory: a database, a cache and streams that keep the promises of Env and
--     Events/Streams.
--   Prelude: shared names; Prelude/Int: int64 with its wrap-around. Tests: runs and instances.
--
-- How the model stands to the code. Customers are passed by pointer, so they are addresses in a heap,
-- and `apply_at` and `save` write to the object. A struct is a record and a status is a text, since
-- any text may come from a table. `time.Time` is a number of nanoseconds. `err == x` compares
-- constructors and `errors.Is` looks through wrapped errors. Logging is left out, but for
-- the log of requests, and so are contexts: a call that runs out of time is one that fails. A call of
-- MySQL or Redis may fail at any time.
--
-- What is assumed of what is not in the repository. A statement that fails leaves the tables as they
-- were; SELECT, UPDATE … WHERE id = ? AND version = ?, INSERT under the unique index on the reference,
-- COUNT, ORDER BY, LIMIT and OFFSET do
-- what they say. An entry of Redis may vanish at any time, and a write that reports
-- an error may have been carried out. `json.Unmarshal` undoes `json.Marshal` for both entities. The
-- platform has 64-bit ints.
--
-- The schema (migrations/001_create_tables.sql) limits what a row holds and compares texts without
-- regard to case. Where a theorem needs a statement to be carried out, it asks for what the columns
-- hold (Env/Columns): identifiers and references of digits and capital letters, at most 50 and 100
-- of them, and a date of a TIMESTAMP. Elsewhere texts are compared as they are, which agrees with the
-- collation on such texts, and instants are stored as they are, which holds for whole seconds; a row
-- that is created, and those of the scripts, may have their instants rounded. Identifiers that are
-- drawn and instants of the clock are taken to fit their columns.
--
-- Lua's numbers are floats that cjson writes with 14 digits: a parameter that is exact on whole numbers
-- of at most 14 digits. EVAL runs a script at once, and a reply may get lost.
--
-- Bounds and fuel. Int64 arithmetic wraps around; a theorem that needs no overflow says so. The
-- rounding of Float64 halves a quotient at most 2098 times, which is more than any finite result
-- needs. `index_from` counts the rounds of indexOf's loop, which are known when it starts.
--
-- Requests and messages. A decoded body, or the error of the decoder, is an argument of the handler,
-- as are the parameters of the path and the query; what is encoded as JSON is a value. How an instant
-- is written is a parameter, since it depends on the time zone of the server. The texts of errors of
-- the standard library are cut short. A text of an event is what `json.Unmarshal` makes of it. The
-- worker runs a number of rounds, each over the event types in an order that is an argument, as Go's
-- range over a map has none; a message that the notification service only logs counts as sent.
--
-- The router. A handler is what it calls on its http.ResponseWriter, in order, and whether it panics.
-- chi and its own layers are parameters: they hand a request on, a request that is late has one call
-- of WriteHeader more, and a path that is written in the table of routes finds its handler. The status
-- that is sent is that of the first call, as in net/http.
--
-- Not modelled: the entry point of the server, which wires the parts and starts and stops the HTTP
-- server; the connections of the scripts, and what they print.
pub mod Prelude
pub mod Float64
pub mod Stdlib
pub mod Result
pub mod Domain
pub mod Persistence
pub mod Env
pub mod World
pub mod Memory
pub mod Cache
pub mod Mysql
pub mod Service
pub mod Http
pub mod Config
pub mod Events
pub mod Scripts
mod Tests
