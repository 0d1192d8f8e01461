-- ===== src/Http/Router.antt =====
-- internal/interface/http/router/router.go: the routes, and the layers around them. What chi does is
-- a parameter: its layers, and how it finds the handler of a request.
pub mod Served
pub mod Posted
pub mod Books
pub mod Once
pub mod Exact
pub mod Totals
use Prim.Native.String.{◌++◌ as str_append}
use gigmile_test.Prelude.{
  ℕ, String, ◌≡◌, ◌⊎◌, Bool, false, ◌&&◌, Option, none, some, List, [], ◌∷◌, ◌++◌, map, str_eq,
  if◌then◌else◌,
}
use gigmile_test.Domain.Time.{Time}
use gigmile_test.Env.{Env}
use gigmile_test.World.{State}
use gigmile_test.Http.Handler as Handler
use gigmile_test.Http.Handler.{Reply}
use gigmile_test.Http.Middleware.{
  HttpRequest, json, WriterCall, write_header, write, Exchange, HttpHandler, logger, recovery,
}

pub data Endpoint : Type 0 where
  health_check process_payment get_customer_payments get_customer : Endpoint

pub record Route : Type 0 where
  pub method : String
  pub pattern : String
  pub endpoint : Endpoint

abbrev pub get : String → Endpoint → Route
get pattern e = record { method = "GET"; pattern = pattern; endpoint = e }

abbrev pub post : String → Endpoint → Route
post pattern e = record { method = "POST"; pattern = pattern; endpoint = e }

-- `r.Route(prefix, …)`
abbrev pub under : String → List Route → List Route
under prefix rs = map (λ (r : Route). record r { pattern = str_append prefix r.pattern }) rs

unfoldable pub routes : List Route
routes =
    get "/health" health_check
    ∷ under "/api/v1" (
        post "/payments" process_payment
        ∷ (get "/payments" get_customer_payments
            ∷ (get "/customers/{customer_id}" get_customer ∷ [])))

-- What chi finds for a request: a route's handler, with the parameters of the path, or none.
pub data Found : Type 0 where
  found : Endpoint → (String → String) → Found
  not_found : Found

-- The route of a method whose pattern is the path itself.
abbrev pub exact : String → String → List Route → Option Endpoint
exact method path [] = none
exact method path (r ∷ rs) =
    if str_eq r.method method && str_eq r.pattern path
    then some r.endpoint
    else exact method path rs

-- The packages chi and chi/middleware. A layer hands the request on; what is compressed counts as it
-- is read, and a request that is late has one call more on its writer.
pub record Chi (S : Type 0) : Type 0 where
  pub request_id : HttpHandler S → HttpHandler S
  pub request_id_passes :
      (next : HttpHandler S) (r : HttpRequest) (s : S) → request_id next r s ≡ next r s
  pub real_ip : HttpHandler S → HttpHandler S
  pub real_ip_passes :
      (next : HttpHandler S) (r : HttpRequest) (s : S) → real_ip next r s ≡ next r s
  pub compress : HttpHandler S → HttpHandler S
  pub compress_passes :
      (next : HttpHandler S) (r : HttpRequest) (s : S) → compress next r s ≡ next r s
  pub timeout : HttpHandler S → HttpHandler S
  pub timeout_passes :
      (next : HttpHandler S) (r : HttpRequest) (s : S)
      → (timeout next r s ≡ next r s)
        ⊎ (timeout next r s
            ≡ record (next r s) { calls = (next r s).calls ++ write_header 504 ∷ [] })
  pub dispatch : List Route → HttpRequest → Found
  pub dispatch_exact :
      (r : HttpRequest) (e : Endpoint)
      → exact r.method r.path routes ≡ some e
      → (params : String → String) × (dispatch routes r ≡ found e params)
  -- the calls of its handlers for a request without a route: a 404, or a 405
  pub unrouted : HttpRequest → List WriterCall

-- `respondJSON`
unfoldable pub calls_of : Reply → List WriterCall
calls_of reply = write_header reply.status ∷ (write (json reply.body) ∷ [])

module _ {env : Env} (format_time : Time → String) where
  unfoldable pub handle : Endpoint → (String → String) → HttpRequest → State env → Reply × State env
  handle health_check params r s = Handler.health_check s
  handle process_payment params r s = Handler.process_payment r.decoded s
  handle get_customer_payments params r s =
      Handler.get_customer_payments format_time (r.query "customer_id") (r.query "page")
        (r.query "page_size") s
  handle get_customer params r s = Handler.get_customer (params "customer_id") s

  module _ (chi : Chi (State env)) where
    abbrev pub exchange_of : List WriterCall → State env → Exchange (State env)
    exchange_of calls s = record { calls = calls; panicked = false; log = []; state = s }

    abbrev pub served : HttpRequest → State env → Found → Exchange (State env)
    served r s (found e params) =
        let (reply, t) = handle e params r s in exchange_of (calls_of reply) t
    served r s not_found = exchange_of (chi.unrouted r) s

    unfoldable pub route : HttpHandler (State env)
    route r s = served r s (chi.dispatch routes r)

    -- `NewRouter`
    unfoldable pub new_router : HttpHandler (State env)
    new_router = chi.request_id (chi.real_ip (recovery (logger (chi.compress (chi.timeout route)))))
