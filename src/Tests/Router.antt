-- ===== src/Tests/Router.antt =====
-- The router on a database and a cache in memory, with layers that only hand requests on.
use gigmile_test.Prelude.{
  ◌++◌, true, inr, ◌≡◌, refl, ap, ◌∙◌, sym, inl, String, Option, none, some, false, List, [], ◌∷◌,
  arith,
}
use gigmile_test.Prelude.Int.{◌-ℤ◌}
use gigmile_test.Domain.Time.{Time}
use gigmile_test.Float64.{Float64}
use gigmile_test.Persistence.{customer_to_domain}
use gigmile_test.Domain.Errors.{redis_nil}
use gigmile_test.Result.{ok, err}
use gigmile_test.World.{State, Request}
use gigmile_test.World.Rules.{tables_of}
use gigmile_test.Memory.{memory, memory-IsUp}
use gigmile_test.Service.Coherence.{IsCoherent}
use gigmile_test.Service.Books.Kept.{Keeps}
use gigmile_test.Http.Dto.{PaymentRequest, kobo}
use gigmile_test.Http.Handler.{service_request}
use gigmile_test.Http.Handler.Webhook.{StandsFor}
use gigmile_test.Http.Middleware.{
  HttpRequest, HttpHandler, write_header, processed, recovered, logger, recovery,
}
use gigmile_test.Http.Middleware.Answered.{sent_status}
use gigmile_test.Http.Router.{
  Endpoint, process_payment, Found, found, not_found, Route, routes, exact, Chi, handle, new_router,
  route, calls_of,
}
use gigmile_test.Http.Router.Served.{IsServed, new_router-IsServed}
use gigmile_test.Http.Router.Posted.{IsPosted, new_router-IsPosted}
use gigmile_test.Http.Router.Books.{ArePosted, IsInOrder, serve_all, serve_all-IsInOrder}
use gigmile_test.Http.Router.Totals.{serve_all-Totalled}
use gigmile_test.Mysql.Payments.{get_total_paid_by_customer}
use gigmile_test.Service.Ledger.{Totalled}
use gigmile_test.Http.Router.Once.{repeated_writes_nothing}
use gigmile_test.Tests.Fixtures.{row, start, the_row, start-IsCoherent}
use gigmile_test.Tests.Http.{body, request, body-StandsFor, request-IsDue, a_time}
use gigmile_test.Tests.Ledger.{paid, paid-IsLedger, start-IsLedger, the_paid_row}

abbrev pub found_or_not : Option Endpoint → Found
found_or_not none = not_found
found_or_not (some e) = found e (λ _. "")

abbrev pub find : List Route → HttpRequest → Found
find rs r = found_or_not (exact r.method r.path rs)

pub finds :
    (r : HttpRequest) (e : Endpoint)
    → exact r.method r.path routes ≡ some e
    → (params : String → String) × (find routes r ≡ found e params)
finds r e h = (λ _. "", ap found_or_not h)

abbrev pub plain : Chi (State memory)
plain = record {
  request_id = λ next. next;
  request_id_passes = λ next r s. refl;
  real_ip = λ next. next;
  real_ip_passes = λ next r s. refl;
  compress = λ next. next;
  compress_passes = λ next r s. refl;
  timeout = λ next. next;
  timeout_passes = λ next r s. inl refl;
  dispatch = find;
  dispatch_exact = finds;
  unrouted = λ r. [];
}

abbrev pub post : HttpRequest
post = record { method = "POST"; path = "/api/v1/payments"; query = λ name. ""; decoded = ok body }

new_router-IsServed_example :
    IsServed post
      (handle a_time process_payment (λ _. "") post start).0
      (handle a_time process_payment (λ _. "") post start).1
      (new_router a_time plain post start)
unfolding routes
new_router-IsServed_example =
    new_router-IsServed a_time plain post start process_payment (λ _. "") refl

new_router-IsPosted_example : IsPosted request start (new_router a_time plain post start)
new_router-IsPosted_example =
    new_router-IsPosted a_time plain post body request row start
      (record { method = refl; path = refl; given = refl }) body-StandsFor memory-IsUp
      (start-IsCoherent false) request-IsDue refl

pub start-Keeps : Keeps 1000000 1 (tables_of start)
unfolding customer_to_domain ◌-ℤ◌
start-Keeps = record {
  booked = record {
    sound = λ id m there. let (_, same) = the_row id m there in rw same (ground arith);
    ledger = start-IsLedger;
    distinct = tt;
  };
  budget = λ id m there. let (_, same) = the_row id m there in rw same (omega arith);
}

pub start-IsInOrder : IsInOrder 1000000 1 start
start-IsInOrder = record { coherent = start-IsCoherent false; keeps = start-Keeps }

-- A body stands for one request.
pub one_request : (b : PaymentRequest) (r q : Request) → StandsFor b r → StandsFor b q → r ≡ q
one_request b r q h k =
    let number : h.number ≡ k.number = cc (h.amount_read, k.amount_read) in
    let date : h.date ≡ k.date = cc (h.date_read, k.date_read) in
    h.request
    ∙ ap (λ (n : Float64). service_request b (kobo n) h.date) number
    ∙ ap (λ (d : Time). service_request b (kobo k.number) d) date
    ∙ sym k.request

pub post-ArePosted : ArePosted 1000000 post
post-ArePosted body' req given stands =
    let same : body ≡ body' = cc in
    let stands' : StandsFor body req = rw same stands in
    rw (one_request body req request stands' body-StandsFor) (omega arith, omega arith)

serve_all-IsInOrder_example : IsInOrder 1000000 0 (serve_all a_time plain (post ∷ []) start)
serve_all-IsInOrder_example =
    serve_all-IsInOrder a_time plain 1000000 (post ∷ []) start (post-ArePosted, tt) start-IsInOrder

serve_all-Totalled_example :
    let t = serve_all a_time plain (post ∷ []) start in
    Totalled "GIG00001" t
      (get_total_paid_by_customer "GIG00001" t).0
      (get_total_paid_by_customer "GIG00001" t).1
serve_all-Totalled_example =
    serve_all-Totalled a_time plain 1000000 (post ∷ []) start "GIG00001" (post-ArePosted, tt)
      start-IsInOrder

paid-Keeps : Keeps 1000000 1 (tables_of paid)
unfolding customer_to_domain ◌-ℤ◌
paid-Keeps = record {
  booked = record {
    sound = λ id m there. let (_, same) = the_paid_row id m there in rw same (ground arith);
    ledger = paid-IsLedger;
    distinct = (refl, tt);
  };
  budget = λ id m there. let (_, same) = the_paid_row id m there in rw same (omega arith);
}

paid-IsCoherent : IsCoherent paid
paid-IsCoherent = record {
  keyed = λ id m there. let (here, same) = the_paid_row id m there in rw same here;
  cache = λ id j there. absurd (cc);
}

repeated_writes_nothing_example :
    let t = serve_all a_time plain (post ∷ []) paid in
    tables_of (new_router a_time plain post t).state ≡ tables_of t
repeated_writes_nothing_example =
    repeated_writes_nothing a_time plain 1000000 (post ∷ []) paid body post (post-ArePosted, tt)
      (record { coherent = paid-IsCoherent; keeps = paid-Keeps }) (λ e. cc e) refl

-- A request that is answered after its deadline: the client is sent a 200, the log says 504.
abbrev late : Chi (State memory)
late = record plain {
  timeout = λ next r s. record (next r s) { calls = (next r s).calls ++ write_header 504 ∷ [] };
  timeout_passes = λ next r s. inr refl;
}

abbrev health : HttpRequest
health = record { method = "GET"; path = "/health"; query = λ name. ""; decoded = err redis_nil }

late_status :
    (sent_status (new_router a_time late health start).calls ≡ 200)
    × ((new_router a_time late health start).log ≡ processed "GET" "/health" 504 ∷ [])
unfolding new_router routes route handle calls_of logger recovery
late_status = (refl, refl)

-- A path that is in no route.
no_route : (new_router a_time plain (record health { path = "/api/v1/health" }) start).calls ≡ []
unfolding new_router routes route logger recovery
no_route = refl

-- A handler that panics before it writes: the client is sent a 500, and the log has the panic alone.
abbrev panicking : HttpHandler (State memory)
panicking r s = record { calls = []; panicked = true; log = []; state = s }

panic_answered :
    (sent_status (recovery (logger panicking) post start).calls ≡ 500)
    × ((recovery (logger panicking) post start).log ≡ recovered "/api/v1/payments" ∷ [])
unfolding recovery logger
panic_answered = (refl, refl)
