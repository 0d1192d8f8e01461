-- ===== src/Http/Router/Posted.antt =====
-- A payment that is posted to the server.
use gigmile_test.Prelude.{◌≡◌, refl, ap, ◌∙◌, String, true, [], ◌∷◌, str_eq}
use gigmile_test.Domain.Time.{Time}
use gigmile_test.Domain.Customer.{Customer, get_payment_progress, is_fully_paid}
use gigmile_test.Env.{Env}
use gigmile_test.Env.Database.{Tables}
use gigmile_test.Persistence.{CustomerModel}
use gigmile_test.Result.{ok}
use gigmile_test.World.{State, Request}
use gigmile_test.World.Rules.{tables_of}
use gigmile_test.Mysql.Up.{IsUp}
use gigmile_test.Service.Coherence.{IsCoherent}
use gigmile_test.Service.Process.Apply.{IsCharged}
use gigmile_test.Service.Process.Due.{IsDue}
use gigmile_test.Service.Process.Record.{IsRecorded}
use gigmile_test.Http.Dto.{PaymentRequest, PaymentResponse}
use gigmile_test.Http.Handler as Handler
use gigmile_test.Http.Handler.{Reply, payment_body}
use gigmile_test.Http.Handler.Webhook.{StandsFor, webhook-IsSettled}
use gigmile_test.Http.Middleware.{HttpRequest, json, Exchange}
use gigmile_test.Http.Middleware.Answered.{sent_status, sent_content}
use gigmile_test.Http.Router.{Chi, process_payment, routes, handle, new_router}
use gigmile_test.Http.Router.Served.{IsServed, new_router-IsServed}

-- A POST to /api/v1/payments
pub record IsPost (r : HttpRequest) (body : PaymentRequest) : Type 0 where
  pub method : r.method ≡ "POST"
  pub path : r.path ≡ "/api/v1/payments"
  pub given : r.decoded ≡ ok body

-- The JSON of a successful answer
abbrev pub answer_with : Customer → PaymentResponse
answer_with c = record {
  success = true;
  message = "payment processed successfully";
  customer_id = c.id;
  outstanding_balance = c.outstanding_balance;
  total_paid = c.total_paid;
  payment_progress = get_payment_progress c;
  is_fully_paid = is_fully_paid c;
}

-- What the client is sent, and what is in the tables.
pub record IsPosted {env : Env} (req : Request) (s : State env) (x : Exchange (State env))
    : Type 0 where
  pub customer : Customer
  pub between : Tables
  pub status : sent_status x.calls ≡ 200
  pub content : sent_content x.calls ≡ json (payment_body (answer_with customer)) ∷ []
  pub charged : IsCharged req (tables_of s) between customer
  pub recorded : IsRecorded req between (tables_of x.state)

module _ {env : Env} (format_time : Time → String) (chi : Chi (State env)) where
  posted-IsServed :
      (r : HttpRequest) (body : PaymentRequest) (s : State env)
      → IsPost r body
      → let (reply, t) = Handler.process_payment (ok body) s in
        IsServed r reply t (new_router format_time chi r s)
  unfolding handle routes
  posted-IsServed r body s post =
      let (params, there) =
        chi.dispatch_exact r process_payment (rw (post.method, post.path) refl) in
      rw (← post.given) (new_router-IsServed format_time chi r s process_payment params there)

  -- With a database that fails no statement its schema allows, and whatever Redis does, a POST to
  -- /api/v1/payments with a body that a complete request stands for, which is due on a coherent
  -- state (a positive amount, an active customer with a row, a new reference, no older copy of
  -- the customer in the cache), is sent a 200 with the figures of the row that was charged, and
  -- no other content, and the payment is recorded. Identifier and references are of digits and
  -- capital letters, at most 50 and 100 of them, and the date is one that the column holds.
  pub new_router-IsPosted :
      (r : HttpRequest) (body : PaymentRequest) (req : Request) (m : CustomerModel) (s : State env)
      → IsPost r body
      → StandsFor body req
      → IsUp env
      → IsCoherent s
      → IsDue req m s
      → str_eq req.payment_status "COMPLETE" ≡ true
      → IsPosted req s (new_router format_time chi r s)
  new_router-IsPosted r body req m s post stands up coherent due complete =
      let x = posted-IsServed r body s post in
      let (c, between, replied, charged, recorded) =
        webhook-IsSettled body req m s stands up coherent due complete in
      record {
        customer = c;
        between = between;
        status = x.status ∙ ap (λ (p : Reply). p.status) replied;
        content = x.content ∙ ap (λ (p : Reply). json p.body ∷ []) replied;
        charged = charged;
        recorded = rw x.state recorded;
      }
