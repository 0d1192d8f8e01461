-- ===== src/Http/Router/Totals.antt =====
-- What the repository of payments answers as the total of a customer, once a server has served
-- requests.
use gigmile_test.Prelude.{ℕ, String, List, length}
use gigmile_test.Domain.Time.{Time}
use gigmile_test.Env.{Env}
use gigmile_test.World.{State}
use gigmile_test.Mysql.Payments.{get_total_paid_by_customer}
use gigmile_test.Service.Ledger.{Totalled, get_total-Totalled}
use gigmile_test.Http.Middleware.{HttpRequest}
use gigmile_test.Http.Router.{Chi}
use gigmile_test.Http.Router.Books.{ArePosted, All, IsInOrder, serve_all, serve_all-IsInOrder}

module _ {env : Env} (format_time : Time → String) (chi : Chi (State env)) where
  -- Whatever requests a server is sent, in whatever order, and whatever fails: the total that the
  -- repository of payments answers for a customer after the last of them is the exact sum of the
  -- complete payments that are in the table under the customer, and at most the total of the row;
  -- an answer and an error write to no table and no object. The requests are served one after the
  -- other, no goroutine runs in between, the state is coherent and its books are in order at
  -- first, each body is of at most a given number of kobo, and every row has room in int64 for as
  -- many payments of that size.
  pub serve_all-Totalled :
      (most : ℕ) (rs : List HttpRequest) (s : State env) (id : String)
      → All (ArePosted most) rs
      → IsInOrder most (length rs) s
      → let t = serve_all format_time chi rs s in
        Totalled id t (get_total_paid_by_customer id t).0 (get_total_paid_by_customer id t).1
  serve_all-Totalled most rs s id modest h =
      get_total-Totalled id (serve_all format_time chi rs s)
        (serve_all-IsInOrder format_time chi most rs s modest h).keeps.booked.ledger
