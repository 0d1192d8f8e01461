-- ===== src/Http/Router/Exact.antt =====
-- A server's requests where the database is in order: every payment is charged and recorded, or not
-- at all.
use gigmile_test.Prelude.{ℕ, suc, ◌≡◌, ap, ◌∙◌, true, String, List, [], ◌∷◌, length, str_eq}
use gigmile_test.Domain.Time.{Time}
use gigmile_test.Env.{Env}
use gigmile_test.Env.Columns.{Fits, ArePlain, is_plain}
use gigmile_test.Env.Database.{Tables}
use gigmile_test.Result.{Result, ok}
use gigmile_test.World.{State, Request}
use gigmile_test.World.Rules.{tables_of}
use gigmile_test.Mysql.Up.{IsUp}
use gigmile_test.Service.Books.{budget-HasSpace}
use gigmile_test.Service.Exact.Balance.{IsBalanced, whole-IsBalanced}
use gigmile_test.Service.Exact.Whole.{
  Whole, untouched, whole, IsTraced, IsComplete, IsRead-IsTraced, process_payment-IsTraced,
  process_payment-Whole,
}
use gigmile_test.Service.Process.{Response}
use gigmile_test.Http.Dto.{PaymentRequest}
use gigmile_test.Http.Handler.Webhook.{StandsFor}
use gigmile_test.Http.Middleware.{HttpRequest}
use gigmile_test.Http.Router.{Chi, new_router}
use gigmile_test.Http.Router.Books.{
  ArePosted, All, IsInOrder, Effect, reading, paying, new_router-Effect, serve_all, order_kept,
}

abbrev RequestFits : Request → Type 0
RequestFits req = Fits req.customer_id req.transaction_reference req.transaction_date

stands-IsComplete :
    (body : PaymentRequest) (req : Request) → StandsFor body req → RequestFits req → IsComplete req
stands-IsComplete body req h fits = record {
  named = ap (λ (q : Request). str_eq q.customer_id "") h.request ∙ h.customer;
  referred = ap (λ (q : Request). str_eq q.transaction_reference "") h.request ∙ h.reference;
  fits = fits;
}

-- The bodies of a request have fields that the columns hold.
abbrev pub AreStorable : HttpRequest → Type 0
AreStorable r =
    (body : PaymentRequest) (req : Request)
    → r.decoded ≡ ok body
    → StandsFor body req
    → RequestFits req

recorded-ArePlain :
    (req : Request) (before after : Tables) (x : Result Response)
    → RequestFits req
    → Whole req before after x
    → ArePlain before
    → ArePlain after
recorded-ArePlain req before after x fits (untouched same) plain = rw same plain
recorded-ArePlain req before after x fits (whole c between _ i r) plain =
    let here : is_plain 100 r.row.transaction_reference ≡ true =
      rw r.of_request.reference fits.reference in
    rw (r.tables, i.tables) (rw here plain)

module _ {env : Env} where
  pub record IsExact (s : State env) : Type 0 where
    pub traced : IsTraced s
    pub plain : ArePlain (tables_of s)
    pub balanced : IsBalanced (tables_of s)

  balance_kept :
      (most n : ℕ) (r : HttpRequest) (s t : State env)
      → IsUp env
      → ArePosted most r
      → AreStorable r
      → Effect r s t
      → IsInOrder most (suc n) s
      → IsExact s
      → IsExact t
  balance_kept most n r s t up modest storable (reading t' read) h exact = record {
    traced = IsRead-IsTraced s t read exact.traced;
    plain = rw read.tables exact.plain;
    balanced = rw read.tables exact.balanced;
  }
  balance_kept most n r s t up modest storable (paying body req given stands) h exact =
      let fits = storable body req given stands in
      let done =
        process_payment-Whole req s up h.coherent (stands-IsComplete body req stands fits)
          exact.plain exact.traced in
      record {
        traced = process_payment-IsTraced req s h.coherent exact.traced;
        plain = recorded-ArePlain req (tables_of s) _ _ fits done exact.plain;
        balanced =
            whole-IsBalanced req (tables_of s) _ _ done
              (budget-HasSpace most n req (tables_of s) (modest body req given stands)
                h.keeps.booked h.keeps.budget)
              exact.balanced;
      }

module _ {env : Env} (format_time : Time → String) (chi : Chi (State env)) where
  -- With a database that fails no statement its schema allows, and whatever Redis does, whatever
  -- requests a server is sent, in whatever order: where the total of every row is the sum of the
  -- recorded payments that count, to the kobo, and Redis has no payment whose reference is not in
  -- the table, it is so after the last of them. The requests are served one after the other, no
  -- goroutine runs in between, the state is coherent and its books are in order at first, each
  -- body is of at most a given number of kobo, and every row has room in int64 for as many
  -- payments of that size. Identifiers and references, those recorded included, are of digits and
  -- capital letters, at most 50 and 100 of them, and the dates are such as the column holds.
  pub serve_all-IsExact :
      (most : ℕ) (rs : List HttpRequest) (s : State env)
      → IsUp env
      → All (ArePosted most) rs
      → All AreStorable rs
      → IsInOrder most (length rs) s
      → IsExact s
      → IsExact (serve_all format_time chi rs s)
  unfolding serve_all
  serve_all-IsExact most [] s up modest storable h exact = exact
  serve_all-IsExact most (r ∷ rs) s up modest storable h exact =
      let effect = new_router-Effect format_time chi r s in
      serve_all-IsExact most rs (new_router format_time chi r s).state up modest.1 storable.1
        (order_kept format_time chi most (length rs) r s _ modest.0 effect h)
        (balance_kept most (length rs) r s _ up modest.0 storable.0 effect h exact)
