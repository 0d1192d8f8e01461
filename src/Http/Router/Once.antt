-- ===== src/Http/Router/Once.antt =====
-- A reference that is recorded, and the requests after that.
use gigmile_test.Prelude.{ℕ, suc, ◌≡◌, ◌≢◌, ap, ◌∙◌, sym, String, List, [], ◌∷◌, length}
use mathlib.Core.Path.{subst}
use gigmile_test.Domain.Time.{Time}
use gigmile_test.Env.{Env}
use gigmile_test.Result.{ok}
use gigmile_test.World.{State, Request}
use gigmile_test.World.Rules.{tables_of}
use gigmile_test.Mysql.Payments.Reads.{with_reference}
use gigmile_test.Service.Books.Kept.{ends-known}
use gigmile_test.Service.Process.Outcome.{process_payment-Ends, process_payment_idempotent}
use gigmile_test.Http.Dto.{PaymentRequest}
use gigmile_test.Http.Handler.Webhook.{StandsFor}
use gigmile_test.Http.Middleware.{HttpRequest}
use gigmile_test.Http.Router.{Chi, new_router}
use gigmile_test.Http.Router.Books.{
  ArePosted, All, IsInOrder, Effect, reading, paying, new_router-Effect, serve_all, order_kept,
}

reference :
    (body body' : PaymentRequest) (r : HttpRequest) (req : Request)
    → r.decoded ≡ ok body
    → r.decoded ≡ ok body'
    → StandsFor body' req
    → body.transaction_reference ≡ req.transaction_reference
reference body body' r req a b stands =
    let same : body ≡ body' = cc in
    ap (λ (p : PaymentRequest). p.transaction_reference) same
    ∙ sym (ap (λ (q : Request). q.transaction_reference) stands.request)

module _ {env : Env} where
  abbrev pub IsKnown : String → State env → Type 0
  IsKnown ref s = with_reference ref (tables_of s) ≢ []

  still-IsKnown :
      (most n : ℕ) (ref : String) (r : HttpRequest) (s t : State env)
      → Effect r s t
      → IsInOrder most (suc n) s
      → IsKnown ref s
      → IsKnown ref t
  still-IsKnown most n ref r s t (reading t' read) h known = rw read.tables known
  still-IsKnown most n ref r s t (paying body req given stands) h known =
      ends-known ref req (tables_of s) _ _ (process_payment-Ends req s h.coherent) known

  same_tables_after :
      (body : PaymentRequest) (r : HttpRequest) (s t : State env)
      → r.decoded ≡ ok body
      → Effect r s t
      → IsKnown body.transaction_reference s
      → tables_of t ≡ tables_of s
  same_tables_after body r s t same (reading t' read) known = read.tables
  same_tables_after body r s t same (paying body' req given stands) known =
      process_payment_idempotent req s (
        subst (λ (ref : String). IsKnown ref s) (reference body body' r req same given stands)
          known)

module _ {env : Env} (format_time : Time → String) (chi : Chi (State env)) where
  serve_all-IsKnown :
      (most : ℕ) (ref : String) (rs : List HttpRequest) (s : State env)
      → All (ArePosted most) rs
      → IsInOrder most (length rs) s
      → IsKnown ref s
      → IsKnown ref (serve_all format_time chi rs s)
  unfolding serve_all
  serve_all-IsKnown most ref [] s modest h known = known
  serve_all-IsKnown most ref (r ∷ rs) s modest h known =
      let effect = new_router-Effect format_time chi r s in
      serve_all-IsKnown most ref rs (new_router format_time chi r s).state modest.1
        (order_kept format_time chi most (length rs) r s _ modest.0 effect h)
        (still-IsKnown most (length rs) ref r s _ effect h known)

  -- Once a payment with a reference is in the table, a request whose body has the reference
  -- writes to no table, whatever requests are served in between and whatever fails. The state is
  -- coherent and its books are in order at first, with room in int64 for the requests in between;
  -- no goroutine runs in between.
  pub repeated_writes_nothing :
      (most : ℕ) (rs : List HttpRequest) (s : State env) (body : PaymentRequest) (r : HttpRequest)
      → All (ArePosted most) rs
      → IsInOrder most (length rs) s
      → IsKnown body.transaction_reference s
      → r.decoded ≡ ok body
      → let t = serve_all format_time chi rs s in
        tables_of (new_router format_time chi r t).state ≡ tables_of t
  repeated_writes_nothing most rs s body r modest h known given =
      same_tables_after body r (serve_all format_time chi rs s) _ given
        (new_router-Effect format_time chi r (serve_all format_time chi rs s))
        (serve_all-IsKnown most body.transaction_reference rs s modest h known)
