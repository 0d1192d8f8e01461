-- ===== src/Http/Router/Books.antt =====
-- A server's requests, one after the other: what becomes of the books.
use gigmile_test.Prelude.{
  ℕ, suc, ◌≡◌, refl, ap, ◌∙◌, sym, ◌⊎◌, inl, inr, String, List, [], ◌∷◌, ◌++◌, length, str_eq,
  Bool-cases, ◌&&◌,
}
use mathlib.Core.Path.{subst}
use gigmile_test.Domain.Time.{Time}
use gigmile_test.Env.{Env}
use gigmile_test.Result.{Result, ok, err}
use gigmile_test.World.{State, Request}
use gigmile_test.World.Rules.{IsRead, IsRead-refl, tables_of}
use gigmile_test.Service.Books.{IsModest, fewer, room}
use gigmile_test.Service.Books.Kept.{Keeps, ends-Keeps}
use gigmile_test.Service.Coherence.{IsCoherent, IsRead-IsCoherent}
use gigmile_test.Service.Process as Service
use gigmile_test.Service.Process.Keeps.{process_payment-IsCoherent}
use gigmile_test.Service.Process.Outcome.{process_payment-Ends}
use gigmile_test.Service.Queries.Reads.{
  get_customer-IsRead, get_customer_payments-IsRead, paginated-IsRead,
}
use gigmile_test.Http.Dto.{PaymentRequest}
use gigmile_test.Http.Handler as Handler
use gigmile_test.Http.Handler.{Reply}
use gigmile_test.Http.Handler.Webhook.{StandsFor, process_payment_outcome}
use gigmile_test.Http.Middleware.{HttpRequest, write_header, Exchange}
use gigmile_test.Http.Middleware.Answered.{answer_of}
use gigmile_test.Http.Router.{
  Endpoint, health_check, process_payment, get_customer_payments, get_customer, Found, found,
  not_found, Chi, routes, handle, route, served, new_router,
}
use gigmile_test.Http.Router.Served.{new_router-eq}

-- The requests that are posted with a body are of at most `most` kobo.
abbrev pub ArePosted : ℕ → HttpRequest → Type 0
ArePosted most r =
    (body : PaymentRequest) (req : Request)
    → r.decoded ≡ ok body
    → StandsFor body req
    → IsModest most req

abbrev pub All : (HttpRequest → Type 0) → List HttpRequest → Type 0
All P [] = Unit {0}
All P (r ∷ rs) = P r × All P rs

module _ {env : Env} where
  -- The cache is coherent and the books are in order, with room for n more payments.
  pub record IsInOrder (most n : ℕ) (s : State env) : Type 0 where
    pub coherent : IsCoherent s
    pub keeps : Keeps most n (tables_of s)

  read-IsInOrder :
      (most n : ℕ) (s t : State env) → IsRead s t → IsInOrder most (suc n) s → IsInOrder most n t
  read-IsInOrder most n s t read h = record {
    coherent = IsRead-IsCoherent s t read h.coherent;
    keeps =
        rw read.tables
          (record { booked = h.keeps.booked; budget = fewer most n (tables_of s) h.keeps.budget });
  }

  paid-IsInOrder :
      (most n : ℕ) (req : Request) (s : State env)
      → IsModest most req
      → IsInOrder most (suc n) s
      → IsInOrder most n (Service.process_payment req s).1
  paid-IsInOrder most n req s modest h = record {
    coherent =
        process_payment-IsCoherent req s h.coherent (room most n (tables_of s) h.keeps.budget);
    keeps =
        ends-Keeps most n req (tables_of s) modest h.keeps _ _
          (process_payment-Ends req s h.coherent);
  }

  -- What a request may do to the state: nothing but reading, or one payment.
  pub data Effect (r : HttpRequest) (s : State env) : State env → Type 0 where
    reading : (t : State env) → IsRead s t → Effect r s t
    paying :
        (body : PaymentRequest) (req : Request)
        → r.decoded ≡ ok body
        → StandsFor body req
        → Effect r s (Service.process_payment req s).1

  posted-Effect :
      (r : HttpRequest) (s : State env) (x : Result PaymentRequest)
      → r.decoded ≡ x
      → Effect r s (Handler.process_payment x s).1
  unfolding Handler.process_payment
  posted-Effect r s (err e) given = reading s (IsRead-refl s)
  posted-Effect r s (ok body) given = elim (process_payment_outcome body s) [
    | inl (_, _, same) ↦ rw same (reading s (IsRead-refl s))
    | inr (req, stands, forwarded) ↦ rw forwarded (paying body req given stands)
  ]

module _ {env : Env} (format_time : Time → String) where
  listed-IsRead :
      (id page size : String) (s : State env)
      → IsRead s (Handler.get_customer_payments format_time id page size s).1
  unfolding Handler.get_customer_payments
  listed-IsRead id page size s = elim (Bool-cases (str_eq id "")) [
    | inl none_given ↦ rw none_given (IsRead-refl s)
    | inr given ↦ elim (Bool-cases (str_eq page "" && str_eq size "")) [
      | inl all ↦ rw (given, all) (get_customer_payments-IsRead id s)
      | inr some_given ↦ rw (given, some_given) (paginated-IsRead id _ s)
    ]
  ]

  looked_up-IsRead : (id : String) (s : State env) → IsRead s (Handler.get_customer id s).1
  unfolding Handler.get_customer
  looked_up-IsRead id s = elim (Bool-cases (str_eq id "")) [
    | inl none_given ↦ rw none_given (IsRead-refl s)
    | inr given ↦ rw given (get_customer-IsRead id s)
  ]

  handle-Effect :
      (e : Endpoint) (params : String → String) (r : HttpRequest) (s : State env)
      → Effect r s (handle format_time e params r s).1
  unfolding handle
  handle-Effect health_check params r s = reading s (IsRead-refl s)
  handle-Effect process_payment params r s = posted-Effect r s r.decoded refl
  handle-Effect get_customer_payments params r s =
      reading _ (listed-IsRead (r.query "customer_id") (r.query "page") (r.query "page_size") s)
  handle-Effect get_customer params r s = reading _ (looked_up-IsRead (params "customer_id") s)

  module _ (chi : Chi (State env)) where
    served-Effect :
        (r : HttpRequest) (s : State env) (x : Found)
        → Effect r s (served format_time chi r s x).state
    served-Effect r s (found e params) = handle-Effect e params r s
    served-Effect r s not_found = reading s (IsRead-refl s)

    same_state :
        (r : HttpRequest) (s : State env) (x : Exchange (State env))
        → (answer_of r x).state ≡ x.state
    same_state r s x = elim (Bool-cases x.panicked) [ inl a ↦ simp a | inr b ↦ simp b ]

    timed_state :
        (x y : Exchange (State env))
        → (x ≡ y) ⊎ (x ≡ record y { calls = y.calls ++ write_header 504 ∷ [] })
        → x.state ≡ y.state
    timed_state x y (inl e) = ap (λ (z : Exchange (State env)). z.state) e
    timed_state x y (inr e) = ap (λ (z : Exchange (State env)). z.state) e

    pub new_router-Effect :
        (r : HttpRequest) (s : State env) → Effect r s (new_router format_time chi r s).state
    unfolding route
    new_router-Effect r s =
        let state : (new_router format_time chi r s).state ≡ (route format_time chi r s).state =
          ap (λ (x : Exchange (State env)). x.state) (new_router-eq format_time chi r s)
          ∙ same_state r s (chi.timeout (route format_time chi) r s)
          ∙ timed_state _ _ (chi.timeout_passes (route format_time chi) r s) in
        subst (Effect r s) (sym state) (served-Effect r s (chi.dispatch routes r))

    -- Requests that are served one after the other.
    unfoldable pub serve_all : List HttpRequest → State env → State env
    serve_all [] s = s
    serve_all (r ∷ rs) s = serve_all rs (new_router format_time chi r s).state

    pub order_kept :
        (most n : ℕ) (r : HttpRequest) (s t : State env)
        → ArePosted most r
        → Effect r s t
        → IsInOrder most (suc n) s
        → IsInOrder most n t
    order_kept most n r s t modest (reading t' read) h = read-IsInOrder most n s t read h
    order_kept most n r s t modest (paying body req given stands) h =
        paid-IsInOrder most n req s (modest body req given stands) h

    -- Whatever requests a server is sent, in whatever order, and whatever fails: where the cache
    -- is coherent, the accounts are sound, no more is recorded than the rows have, and references
    -- stand in one payment each, it is so after the last of them. The requests are served one
    -- after the other, no goroutine runs in between, each body is of at most a given number of
    -- kobo, and every row has room in int64 for as many payments of that size.
    pub serve_all-IsInOrder :
        (most : ℕ) (rs : List HttpRequest) (s : State env)
        → All (ArePosted most) rs
        → IsInOrder most (length rs) s
        → IsInOrder most 0 (serve_all rs s)
    unfolding serve_all
    serve_all-IsInOrder most [] s modest h = h
    serve_all-IsInOrder most (r ∷ rs) s modest h =
        serve_all-IsInOrder most rs (new_router format_time chi r s).state modest.1
          (order_kept most (length rs) r s _ modest.0 (new_router-Effect r s) h)
