-- ===== src/Http/Router/Served.antt =====
-- What the router makes of a request that chi has a route for.
use gigmile_test.Prelude.{ℕ, ◌≡◌, refl, ap, ◌∙◌, ◌⊎◌, inl, inr, String, false, [], ◌∷◌, ◌++◌}
use gigmile_test.Domain.Time.{Time}
use gigmile_test.Env.{Env}
use gigmile_test.World.{State}
use gigmile_test.Http.Handler.{Reply}
use gigmile_test.Http.Middleware.{HttpRequest, json, processed, write_header, Exchange}
use gigmile_test.Http.Middleware.Answered.{sent_status, sent_content, answer_of, recovery-logger}
use gigmile_test.Http.Router.{
  Endpoint, found, Chi, routes, calls_of, handle, route, served, exchange_of, new_router,
}

-- The client is sent the reply and nothing else, and the log has one entry: with the status of the
-- reply, or with that of a request that is late.
pub record IsServed {env : Env} (r : HttpRequest) (reply : Reply) (t : State env)
    (x : Exchange (State env)) : Type 0 where
  pub status : sent_status x.calls ≡ reply.status
  pub content : sent_content x.calls ≡ json reply.body ∷ []
  pub returned : x.panicked ≡ false
  pub noted : ℕ
  pub log : x.log ≡ processed r.method r.path noted ∷ []
  pub entry : (noted ≡ reply.status) ⊎ (noted ≡ 504)
  pub state : x.state ≡ t

module _ {env : Env} (format_time : Time → String) (chi : Chi (State env)) where
  answered-IsServed :
      (r : HttpRequest) (reply : Reply) (t : State env) (x : Exchange (State env))
      → (x ≡ exchange_of format_time chi (calls_of reply) t)
        ⊎ (x ≡ record (exchange_of format_time chi (calls_of reply) t) {
          calls = calls_of reply ++ write_header 504 ∷ [];
        })
      → IsServed r reply t (answer_of r x)
  unfolding calls_of
  answered-IsServed r reply t x (inl e) = rw e (record {
    status = refl;
    content = refl;
    returned = refl;
    noted = reply.status;
    log = refl;
    entry = inl refl;
    state = refl;
  })
  answered-IsServed r reply t x (inr e) = rw e (record {
    status = refl;
    content = refl;
    returned = refl;
    noted = 504;
    log = refl;
    entry = inr refl;
    state = refl;
  })

  -- the layers
  pub new_router-eq :
      (r : HttpRequest) (s : State env)
      → new_router format_time chi r s ≡ answer_of r (chi.timeout (route format_time chi) r s)
  unfolding new_router
  new_router-eq r s =
      chi.request_id_passes _ r s
      ∙ chi.real_ip_passes _ r s
      ∙ recovery-logger (chi.compress (chi.timeout (route format_time chi))) r s
      ∙ ap (answer_of r) (chi.compress_passes (chi.timeout (route format_time chi)) r s)

  in_time :
      (r : HttpRequest) (s : State env) (y : Exchange (State env))
      → route format_time chi r s ≡ y
      → (chi.timeout (route format_time chi) r s ≡ y)
        ⊎ (chi.timeout (route format_time chi) r s
            ≡ record y { calls = y.calls ++ write_header 504 ∷ [] })
  in_time r s y e = rw (← e) (chi.timeout_passes (route format_time chi) r s)

  -- A request that chi finds a route for is sent the reply of the handler of the route, its
  -- status and its body and no other content, and the state is the one that the handler leaves;
  -- no panic gets out, and the log has one entry, with the status of the reply, or with 504,
  -- which is not the status that was sent where the request was late.
  pub new_router-IsServed :
      (r : HttpRequest) (s : State env) (e : Endpoint) (params : String → String)
      → chi.dispatch routes r ≡ found e params
      → let (reply, t) = handle format_time e params r s in
        IsServed r reply t (new_router format_time chi r s)
  unfolding route
  new_router-IsServed r s e params there = rw (new_router-eq r s) (
      answered-IsServed r _ _ _ (
        in_time r s
          (exchange_of format_time chi (calls_of (handle format_time e params r s).0)
            (handle format_time e params r s).1)
          (ap (served format_time chi r s) there)))
