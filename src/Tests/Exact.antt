-- ===== src/Tests/Exact.antt =====
-- Payments that are charged and recorded, on a database in memory.
use gigmile_test.Prelude.{◌≡◌, refl, [], ◌∷◌, false}
use gigmile_test.World.Rules.{tables_of}
use gigmile_test.Memory.{memory-IsUp}
use gigmile_test.Service.Exact.Balance.{IsBalanced}
use gigmile_test.Service.Exact.Whole.{Whole, IsTraced, process_payment-Whole}
use gigmile_test.Service.Process.{process_payment}
use gigmile_test.Http.Router.Books.{serve_all}
use gigmile_test.Http.Router.Exact.{IsExact, AreStorable, serve_all-IsExact}
use gigmile_test.Tests.Fixtures.{request, start, the_row, start-IsCoherent}
use gigmile_test.Http.Handler.Webhook.{StandsFor}
use gigmile_test.Tests.Http as Http
use gigmile_test.Tests.Http.{body, body-StandsFor, a_time}
use gigmile_test.Tests.Router.{plain, post, one_request, post-ArePosted, start-IsInOrder}

start-IsTraced : IsTraced start
start-IsTraced ref new = refl

process_payment-Whole_example :
    Whole request
      (tables_of start)
      (tables_of (process_payment request start).1)
      (process_payment request start).0
process_payment-Whole_example =
    process_payment-Whole request start memory-IsUp (start-IsCoherent false)
      (record {
        named = refl;
        referred = refl;
        fits = record { customer = refl; reference = refl; date = refl };
      })
      refl start-IsTraced

start-IsBalanced : IsBalanced (tables_of start)
start-IsBalanced id m there = let (_, same) = the_row id m there in rw same refl

post-AreStorable : AreStorable post
post-AreStorable body' req given stands =
    let same : body ≡ body' = cc in
    let stands' : StandsFor body req = rw same stands in
    rw (one_request body req Http.request stands' body-StandsFor)
      (record { customer = refl; reference = refl; date = refl })

serve_all-IsExact_example : IsExact (serve_all a_time plain (post ∷ []) start)
serve_all-IsExact_example =
    serve_all-IsExact a_time plain 1000000 (post ∷ []) start memory-IsUp (post-ArePosted, tt)
      (post-AreStorable, tt) start-IsInOrder
      (record { traced = start-IsTraced; plain = refl; balanced = start-IsBalanced })
