-- ===== src/Service/Process/Race.antt =====
-- Two requests with one reference that both passed the check.
use mathlib.Core.Path.{subst}
use gigmile_test.Prelude.{◌≡◌, ◌≢◌, inl, inr, []}
use gigmile_test.Domain.Customer.{Customer}
use gigmile_test.Env.{Env}
use gigmile_test.Env.Database.{Tables}
use gigmile_test.Result.{Result, ok, err}
use gigmile_test.World.{State, Ref, Request}
use gigmile_test.World.Rules.{Post, continue_rule, tables_of}
use gigmile_test.Mysql.Payments.Reads.{with_reference}
use gigmile_test.Service.Coherence.{IsCoherent}
use gigmile_test.Service.Process.{Response, response_for, settle}
use gigmile_test.Service.Process.Apply.{IsCharged}
use gigmile_test.Service.Process.Charge.{Charged, charge-Charged}
use gigmile_test.Service.Process.Record.{Recorded, record_payment-Recorded}

module _ {env : Env} where
  -- a successful answer stands for a charge, and for no new payment
  abbrev ChargedAgain : Request → State env → Post env Response
  ChargedAgain req s (ok resp) t =
      (c : Customer) × (resp ≡ response_for "payment processed successfully" c)
      × IsCharged req (tables_of s) (tables_of t) c
  ChargedAgain req s (err e) t = Unit

  recorded-ChargedAgain :
      (req : Request) (r : Ref) (s t : State env) (x : Result Response) (u : State env)
      → with_reference req.transaction_reference (tables_of s) ≢ []
      → IsCharged req (tables_of s) (tables_of t) (t.heap r)
      → Recorded req r t x u
      → ChargedAgain req s x u
  recorded-ChargedAgain req r s t (err e) u known c _ = tt
  recorded-ChargedAgain req r s t (ok resp) u known c (a, _, inl same) = (t.heap r, a, rw same c)
  recorded-ChargedAgain req r s t (ok resp) u known c (a, _, inr new) = absurd (
      known (
        subst (λ (x : Tables). with_reference req.transaction_reference x ≡ []) c.tables new.fresh))

  settle-ChargedAgain :
      (req : Request) (s : State env)
      → IsCoherent s
      → with_reference req.transaction_reference (tables_of s) ≢ []
      → ChargedAgain req s (settle req s).0 (settle req s).1
  unfolding settle
  settle-ChargedAgain req s h known =
      continue_rule (Charged req s) (ChargedAgain req s) _ _ _ (charge-Charged req s h)
        (λ r t c. recorded-ChargedAgain req r s t _ _ known c.0 (record_payment-Recorded req r t))
        (λ e t read. tt)

  -- On a coherent state, a request that passed the look for duplicates before another one
  -- recorded the same reference, and that is answered without an error, has charged the row of
  -- the customer once more, has recorded no payment, and reports success.
  pub duplicate-IsCharged_again :
      (req : Request) (s : State env) {resp : Response}
      → IsCoherent s
      → with_reference req.transaction_reference (tables_of s) ≢ []
      → (settle req s).0 ≡ ok resp
      → (c : Customer) × (resp ≡ response_for "payment processed successfully" c)
        × IsCharged req (tables_of s) (tables_of (settle req s).1) c
  duplicate-IsCharged_again req s {resp} h known answered =
      subst (λ (x : Result Response). ChargedAgain req s x (settle req s).1) answered
        (settle-ChargedAgain req s h known)
