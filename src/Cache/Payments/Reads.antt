-- ===== src/Cache/Payments/Reads.antt =====
-- The check for a reference in Redis changes nothing that the service relies on.
use gigmile_test.Prelude.{String}
use gigmile_test.Env.{Env}
use gigmile_test.World.{State}
use gigmile_test.World.Rules.{IsQuiet, continue_rule, store-IsQuiet}
use gigmile_test.Cache.Keys.{payment_key}
use gigmile_test.Cache.Payments.{exists_by_transaction_reference}

module _ {env : Env} where
  open env use {redis}

  pub exists-IsQuiet :
      (ref : String) (s : State env) → IsQuiet s (exists_by_transaction_reference ref s).1
  unfolding exists_by_transaction_reference
  exists-IsQuiet ref s =
      continue_rule (λ _ t. IsQuiet s t) (λ _ t. IsQuiet s t) _ _ _
        (store-IsQuiet s _ (redis.exists_keeps (payment_key ref) s.store)) (λ a t h. h) (λ e t h. h)
