-- ===== src/Service/Process/Charge.antt =====
-- `charge` on a coherent state: the row of the customer moves by exactly one payment, or nothing
-- is written to a table.
use gigmile_test.Prelude.{String, Bool, true, false, if◌then◌else◌}
use mathlib.Core.Path.{subst}
use gigmile_test.Domain.Errors.{Error, wrap, is_optimistic_lock}
use gigmile_test.Env.{Env}
use gigmile_test.Env.Database.{Tables}
use gigmile_test.Result.{Result, ok, err}
use gigmile_test.World.{Action, State, Ref, Request, ◌>>=◌, ◌>>◌, pure, wrapping, raise, attempt}
use gigmile_test.World.Rules.{Post, IsRead, IsRead-trans, continue_rule, wrap_rule, tables_of}
use gigmile_test.Mysql.Customers as Customers
use gigmile_test.Mysql.Customers.{save_changes}
use gigmile_test.Mysql.Customers.Save.{Saved, save-Saved}
use gigmile_test.Service.Coherence.{IsCoherent, IsRead-IsCoherent}
use gigmile_test.Service.Process.Apply.{
  HasRooms, IsCharged, IsReady, Held, find-Held, Ready, apply-Ready, saved-IsCharged,
}
use gigmile_test.Service.Process.Copies.{saved-IsCoherent}
use gigmile_test.Service.Process.{apply_at, retry, unless_conflict, charge}

module _ {env : Env} where
  abbrev pub Charged : Request → State env → Post env Ref
  Charged req s (ok r) t =
      IsCharged req (tables_of s) (tables_of t) (t.heap r) × (HasRooms (tables_of s) → IsCoherent t)
  Charged req s (err e) t = IsRead s t

  -- the figures that the tables are charged with do not depend on what was read before
  charged_since :
      (req : Request) (s t : State env) (x : Result Ref) (u : State env)
      → IsRead s t
      → Charged req t x u
      → Charged req s x u
  charged_since req s t (ok r) u h c =
      subst
        (λ (before : Tables).
          IsCharged req before (tables_of u) (u.heap r) × (HasRooms before → IsCoherent u))
        h.tables c
  charged_since req s t (err e) u h c = IsRead-trans s t u h c

  apply_wrapped-Ready :
      (req : Request) (r : Ref) (s t : State env) (text : String)
      → Held req s (ok r) t
      → Ready req r s (wrapping text (apply_at r req) t).0 (wrapping text (apply_at r req) t).1
  apply_wrapped-Ready req r s t text held =
      wrap_rule (Ready req r s) (Ready req r s) text _ _ (apply-Ready req r s t held) (λ _ p. p)
        (λ _ p. p)

  -- the end of `retry`
  abbrev save_and_return : Ref → Action env Ref
  save_and_return r = do wrapping "failed to save customer" (Customers.save r); pure r

  abbrev SavedReady : Request → Ref → State env → Post env (Unit {0})
  SavedReady req r s (ok _) t =
      IsCharged req (tables_of s) (tables_of t) (t.heap r) × (HasRooms (tables_of s) → IsCoherent t)
  SavedReady req r s (err e) t = IsRead s t

  save-SavedReady :
      (req : Request) (r : Ref) (s t : State env) (x : Result (Unit {0})) (u : State env)
      → IsCoherent s
      → IsRead s t
      → IsReady req (tables_of s).customers (t.heap r)
      → Saved r t x u
      → SavedReady req r s x u
  save-SavedReady req r s t (ok _) u coherent h ready saved = (
    saved-IsCharged req r s t u h ready saved,
    saved-IsCoherent req r s t u coherent h ready saved,
  )
  save-SavedReady req r s t (err e) u coherent h ready quiet = IsRead-trans s t u h quiet.read

  save_and_return-Charged :
      (req : Request) (r : Ref) (s t : State env)
      → IsCoherent s
      → IsRead s t
      → IsReady req (tables_of s).customers (t.heap r)
      → Charged req s (save_and_return r t).0 (save_and_return r t).1
  save_and_return-Charged req r s t coherent h ready =
      continue_rule (SavedReady req r s) (Charged req s) _ _ _
        (wrap_rule (SavedReady req r s) (SavedReady req r s) "failed to save customer" _ _
          (save-SavedReady req r s t _ _ coherent h ready (save-Saved r t)) (λ _ p. p) (λ _ p. p))
        (λ _ u p. p) (λ _ u p. p)

  retry-Charged :
      (req : Request) (s : State env) → IsCoherent s → Charged req s (retry req s).0 (retry req s).1
  unfolding retry
  retry-Charged req s h =
      continue_rule (Held req s) (Charged req s) _ _ _
        (find-Held req s "failed to get customer on retry" h)
        (λ r t held.
          continue_rule (Ready req r s) (Charged req s) _ (λ _. save_and_return r) _
            (apply_wrapped-Ready req r s t "failed to apply payment on retry" held)
            (λ _ u p. save_and_return-Charged req r s u h p.0 p.1) (λ _ u p. p))
        (λ _ t p. p)

  conflict-Charged :
      (req : Request) (e : Error) (s t : State env) (conflict : Bool)
      → IsCoherent s
      → IsRead s t
      → let (x, u) = (if conflict then retry req else raise (wrap "failed to save customer" e)) t in
        Charged req s x u
  conflict-Charged req e s t false h read = read
  conflict-Charged req e s t true h read =
      charged_since req s t _ _ read (retry-Charged req t (IsRead-IsCoherent s t read h))

  unless_conflict-Charged :
      (req : Request) (r : Ref) (s t : State env) (x : Result (Unit {0}))
      → IsCoherent s
      → SavedReady req r s x t
      → Charged req s (unless_conflict req r x t).0 (unless_conflict req r x t).1
  unless_conflict-Charged req r s t (ok _) h p = p
  unless_conflict-Charged req r s t (err e) h p =
      conflict-Charged req e s t (is_optimistic_lock e) h p

  abbrev pub save_or_retry : Request → Ref → Action env Ref
  save_or_retry req r = do saved ← attempt (Customers.save r); unless_conflict req r saved

  -- On a coherent state `charge` charges exactly one payment to the row, and returns the object with
  -- the row's figures; or it fails, and writes to no table.
  pub charge-Charged :
      (req : Request) (s : State env)
      → IsCoherent s
      → Charged req s (charge req s).0 (charge req s).1
  unfolding charge
  charge-Charged req s h =
      continue_rule (Held req s) (Charged req s) _ _ _ (find-Held req s "failed to get customer" h)
        (λ r t held.
          continue_rule (Ready req r s) (Charged req s) _ (λ _. save_or_retry req r) _
            (apply_wrapped-Ready req r s t "failed to apply payment" held)
            (λ _ u p.
              unless_conflict-Charged req r s _ _ h
                (save-SavedReady req r s u _ _ h p.0 p.1 (save-Saved r u)))
            (λ _ u p. p))
        (λ _ t p. p)
