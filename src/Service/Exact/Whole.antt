-- ===== src/Service/Exact/Whole.antt =====
-- A request is carried out as a whole or not at all.
use mathlib.Core.Path.{subst}
use gigmile_test.Prelude.{
  String, ◌≡◌, ◌≢◌, refl, ap, ◌∙◌, inl, inr, Bool, true, false, none, List, [], ◌∷◌, str_eq,
  Bool-cases,
}
use gigmile_test.Domain.Customer.{Customer}
use gigmile_test.Env.{Env}
use gigmile_test.Env.Columns.{Fits, ArePlain}
use gigmile_test.Env.Database.{Tables}
use gigmile_test.Persistence.{PaymentModel}
use gigmile_test.Result.{Result, ok, err}
use gigmile_test.World.{State, Ref, Request, continue}
use gigmile_test.World.Rules.{IsRead, continue_rule, none_within, tables_of, entries_of}
use gigmile_test.Cache.Keys.{payment_key}
use gigmile_test.Mysql.Payments.Reads.{Checked, with_reference}
use gigmile_test.Mysql.Up.{IsUp}
use gigmile_test.Service.Books.Kept.{ends-known}
use gigmile_test.Service.Coherence.{IsCoherent, IsRead-IsCoherent}
use gigmile_test.Service.Exact.Entries.{
  AddsNone, IsRead-AddsNone, charge-AddsNone, process_payment-AddsNone,
}
use gigmile_test.Service.Process.{Response, settle, unless_exists, process_payment}
use gigmile_test.Service.Process.Apply.{IsCharged}
use gigmile_test.Service.Process.Charge.{Charged, charge-Charged}
use gigmile_test.Service.Process.Outcome.{written_nothing, check-Checked, process_payment-Ends}
use gigmile_test.Service.Process.Record.{IsRecorded}
use gigmile_test.Service.Process.Record.Live.{
  Done, success_with, charged-IsPayable, record_payment-Done,
}

-- Nothing was written; or one payment was charged and recorded, and answered with success.
pub data Whole (req : Request) (before after : Tables) (x : Result Response) : Type 0 where
  untouched : after ≡ before → Whole req before after x
  whole :
      (c : Customer) (charged : Tables)
      → x ≡ ok (success_with c)
      → IsCharged req before charged c
      → IsRecorded req charged after
      → Whole req before after x

-- A request of which a payment can be made, as the handler lets through, whose fields the columns
-- hold: the handler does not ask for that.
pub record IsComplete (req : Request) : Type 0 where
  pub named : str_eq req.customer_id "" ≡ false
  pub referred : str_eq req.transaction_reference "" ≡ false
  pub fits : Fits req.customer_id req.transaction_reference req.transaction_date

module _ {env : Env} where
  -- Redis has no payment whose reference the table does not have.
  abbrev pub IsTraced : State env → Type 0
  IsTraced s =
      (ref : String) → with_reference ref (tables_of s) ≡ [] → entries_of s (payment_key ref) ≡ none

  done-Whole :
      (req : Request) (before : Tables) (c : Customer) (charged : Tables) (x : Result Response)
      (t : State env)
      → IsCharged req before charged c
      → Done req c charged x t
      → Whole req before (tables_of t) x
  done-Whole req before c charged (ok resp) t i (answered, recorded) =
      whole c charged (ap (λ (y : Response). ok y) answered) i recorded
  done-Whole req before c charged (err e) t i bad = absurd bad

  settle-Whole :
      (req : Request) (s : State env)
      → IsUp env
      → IsCoherent s
      → IsComplete req
      → ArePlain (tables_of s)
      → with_reference req.transaction_reference (tables_of s) ≡ []
      → entries_of s (payment_key req.transaction_reference) ≡ none
      → Whole req (tables_of s) (tables_of (settle req s).1) (settle req s).0
  unfolding settle
  settle-Whole req s up h complete plain new absent =
      continue_rule {A = Ref} {B = Response} (λ x t. Charged req s x t × AddsNone s t)
        (λ x t. Whole req (tables_of s) (tables_of t) x) _ _ _
        (charge-Charged req s h, charge-AddsNone req s)
        (λ r t p. done-Whole req (tables_of s) (t.heap r) (tables_of t) _ _ p.0.0 (
          record_payment-Done req r t up p.0.0.positive complete.named complete.referred
            (charged-IsPayable req (tables_of s) (tables_of t) (t.heap r) p.0.0 complete.fits plain
              new)
            (p.1.absent req.transaction_reference absent)))
        (λ e t p. untouched p.0.tables)

  since-Whole :
      (req : Request) (s t : State env) (x : Result Response) (after : Tables)
      → IsRead s t
      → Whole req (tables_of t) after x
      → Whole req (tables_of s) after x
  since-Whole req s t x after h w = subst (λ (before : Tables). Whole req before after x) h.tables w

  unless_exists-Whole :
      (req : Request) (s : State env) (x : Result Bool) (t : State env)
      → IsUp env
      → IsCoherent s
      → IsComplete req
      → ArePlain (tables_of s)
      → IsTraced s
      → Checked req.transaction_reference s x t
      → Whole req
          (tables_of s)
          (tables_of (continue x (unless_exists req) t).1)
          (continue x (unless_exists req) t).0
  unless_exists-Whole req s (ok true) t up h complete plain traced quiet =
      untouched (written_nothing req t ∙ quiet.read.tables)
  unless_exists-Whole req s (ok false) t up h complete plain traced (quiet, new) =
      let key = payment_key req.transaction_reference in
      since-Whole req s t _ (tables_of (settle req t).1) quiet.read (
        settle-Whole req t up (IsRead-IsCoherent s t quiet.read h) complete
          (rw quiet.read.tables plain) (rw quiet.read.tables new)
          (none_within key (entries_of s) (entries_of t) (traced req.transaction_reference new)
            quiet.read.entries))
  unless_exists-Whole req s (err e) t up h complete plain traced quiet = untouched quiet.read.tables

  -- With a database that fails no statement its schema allows, on a coherent state where Redis
  -- has no payment whose reference is not in the table, a request with an identifier of the
  -- customer, a reference and a date that the columns hold writes to no table, or is charged,
  -- recorded and answered with success and the figures of the charged row: no such charge is left
  -- without its payment, whatever Redis does. Identifier and references, those recorded included,
  -- are of digits and capital letters, at most 50 and 100 of them.
  pub process_payment-Whole :
      (req : Request) (s : State env)
      → IsUp env
      → IsCoherent s
      → IsComplete req
      → ArePlain (tables_of s)
      → IsTraced s
      → Whole req (tables_of s) (tables_of (process_payment req s).1) (process_payment req s).0
  unfolding process_payment
  process_payment-Whole req s up h complete plain traced =
      elim (Bool-cases (str_eq req.payment_status "COMPLETE")) [
        | inl settled ↦
            rw settled
              (unless_exists-Whole req s _ _ up h complete plain traced (check-Checked req s))
        | inr other ↦ rw other (untouched refl)
      ]

nothing_before :
    (before after : List PaymentModel) → (before ≢ [] → after ≢ []) → after ≡ [] → before ≡ []
nothing_before [] after grows e = refl
nothing_before (p ∷ ps) after grows e = absurd (grows (λ h. cc h) e)

module _ {env : Env} where
  pub IsRead-IsTraced : (s t : State env) → IsRead s t → IsTraced s → IsTraced t
  IsRead-IsTraced s t h traced ref new =
      (IsRead-AddsNone s t h).absent ref (traced ref (rw h.tables at new))

  -- A request leaves Redis with no reference that the table does not have.
  pub process_payment-IsTraced :
      (req : Request) (s : State env)
      → IsCoherent s
      → IsTraced s
      → IsTraced (process_payment req s).1
  process_payment-IsTraced req s h traced ref new =
      let before =
        nothing_before (with_reference ref (tables_of s))
          (with_reference ref (tables_of (process_payment req s).1))
          (ends-known ref req (tables_of s) _ _ (process_payment-Ends req s h)) new in
      (process_payment-AddsNone req s).absent ref (traced ref before)
