-- ===== src/Http/Handler/Page.antt =====
-- The handler that replies with a page of the payments of a customer.
use mathlib.Core.Path.{subst}
use gigmile_test.Prelude.{
  ℕ, ◌-◌, ◌*◌, ◌^◌, ◌<◌, String, ◌≡◌, refl, ap, ◌∙◌, inl, inr, false, ◌&&◌, Option, none, some,
  List, [], ◌∷◌, map, take, drop, str_eq, eq_iff, length, codes, arith, Bool-cases, Option-cases,
  if◌then◌else◌,
}
use gigmile_test.Prelude.Int.{ℤ, pos, pos_part, ltb_ℤ, ◌≤ℤ◌}
use gigmile_test.Domain.Errors.{Error}
use gigmile_test.Domain.Time.{Time, zero_time}
use gigmile_test.Http.Dto.{PaymentRecordResponse}
use gigmile_test.Env.{Env}
use gigmile_test.Env.Database.{Tables, IsOrdering}
use gigmile_test.Persistence.{PaymentModel, payment_to_domain}
use gigmile_test.Stdlib.Atoi.{atoi}
use gigmile_test.Service.Queries.Pages.{IsPageCount}
use gigmile_test.Result.{Result, ok, err}
use gigmile_test.World.{State}
use gigmile_test.World.Rules.{IsRead, tables_of}
use gigmile_test.Service.Queries.{PaginatedPayments, page_of, size_of}
use gigmile_test.Service.Queries.Paginated.{Paginated, payments_of, paginated-Paginated}
use gigmile_test.Http.Handler.{
  Reply, respond_json, respond_error, page_body, page_reply, number_or, positive_or, payment_record,
  get_customer_payments,
}

-- The number that a parameter of the query asks for: another text than a positive number counts for
-- nothing.
abbrev pub asked : ℤ → String → ℤ
asked fallback text = elim (atoi (codes text)) [
  | none ↦ fallback
  | some n ↦ if ltb_ℤ (pos 0) n then n else fallback
]

-- The size of a page, cut to 100.
abbrev pub asked_size : String → ℤ
asked_size text = if ltb_ℤ (pos 100) (asked (pos 10) text) then pos 100 else asked (pos 10) text

number_or-asked : (fallback : ℤ) (text : String) → number_or fallback text ≡ asked fallback text
unfolding number_or atoi
number_or-asked fallback text = elim (Bool-cases (str_eq text "")) [
  | inl empty ↦ rw ((eq_iff text "").0 empty) refl
  | inr given ↦ rw given (read_by fallback (atoi (codes text)))
]
  where
    read_by :
        (fallback : ℤ) (o : Option ℤ)
        → positive_or fallback o
          ≡ elim o [ none ↦ fallback | some n ↦ if ltb_ℤ (pos 0) n then n else fallback ]
    read_by fallback none = refl
    read_by fallback (some n) = refl

asked-positive : (fallback : ℤ) (text : String) → pos 1 ≤ℤ fallback → pos 1 ≤ℤ asked fallback text
asked-positive fallback text h = elim (Option-cases (atoi (codes text))) [
  | inl bad ↦ rw (asked, bad) h
  | inr (n, read) ↦ rw (asked, read) (ground arith)
]

page_of-asked : (n : ℤ) → pos 1 ≤ℤ n → page_of n ≡ n
page_of-asked n h = ground arith

size_of-asked : (n : ℤ) → pos 1 ≤ℤ n → size_of n ≡ (if ltb_ℤ (pos 100) n then pos 100 else n)
size_of-asked n h = ground arith

page_asked : (text : String) → page_of (number_or (pos 1) text) ≡ asked (pos 1) text
page_asked text =
    ap page_of (number_or-asked (pos 1) text)
    ∙ page_of-asked (asked (pos 1) text) (asked-positive (pos 1) text (omega arith))

size_asked : (text : String) → size_of (number_or (pos 10) text) ≡ asked_size text
size_asked text =
    ap size_of (number_or-asked (pos 10) text)
    ∙ size_of-asked (asked (pos 10) text) (asked-positive (pos 10) text (omega arith))

module _ (format_time : Time → String) where
  -- What a client is shown of a payment's row. Without an instant of processing, it is shown the
  -- zero value.
  abbrev pub shown_payment : PaymentModel → PaymentRecordResponse
  shown_payment m = record {
    id = m.id;
    customer_id = m.customer_id;
    transaction_amount = m.amount;
    transaction_reference = m.transaction_reference;
    transaction_date = format_time m.transaction_date;
    status = m.status;
    processed_at = format_time (elim m.processed_at [ some t ↦ t | none ↦ zero_time ]);
  }

  -- A page was sent: the payments that stand on it, of the customer's payments by date, the latest
  -- first; its number and size; and the numbers of payments and pages.
  pub record IsPageSent (id : String) (page size : ℤ) (t : Tables) (reply : Reply) : Type 0 where
    pub ordered : List PaymentModel
    pub ordering : IsOrdering (payments_of id t) ordered
    pub pages : ℕ
    pub enough : IsPageCount (length (payments_of id t)) (pos_part size) pages
    pub content :
        reply
        ≡ respond_json 200 (
            page_body id
              (map shown_payment
                (take (pos_part size) (drop ((pos_part page - 1) * pos_part size) ordered)))
              page
              size
              (pos (length (payments_of id t)))
              (pos pages))

  shown_all :
      (ms : List PaymentModel)
      → map (payment_record format_time) (map payment_to_domain ms) ≡ map shown_payment ms
  unfolding payment_to_domain
  shown_all [] = refl
  shown_all (m ∷ ms) = ap (λ (l : List PaymentRecordResponse). shown_payment m ∷ l) (shown_all ms)

module _ {env : Env} (format_time : Time → String) where
  pub data PageReply (id : String) (page size : ℤ) (s : State env) (reply : Reply) : Type 0 where
    failed :
        (e : Error)
        → reply ≡ respond_error 500 "failed to get customer payments" (some e)
        → PageReply id page size s reply
    answered :
        IsPageSent format_time id page size (tables_of s) reply → PageReply id page size s reply

  paged :
      (id : String) (page size : ℤ) (s : State env) (x : Result PaginatedPayments) (t : State env)
      → Paginated id page size s x t
      → IsRead s t × PageReply id page size s (page_reply format_time id x)
  paged id page size s (ok resp) t (read, good) = (
    read,
    answered (record {
      ordered = good.ordered;
      ordering = good.ordering;
      pages = good.pages;
      enough = good.enough;
      content =
          rw (good.part, good.page_used, good.size_used, good.counted, good.total)
            (ap
              (λ (l : List PaymentRecordResponse). respond_json 200 (
                page_body id l page size (pos (length (payments_of id (tables_of s))))
                  (pos good.pages)))
              (shown_all format_time _));
    }),
  )
  paged id page size s (err e) t read = (read, failed e refl)

  -- The reply, by the bounds that the service puts on page and size.
  page_within_bounds :
      (id page_text size_text : String) (s : State env)
      → str_eq id "" ≡ false
      → (str_eq page_text "" && str_eq size_text "") ≡ false
      → (pos_part (page_of (number_or (pos 1) page_text)) - 1)
          * pos_part (size_of (number_or (pos 10) size_text))
        < 2 ^ 63
      → length (payments_of id (tables_of s)) < 2 ^ 63
      → let (reply, t) = get_customer_payments format_time id page_text size_text s in
        IsRead s t
        × PageReply id
            (page_of (number_or (pos 1) page_text))
            (size_of (number_or (pos 10) size_text))
            s
            reply
  unfolding get_customer_payments
  page_within_bounds id page_text size_text s named given within few =
      rw (named, given)
        (paged id _ _ s _ _ (
          paginated-Paginated id
            (record {
              page = number_or (pos 1) page_text;
              page_size = number_or (pos 10) size_text;
            })
            s within few))

  -- Where an identifier and a page or a size are given, in whatever text, the handler replies
  -- with the payments of the page, of the customer's payments in the table by date, the latest
  -- first, with the number and the size of the page, which are 1 and 10 where no positive number
  -- is asked for and at most 100 for the size, and with the numbers of payments and of the pages
  -- that hold them; or with a 500. It writes to no table and brings nothing new into the cache.
  -- The customer has fewer than 2^63 payments, and fewer come before the page.
  pub page-PageReply :
      (id page_text size_text : String) (s : State env)
      → str_eq id "" ≡ false
      → (str_eq page_text "" && str_eq size_text "") ≡ false
      → (pos_part (asked (pos 1) page_text) - 1) * pos_part (asked_size size_text) < 2 ^ 63
      → length (payments_of id (tables_of s)) < 2 ^ 63
      → let (reply, t) = get_customer_payments format_time id page_text size_text s in
        IsRead s t × PageReply id (asked (pos 1) page_text) (asked_size size_text) s reply
  page-PageReply id page_text size_text s named given within few =
      let (reply, t) = get_customer_payments format_time id page_text size_text s in
      subst (λ (page : ℤ). IsRead s t × PageReply id page (asked_size size_text) s reply)
        (page_asked page_text)
        (subst
          (λ (size : ℤ).
            IsRead s t × PageReply id (page_of (number_or (pos 1) page_text)) size s reply)
          (size_asked size_text)
          (page_within_bounds id page_text size_text s named given
            (rw (page_asked page_text, size_asked size_text) within) few))
