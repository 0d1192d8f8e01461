-- ===== src/Service/Queries/Paginated.antt =====
-- A page of a customer's payments: whose they are, how many, and the figures beside them.
use gigmile_test.Prelude.{
  ℕ, ◌-◌, ◌*◌, ◌^◌, ◌<◌, String, List, map, ◌≡◌, refl, ap, arith, length, take, drop,
}
use gigmile_test.Prelude.Int.{ℤ, pos, negsuc, pos_part, ◌≤ℤ◌, ◌<ℤ◌}
use gigmile_test.Domain.Payment.{Payment}
use gigmile_test.Persistence.{PaymentModel, payment_to_domain}
use gigmile_test.Env.{Env}
use gigmile_test.Env.Database.{Tables, has_customer, select, IsCount, IsPage, IsOrdering}
use gigmile_test.Result.{ok, err}
use gigmile_test.World.{State, Ref, pure}
use gigmile_test.World.Rules.{
  Post, IsRead, IsRead-trans, continue_rule, wrap_rule, db-IsQuiet, tables_of,
}
use gigmile_test.Mysql.Customers.Find.{Found, find_by_id-Found}
use gigmile_test.Mysql.Payments.{count_by_customer_id, find_by_customer_id_with_pagination}
use gigmile_test.Service.Queries.{
  PaginationParams, PaginatedPayments, page_of, size_of, offset_of, total_pages_of, page_within,
  page_from, get_customer_payments_paginated,
}
use gigmile_test.Service.Queries.Pages.{
  IsPageCount, total_pages_of-IsPageCount, size_of-bounds, page_of-bound, offset_of-eq,
}

-- The payments of a customer.
abbrev pub payments_of : String → Tables → List PaymentModel
payments_of id t = select (has_customer id) t.payments

-- The part of a customer's payments, by date, the latest first, that stands at an offset.
record IsPart (id : String) (t : Tables) (size offset : ℤ) (ps : List Payment) : Type 0 where
  pub ordered : List PaymentModel
  pub ordering : IsOrdering (payments_of id t) ordered
  pub part : ps ≡ map payment_to_domain (take (pos_part size) (drop (pos_part offset) ordered))

-- The payments of one page of the customer's, by date, the latest first; the number of the
-- customer's payments in the table; and the least number of pages that hold them.
pub record IsPaginated (id : String) (t : Tables) (page size : ℤ) (resp : PaginatedPayments)
    : Type 0 where
  pub ordered : List PaymentModel
  pub ordering : IsOrdering (payments_of id t) ordered
  pub part :
      resp.payments
      ≡ map payment_to_domain
          (take (pos_part size) (drop ((pos_part page - 1) * pos_part size) ordered))
  pub page_used : resp.page ≡ page
  pub counted : resp.total_count ≡ pos (length (payments_of id t))
  pub size_used : resp.page_size ≡ size
  pub pages : ℕ
  pub total : resp.total_pages ≡ pos pages
  pub enough : IsPageCount (length (payments_of id t)) (pos_part size) pages

module _ {env : Env} where
  open env use {sql}

  abbrev Counted : String → State env → Post env ℤ
  Counted id s r t = IsRead s t × IsCount (payments_of id (tables_of s)) r

  count-Counted :
      (id : String) (s t : State env)
      → IsRead s t
      → Counted id s (count_by_customer_id id t).0 (count_by_customer_id id t).1
  unfolding count_by_customer_id
  count-Counted id s t h =
      wrap_rule (Counted id s) (Counted id s) "database error" _ _
        (
          IsRead-trans s t _ h
              (db-IsQuiet t _ (sql.count_payments_reads (has_customer id) t.db)).read,
          rw (← h.tables) (sql.count_payments_counts (has_customer id) t.db),
        )
        (λ _ p. p) (λ _ p. p)

  abbrev Paged : String → ℤ → ℤ → State env → Post env (List Payment)
  Paged id size offset s (ok ps) t = IsRead s t × IsPart id (tables_of s) size offset ps
  Paged id size offset s (err e) t = IsRead s t

  abbrev PagedRows : String → ℤ → ℤ → State env → Post env (List PaymentModel)
  PagedRows id size offset s r t = IsRead s t × IsPage (payments_of id (tables_of s)) size offset r

  page-Paged :
      (id : String) (size offset : ℤ) (s t : State env)
      → IsRead s t
      → pos 0 <ℤ size
      → let (x, u) = find_by_customer_id_with_pagination id size offset t in
        Paged id size offset s x u
  unfolding find_by_customer_id_with_pagination
  page-Paged id size offset s t h positive =
      continue_rule (PagedRows id size offset s) (Paged id size offset s) _
        (λ ms. pure (map payment_to_domain ms)) _
        (wrap_rule (PagedRows id size offset s) (PagedRows id size offset s) "database error" _ _
          (
            IsRead-trans s t _ h
                (db-IsQuiet t _ (sql.find_page_reads (has_customer id) size offset t.db)).read,
            rw (← h.tables) (sql.find_page_finds (has_customer id) size offset t.db positive),
          )
          (λ _ p. p) (λ _ p. p))
        (λ ms u p. (
          p.0,
          record { ordered = p.1.0; ordering = p.1.1; part = ap (map payment_to_domain) p.1.2 },
        ))
        (λ _ u p. p.0)

  abbrev pub Paginated : String → ℤ → ℤ → State env → Post env PaginatedPayments
  Paginated id page size s (ok resp) t = IsRead s t × IsPaginated id (tables_of s) page size resp
  Paginated id page size s (err e) t = IsRead s t

  page_count :
      (id : String) (s : State env) (size : ℤ) (n : ℤ)
      → pos 1 ≤ℤ size
      → length (payments_of id (tables_of s)) < 2 ^ 63
      → n ≡ pos (length (payments_of id (tables_of s)))
      → (t : ℕ) × (total_pages_of n size ≡ pos t)
        × IsPageCount (length (payments_of id (tables_of s))) (pos_part size) t
  page_count id s (negsuc k) n positive few e = absurd (omega arith)
  page_count id s (pos k) n positive few e =
      rw e (total_pages_of-IsPageCount (length (payments_of id (tables_of s))) k (omega arith) few)

  -- the answer, once the payments are counted
  after_count :
      (id : String) (page size n : ℤ) (s t : State env)
      → pos 1 ≤ℤ page
      → pos 1 ≤ℤ size
      → (pos_part page - 1) * pos_part size < 2 ^ 63
      → length (payments_of id (tables_of s)) < 2 ^ 63
      → Counted id s (ok n) t
      → let (x, u) = page_from id page size n t in Paginated id page size s x u
  unfolding page_from
  after_count id page size n s t first positive within few (h, counted) =
      let (pages, total, enough) = page_count id s size n positive few counted in
      continue_rule (Paged id size (offset_of page size) s) (Paginated id page size s) _ _ _
        (wrap_rule (Paged id size (offset_of page size) s) (Paged id size (offset_of page size) s)
          "failed to get payments" _ _
          (page-Paged id size (offset_of page size) s t h (omega arith)) (λ _ p. p) (λ _ p. p))
        (λ ps u p. (
          p.0,
          record {
            ordered = p.1.ordered;
            ordering = p.1.ordering;
            part = rw (← offset_of-eq page size first positive within) p.1.part;
            page_used = refl;
            counted = counted;
            size_used = refl;
            pages = pages;
            total = total;
            enough = enough;
          },
        ))
        (λ _ u p. p)

  page_within-Paginated :
      (id : String) (page size : ℤ) (s : State env)
      → pos 1 ≤ℤ page
      → pos 1 ≤ℤ size
      → (pos_part page - 1) * pos_part size < 2 ^ 63
      → length (payments_of id (tables_of s)) < 2 ^ 63
      → Paginated id page size s (page_within id page size s).0 (page_within id page size s).1
  unfolding page_within
  page_within-Paginated id page size s first positive within few =
      continue_rule {A = Ref} {B = PaginatedPayments} (λ _ t. IsRead s t) (Paginated id page size s)
        _ _ _
        (wrap_rule (Found id s) (λ _ t. IsRead s t) "failed to get customer" _ _
          (find_by_id-Found id s) (λ r p. p.0) (λ e p. p))
        (λ r t h.
          continue_rule (Counted id s) (Paginated id page size s) _ (λ n. page_from id page size n)
            _
            (wrap_rule (Counted id s) (Counted id s) "failed to count payments" _ _
              (count-Counted id s t h) (λ _ p. p) (λ _ p. p))
            (λ n u c. after_count id page size n s u first positive within few c) (λ _ u c. c.0))
        (λ e t h. h)

  -- Whatever page and size are asked for, an answer has the payments of the page that the bounded
  -- page and size say, of the customer's payments by date, the latest first, the number of the
  -- customer's payments in the table, and the least number of pages of the bounded size that hold
  -- them; an answer and an error both leave the tables as they were and bring nothing new into
  -- the cache. The customer has fewer than 2^63 payments, and fewer come before the page.
  pub paginated-Paginated :
      (id : String) (params : PaginationParams) (s : State env)
      → (pos_part (page_of params.page) - 1) * pos_part (size_of params.page_size) < 2 ^ 63
      → length (payments_of id (tables_of s)) < 2 ^ 63
      → Paginated id
          (page_of params.page)
          (size_of params.page_size)
          s
          (get_customer_payments_paginated id params s).0
          (get_customer_payments_paginated id params s).1
  unfolding get_customer_payments_paginated
  paginated-Paginated id params s within few =
      page_within-Paginated id (page_of params.page) (size_of params.page_size) s
        (page_of-bound params.page) (size_of-bounds params.page_size).0 within few
