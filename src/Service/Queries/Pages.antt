-- ===== src/Service/Queries/Pages.antt =====
-- The figures of a page of payments.
use native.Mathlib.Nat.{
  mod-lt, div-add-mod', lt_of_mul-lt-mul_right, le_of_mul-le-mul_right, le-mul_of_pos_right,
}
use gigmile_test.Prelude.{
  ℕ, ◌+◌, ◌-◌, refl, ◌*◌, ◌/◌, ◌%◌, ◌^◌, ◌<◌, ◌≤◌, ◌≡◌, inl, inr, arith, Bool-cases, ltb,
  if◌then◌else◌,
}
use gigmile_test.Prelude.Int.{
  ℤ, pos, negsuc, pos_part, sub64, mul64, ◌-ℤ◌, ◌*ℤ◌, ◌≤ℤ◌, add64, quot64, rem64, wrap64, ◌+ℤ◌,
}
use gigmile_test.Service.Queries.{page_of, size_of, offset_of, total_pages_of}

-- `t` pages of `size` hold `n` payments, and no fewer pages do.
pub record IsPageCount (n size t : ℕ) : Type 0 where
  pub hold : n ≤ t * size
  pub least : (k : ℕ) → n ≤ k * size → t ≤ k

-- The bounds on the parameters hold whatever the client asked for.
pub size_of-bounds : (size : ℤ) → (pos 1 ≤ℤ size_of size) × (size_of size ≤ℤ pos 100)
size_of-bounds size = ground arith

pub page_of-bound : (page : ℤ) → pos 1 ≤ℤ page_of page
page_of-bound page = ground arith

-- A page has at least one payment.
few : (p n : ℕ) → 1 ≤ p → 1 ≤ n → (p - 1) * n < 2 ^ 63 → p < 2 ^ 63 + 1
few p n a b h = omega (arith, le-mul_of_pos_right {m = n} (p - 1) (omega arith))

page_before : (p : ℕ) → 1 ≤ p → p < 2 ^ 63 + 1 → sub64 (pos p) (pos 1) ≡ pos (p - 1)
unfolding sub64 wrap64 ◌-ℤ◌
page_before p h k = ground arith

product : (a b : ℕ) → a * b < 2 ^ 63 → mul64 (pos a) (pos b) ≡ pos (a * b)
unfolding mul64 wrap64 ◌*ℤ◌
product a b h = ground arith

-- The payments before a page fill the pages before it.
pub offset_of-eq :
    (page size : ℤ)
    → pos 1 ≤ℤ page
    → pos 1 ≤ℤ size
    → (pos_part page - 1) * pos_part size < 2 ^ 63
    → pos_part (offset_of page size) ≡ (pos_part page - 1) * pos_part size
unfolding offset_of
offset_of-eq (negsuc n) size first positive h = absurd (omega arith)
offset_of-eq (pos p) (negsuc n) first positive h = absurd (omega arith)
offset_of-eq (pos p) (pos n) first positive h =
    rw (page_before p (omega arith) (few p n (omega arith) (omega arith) h), product (p - 1) n h)
      refl

-- `q` full pages, and `r` payments on one more
some_more : (n size q r : ℕ) → q * size + r ≡ n → 0 < r → r < size → IsPageCount n size (q + 1)
some_more n size q r e more part = record {
  hold = omega arith;
  least = λ k h. omega (arith, lt_of_mul-lt-mul_right size {m = q} {n = k} (omega arith));
}

no_more : (n size q r : ℕ) → q * size + r ≡ n → r ≡ 0 → 0 < size → IsPageCount n size q
no_more n size q r e none_left part = record {
  hold = omega arith;
  least = λ k h. le_of_mul-le-mul_right {m = q} {n = k} {k = size} (omega arith) part;
}

total_pages_of-eq :
    (n size : ℕ)
    → 0 < size
    → n < 2 ^ 63
    → total_pages_of (pos n) (pos size) ≡ pos (if ltb 0 (n % size) then n / size + 1 else n / size)
unfolding total_pages_of quot64 rem64 add64 wrap64 ◌+ℤ◌
total_pages_of-eq n size h f =
    ground (arith, div-add-mod' n size, le-mul_of_pos_right {m = size} (n / size) h)

-- The number of pages is the number of payments over the size of a page, rounded up.
pub total_pages_of-IsPageCount :
    (n size : ℕ)
    → 0 < size
    → n < 2 ^ 63
    → (t : ℕ) × (total_pages_of (pos n) (pos size) ≡ pos t) × IsPageCount n size t
total_pages_of-IsPageCount n size h f = (
  if ltb 0 (n % size) then n / size + 1 else n / size,
  total_pages_of-eq n size h f,
  elim (Bool-cases (ltb 0 (n % size))) [
    | inl more ↦
        rw more
          (some_more n size (n / size) (n % size) (div-add-mod' n size) (ground arith) (mod-lt n h))
    | inr exact ↦
        rw exact (no_more n size (n / size) (n % size) (div-add-mod' n size) (ground arith) h)
  ],
)
