-- ===== src/Stdlib/ParseFloat/Whole.antt =====
-- The float of a text that is digits only is the number that they spell.
use gigmile_test.Prelude.{
  ℕ, ◌+◌, ◌-◌, ◌*◌, ◌^◌, ◌<◌, ◌≡◌, refl, inl, inr, Bool, true, false, none, some, List, [], ◌∷◌,
  arith, leb, ◌==◌, Bool-cases,
}
use gigmile_test.Prelude.Int.{pos}
use gigmile_test.Float64.{Float64}
use gigmile_test.Float64.Exact.{Represents, round_div-Represents}
use gigmile_test.Stdlib.Digits.{is_digit, lower}
use gigmile_test.Stdlib.Atoi.{digits_from}
use gigmile_test.Stdlib.ParseFloat.{
  Digits, no_digits, add_char, scan_mantissa, sign_of, has_prefix, in_range, assemble, finish,
  special, parse_number, parse_float,
}

first_digit :
    (c : ℕ) (s : List ℕ) (n v : ℕ)
    → digits_from (c ∷ s) n ≡ some v
    → (is_digit c ≡ true) × (digits_from s (n * 10 + (c - b'0')) ≡ some v)
unfolding digits_from
first_digit c s n v h = elim (Bool-cases (is_digit c)) [
  | inl digit ↦ (digit, rw digit at h)
  | inr other ↦ absurd (cc (rw other at h))
]

-- The state of the scan behind digits only.
abbrev after_digits : ℕ → Bool → Digits
after_digits n digit = record {
  mantissa = n;
  fraction = 0;
  dot = false;
  digit = digit;
  underscore = false;
}

add_char-digit :
    (c n : ℕ) (digit : Bool)
    → is_digit c ≡ true
    → add_char false (after_digits n digit) c ≡ some (after_digits (n * 10 + (c - b'0')) true)
unfolding add_char
add_char-digit c n digit h =
    let no_underscore : (c == b'_') ≡ false = ground arith in
    let no_dot : (c == b'.') ≡ false = ground arith in rw (no_underscore, no_dot, h) refl

scan_digits :
    (s : List ℕ) (n v : ℕ)
    → digits_from s n ≡ some v
    → scan_mantissa false s (after_digits n true) ≡ (after_digits v true, [])
unfolding scan_mantissa digits_from
scan_digits [] n v h = let same : n ≡ v = cc h in rw same refl
scan_digits (c ∷ s) n v h =
    let (digit, rest) = first_digit c s n v h in
    rw (add_char-digit c n true digit, scan_mantissa) (scan_digits s (n * 10 + (c - b'0')) v rest)

scan_text :
    (c : ℕ) (s : List ℕ) (v : ℕ)
    → digits_from (c ∷ s) 0 ≡ some v
    → scan_mantissa false (c ∷ s) no_digits ≡ (after_digits v true, [])
unfolding scan_mantissa
scan_text c s v h =
    let (digit, rest) = first_digit c s 0 v h in
    rw (add_char-digit c 0 false digit, scan_mantissa) (scan_digits s (0 * 10 + (c - b'0')) v rest)

in_range-Represents :
    (v : ℕ) (x : Float64) → Represents v x → (y : Float64) × (in_range x ≡ some y) × Represents v y
in_range-Represents v x h = (x, rw h.shape refl, h)

assembled :
    (v : ℕ)
    → v < 2 ^ 53
    → (x : Float64) × (assemble false false (after_digits v true) (pos 0) ≡ some x) × Represents v x
unfolding assemble
assembled v small = in_range-Represents v _ (round_div-Represents v 1 small (omega arith))

unsigned : (c : ℕ) (s : List ℕ) → is_digit c ≡ true → sign_of (c ∷ s) ≡ (false, c ∷ s)
unsigned c s h =
    let no_minus : (c == b'-') ≡ false = ground arith in
    let no_plus : (c == b'+') ≡ false = ground arith in rw (no_minus, no_plus) refl

no_x : (x : ℕ) → is_digit x ≡ true → (lower x == b'x') ≡ false
no_x x h =
    let small : leb b'A' x ≡ false = ground arith in
    let other : (x == b'x') ≡ false = ground arith in rw (small, other) refl

decimal :
    (c : ℕ) (s : List ℕ) (n v : ℕ) → digits_from (c ∷ s) n ≡ some v → has_prefix (c ∷ s) ≡ false
decimal c [] n v h = refl
decimal c (x ∷ []) n v h = refl
decimal c (x ∷ d ∷ s) n v h =
    let (_, rest) = first_digit c (x ∷ d ∷ s) n v h in
    let (digit, _) = first_digit x (d ∷ s) (n * 10 + (c - b'0')) v rest in
    elim (Bool-cases (c == b'0')) [
      | inl nought ↦ rw (nought, no_x x digit) refl
      | inr other ↦ rw other refl
    ]

ordinary : (c : ℕ) (s : List ℕ) → is_digit c ≡ true → special (c ∷ s) ≡ none
unfolding special
ordinary c s h =
    let small : leb b'A' c ≡ false = ground arith in
    let no_i : (c == b'i') ≡ false = ground arith in
    let no_n : (c == b'n') ≡ false = ground arith in rw (unsigned c s h, small, no_i, no_n) refl

number_read :
    (c : ℕ) (s : List ℕ) (v : ℕ) (x : Float64)
    → is_digit c ≡ true
    → digits_from (c ∷ s) 0 ≡ some v
    → assemble false false (after_digits v true) (pos 0) ≡ some x
    → parse_number (c ∷ s) ≡ some x
unfolding parse_number finish
number_read c s v x digit h made =
    rw (unsigned c s digit, decimal c s 0 v h, scan_text c s v h) made

pub parse_float-Represents :
    (c : ℕ) (s : List ℕ) (v : ℕ)
    → digits_from (c ∷ s) 0 ≡ some v
    → v < 2 ^ 53
    → (x : Float64) × (parse_float (c ∷ s) ≡ some x) × Represents v x
unfolding parse_float
parse_float-Represents c s v h small =
    let (digit, _) = first_digit c s 0 v h in
    let (x, made, it) = assembled v small in
    (x, rw (ordinary c s digit, parse_float) (number_read c s v x digit h made), it)
