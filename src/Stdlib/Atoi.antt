-- ===== src/Stdlib/Atoi.antt =====
-- `strconv.Atoi`, with 64 bits. Any error is `none`.
use gigmile_test.Prelude.{
  ℕ, ◌+◌, ◌-◌, ◌*◌, ◌^◌, Option, none, some, List, [], ◌∷◌, leb, ◌==◌, if◌then◌else◌,
}
use gigmile_test.Prelude.Int.{ℤ, pos, sub_ℕ}
use gigmile_test.Stdlib.Digits.{is_digit}

-- The number that the digits spell behind `n`.
unfoldable pub digits_from : List ℕ → ℕ → Option ℕ
digits_from [] n = some n
digits_from (c ∷ s) n = if is_digit c then digits_from s (n * 10 + (c - b'0')) else none

-- at least one digit
abbrev pub magnitude_of : List ℕ → Option ℕ
magnitude_of [] = none
magnitude_of (c ∷ s) = digits_from (c ∷ s) 0

abbrev pub within : ℕ → Option ℕ → Option ℕ
within most none = none
within most (some n) = if leb n most then some n else none

abbrev pub positive : Option ℕ → Option ℤ
positive none = none
positive (some n) = some (pos n)

abbrev pub negative : Option ℕ → Option ℤ
negative none = none
negative (some n) = some (sub_ℕ 0 n)

unfoldable pub atoi : List ℕ → Option ℤ
unfolding digits_from
atoi [] = none
atoi (c ∷ s) =
    if c == b'-'
    then negative (within (2 ^ 63) (magnitude_of s))
    else if c == b'+'
    then positive (within (2 ^ 63 - 1) (magnitude_of s))
    else positive (within (2 ^ 63 - 1) (magnitude_of (c ∷ s)))
