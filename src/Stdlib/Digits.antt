-- ===== src/Stdlib/Digits.antt =====
-- Decimal and hexadecimal digits.
use gigmile_test.Prelude.{ℕ, ◌+◌, ◌-◌, Bool, ◌&&◌, Option, none, some, leb, if◌then◌else◌}

abbrev pub is_digit : ℕ → Bool
is_digit c = leb b'0' c && leb c b'9'

-- The letters A to Z in lower case.
abbrev pub lower : ℕ → ℕ
lower c = if leb b'A' c && leb c b'Z' then c + 32 else c

-- The value of a digit; the letters count where `hex` holds.
abbrev pub digit_of : Bool → ℕ → Option ℕ
digit_of hex c =
    if is_digit c
    then some (c - b'0')
    else if hex && (leb b'a' (lower c) && leb (lower c) b'f')
    then some (lower c - b'a' + 10)
    else none
