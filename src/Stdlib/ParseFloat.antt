-- ===== src/Stdlib/ParseFloat.antt =====
-- `strconv.ParseFloat(s, 64)`: the texts that it accepts, and the nearest float. Any error is `none`,
-- one of range included.
pub mod Whole
use gigmile_test.Prelude.{
  ℕ, ◌+◌, ◌-◌, ◌*◌, ◌^◌, Bool, true, false, not, ◌&&◌, ◌||◌, Option, none, some, List, [], ◌∷◌, map,
  leb, ◌==◌, codes, if◌then◌else◌,
}
use gigmile_test.Float64
use gigmile_test.Float64.{Float64, nan, inf, finite}
use gigmile_test.Prelude.Int.{ℤ, pos, sub_ℕ, pos_part, neg_part}
use gigmile_test.Stdlib.Digits.{is_digit, lower, digit_of}

-- The digits read so far: their value, how many stand behind the point, and what was seen.
pub record Digits : Type 0 where
  pub mantissa : ℕ
  pub fraction : ℕ
  pub dot : Bool
  pub digit : Bool
  pub underscore : Bool

abbrev pub no_digits : Digits
no_digits = record { mantissa = 0; fraction = 0; dot = false; digit = false; underscore = false }

abbrev pub add_digit : Bool → Digits → Option ℕ → Option Digits
add_digit hex d none = none
add_digit hex d (some v) = some (record d {
  mantissa = d.mantissa * (if hex then 16 else 10) + v;
  fraction = if d.dot then d.fraction + 1 else d.fraction;
  digit = true;
})

-- One round of the loop over the mantissa; `none` ends it.
unfoldable pub add_char : Bool → Digits → ℕ → Option Digits
add_char hex d c =
    if c == b'_'
    then some (record d { underscore = true })
    else if c == b'.'
    then (if d.dot then none else some (record d { dot = true }))
    else add_digit hex d (digit_of hex c)

unfoldable pub scan_mantissa : Bool → List ℕ → Digits → Digits × List ℕ
unfolding add_char
scan_mantissa hex [] d = (d, [])
scan_mantissa hex (c ∷ s) d = elim (add_char hex d c) [
  | none ↦ (d, c ∷ s)
  | some d' ↦ scan_mantissa hex s d'
]

-- The digits of the exponent. They stop counting at 10000 and more.
unfoldable pub scan_exponent : List ℕ → ℕ → Bool → ℕ × Bool × List ℕ
scan_exponent [] e underscore = (e, underscore, [])
scan_exponent (c ∷ s) e underscore = elim (is_digit c || c == b'_') [
  | false ↦ (e, underscore, c ∷ s)
  | true ↦
      scan_exponent s (if c == b'_' || leb 10000 e then e else e * 10 + (c - b'0'))
        (underscore || c == b'_')
]

-- A sign in front, if there is one.
abbrev pub sign_of : List ℕ → Bool × List ℕ
sign_of [] = (false, [])
sign_of (c ∷ s) = if c == b'-' then (true, s) else if c == b'+' then (false, s) else (false, c ∷ s)

-- What follows the letter of the exponent: a sign, and at least one digit.
unfoldable pub exponent_of : List ℕ → Option (ℤ × Bool × List ℕ)
unfolding scan_exponent
exponent_of s =
    let (neg, t) = sign_of s in
    let starts : Bool = elim t [ [] ↦ false | c ∷ t' ↦ is_digit c ] in
    let (e, underscore, rest) = scan_exponent t 0 false in
    if starts then some (if neg then sub_ℕ 0 e else pos e, underscore, rest) else none

-- `underscoreOK` behind the sign and the prefix: an underscore stands between digits. `saw` is `-` at the
-- start, `0` behind a digit or the prefix, `_` and `!` behind an underscore and any other.
unfoldable pub underscores_ok : Bool → List ℕ → ℕ → Bool
underscores_ok hex [] saw = not (saw == b'_')
underscores_ok hex (c ∷ s) saw =
    let is_figure = is_digit c || hex && (leb b'a' (lower c) && leb (lower c) b'f') in
    let bad = not is_figure && (if c == b'_' then not (saw == b'0') else saw == b'_') in
    not bad && underscores_ok hex s (if is_figure then b'0' else if c == b'_' then b'_' else b'!')

-- `0x`, with something behind it
abbrev pub has_prefix : List ℕ → Bool
has_prefix (a ∷ x ∷ d ∷ s) = a == b'0' && lower x == b'x'
has_prefix _ = false

abbrev pub behind_prefix : List ℕ → List ℕ
behind_prefix (a ∷ x ∷ s) = s
behind_prefix _ = []

-- The float nearest to ± mantissa * base ^ -fraction * b ^ exponent, if it is finite.
abbrev pub in_range : Float64 → Option Float64
in_range (finite neg m e) = some (finite neg m e)
in_range _ = none

unfoldable pub assemble : Bool → Bool → Digits → ℤ → Option Float64
unfolding Float64.round_div
assemble hex neg d e =
    let base = (if hex then 2 else 10) in
    in_range (
      Float64.round_div neg (d.mantissa * base ^ pos_part e)
        ((if hex then 16 else 10) ^ d.fraction * base ^ neg_part e))

-- The mantissa is read; the exponent may follow, and must where `hex` holds. Nothing may stand behind
-- it.
unfoldable pub finish : Bool → Bool → List ℕ → Digits → List ℕ → Option Float64
unfolding assemble exponent_of underscores_ok
finish hex neg unsigned d [] =
    if hex || not d.digit
    then none
    else if d.underscore && not (underscores_ok hex unsigned b'-')
    then none
    else assemble hex neg d (pos 0)
finish hex neg unsigned d (c ∷ s) =
    if not d.digit || not (lower c == (if hex then b'p' else b'e'))
    then none
    else elim (exponent_of s) [
      | none ↦ none
      | some (e, underscore, []) ↦
          if (d.underscore || underscore)
            && not (underscores_ok hex unsigned (if hex then b'0' else b'-'))
          then none
          else assemble hex neg d e
      | some (e, underscore, c' ∷ rest) ↦ none
    ]

abbrev pub eq_codes : List ℕ → List ℕ → Bool
eq_codes [] [] = true
eq_codes (x ∷ xs) (y ∷ ys) = x == y && eq_codes xs ys
eq_codes _ _ = false

-- `special`: infinities with a sign or without, and "nan", in any case.
unfoldable pub special : List ℕ → Option Float64
special s =
    let (neg, t) = sign_of s in
    let word = map lower t in
    if eq_codes word (codes "inf") || eq_codes word (codes "infinity")
    then some (inf neg)
    else if eq_codes (map lower s) (codes "nan")
    then some nan
    else none

unfoldable pub parse_number : List ℕ → Option Float64
unfolding scan_mantissa finish
parse_number s =
    let (neg, t) = sign_of s in
    let hex = has_prefix t in
    let body = (if hex then behind_prefix t else t) in
    let (d, rest) = scan_mantissa hex body no_digits in finish hex neg body d rest

unfoldable pub parse_float : List ℕ → Option Float64
unfolding special parse_number
parse_float s = elim (special s) [ some x ↦ some x | none ↦ parse_number s ]
