-- ===== src/Stdlib/ParseTime.antt =====
-- `time.Parse("2006-01-02 15:04:05", s)`, in UTC. Any error is `none`.
use gigmile_test.Prelude.{
  ℕ, zero, suc, ◌+◌, ◌-◌, ◌*◌, ◌/◌, ◌%◌, ◌^◌, Bool, true, false, not, ◌&&◌, ◌||◌, Option, none,
  some, List, [], ◌∷◌, ltb, leb, ◌==◌, if◌then◌else◌,
}
use gigmile_test.Prelude.Int.{sub_ℕ}
use gigmile_test.Domain.Time.{Time}
use gigmile_test.Stdlib.Digits.{is_digit}

-- What is read of a text, and the rest.
abbrev pub Reader : Type 0 → Type 0
Reader A = List ℕ → Option (A × List ℕ)

infixl 5 ◌>>=◌ ◌>>◌
abbrev pub ◌>>=◌ : {A B : Type 0} → Reader A → (A → Reader B) → Reader B
◌>>=◌ m f s = elim (m s) [ none ↦ none | some (a, rest) ↦ f a rest ]

abbrev pub ◌>>◌ : {A B : Type 0} → Reader A → Reader B → Reader B
m >> k = m >>= λ _. k

abbrev pub give : {A : Type 0} → A → Reader A
give a s = some (a, s)

abbrev pub require : Bool → Reader (Unit {0})
require true s = some (tt, s)
require false s = none

abbrev pub value_of : ℕ → ℕ
value_of c = c - b'0'

-- "2006": four digits
unfoldable pub year4 : Reader ℕ
year4 (a ∷ b ∷ c ∷ d ∷ s) =
    if is_digit a && is_digit b && is_digit c && is_digit d
    then some (value_of a * 1000 + value_of b * 100 + value_of c * 10 + value_of d, s)
    else none
year4 _ = none

-- `getnum`: two digits; or one, unless they are `fixed`
unfoldable pub getnum : Bool → Reader ℕ
getnum fixed [] = none
getnum fixed (a ∷ []) = if is_digit a && not fixed then some (value_of a, []) else none
getnum fixed (a ∷ b ∷ s) =
    if not (is_digit a)
    then none
    else if is_digit b
    then some (value_of a * 10 + value_of b, s)
    else if fixed
    then none
    else some (value_of a, b ∷ s)

-- `skip` of a character other than a blank
unfoldable pub skip : ℕ → Reader (Unit {0})
skip c [] = none
skip c (a ∷ s) = if a == c then some (tt, s) else none

unfoldable pub cut_blanks : List ℕ → List ℕ
cut_blanks [] = []
cut_blanks (c ∷ s) = elim (c == b' ') [ true ↦ cut_blanks s | false ↦ c ∷ s ]

-- `skip` of a blank: any number of them, but one at least where something follows
unfoldable pub skip_blank : Reader (Unit {0})
unfolding cut_blanks
skip_blank [] = some (tt, [])
skip_blank (c ∷ s) = if c == b' ' then some (tt, cut_blanks s) else none

-- The digits of a fraction: those that count, nine at most, as a number of nanoseconds.
unfoldable pub fraction : List ℕ → ℕ → ℕ → ℕ × List ℕ
fraction [] unit n = (n, [])
fraction (c ∷ s) unit n = elim (is_digit c) [
  | false ↦ (n, c ∷ s)
  | true ↦ fraction s (unit / 10) (n + value_of c * unit)
]

-- A fraction behind the seconds is accepted though the layout has none.
unfoldable pub nanoseconds : Reader ℕ
unfolding fraction
nanoseconds (p ∷ c ∷ s) =
    if (p == b'.' || p == b',') && is_digit c
    then some (fraction (c ∷ s) (10 ^ 8) 0)
    else some (0, p ∷ c ∷ s)
nanoseconds s = some (0, s)

abbrev pub is_leap : ℕ → Bool
is_leap y = y % 4 == 0 && (not (y % 100 == 0) || y % 400 == 0)

abbrev pub days_in : ℕ → ℕ → ℕ
days_in m y =
    if m == 2
    then (if is_leap y then 29 else 28)
    else if (m == 4) || (m == 6) || (m == 9) || (m == 11)
    then 30
    else 31

-- The days from the first of January of the year 0 to that of `y`, and to the first of the month.
abbrev pub days_before_year : ℕ → ℕ
days_before_year y = y * 365 + (y + 3) / 4 + (y + 399) / 400 - (y + 99) / 100

unfoldable pub days_before_month : ℕ → ℕ → ℕ
days_before_month zero y = 0
days_before_month (suc m) y = (if m == 0 then 0 else days_before_month m y + days_in m y)

pub record Civil : Type 0 where
  pub year : ℕ
  pub month : ℕ
  pub day : ℕ
  pub hour : ℕ
  pub minute : ℕ
  pub second : ℕ
  pub nanosecond : ℕ

-- The year 0 has 366 days.
unfoldable pub instant : Civil → Time
unfolding days_before_month
instant t =
    let days = days_before_year t.year + days_before_month t.month t.year + t.day - 1 in
    let seconds = ((days * 24 + t.hour) * 60 + t.minute) * 60 + t.second in
    sub_ℕ (seconds * 10 ^ 9 + t.nanosecond) (366 * 86400 * 10 ^ 9)

-- The layout's parts in turn, with their ranges; the day is compared with the month at the end.
unfoldable pub civil : Reader Civil
unfolding year4 getnum skip skip_blank nanoseconds
civil = do
  year ← year4
  skip b'-'
  month ← getnum true
  require (leb 1 month && leb month 12)
  skip b'-'
  day ← getnum true
  skip_blank
  hour ← getnum false
  require (ltb hour 24)
  skip b':'
  minute ← getnum true
  require (ltb minute 60)
  skip b':'
  second ← getnum true
  require (ltb second 60)
  nanosecond ← nanoseconds
  give (record {
    year = year;
    month = month;
    day = day;
    hour = hour;
    minute = minute;
    second = second;
    nanosecond = nanosecond;
  })

unfoldable pub whole : Option (Civil × List ℕ) → Option Time
unfolding instant
whole none = none
whole (some (t, c ∷ rest)) = none
whole (some (t, [])) =
    if leb 1 t.day && leb t.day (days_in t.month t.year) then some (instant t) else none

unfoldable pub parse_time : List ℕ → Option Time
unfolding civil whole
parse_time s = whole (civil s)
