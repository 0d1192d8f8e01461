-- ===== src/Tests/Stdlib.antt =====
-- Runs of the parsers of the standard library.
use gigmile_test.Prelude.{◌≡◌, refl, Option, none, some, true, codes}
use gigmile_test.Prelude.Int.{ℤ, pos, negsuc}
use gigmile_test.Float64
use gigmile_test.Float64.{Float64, nan, inf}
use gigmile_test.Stdlib.Atoi.{atoi}
use gigmile_test.Stdlib.ParseFloat.{parse_float}
use gigmile_test.Stdlib.ParseTime.{parse_time}

numbers :
    (atoi (codes "+007") ≡ some (pos 7))
    × (atoi (codes "-9223372036854775808") ≡ some (negsuc 9223372036854775807))
    × (atoi (codes "9223372036854775808") ≡ none)
    × (atoi (codes "1_0") ≡ none)
    × (atoi (codes "-") ≡ none)
unfolding atoi
numbers = (refl, refl, refl, refl, refl)

-- The float of a text, as an int64 of its hundredfold.
abbrev hundredfold : Option Float64 → Option ℤ
unfolding Float64.to_int64 Float64.mul Float64.of_int64
hundredfold none = none
hundredfold (some x) = some (Float64.to_int64 (Float64.mul x (Float64.of_int64 (pos 100))))

floats :
    (hundredfold (parse_float (codes "10000")) ≡ some (pos 1000000))
    × (hundredfold (parse_float (codes "0.29")) ≡ some (pos 28))
    × (hundredfold (parse_float (codes "1_23.50_0_0e+1_2")) ≡ some (pos 12350000000000000))
    × (hundredfold (parse_float (codes "0x_1_2.3_4_5p+1_2")) ≡ some (pos 7456500))
    × (parse_float (codes "1__2") ≡ none)
    × (parse_float (codes "1e309") ≡ none)
    × (parse_float (codes "-Infinity") ≡ some (inf true))
    × (parse_float (codes "NaN") ≡ some nan)
    × (parse_float (codes "0x1") ≡ none)
    × (parse_float (codes "1e") ≡ none)
unfolding parse_float hundredfold
floats = (refl, refl, refl, refl, refl, refl, refl, refl, refl, refl)

-- 2025-11-24 14:54:16 is 1763996056 seconds after 1970, and that 62135596800 after the year 1.
times :
    (parse_time (codes "2025-11-24 14:54:16") ≡ some (pos 63899592856000000000))
    × (parse_time (codes "2025-11-24   4:54:16.5") ≡ some (pos 63899556856500000000))
    × (parse_time (codes "2025-02-29 00:00:00") ≡ none)
    × (parse_time (codes "2025/11/24 14:54:16") ≡ none)
    × (parse_time (codes "0001-01-01 00:00:00") ≡ some (pos 0))
unfolding parse_time
times = (refl, refl, refl, refl, refl)
