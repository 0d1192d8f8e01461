-- ===== src/Domain/Time.antt =====
-- Instants, as the domain's entities hold them.
use gigmile_test.Prelude.{Bool}
use gigmile_test.Prelude.Int.{ℤ, pos, is_zero}

-- A `time.Time`: nanoseconds since the first of January of the year 1, UTC, which is the zero value.
abbrev pub Time : Type 0
Time = ℤ

abbrev pub zero_time : Time
zero_time = pos 0

-- `t.IsZero()`
abbrev pub is_zero_time : Time → Bool
is_zero_time t = is_zero t
