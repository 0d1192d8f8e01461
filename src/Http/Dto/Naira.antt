-- ===== src/Http/Dto/Naira.antt =====
-- An amount of whole naira: no kobo is lost on the way through the float.
use gigmile_test.Prelude.{ℕ, ◌*◌, ◌^◌, ◌<◌, ◌≡◌, ◌≢◌, refl, ap, some, List, [], ◌∷◌, arith, codes}
use gigmile_test.Prelude.Int.{ℤ, pos}
use gigmile_test.Float64
use gigmile_test.Float64.{Float64}
use gigmile_test.Float64.Exact.{
  Represents, of_int64-Represents, mul-Represents, to_int64-Represents,
}
use gigmile_test.Result.{ok}
use gigmile_test.Stdlib.Atoi.{digits_from}
use gigmile_test.Stdlib.ParseFloat.{parse_float}
use gigmile_test.Stdlib.ParseFloat.Whole.{parse_float-Represents}
use gigmile_test.Http.Dto.{PaymentRequest, kobo, kobo_of, get_amount_in_kobo}

hundredfold : (v : ℕ) (x : Float64) → v * 100 < 2 ^ 53 → Represents v x → kobo x ≡ pos (v * 100)
unfolding kobo
hundredfold v x small h = to_int64-Represents (v * 100) _ small (
    mul-Represents v 100 x (Float64.of_int64 (pos 100)) small h
      (of_int64-Represents 100 (omega arith)))

kobo_of_text :
    (text : List ℕ) (v : ℕ)
    → text ≢ []
    → digits_from text 0 ≡ some v
    → v * 100 < 2 ^ 53
    → kobo_of (parse_float text) ≡ ok (pos (v * 100))
kobo_of_text [] v given h small = absurd (given refl)
kobo_of_text (c ∷ s) v given h small =
    let (x, parsed, it) = parse_float-Represents c s v h (omega arith) in
    rw parsed (ap (λ (n : ℤ). ok n) (hundredfold v x small it))

-- An amount that is given as decimal digits, of v naira with v * 100 below 2^53, is read as
-- exactly v * 100 kobo, although it passes through a float.
pub get_amount_in_kobo-exact :
    (r : PaymentRequest) (v : ℕ)
    → codes r.transaction_amount ≢ []
    → digits_from (codes r.transaction_amount) 0 ≡ some v
    → v * 100 < 2 ^ 53
    → get_amount_in_kobo r ≡ ok (pos (v * 100))
unfolding get_amount_in_kobo
get_amount_in_kobo-exact r v given h small =
    kobo_of_text (codes r.transaction_amount) v given h small
