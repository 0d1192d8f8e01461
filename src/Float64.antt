-- ===== src/Float64.antt =====
-- Go's float64 (IEEE 754 binary64), as far as the service uses it: conversion from and to int64,
-- multiplication and division, each the exact result rounded to nearest, ties to even.
pub mod Exact
use gigmile_test.Prelude.{
  ℕ, zero, suc, ◌+◌, ◌-◌, ◌*◌, ◌/◌, ◌%◌, ◌^◌, Bool, true, false, not, ◌&&◌, ◌||◌, ltb, leb, ◌==◌,
  if◌then◌else◌,
}
use gigmile_test.Prelude.Int.{ℤ, pos, negsuc}

-- `finite neg m e` stands for ± m * 2^e / 2^1074. `m` is below 2^53, and at least 2^52 unless `e`
-- is 0; `e` is at most 2045.
pub data Float64 : Type 0 where
  nan : Float64
  inf : Bool → Float64
  finite : Bool → ℕ → ℕ → Float64

-- How often `x` is halved until it fits in 53 bits.
shift_for : ℕ → ℕ → ℕ
shift_for zero x = 0
shift_for (suc fuel) x = let rest = shift_for fuel (x / 2) in if ltb x (2 ^ 53) then 0 else suc rest

-- A mantissa that rounding took to 2^53 moves to the next exponent.
pack : Bool → ℕ → ℕ → Float64
pack neg m e =
    let carried = m == 2 ^ 53 in
    let e' = (if carried then e + 1 else e) in
    if ltb 2045 e' then inf neg else finite neg (if carried then 2 ^ 52 else m) e'

-- The float nearest to ± p / q, for 0 < q. Below 2^1024 the quotient of p * 2^1074 by q has at most
-- 2098 bits, so that 2098 halvings are enough.
unfoldable pub round_div : Bool → ℕ → ℕ → Float64
unfolding shift_for pack
round_div neg p q =
    let scaled = p * 2 ^ 1074 in
    let e = shift_for 2098 (scaled / q) in
    let unit = q * 2 ^ e in
    let m = scaled / unit in
    let rest = scaled % unit in
    let up = ltb unit (2 * rest) || (2 * rest == unit && m % 2 == 1) in
    if leb (2 ^ 1024) (p / q) then inf neg else pack neg (if up then m + 1 else m) e

-- float64(a) of an int64
unfoldable pub of_int64 : ℤ → Float64
unfolding round_div
of_int64 (pos n) = round_div false n 1
of_int64 (negsuc n) = round_div true (suc n) 1

differ : Bool → Bool → Bool
differ a b = if a then not b else b

unfoldable pub mul : Float64 → Float64 → Float64
unfolding round_div differ
mul (finite s m e) (finite t n f) = round_div (differ s t) (m * n * 2 ^ (e + f)) (2 ^ 2148)
mul (finite s m e) (inf t) = if m == 0 then nan else inf (differ s t)
mul (inf s) (finite t n f) = if n == 0 then nan else inf (differ s t)
mul (inf s) (inf t) = inf (differ s t)
mul nan _ = nan
mul _ nan = nan

unfoldable pub div : Float64 → Float64 → Float64
unfolding round_div differ
div (finite s m e) (finite t n f) =
    if n == 0
    then (if m == 0 then nan else inf (differ s t))
    else round_div (differ s t) (m * 2 ^ e) (n * 2 ^ f)
div (finite s m e) (inf t) = finite (differ s t) 0 0
div (inf s) (finite t n f) = inf (differ s t)
div (inf s) (inf t) = nan
div nan _ = nan
div _ nan = nan

-- int64(x): the fraction is dropped. Go leaves the result open where it does not fit; on amd64
-- it is -2^63.
unfoldable pub to_int64 : Float64 → ℤ
to_int64 (finite neg m e) =
    let n = m * 2 ^ e / 2 ^ 1074 in
    if neg
    then (if leb n (2 ^ 63)
        then (if n == 0 then pos 0 else negsuc (n - 1))
        else negsuc (2 ^ 63 - 1))
    else (if ltb n (2 ^ 63) then pos n else negsuc (2 ^ 63 - 1))
to_int64 _ = negsuc (2 ^ 63 - 1)
