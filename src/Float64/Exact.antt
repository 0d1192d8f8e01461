-- ===== src/Float64/Exact.antt =====
-- Whole numbers below 2^53 are floats, and stay exact.
use gigmile_test.Prelude.{
  ℕ, zero, suc, ◌+◌, ◌-◌, ◌*◌, ◌/◌, ◌%◌, ◌^◌, ◌≤◌, ◌<◌, ◌≡◌, refl, sym, ap, ◌∙◌, inl, inr, Bool,
  true, false, ◌&&◌, ◌||◌, ltb, leb, ◌==◌, arith, Bool-cases, lt→ltb, if◌then◌else◌,
}
use native.Mathlib.Nat.{
  pow-suc, mul-div_cancel, mul-mod_left, div-div-eq-div-mul, one-le-pow, pow-zero, pow-succ',
  mul-one, div-one, mul-le-mul, mul_assoc, mul_comm,
}
use gigmile_test.Prelude.Int.{pos}
use gigmile_test.Float64.{
  Float64, finite, inf, shift_for, pack, round_div, mul, of_int64, to_int64, differ,
}

pow-add : (b m n : ℕ) → b ^ (m + n) ≡ b ^ m * b ^ n
pow-add b m zero =
    let none_more : m + 0 ≡ m = omega arith in rw (none_more, pow-zero b) (sym (mul-one (b ^ m)))
pow-add b m (suc n) =
    let one_more : m + suc n ≡ suc (m + n) = omega arith in
    ap (λ (k : ℕ). b ^ k) one_more
    ∙ (pow-suc b (m + n)
        ∙ (ap (λ (t : ℕ). t * b) (pow-add b m n)
            ∙ (mul_assoc (b ^ m) (b ^ n) b ∙ ap (λ (t : ℕ). b ^ m * t) (sym (pow-suc b n)))))

half_and_on : (x k : ℕ) → x / 2 / 2 ^ k ≡ x / 2 ^ suc k
half_and_on x k = div-div-eq-div-mul x 2 (2 ^ k) ∙ ap (λ (t : ℕ). x / t) (sym (pow-succ' 2 k))

-- No more halvings than are needed.
shift_for_least : (fuel k x : ℕ) → x / 2 ^ k < 2 ^ 53 → shift_for fuel x ≤ k
unfolding shift_for
shift_for_least zero k x h = omega arith
shift_for_least (suc fuel) zero x h =
    let small : ltb x (2 ^ 53) ≡ true =
      lt→ltb x (2 ^ 53) (rw (div-one x) at rw (pow-zero 2) at h) in
    rw small (omega arith)
shift_for_least (suc fuel) (suc k) x h = elim (Bool-cases (ltb x (2 ^ 53))) [
  | inl small ↦ rw small (omega arith)
  | inr big ↦
      let rest = shift_for_least fuel k (x / 2) (rw (half_and_on x k) h) in
      rw big (omega (arith, rest))
]

two_pow_pos : (n : ℕ) → 0 < 2 ^ n
two_pow_pos n = one-le-pow n 2 (omega arith)

-- A float that is the whole number `v`.
pub record Represents (v : ℕ) (x : Float64) : Type 0 where
  pub m : ℕ
  pub e : ℕ
  pub shape : x ≡ finite false m e
  pub value : m * 2 ^ e ≡ v * 2 ^ 1074

carry : (p : ℕ) → 2 ^ 52 * (p * 2) ≡ 2 ^ 53 * p
carry p = omega arith

divided : (v q : ℕ) → 0 < q → v * q * 2 ^ 1074 / q ≡ v * 2 ^ 1074
divided v q positive =
    ap (λ (k : ℕ). k / q)
      (mul_assoc v q (2 ^ 1074)
        ∙ (ap (λ (k : ℕ). v * k) (mul_comm q (2 ^ 1074)) ∙ sym (mul_assoc v (2 ^ 1074) q)))
    ∙ mul-div_cancel (v * 2 ^ 1074) positive

regroup : (a b c d : ℕ) → a * b * (c * d) ≡ a * c * (b * d)
regroup a b c d =
    mul_assoc a b (c * d)
    ∙ (ap (λ (k : ℕ). a * k)
          (sym (mul_assoc b c d) ∙ (ap (λ (k : ℕ). k * d) (mul_comm b c) ∙ mul_assoc c b d))
        ∙ sym (mul_assoc a c (b * d)))

-- The steps of the rounding where nothing is left over.
pack-Represents : (v m e : ℕ) → e ≤ 1074 → m * 2 ^ e ≡ v * 2 ^ 1074 → Represents v (pack false m e)
unfolding pack
pack-Represents v m e small value = elim (Bool-cases (m == 2 ^ 53)) [
  | inl carried ↦
      let all : m ≡ 2 ^ 53 = ground arith in
      let fits : ltb 2045 (e + 1) ≡ false = ground arith in
      let double : 2 ^ (e + 1) ≡ 2 ^ e * 2 = pow-add 2 e 1 in
      rw (carried, fits)
        (record {
          m = 2 ^ 52;
          e = e + 1;
          shape = refl;
          value = rw double (carry (2 ^ e) ∙ (ap (λ (k : ℕ). k * 2 ^ e) (sym all) ∙ value));
        })
  | inr kept ↦
      let fits : ltb 2045 e ≡ false = ground arith in
      rw (kept, fits) (record { m = m; e = e; shape = refl; value = value })
]

exact_steps :
    (v unit m e scaled : ℕ) (beyond : Bool)
    → beyond ≡ false
    → scaled / unit ≡ m
    → scaled % unit ≡ 0
    → 0 < unit
    → e ≤ 1074
    → m * 2 ^ e ≡ v * 2 ^ 1074
    → let n = scaled / unit in
      let rest = scaled % unit in
      let up = ltb unit (2 * rest) || (2 * rest == unit && n % 2 == 1) in
      Represents v (if beyond then inf false else pack false (if up then n + 1 else n) e)
exact_steps v unit m e scaled beyond within quotient rest positive small value =
    let below : ltb unit (2 * 0) ≡ false = ground arith in
    let apart : (2 * 0 == unit) ≡ false = ground arith in
    rw (within, rest, quotient, below, apart) (pack-Represents v m e small value)

-- `v` times the powers of two that are left after `e` halvings
factored : (v q e : ℕ) → e ≤ 1074 → v * q * 2 ^ 1074 ≡ v * 2 ^ (1074 - e) * (q * 2 ^ e)
factored v q e small =
    let split : 1074 ≡ (1074 - e) + e = omega arith in
    let power : 2 ^ 1074 ≡ 2 ^ (1074 - e) * 2 ^ e =
      ap (λ (k : ℕ). 2 ^ k) split ∙ pow-add 2 (1074 - e) e in
    ap (λ (k : ℕ). v * q * k) power ∙ regroup v q (2 ^ (1074 - e)) (2 ^ e)

weighed : (v e : ℕ) → e ≤ 1074 → v * 2 ^ (1074 - e) * 2 ^ e ≡ v * 2 ^ 1074
weighed v e small =
    let split : (1074 - e) + e ≡ 1074 = omega arith in
    mul_assoc v (2 ^ (1074 - e)) (2 ^ e)
    ∙ ap (λ (k : ℕ). v * k) (sym (pow-add 2 (1074 - e) e) ∙ ap (λ (k : ℕ). 2 ^ k) split)

-- The rounding after `e` halvings, for any `e` that is no more than needed.
rounded :
    (v q e : ℕ)
    → v < 2 ^ 53
    → 0 < q
    → e ≤ 1074
    → let scaled = v * q * 2 ^ 1074 in
      let unit = q * 2 ^ e in
      let n = scaled / unit in
      let rest = scaled % unit in
      let up = ltb unit (2 * rest) || (2 * rest == unit && n % 2 == 1) in
      Represents v
        (if leb (2 ^ 1024) (v * q / q) then inf false else pack false (if up then n + 1 else n) e)
rounded v q e small positive least =
    let unit_pos : 0 < q * 2 ^ e = mul-le-mul positive (two_pow_pos e) in
    let same = factored v q e least in
    let whole : leb (2 ^ 1024) (v * q / q) ≡ false =
      ap (leb (2 ^ 1024)) (mul-div_cancel v positive) ∙ ground arith in
    exact_steps v (q * 2 ^ e) (v * 2 ^ (1074 - e)) e (v * q * 2 ^ 1074) (leb (2 ^ 1024) (v * q / q))
      whole (ap (λ (k : ℕ). k / (q * 2 ^ e)) same ∙ mul-div_cancel (v * 2 ^ (1074 - e)) unit_pos)
      (ap (λ (k : ℕ). k % (q * 2 ^ e)) same ∙ mul-mod_left (v * 2 ^ (1074 - e)) (q * 2 ^ e))
      unit_pos least (weighed v e least)

halvings : (v q : ℕ) → v < 2 ^ 53 → 0 < q → shift_for 2098 (v * q * 2 ^ 1074 / q) ≤ 1074
halvings v q small positive =
    shift_for_least 2098 1074 (v * q * 2 ^ 1074 / q)
      (rw (divided v q positive, mul-div_cancel v (two_pow_pos 1074)) small)

-- The rounding of p / q where it is `v` exactly.
pub round_div-Represents : (v q : ℕ) → v < 2 ^ 53 → 0 < q → Represents v (round_div false (v * q) q)
unfolding round_div
round_div-Represents v q small positive =
    rounded v q (shift_for 2098 (v * q * 2 ^ 1074 / q)) small positive (halvings v q small positive)

pub of_int64-Represents : (n : ℕ) → n < 2 ^ 53 → Represents n (of_int64 (pos n))
unfolding of_int64
of_int64-Represents n small =
    let whole : Represents n (round_div false (n * 1) 1) =
      round_div-Represents n 1 small (omega arith) in
    rw (mul-one n) at whole

-- A product that is below 2^53 is exact.
product :
    (v w m e n f : ℕ)
    → m * 2 ^ e ≡ v * 2 ^ 1074
    → n * 2 ^ f ≡ w * 2 ^ 1074
    → m * n * 2 ^ (e + f) ≡ v * w * 2 ^ 2148
product v w m e n f a b =
    ap (λ (k : ℕ). m * n * k) (pow-add 2 e f)
    ∙ (regroup m n (2 ^ e) (2 ^ f)
        ∙ (ap (λ (k : ℕ). k * (n * 2 ^ f)) a
            ∙ (ap (λ (k : ℕ). v * 2 ^ 1074 * k) b
                ∙ (regroup v (2 ^ 1074) w (2 ^ 1074)
                    ∙ ap (λ (k : ℕ). v * w * k) (sym (pow-add 2 1074 1074))))))

finite_product :
    (v w m e n f : ℕ)
    → v * w < 2 ^ 53
    → m * 2 ^ e ≡ v * 2 ^ 1074
    → n * 2 ^ f ≡ w * 2 ^ 1074
    → Represents (v * w) (mul (finite false m e) (finite false n f))
unfolding mul differ
finite_product v w m e n f small a b =
    rw (product v w m e n f a b) (round_div-Represents (v * w) (2 ^ 2148) small (two_pow_pos 2148))

pub mul-Represents :
    (v w : ℕ) (x y : Float64)
    → v * w < 2 ^ 53
    → Represents v x
    → Represents w y
    → Represents (v * w) (mul x y)
mul-Represents v w x y small a b =
    rw (a.shape, b.shape) (finite_product v w a.m a.e b.m b.e small a.value b.value)

pub to_int64-Represents : (v : ℕ) (x : Float64) → v < 2 ^ 53 → Represents v x → to_int64 x ≡ pos v
unfolding to_int64
to_int64-Represents v x small h =
    let whole : h.m * 2 ^ h.e / 2 ^ 1074 ≡ v =
      ap (λ (k : ℕ). k / 2 ^ 1074) h.value ∙ mul-div_cancel v (two_pow_pos 1074) in
    let fits : ltb v (2 ^ 63) ≡ true = ground arith in rw (h.shape, whole, fits) refl
