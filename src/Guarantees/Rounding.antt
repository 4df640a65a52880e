-- ===== src/Guarantees/Rounding.antt =====
-- How far a settled amount is from the exact product, and the bounds of a retry delay.
use Prim.Native.Nat.{min}
use native.Mathlib.Numerals.{unary_clauses}
use native.Mathlib.Nat.{
  div-add-mod, mod-lt, pow-le-pow_right, min-le_right, le-min, mul-le-mul_left,
}
use energy_flex_trust_platfo.Prelude.{
  ℕ, zero, suc, ◌+◌, ◌-◌, ◌*◌, ◌/◌, ◌%◌, ◌^◌, ◌≤◌, ◌<◌, ◌≡◌, refl, Bool, true, false, some, arith,
  leb, if◌then◌else◌,
}
use energy_flex_trust_platfo.Decimal.{
  Decimal, half_up, coefficient_limit, drop_digits, fit_context, multiply, rescale, quantize,
  settlement_amount,
}
use energy_flex_trust_platfo.Outbox.Worker.{Settings, retry_delay}

half_up_bounds :
    (q r p n : ℕ) (b : Bool)
    → p * q + r ≡ n
    → r < p
    → leb p (2 * r) ≡ b
    → (2 * (p * (if b then q + 1 else q)) ≤ 2 * n + p)
      × (2 * n < 2 * (p * (if b then q + 1 else q)) + p)
half_up_bounds q r p n true e small h = ground arith
half_up_bounds q r p n false e small h = ground arith

pub power_positive : (b k : ℕ) → zero < b → zero < b ^ k
power_positive b k h =
    let one : b ^ zero ≡ 1 = simp unary_clauses in
    omega (arith, one, pow-le-pow_right {n = b} h {i = zero} {j = k} (omega arith))

pub drop_digits-bounds :
    (k n : ℕ)
    → (2 * (10 ^ k * drop_digits half_up k n) ≤ 2 * n + 10 ^ k)
      × (2 * n < 2 * (10 ^ k * drop_digits half_up k n) + 10 ^ k)
unfolding drop_digits
drop_digits-bounds k n =
    half_up_bounds (n / 10 ^ k) (n % 10 ^ k) (10 ^ k) n _ (div-add-mod n (10 ^ k))
      (mod-lt n (power_positive 10 k (omega arith))) refl

-- When the product of the energy and the price has at most 28 digits and more than six places, the
-- settled amount has six places and lies within half a unit of the sixth place of that product (in
-- units of its last place, twice the difference is at most 10 ^ k, where k places are dropped).
pub settlement_amount-bounds :
    (delivered price amount : Decimal)
    → delivered.coefficient * price.coefficient < coefficient_limit
    → 6 < delivered.scale + price.scale
    → settlement_amount delivered price ≡ some amount
    → (amount.scale ≡ 6)
      × (2 * (10 ^ (delivered.scale + price.scale - 6) * amount.coefficient)
          ≤ 2 * (delivered.coefficient * price.coefficient)
            + 10 ^ (delivered.scale + price.scale - 6))
      × (2 * (delivered.coefficient * price.coefficient)
          < 2 * (10 ^ (delivered.scale + price.scale - 6) * amount.coefficient)
            + 10 ^ (delivered.scale + price.scale - 6))
unfolding settlement_amount multiply fit_context quantize rescale
settlement_amount-bounds delivered price amount small places h =
    let (up, down) =
      drop_digits-bounds (delivered.scale + price.scale - 6)
        (delivered.coefficient * price.coefficient) in
    ground arith

doubled : (m x y : ℕ) → y ≡ 2 * x → min y m ≡ min (2 * min x m) m
doubled m x y h = omega arith

next_power : (b n : ℕ) → b * 2 ^ suc n ≡ 2 * (b * 2 ^ n)
next_power b n = let e : 2 ^ suc n ≡ 2 ^ n * 2 = simp unary_clauses in grind (arith, e)

first_power : (b : ℕ) → b * 2 ^ 0 ≡ b
first_power b = omega arith

smaller : (b m x : ℕ) → b ≤ m → x ≡ b → min x m ≡ b
smaller b m x h e = omega arith

-- When the base delay is not above the largest delay, the delay before the second attempt is the base
-- delay, each later one is twice the delay before it, up to the largest delay, and every delay lies
-- between these two.
pub retry_delay-bounds :
    (s : Settings) (n : ℕ)
    → s.base_retry_seconds ≤ s.max_retry_seconds
    → (retry_delay s 1 ≡ s.base_retry_seconds)
      × (retry_delay s (suc (suc n)) ≡ min (2 * retry_delay s (suc n)) s.max_retry_seconds)
      × (s.base_retry_seconds ≤ retry_delay s n)
      × (retry_delay s n ≤ s.max_retry_seconds)
unfolding retry_delay
retry_delay-bounds s n h =
    let b = s.base_retry_seconds in
    let x = b * 2 ^ (n - 1) in
    let two : suc (suc n) - 1 ≡ suc n = omega arith in
    let one : suc n - 1 ≡ n = omega arith in
    let once : b * 1 ≤ x = mul-le-mul_left b (power_positive 2 (n - 1) (omega arith)) in
    (
      smaller b s.max_retry_seconds _ h (first_power b),
      rw (two, one) (doubled s.max_retry_seconds (b * 2 ^ n) (b * 2 ^ suc n) (next_power b n)),
      le-min {a = x} (omega (arith, once)) h,
      min-le_right x s.max_retry_seconds,
    )
