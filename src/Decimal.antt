-- ===== src/Decimal.antt =====
-- Python's `decimal.Decimal` for values that are not negative, under the default context
-- (28 digits, half-even), as service.py uses it.
use Prim.Native.Nat.{max}
use energy_flex_trust_platfo.Prelude.{
  ℕ, zero, suc, ◌+◌, ◌-◌, ◌*◌, ◌/◌, ◌%◌, ◌^◌, Bool, ◌||◌, ◌&&◌, Option, none, some, List, [], ◌∷◌,
  leb, ltb, eqb, if◌then◌else◌,
}

-- coefficient / 10 ^ scale. An exponent above 0 is left out: a column holds up to six places.
pub record Decimal : Type 0 where
  pub coefficient : ℕ
  pub scale : ℕ

-- `a <= b`
abbrev pub leb_decimal : Decimal → Decimal → Bool
leb_decimal a b = leb (a.coefficient * 10 ^ b.scale) (b.coefficient * 10 ^ a.scale)

-- `a > b`
abbrev pub exceeds : Decimal → Decimal → Bool
exceeds a b = ltb (b.coefficient * 10 ^ a.scale) (a.coefficient * 10 ^ b.scale)

-- The coefficients of the default context have 28 digits.
abbrev pub coefficient_limit : ℕ
coefficient_limit = 10 ^ 28

pub data Rounding : Type 0 where
  half_even half_up : Rounding

-- Whether a remainder `r` of a division by `p`, with quotient `q`, rounds up.
abbrev rounds_up : Rounding → ℕ → ℕ → ℕ → Bool
rounds_up half_up q r p = leb p (2 * r)
rounds_up half_even q r p = ltb p (2 * r) || (eqb p (2 * r) && eqb (q % 2) 1)

-- Drop `k` digits of `n`.
unfoldable pub drop_digits : Rounding → ℕ → ℕ → ℕ
drop_digits mode k n =
    let p = 10 ^ k in if rounds_up mode (n / p) (n % p) p then n / p + 1 else n / p

-- The rounding that the context makes after each operation: the fewest digits are dropped with
-- which the coefficient fits. `none`: the result would have a positive exponent.
fit_from : ℕ → ℕ → Decimal → Option Decimal
fit_from zero k d = none
fit_from (suc left) k d =
    let rest = fit_from left (suc k) d in
    let kept = drop_digits half_even k d.coefficient in
    if ltb kept coefficient_limit
    then some (record { coefficient = kept; scale = d.scale - k })
    else rest

unfoldable pub fit_context : Decimal → Option Decimal
unfolding fit_from
fit_context d = if ltb d.coefficient coefficient_limit then some d else fit_from (d.scale) 1 d

-- `a + b`
unfoldable pub add : Decimal → Decimal → Option Decimal
add a b =
    let places = max a.scale b.scale in
    fit_context (record {
      coefficient =
          a.coefficient * 10 ^ (places - a.scale) + b.coefficient * 10 ^ (places - b.scale);
      scale = places;
    })

-- `a * b`
unfoldable pub multiply : Decimal → Decimal → Option Decimal
multiply a b =
    fit_context (record { coefficient = a.coefficient * b.coefficient; scale = a.scale + b.scale })

-- The coefficient of `d` at `places` places.
unfoldable pub rescale : Rounding → ℕ → Decimal → ℕ
rescale mode places d =
    if leb d.scale places
    then d.coefficient * 10 ^ (places - d.scale)
    else drop_digits mode (d.scale - places) d.coefficient

-- `d.quantize(Decimal("0.000001"), rounding=mode)`; `none` is `decimal.InvalidOperation`.
unfoldable pub quantize : Rounding → Decimal → Option Decimal
quantize mode d =
    let kept = rescale mode 6 d in
    if ltb kept coefficient_limit then some (record { coefficient = kept; scale = 6 }) else none

infixl 5 ◌>>=◌
abbrev ◌>>=◌ : Option Decimal → (Decimal → Option Decimal) → Option Decimal
none >>= f = none
some d >>= f = f d

-- `sum(values, start)`
unfoldable pub sum_from : Decimal → List Decimal → Option Decimal
sum_from total [] = some total
sum_from total (x ∷ xs) = let rest = λ (t : Decimal). sum_from t xs in add total x >>= rest

-- Lines 399 to 401 of service.py.
unfoldable pub delivered_energy : List Decimal → Option Decimal
unfolding sum_from
delivered_energy readings =
    sum_from (record { coefficient = 0; scale = 0 }) readings >>= quantize half_even

-- Lines 402 to 405 of service.py.
unfoldable pub settlement_amount : Decimal → Decimal → Option Decimal
settlement_amount delivered price = multiply delivered price >>= quantize half_up
