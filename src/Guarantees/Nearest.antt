-- ===== src/Guarantees/Nearest.antt =====
-- The two roundings of a settlement to six places, in terms of the exact value.
use native.Mathlib.Nat.{div-add-mod, mod-lt}
use energy_flex_trust_platfo.Prelude.{
  ℕ, ◌+◌, ◌-◌, ◌*◌, ◌/◌, ◌%◌, ◌^◌, ◌≤◌, ◌<◌, ◌≡◌, ◌⊎◌, inl, inr, refl, Bool, true, false, ◌||◌,
  ◌&&◌, some, arith, leb, ltb, eqb, if◌then◌else◌, Bool-cases,
}
use energy_flex_trust_platfo.Decimal.{Decimal, half_even, half_up, drop_digits, rescale, quantize}
use energy_flex_trust_platfo.Guarantees.Rounding.{power_positive, drop_digits-bounds}

-- `m` is the multiple of `p` nearest to `n`, divided by `p`; of two that are equally near, the even
-- one.
abbrev pub IsNearestEven : (p n m : ℕ) → Type 0
IsNearestEven p n m =
    ((2 * (p * m) < 2 * n + p) × (2 * n < 2 * (p * m) + p))
    ⊎ (((2 * (p * m) ≡ 2 * n + p) ⊎ (2 * n ≡ 2 * (p * m) + p)) × (m % 2 ≡ 0))

-- The same, and of two that are equally near the larger one.
abbrev pub IsNearestUp : (p n m : ℕ) → Type 0
IsNearestUp p n m = (2 * (p * m) ≤ 2 * n + p) × (2 * n < 2 * (p * m) + p)

-- `e` is `d` with six places: exactly, if `d` has no more of them, and rounded otherwise.
abbrev pub IsRounded : ((p n m : ℕ) → Type 0) → Decimal → Decimal → Type 0
IsRounded Nearest d e =
    (e.scale ≡ 6)
    × (((d.scale ≤ 6) × (e.coefficient ≡ d.coefficient * 10 ^ (6 - d.scale)))
        ⊎ ((6 < d.scale) × Nearest (10 ^ (d.scale - 6)) d.coefficient e.coefficient))

half_even_cases :
    (q r p n : ℕ) (above tie odd : Bool)
    → p * q + r ≡ n
    → r < p
    → ltb p (2 * r) ≡ above
    → eqb p (2 * r) ≡ tie
    → eqb (q % 2) 1 ≡ odd
    → IsNearestEven p n (if above || (tie && odd) then q + 1 else q)
half_even_cases q r p n true tie odd e small a t o = inl (ground arith, ground arith)
half_even_cases q r p n false true true e small a t o = inr (inl (ground arith), ground arith)
half_even_cases q r p n false true false e small a t o = inr (inr (ground arith), ground arith)
half_even_cases q r p n false false odd e small a t o = inl (ground arith, ground arith)

drop_digits-IsNearestEven : (k n : ℕ) → IsNearestEven (10 ^ k) n (drop_digits half_even k n)
unfolding drop_digits
drop_digits-IsNearestEven k n =
    half_even_cases (n / 10 ^ k) (n % 10 ^ k) (10 ^ k) n _ _ _ (div-add-mod n (10 ^ k))
      (mod-lt n (power_positive 10 k (omega arith))) refl refl refl

pub quantize-IsNearestEven :
    (d e : Decimal) → quantize half_even d ≡ some e → IsRounded IsNearestEven d e
unfolding quantize rescale
quantize-IsNearestEven d e h = elim (Bool-cases (leb d.scale 6)) [
  | inl few ↦ (ground arith, inl (ground arith, ground arith))
  | inr many ↦
      let near = drop_digits-IsNearestEven (d.scale - 6) d.coefficient in
      let same : e.coefficient ≡ drop_digits half_even (d.scale - 6) d.coefficient = ground arith in
      (ground arith, inr (ground arith, rw same near))
]

pub quantize-IsNearestUp : (d e : Decimal) → quantize half_up d ≡ some e → IsRounded IsNearestUp d e
unfolding quantize rescale
quantize-IsNearestUp d e h = elim (Bool-cases (leb d.scale 6)) [
  | inl few ↦ (ground arith, inl (ground arith, ground arith))
  | inr many ↦
      let near = drop_digits-bounds (d.scale - 6) d.coefficient in
      let same : e.coefficient ≡ drop_digits half_up (d.scale - 6) d.coefficient = ground arith in
      (ground arith, inr (ground arith, rw same near))
]
