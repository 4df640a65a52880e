-- ===== src/Prelude/Lists.antt =====
-- Lists over the native numbers, and the ordering of query results.
use Prim.Native.Nat.{ℕ, suc, ◌+◌}
use mathlib.Core.Path.{◌≡◌, refl, ap, ◌∙◌}
use mathlib.Core.Bool.{Bool, true, false, not, ◌||◌}
use mathlib.Core.Option.{Option, none, some}
use mathlib.Core.List.{List, [], ◌∷◌, ◌++◌}
use native.Mathlib.Omega.{arith}
use energy_flex_trust_platfo.Prelude.Tests.{if◌then◌else◌}

module _ {ℓ} {A : Type ℓ} where
  abbrev pub length : List A → ℕ
  length [] = 0
  length (x ∷ xs) = suc (length xs)

  abbrev pub any : (A → Bool) → List A → Bool
  any p [] = false
  any p (x ∷ xs) = p x || any p xs

  abbrev pub last? : List A → Option A
  last? [] = none
  last? (x ∷ []) = some x
  last? (x ∷ y ∷ xs) = last? (y ∷ xs)

  pub length-append : (xs ys : List A) → length (xs ++ ys) ≡ length xs + length ys
  length-append [] ys = omega arith
  length-append (x ∷ xs) ys = omega (arith, length-append xs ys)

  pub last?-append : (xs : List A) (x : A) → last? (xs ++ x ∷ []) ≡ some x
  last?-append [] x = refl
  last?-append (y ∷ []) x = refl
  last?-append (y ∷ z ∷ xs) x = last?-append (z ∷ xs) x

-- `SELECT ... WHERE`
module _ {ℓ} {A : Type ℓ} where
  abbrev pub select_where : (A → Bool) → List A → List A
  select_where p [] = []
  select_where p (x ∷ xs) = let rest = select_where p xs in if p x then x ∷ rest else rest

  abbrev pub count_where : (A → Bool) → List A → ℕ
  count_where p [] = 0
  count_where p (x ∷ xs) = let rest = count_where p xs in if p x then suc rest else rest

-- `ORDER BY`, stable, on a test that says which row may stand before which.
module _ {ℓ} {A : Type ℓ} (before : A → A → Bool) where
  abbrev pub insert_ordered : A → List A → List A
  insert_ordered x [] = x ∷ []
  insert_ordered x (y ∷ ys) =
      let rest = insert_ordered x ys in if before x y then x ∷ y ∷ ys else y ∷ rest

  abbrev pub order_by : List A → List A
  order_by [] = []
  order_by (x ∷ xs) = insert_ordered x (order_by xs)

  -- Every row of the list may stand before `x`.
  abbrev pub AllBefore : List A → A → Type 0
  AllBefore [] x = Unit
  AllBefore (y ∷ ys) x = (before y x ≡ true) × AllBefore ys x

  pub insert_ordered-append :
      (y x : A) (ys : List A)
      → before y x ≡ true
      → insert_ordered y (ys ++ x ∷ []) ≡ insert_ordered y ys ++ x ∷ []
  insert_ordered-append y x [] h = ground arith
  insert_ordered-append y x (z ∷ ys) h = ground (arith, insert_ordered-append y x ys h)

  -- A row behind all the others comes last.
  pub order_by-append :
      (ys : List A) (x : A) → AllBefore ys x → order_by (ys ++ x ∷ []) ≡ order_by ys ++ x ∷ []
  order_by-append [] x h = refl
  order_by-append (y ∷ ys) x h =
      ap (insert_ordered y) (order_by-append ys x h.1) ∙ insert_ordered-append y x (order_by ys) h.0

  pub length-insert_ordered : (x : A) (ys : List A) → length (insert_ordered x ys) ≡ suc (length ys)
  length-insert_ordered x [] = refl
  length-insert_ordered x (y ∷ ys) = ground (arith, length-insert_ordered x ys)

  pub length-order_by : (xs : List A) → length (order_by xs) ≡ length xs
  length-order_by [] = refl
  length-order_by (x ∷ xs) = length-insert_ordered x (order_by xs) ∙ ap suc (length-order_by xs)

  AllBefore-insert_ordered :
      (y x : A) (ys : List A)
      → AllBefore (insert_ordered y ys) x
      → (before y x ≡ true) × AllBefore ys x
  AllBefore-insert_ordered y x [] h = h
  AllBefore-insert_ordered y x (z ∷ ys) h = ground (arith, AllBefore-insert_ordered y x ys)

  -- A row behind all the sorted rows is behind all the rows.
  pub AllBefore-order_by : (xs : List A) (x : A) → AllBefore (order_by xs) x → AllBefore xs x
  AllBefore-order_by [] x h = tt
  AllBefore-order_by (y ∷ ys) x h =
      let split = AllBefore-insert_ordered y x (order_by ys) h in
      (split.0, AllBefore-order_by ys x split.1)

-- A list of two parts.
module _ {ℓ} {A : Type ℓ} (p : A → Bool) where
  pub any-append : (xs ys : List A) → any p (xs ++ ys) ≡ (any p xs || any p ys)
  any-append [] ys = refl
  any-append (x ∷ xs) ys = ground (arith, any-append xs ys)

  pub select_where-append :
      (xs ys : List A) → select_where p (xs ++ ys) ≡ select_where p xs ++ select_where p ys
  select_where-append [] ys = refl
  select_where-append (x ∷ xs) ys = ground (arith, select_where-append xs ys)

  -- Nothing is left out when no row is to be left out.
  pub select_where-not : (xs : List A) → any p xs ≡ false → select_where (λ x. not (p x)) xs ≡ xs
  select_where-not [] h = refl
  select_where-not (x ∷ xs) h = ground (arith, select_where-not xs)

-- A failure is added to the list of those before it, unless the check has passed.
abbrev pub note {ℓ} : {A : Type ℓ} → Bool → A → List A → List A
note passed failure failures = if passed then failures else failures ++ (failure ∷ [])

pub append-not_empty {ℓ} : {A : Type ℓ} (xs : List A) (x : A) → (xs ++ (x ∷ [])) ≡ [] → ⊥
append-not_empty [] x h = ground arith
append-not_empty (y ∷ xs) x h = ground arith

pub note-none {ℓ} :
    {A : Type ℓ} (passed : Bool) (failure : A) (failures : List A)
    → note passed failure failures ≡ []
    → (passed ≡ true) × (failures ≡ [])
note-none true failure failures h = (refl, h)
note-none false failure failures h = absurd (append-not_empty failures failure h)
