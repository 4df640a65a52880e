-- ===== src/Models/Keyed.antt =====
-- Tables in which no two rows share their primary key, and rows that a query has found.
use energy_flex_trust_platfo.Prelude.{
  String, ◌≡◌, ◌≢◌, refl, ap, subst, ◌⊎◌, inl, inr, Bool, true, false, Option, none, some, List, [],
  ◌∷◌, ◌++◌, arith, ◌==◌, ==_iff, select_where, insert_ordered, order_by, String-discrete,
  if◌then◌else◌,
}
use energy_flex_trust_platfo.Models.Table.{Row, get, update, over, get-update, get-append}

module _ {A : Type 0} where
  abbrev pub IsIn : A → List A → Type 0
  IsIn x [] = ⊥
  IsIn x (y ∷ ys) = (y ≡ x) ⊎ IsIn x ys

  pub IsIn-select_where :
      (p : A → Bool) (xs : List A) (x : A) → IsIn x (select_where p xs) → IsIn x xs × (p x ≡ true)
  IsIn-select_where p (y ∷ ys) x h = ground (arith, IsIn-select_where p ys x)
  IsIn-select_where p [] x h = absurd h

  IsIn-insert_ordered :
      (before : A → A → Bool) (y : A) (ys : List A) (x : A)
      → IsIn x (insert_ordered before y ys)
      → (y ≡ x) ⊎ IsIn x ys
  IsIn-insert_ordered before y [] x h = h
  IsIn-insert_ordered before y (z ∷ ys) x h = ground (arith, IsIn-insert_ordered before y ys x)

  pub IsIn-order_by :
      (before : A → A → Bool) (xs : List A) (x : A) → IsIn x (order_by before xs) → IsIn x xs
  IsIn-order_by before [] x h = h
  IsIn-order_by before (y ∷ ys) x h = elim (IsIn-insert_ordered before y (order_by before ys) x h) [
    | inl same ↦ inl same
    | inr more ↦ inr (IsIn-order_by before ys x more)
  ]

module _ {A : Type 0} ⦃r : Row A⦄ where
  abbrev pub IsKeyed : List A → Type 0
  IsKeyed [] = Unit
  IsKeyed (x ∷ xs) = (get (r.key x) xs ≡ none) × IsKeyed xs

  get-IsIn : (xs : List A) (x : A) → IsIn x xs → get (r.key x) xs ≢ none
  unfolding get
  get-IsIn [] x h e = absurd h
  get-IsIn (y ∷ ys) x (inl same) e = ground (arith, ==_iff (r.key y) (r.key x), ap r.key same)
  get-IsIn (y ∷ ys) x (inr more) e = ground (arith, get-IsIn ys x more)

  -- A row of a keyed table is the one that its key finds.
  pub get-of_IsIn : (xs : List A) (x : A) → IsKeyed xs → IsIn x xs → get (r.key x) xs ≡ some x
  unfolding get
  get-of_IsIn [] x k h = absurd h
  get-of_IsIn (y ∷ ys) x k (inl same) =
      ground (arith, ==_iff (r.key y) (r.key x), ap r.key same, ap {B = Option A} some same)
  get-of_IsIn (y ∷ ys) x k (inr more) = elim (String-discrete (r.key y) (r.key x)) [
    | yes same ↦ absurd (get-IsIn ys x more (subst (λ t. get t ys ≡ none) same k.0))
    | no other ↦ ground (arith, ==_iff (r.key y) (r.key x), get-of_IsIn ys x k.1 more)
  ]

  key_kept :
      (b : Bool) (f : A → A) (x : A)
      → r.key (f x) ≡ r.key x
      → r.key (if b then f x else x) ≡ r.key x
  key_kept true f x h = h
  key_kept false f x h = refl

  over-none : (b : Bool) (f : A → A) (o : Option A) → o ≡ none → (if b then over f o else o) ≡ none
  over-none true f o h = rw h
  over-none false f o h = h

  pub update-IsKeyed :
      (k : String) (f : A → A) (xs : List A)
      → ((x : A) → r.key (f x) ≡ r.key x)
      → IsKeyed xs
      → IsKeyed (update k f xs)
  unfolding update
  update-IsKeyed k f [] keeps h = tt
  update-IsKeyed k f (x ∷ xs) keeps h = (
    rw (key_kept (r.key x == k) f x (keeps x), get-update (r.key x) k f xs keeps)
        (over-none (k == r.key x) f (get (r.key x) xs) h.0),
    update-IsKeyed k f xs keeps h.1,
  )

  pub append-IsKeyed :
      (xs : List A) (x : A) → IsKeyed xs → get (r.key x) xs ≡ none → IsKeyed (xs ++ x ∷ [])
  unfolding get
  append-IsKeyed [] x h fresh = (refl, tt)
  append-IsKeyed (y ∷ ys) x h fresh = elim (String-discrete (r.key y) (r.key x)) [
    | yes same ↦ ground (arith, ==_iff (r.key y) (r.key x))
    | no other ↦ (
      rw get-append (ground (arith, ==_iff (r.key x) (r.key y), h.0)),
      append-IsKeyed ys x h.1 (ground (arith, ==_iff (r.key y) (r.key x))),
    )
  ]
