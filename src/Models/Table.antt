-- ===== src/Models/Table.antt =====
-- A table whose primary key is a text: `session.get`, `SELECT ... WHERE id`, and writes to the
-- attributes of a loaded row.
use energy_flex_trust_platfo.Prelude.{
  String, ◌≡◌, ◌≢◌, refl, ◌∙◌, Bool, true, false, Option, none, some, List, [], ◌∷◌, ◌++◌, ◌||◌,
  any, arith, ◌==◌, ==_iff, ==_self, if◌then◌else◌,
}

pub record Row {ℓ} (A : Type ℓ) : Type ℓ where
  pub key : A → String

abbrev pub over {ℓ κ} : {A : Type ℓ} {B : Type κ} → (A → B) → Option A → Option B
over f none = none
over f (some a) = some (f a)

abbrev pub or_else {ℓ} : {A : Type ℓ} → Option A → Option A → Option A
or_else none o = o
or_else (some a) o = some a

abbrev pub is_some {ℓ} : {A : Type ℓ} → Option A → Bool
is_some none = false
is_some (some a) = true

module _ {ℓ} {A : Type ℓ} ⦃r : Row A⦄ where
  unfoldable pub get : String → List A → Option A
  get k [] = none
  get k (x ∷ xs) = if r.key x == k then some x else get k xs

  -- Write to the row with the id `k`.
  unfoldable pub update : String → (A → A) → List A → List A
  update k f [] = []
  update k f (x ∷ xs) = (if r.key x == k then f x else x) ∷ update k f xs

  pub get-key : (k : String) (xs : List A) {x : A} → get k xs ≡ some x → r.key x ≡ k
  unfolding get
  get-key k [] h = ground arith
  get-key k (y ∷ ys) {x} h = ground (arith, ==_iff (r.key y) k, get-key k ys {x = x})

  pub get-update :
      (j k : String) (f : A → A) (xs : List A)
      → ((x : A) → r.key (f x) ≡ r.key x)
      → get j (update k f xs) ≡ (if k == j then over f (get j xs) else get j xs)
  unfolding get update
  get-update j k f [] keeps = ground arith
  get-update j k f (x ∷ xs) keeps = ground (
    arith,
    keeps x,
    get-update j k f xs keeps,
    ==_iff (r.key x) k,
    ==_iff (r.key x) j,
    ==_iff (r.key (f x)) j,
    ==_iff k j,
  )

  pub get-append :
      (j : String) (xs : List A) (x : A)
      → get j (xs ++ x ∷ []) ≡ or_else (get j xs) (if r.key x == j then some x else none)
  unfolding get
  get-append j [] x = refl
  get-append j (y ∷ ys) x = ground (arith, get-append j ys x)

-- `after` is `before` with `f` applied to the row `k`.
pub record Touched {ℓ} {A : Type ℓ} (k : String) (f : A → A) (before after : String → Option A)
    : Type ℓ where
  pub hit : after k ≡ over f (before k)
  pub miss : (j : String) → k ≢ j → after j ≡ before j

over-same {ℓ} : {A : Type ℓ} (o : Option A) → o ≡ over (λ x. x) o
over-same none = refl
over-same (some b) = refl

-- `after` is `before` with the row `a` at a key that was free.
pub record Inserted {ℓ} {A : Type ℓ} (k : String) (a : A) (before after : String → Option A)
    : Type ℓ where
  pub fresh : before k ≡ none
  pub hit : after k ≡ some a
  pub miss : (j : String) → k ≢ j → after j ≡ before j

pub Inserted-Touched {ℓ} :
    {A : Type ℓ} (k : String) (a : A) (f : A → A) (t u v : String → Option A)
    → Inserted k a t u
    → Touched k f u v
    → Inserted k (f a) t v
Inserted-Touched k a f t u v i h = record {
  fresh = i.fresh;
  hit = cc (h.hit, i.hit);
  miss = λ j other. h.miss j other ∙ i.miss j other;
}

pub Touched-same {ℓ} : {A : Type ℓ} (k : String) (t : String → Option A) → Touched k (λ x. x) t t
Touched-same k t = record { hit = over-same (t k); miss = λ j ne. refl }

module _ {ℓ} {A : Type ℓ} ⦃r : Row A⦄ where
  pub update-Touched :
      (k : String) (f : A → A) (xs : List A)
      → ((x : A) → r.key (f x) ≡ r.key x)
      → Touched k f (λ j. get j xs) (λ j. get j (update k f xs))
  update-Touched k f xs keeps = record {
    hit = rw (get-update k k f xs keeps, ==_self k);
    miss = λ j ne. rw (get-update j k f xs keeps) (ground (arith, ==_iff k j));
  }

  -- No row clashes with `k`, so there is none of that id.
  pub get-fresh :
      (k : String) (q : A → Bool) (xs : List A)
      → any (λ x. r.key x == k || q x) xs ≡ false
      → get k xs ≡ none
  unfolding get
  get-fresh k q [] h = refl
  get-fresh k q (x ∷ xs) h = ground (arith, get-fresh k q xs)

  pub append-Inserted :
      (xs : List A) (x : A)
      → get (r.key x) xs ≡ none
      → Inserted (r.key x) x (λ j. get j xs) (λ j. get j (xs ++ x ∷ []))
  append-Inserted xs x fresh = record {
    fresh = fresh;
    hit = rw (get-append, fresh, ==_self (r.key x));
    miss = λ j other.
        rw get-append (no_more (get j xs) (r.key x == j) (ground (arith, ==_iff (r.key x) j)));
  }
    where
      no_more : (o : Option A) (b : Bool) → b ≡ false → or_else o (if b then some x else none) ≡ o
      no_more none b h = rw h
      no_more (some a) b h = refl

  pub update-update :
      (k : String) (f g : A → A) (xs : List A)
      → ((x : A) → r.key (g x) ≡ r.key x)
      → update k f (update k g xs) ≡ update k (λ x. f (g x)) xs
  unfolding update
  update-update k f g [] keeps = refl
  update-update k f g (x ∷ xs) keeps = cc (twice (r.key x == k) refl, update-update k f g xs keeps)
    where
      twice :
          (b : Bool)
          → (r.key x == k) ≡ b
          → (if r.key (if r.key x == k then g x else x) == k
              then f (if r.key x == k then g x else x)
              else (if r.key x == k then g x else x))
            ≡ (if r.key x == k then f (g x) else x)
      twice true h = rw (h, keeps x, h)
      twice false h = rw (h, h)
