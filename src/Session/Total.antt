-- ===== src/Session/Total.antt =====
-- Actions that return, unless they raise one of some exceptions: one rule for each way to build an action.
use energy_flex_trust_platfo.Prelude.{suc, String, ◌≡◌, refl, Bool, true, false, Option, some}
use energy_flex_trust_platfo.Domain.{Error, Result, ok, err}
use energy_flex_trust_platfo.Datetime.{Datetime}
use energy_flex_trust_platfo.Platform.{Platform}
use energy_flex_trust_platfo.Models.{Database}
use energy_flex_trust_platfo.Session.{
  World, Action, pure, query, or_raise, begin, finish, continue, if_found, write, raise_if, new_id,
  utc_now, ◌>>=◌, ◌>>◌,
}

-- The result is `Q`, or the exception is `E`.
abbrev pub Returns :
    {A : Type 0} → (Error → Type 0) → (A → World → Type 0) → Result A × World → Type 0
Returns E Q (ok a, w) = Q a w
Returns E Q (err e, w) = E e

module _ (E : Error → Type 0) {A : Type 0} (Q : A → World → Type 0) where
  pub Returns-pure : (a : A) (w : World) → Q a w → Returns E Q (pure a w)
  unfolding pure
  Returns-pure a w h = h

  finish-Returns :
      (before : Database) (r : Result A × World) → Returns E Q r → Returns E Q (finish before r)
  finish-Returns before (ok a, w') h = h
  finish-Returns before (err e, w') h = h

  pub Returns-begin : (m : Action A) (w : World) → Returns E Q (m w) → Returns E Q (begin m w)
  unfolding begin
  Returns-begin m w h = finish-Returns w.db (m w) h

  pub Returns-map :
      (P : A → World → Type 0) (r : Result A × World)
      → ((a : A) (after : World) → P a after → Q a after)
      → Returns E P r
      → Returns E Q r
  Returns-map P (ok a, w) f h = f a w h
  Returns-map P (err e, w) f h = h

module _ (E : Error → Type 0) {A B : Type 0} (Q : B → World → Type 0) where
  Returns-continue :
      (P : A → World → Type 0) (r : Result A × World) (f : A → Action B)
      → Returns E P r
      → ((a : A) (w : World) → P a w → Returns E Q (f a w))
      → Returns E Q (continue f r)
  Returns-continue P (ok a, w) f h k = k a w h
  Returns-continue P (err e, w) f h k = h

  pub Returns-bind :
      (P : A → World → Type 0) (m : Action A) (f : A → Action B) (w : World)
      → Returns E P (m w)
      → ((a : A) (after : World) → P a after → Returns E Q (f a after))
      → Returns E Q ((m >>= f) w)
  unfolding ◌>>=◌
  Returns-bind P m f w h k = Returns-continue P (m w) f h k

  pub Returns-query :
      (g : Database → A) (f : A → Action B) (w : World)
      → Returns E Q (f (g w.db) w)
      → Returns E Q ((query g >>= f) w)
  unfolding ◌>>=◌
  Returns-query g f w h = h

  pub Returns-or_raise :
      (o : Option A) (e : Error) (f : A → Action B) (w : World) (a : A)
      → o ≡ some a
      → Returns E Q (f a w)
      → Returns E Q ((or_raise o e >>= f) w)
  unfolding ◌>>=◌
  Returns-or_raise o e f w a there h = rw there h

  pub Returns-if_found :
      (o : Option A) (b : B) (k : A → Action B) (w : World) (a : A)
      → o ≡ some a
      → Returns E Q (k a w)
      → Returns E Q (if_found o b k w)
  unfolding if_found
  Returns-if_found o b k w a there h = rw there h

module _ (E : Error → Type 0) {B : Type 0} (Q : B → World → Type 0) where
  pub Returns-write :
      (g : Database → Database) (k : Action B) (w : World)
      → Returns E Q (k (record w { db = g w.db }))
      → Returns E Q ((write g >> k) w)
  unfolding ◌>>=◌
  Returns-write g k w h = h

  pub Returns-raise_if :
      (b : Bool) (e : Error) (k : Action B) (w : World)
      → (b ≡ true → E e)
      → (b ≡ false → Returns E Q (k w))
      → Returns E Q ((raise_if b e >> k) w)
  unfolding ◌>>=◌
  Returns-raise_if true e k w h g = h refl
  Returns-raise_if false e k w h g = g refl

  module _ ⦃p : Platform⦄ where
    pub Returns-new_id :
        (f : String → Action B) (w : World)
        → Returns E Q (f (p.uuid w.drawn) (record w { drawn = suc w.drawn }))
        → Returns E Q ((new_id >>= f) w)
    unfolding ◌>>=◌ new_id
    Returns-new_id f w h = h

    pub Returns-utc_now :
        (f : Datetime → Action B) (w : World)
        → Returns E Q (f (p.clock w.ticks) (record w { ticks = suc w.ticks }))
        → Returns E Q ((utc_now >>= f) w)
    unfolding ◌>>=◌ utc_now
    Returns-utc_now f w h = h
