-- ===== src/Session/Rules.antt =====
-- Properties that actions keep: one rule for each way to build an action.
use energy_flex_trust_platfo.Prelude.{Bool, true, false, Option, none, some, if◌then◌else◌}
use energy_flex_trust_platfo.Domain.{Error, Result, ok, err}
use energy_flex_trust_platfo.Platform.{Platform}
use energy_flex_trust_platfo.Models.{Database}
use energy_flex_trust_platfo.Session.{
  World, Action, pure, raise, lift, query, or_raise, require, finish, begin, continue, ◌>>=◌,
  raise_if, unless_found, if_found, write, new_id, utc_now,
}

-- `m` keeps the property `P` of the database, whether it returns or raises.
pub record Keeps {A : Type 0} (P : Database → Type 0) (m : Action A) : Type 0 where
  pub at : (w : World) → P w.db → P (m w).1.db

module _ {P : Database → Type 0} {A : Type 0} where
  pub Keeps-pure : (a : A) → Keeps P (pure a)
  unfolding pure
  Keeps-pure a = record { at = λ w h. h }

  pub Keeps-raise : (e : Error) → Keeps P (raise {A = A} e)
  unfolding raise
  Keeps-raise e = record { at = λ w h. h }

  pub Keeps-lift : (r : Result A) → Keeps P (lift r)
  unfolding lift
  Keeps-lift r = record { at = λ w h. h }

  pub Keeps-query : (f : Database → A) → Keeps P (query f)
  unfolding query
  Keeps-query f = record { at = λ w h. h }

  pub Keeps-or_raise : (o : Option A) (e : Error) → Keeps P (or_raise o e)
  unfolding or_raise
  Keeps-or_raise none e = Keeps-raise e
  Keeps-or_raise (some a) e = Keeps-pure a

  pub Keeps-require : (f : Database → Option A) (e : Error) → Keeps P (require f e)
  unfolding require
  Keeps-require f e = record { at = λ w h. (Keeps-or_raise (f w.db) e).at w h }

  pub Keeps-unless_found : (o : Option A) (m : Action A) → Keeps P m → Keeps P (unless_found o m)
  unfolding unless_found
  Keeps-unless_found none m k = k
  Keeps-unless_found (some a) m k = Keeps-pure a

  pub Keeps-if : (b : Bool) (m n : Action A) → Keeps P m → Keeps P n → Keeps P (if b then m else n)
  Keeps-if true m n k l = k
  Keeps-if false m n k l = l

  pub Keeps-begin : (m : Action A) → Keeps P m → Keeps P (begin m)
  unfolding begin
  Keeps-begin m k = record { at = λ w h. after w (m w) h (k.at w h) }
    where
      after : (w : World) (r : Result A × World) → P w.db → P r.1.db → P (finish w.db r).1.db
      after w (ok a, w') h h' = h'
      after w (err e, w') h h' = h

module _ {P : Database → Type 0} {A B : Type 0} where
  Keeps-continue :
      (f : A → Action B) (r : Result A × World)
      → ((a : A) → Keeps P (f a))
      → P r.1.db
      → P (continue f r).1.db
  Keeps-continue f (ok a, w) kf h = (kf a).at w h
  Keeps-continue f (err e, w) kf h = h

  pub Keeps-bind :
      (m : Action A) (f : A → Action B) → Keeps P m → ((a : A) → Keeps P (f a)) → Keeps P (m >>= f)
  unfolding ◌>>=◌
  Keeps-bind m f km kf = record { at = λ w h. Keeps-continue f (m w) kf (km.at w h) }

  pub Keeps-if_found :
      (o : Option A) (b : B) (k : A → Action B)
      → ((a : A) → Keeps P (k a))
      → Keeps P (if_found o b k)
  unfolding if_found
  Keeps-if_found none b k h = Keeps-pure b
  Keeps-if_found (some a) b k h = h a

module _ {P : Database → Type 0} where
  pub Keeps-raise_if : (b : Bool) (e : Error) → Keeps P (raise_if b e)
  unfolding raise_if
  Keeps-raise_if true e = Keeps-raise e
  Keeps-raise_if false e = Keeps-pure tt

  pub Keeps-write :
      (f : Database → Database) → ((db : Database) → P db → P (f db)) → Keeps P (write f)
  unfolding write
  Keeps-write f k = record { at = λ w h. k w.db h }

  module _ ⦃p : Platform⦄ where
    pub Keeps-new_id : Keeps P new_id
    unfolding new_id
    Keeps-new_id = record { at = λ w h. h }

    pub Keeps-utc_now : Keeps P utc_now
    unfolding utc_now
    Keeps-utc_now = record { at = λ w h. h }

pub ruleset keeps_rules = (
  Keeps-pure, Keeps-raise, Keeps-lift, Keeps-query, Keeps-or_raise, Keeps-require,
  Keeps-unless_found, Keeps-if_found, Keeps-if, Keeps-begin, Keeps-bind, Keeps-raise_if,
  Keeps-write, Keeps-new_id, Keeps-utc_now,
)
