-- ===== src/Session/Outcome.antt =====
-- What holds when an action returns: one rule for each way to build an action. The rules work at
-- one world, so that a later step can use what an earlier query has found.
use energy_flex_trust_platfo.Prelude.{
  suc, String, ◌≡◌, refl, Bool, true, false, not, Option, none, some, if◌then◌else◌,
}
use energy_flex_trust_platfo.Domain.{Error, Result, ok, err}
use energy_flex_trust_platfo.Datetime.{Datetime}
use energy_flex_trust_platfo.Platform.{Platform}
use energy_flex_trust_platfo.Models.{Database}
use energy_flex_trust_platfo.Session.{
  World, Action, pure, raise, lift, query, or_raise, require, begin, finish, continue, unless_found,
  if_found, raise_if, write, new_id, utc_now, ◌>>=◌, ◌>>◌,
}
use energy_flex_trust_platfo.Session.Rules.{Keeps}

abbrev pub OnOk : {A : Type 0} → (A → World → Type 0) → Result A × World → Type 0
OnOk Q (ok a, w) = Q a w
OnOk Q (err e, w) = Unit

module _ {A : Type 0} (Q : A → World → Type 0) where
  pub OnOk-elim : (r : Result A × World) (a : A) (w : World) → OnOk Q r → r ≡ (ok a, w) → Q a w
  OnOk-elim r a w h e = rw e at h

  pub OnOk-intro : (r : Result A × World) → ((a : A) (w : World) → r ≡ (ok a, w) → Q a w) → OnOk Q r
  OnOk-intro (ok a, w) h = h a w refl
  OnOk-intro (err e, w) h = tt

  pub OnOk-pure : (a : A) (w : World) → Q a w → OnOk Q (pure a w)
  unfolding pure
  OnOk-pure a w h = h

  pub OnOk-unless_found :
      (o : Option A) (m : Action A) (w : World)
      → ((a : A) → o ≡ some a → Q a w)
      → (o ≡ none → OnOk Q (m w))
      → OnOk Q (unless_found o m w)
  unfolding unless_found
  OnOk-unless_found none m w found missing = missing refl
  OnOk-unless_found (some a) m w found missing = found a refl

  pub OnOk-if :
      (b : Bool) (m n : Action A) (w : World)
      → (b ≡ true → OnOk Q (m w))
      → (b ≡ false → OnOk Q (n w))
      → OnOk Q ((if b then m else n) w)
  OnOk-if true m n w h k = h refl
  OnOk-if false m n w h k = k refl

  OnOk-finish : (before : Database) (r : Result A × World) → OnOk Q r → OnOk Q (finish before r)
  OnOk-finish before (ok a, w') h = h
  OnOk-finish before (err e, w') h = tt

  pub OnOk-begin : (m : Action A) (w : World) → OnOk Q (m w) → OnOk Q (begin m w)
  unfolding begin
  OnOk-begin m w h = OnOk-finish w.db (m w) h

module _ {A B : Type 0} (Q : B → World → Type 0) where
  OnOk-continue :
      (P : A → World → Type 0) (r : Result A × World) (f : A → Action B)
      → OnOk P r
      → ((a : A) (w : World) → P a w → OnOk Q (f a w))
      → OnOk Q (continue f r)
  OnOk-continue P (ok a, w) f h k = k a w h
  OnOk-continue P (err e, w) f h k = tt

  pub OnOk-bind :
      (P : A → World → Type 0) (m : Action A) (f : A → Action B) (w : World)
      → OnOk P (m w)
      → ((a : A) (after : World) → P a after → OnOk Q (f a after))
      → OnOk Q ((m >>= f) w)
  unfolding ◌>>=◌
  OnOk-bind P m f w h k = OnOk-continue P (m w) f h k

  pub OnOk-query :
      (g : Database → A) (f : A → Action B) (w : World)
      → OnOk Q (f (g w.db) w)
      → OnOk Q ((query g >>= f) w)
  unfolding ◌>>=◌
  OnOk-query g f w h = h

  pub OnOk-or_raise :
      (o : Option A) (e : Error) (f : A → Action B) (w : World)
      → ((a : A) → o ≡ some a → OnOk Q (f a w))
      → OnOk Q ((or_raise o e >>= f) w)
  unfolding ◌>>=◌
  OnOk-or_raise none e f w k = tt
  OnOk-or_raise (some a) e f w k = k a refl

  pub OnOk-require :
      (g : Database → Option A) (e : Error) (f : A → Action B) (w : World)
      → ((a : A) → g w.db ≡ some a → OnOk Q (f a w))
      → OnOk Q ((require g e >>= f) w)
  unfolding ◌>>=◌
  OnOk-require g e f w k = OnOk-or_raise (g w.db) e f w k

  pub OnOk-if_found :
      (o : Option A) (b : B) (k : A → Action B) (w : World)
      → (o ≡ none → Q b w)
      → ((a : A) → o ≡ some a → OnOk Q (k a w))
      → OnOk Q (if_found o b k w)
  unfolding if_found
  OnOk-if_found none b k w missing found = missing refl
  OnOk-if_found (some a) b k w missing found = found a refl

pub OnOk-write_last :
    (Q : Unit {0} → World → Type 0) (g : Database → Database) (w : World)
    → Q tt (record w { db = g w.db })
    → OnOk Q (write g w)
unfolding write
OnOk-write_last Q g w h = h

module _ {B : Type 0} (Q : B → World → Type 0) where
  pub OnOk-write :
      (g : Database → Database) (k : Action B) (w : World)
      → OnOk Q (k (record w { db = g w.db }))
      → OnOk Q ((write g >> k) w)
  unfolding ◌>>=◌
  OnOk-write g k w h = h

  pub OnOk-raise_if :
      (b : Bool) (e : Error) (k : Action B) (w : World)
      → (b ≡ false → OnOk Q (k w))
      → OnOk Q ((raise_if b e >> k) w)
  unfolding ◌>>=◌
  OnOk-raise_if true e k w h = tt
  OnOk-raise_if false e k w h = h refl

  pub OnOk-raise_unless :
      (b : Bool) (e : Error) (k : Action B) (w : World)
      → (b ≡ true → OnOk Q (k w))
      → OnOk Q ((raise_if (not b) e >> k) w)
  unfolding ◌>>=◌
  OnOk-raise_unless true e k w h = h refl
  OnOk-raise_unless false e k w h = tt

  pub OnOk-lift :
      (r : Result (Unit {0})) (k : Action B) (w : World)
      → (r ≡ ok tt → OnOk Q (k w))
      → OnOk Q ((lift r >> k) w)
  unfolding ◌>>=◌
  OnOk-lift (ok tt) k w h = h refl
  OnOk-lift (err e) k w h = tt

  module _ ⦃p : Platform⦄ where
    pub OnOk-new_id :
        (f : String → Action B) (w : World)
        → OnOk Q (f (p.uuid w.drawn) (record w { drawn = suc w.drawn }))
        → OnOk Q ((new_id >>= f) w)
    unfolding ◌>>=◌ new_id
    OnOk-new_id f w h = h

    pub OnOk-utc_now :
        (f : Datetime → Action B) (w : World)
        → OnOk Q (f (p.clock w.ticks) (record w { ticks = suc w.ticks }))
        → OnOk Q ((utc_now >>= f) w)
    unfolding ◌>>=◌ utc_now
    OnOk-utc_now f w h = h

module _ {A : Type 0} (P : Database → Type 0) where
  kept_by_finish :
      (before : Database) (r : Result A × World)
      → P before
      → OnOk (λ a after. P after.db) r
      → P (finish before r).1.db
  kept_by_finish before (ok a, w') h k = k
  kept_by_finish before (err e, w') h k = h

  -- A check of the caller's role, before the transaction.
  pub lift_keeps :
      (r : Result (Unit {0})) (m : Action A) (w : World)
      → P w.db
      → P (m w).1.db
      → P ((lift r >> m) w).1.db
  unfolding ◌>>=◌
  lift_keeps (ok tt) m w h k = k
  lift_keeps (err e) m w h k = h

  -- A transaction keeps what its successful runs keep.
  pub begin_keeps :
      (m : Action A) (w : World) → P w.db → OnOk (λ a after. P after.db) (m w) → P (begin m w).1.db
  unfolding begin
  begin_keeps m w h k = kept_by_finish w.db (m w) h k

module _ {A B : Type 0} (P : Database → Type 0) (Q : B → World → Type 0) where
  kept_result :
      (r : Result A × World) (f : A → Action B)
      → P r.1.db
      → ((a : A) (after : World) → P after.db → OnOk Q (f a after))
      → OnOk Q (continue f r)
  kept_result (ok a, w') f h k = k a w' h
  kept_result (err e, w') f h k = tt

  -- After an action that keeps a property.
  pub OnOk-kept :
      (m : Action A) (f : A → Action B) (w : World)
      → Keeps P m
      → P w.db
      → ((a : A) (after : World) → P after.db → OnOk Q (f a after))
      → OnOk Q ((m >>= f) w)
  unfolding ◌>>=◌
  OnOk-kept m f w keeps h k = kept_result (m w) f (keeps.at w h) k

pub OnOk-or_raise_last :
    {A : Type 0} (Q : A → World → Type 0) (o : Option A) (e : Error) (w : World)
    → ((a : A) → o ≡ some a → Q a w)
    → OnOk Q (or_raise o e w)
unfolding or_raise pure raise
OnOk-or_raise_last Q none e w k = tt
OnOk-or_raise_last Q (some a) e w k = k a refl

-- After an action of which nothing is needed.
pub OnOk-any :
    {A B : Type 0} (Q : B → World → Type 0) (m : Action A) (f : A → Action B) (w : World)
    → ((a : A) (after : World) → OnOk Q (f a after))
    → OnOk Q ((m >>= f) w)
OnOk-any Q m f w k =
    OnOk-bind Q (λ a after. Unit) m f w (OnOk-intro _ (m w) λ a after e. tt)
      (λ a after h. k a after)

pub OnOk-map :
    {A : Type 0} (P Q : A → World → Type 0) (r : Result A × World)
    → ((a : A) (after : World) → P a after → Q a after)
    → OnOk P r
    → OnOk Q r
OnOk-map P Q (ok a, w) f h = f a w h
OnOk-map P Q (err e, w) f h = tt

-- A step that may raise and touches no state.
pub OnOk-lift_value :
    {A B : Type 0} (Q : B → World → Type 0) (r : Result A) (f : A → Action B) (w : World)
    → ((a : A) → r ≡ ok a → OnOk Q (f a w))
    → OnOk Q ((lift r >>= f) w)
unfolding ◌>>=◌
OnOk-lift_value Q (ok a) f w k = k a refl
OnOk-lift_value Q (err e) f w k = tt
