-- ===== src/Guarantees/Replay.antt =====
-- Idempotency keys: a request that is sent again gets the resource of the first one.
use energy_flex_trust_platfo.Prelude.{
  String, ◌≡◌, ◌≢◌, refl, sym, ap, ◌∙◌, subst, true, false, ◌&&◌, ◌||◌, Option, none, some, List,
  [], ◌∷◌, ◌++◌, any, arith, is_blank, ◌==◌, ==_iff, ==_self, Bool-cases, inl, inr,
}
use energy_flex_trust_platfo.Domain.{Error, Result, ok, err}
use energy_flex_trust_platfo.Platform.{Platform}
use energy_flex_trust_platfo.Models.Table.{Row, get, over}
use energy_flex_trust_platfo.Models.{IdempotencyRecord, Database}
use energy_flex_trust_platfo.Session.{World, Action, lift, begin, unless_found, ◌>>=◌, ◌>>◌}
use energy_flex_trust_platfo.Session.Outcome.{
  OnOk, OnOk-elim, OnOk-bind, OnOk-lift, OnOk-begin, OnOk-raise_if, OnOk-raise_unless, OnOk-query,
  OnOk-or_raise_last, OnOk-pure, OnOk-unless_found, OnOk-new_id, OnOk-utc_now,
}
use energy_flex_trust_platfo.Session.Stored.{OnOk-add_idempotency_record}
use energy_flex_trust_platfo.Service.Common.{
  find_record, recorded_resource, idempotent_resource, store_idempotency,
}

find_record-append :
    (operation key : String) (rs : List IdempotencyRecord) (r : IdempotencyRecord)
    → any (λ x. x.id == r.id || (x.operation == r.operation && x.key == r.key)) rs ≡ false
    → r.operation ≡ operation
    → r.key ≡ key
    → find_record operation key (rs ++ r ∷ []) ≡ some r
unfolding find_record
find_record-append operation key [] r free same_operation same_key =
    rw (same_operation, same_key, ==_self operation, ==_self key) refl
find_record-append operation key (x ∷ xs) r free same_operation same_key = ground (
  arith,
  find_record-append operation key xs r,
  ==_iff x.operation operation,
  ==_iff x.key key,
  ==_iff x.operation r.operation,
  ==_iff x.key r.key,
)

-- The record of the operation and the key names a row of the table that has the id of `a`.
pub record IsRecorded {R : Type 0} ⦃row : Row R⦄ (operation key request_hash : String)
    (table : Database → List R) (a : R) (w : World) : Type 0 where
  pub entry : IdempotencyRecord
  pub resource : R
  pub found : find_record operation key w.db.idempotency_records ≡ some entry
  pub same_hash : entry.request_hash ≡ request_hash
  pub stored : get entry.resource_id (table w.db) ≡ some resource
  pub same_key : row.key resource ≡ row.key a

module _ ⦃p : Platform⦄ where
  -- What a successful `_store_idempotency` has done.
  pub record Noted (operation key request_hash resource_id : String) (before after : Database)
      : Type 0 where
    pub entry : IdempotencyRecord
    pub rows :
        after ≡ record before { idempotency_records = before.idempotency_records ++ entry ∷ [] }
    pub found : find_record operation key after.idempotency_records ≡ some entry
    pub same_hash : entry.request_hash ≡ request_hash
    pub names : entry.resource_id ≡ resource_id

  pub store_idempotency-Noted :
      (operation key request_hash resource_type resource_id : String) (w : World)
      → OnOk
          (λ u after. Noted operation key request_hash resource_id w.db after.db)
          (store_idempotency operation key request_hash resource_type resource_id w)
  unfolding store_idempotency
  store_idempotency-Noted operation key request_hash resource_type resource_id w =
      OnOk-new_id _ _ _ (
        OnOk-utc_now _ _ _ (
          OnOk-add_idempotency_record _ _ _ λ free. record {
            entry = _;
            rows = refl;
            found = find_record-append operation key w.db.idempotency_records _ free refl refl;
            same_hash = refl;
            names = refl;
          }))

module _ {R : Type 0} ⦃row : Row R⦄ (role : Result (Unit {0})) (operation key request_hash : String)
    (table : Database → List R) (m : Action R) where
  -- The shape of the three operations that take an idempotency key.
  abbrev pub guarded : Action R
  guarded =
      lift role
      >> begin (
          idempotent_resource operation key request_hash table >>= λ existing.
          unless_found existing m)

  -- A recorded request is answered from the table, and nothing is changed.
  pub guarded-replay :
      (w : World) (entry : IdempotencyRecord) (x : R)
      → role ≡ ok tt
      → is_blank key ≡ false
      → find_record operation key w.db.idempotency_records ≡ some entry
      → entry.request_hash ≡ request_hash
      → get entry.resource_id (table w.db) ≡ some x
      → guarded w ≡ (ok x, w)
  unfolding ◌>>=◌ idempotent_resource recorded_resource
  guarded-replay w entry x allowed present found same stored =
      rw (allowed, present, found, same, ==_self request_hash, stored) refl

  -- A key that was recorded for another request is refused, and nothing is changed.
  pub guarded-reused :
      (w : World) (entry : IdempotencyRecord)
      → role ≡ ok tt
      → is_blank key ≡ false
      → find_record operation key w.db.idempotency_records ≡ some entry
      → entry.request_hash ≢ request_hash
      → guarded w ≡ (err Error.conflict, w)
  unfolding ◌>>=◌ idempotent_resource recorded_resource
  guarded-reused w entry allowed present found other =
      let differs : (entry.request_hash == request_hash) ≡ false =
        ground (arith, ==_iff entry.request_hash request_hash) in
      rw (allowed, present, found, differs) refl

  Seen : World → Option R → World → Type 0
  Seen w o after =
      (is_blank key ≡ false)
      × (after ≡ w)
      × ((x : R) → o ≡ some x → IsRecorded operation key request_hash table x w)

  recorded-Seen :
      (w : World) (found : Option IdempotencyRecord)
      → is_blank key ≡ false
      → find_record operation key w.db.idempotency_records ≡ found
      → OnOk (Seen w) (recorded_resource request_hash table found w)
  unfolding recorded_resource Seen
  recorded-Seen w none present e = OnOk-pure _ _ _ (present, refl, λ x same. absurd (cc same))
  recorded-Seen w (some entry) present e = OnOk-raise_unless _ _ _ _ _ λ same. OnOk-query _ _ _ _ (
      OnOk-or_raise_last _ _ _ _ λ o stored. (
        present,
        refl,
        λ x here. seen w entry x e same (stored ∙ ap {B = Option (Option R)} some here),
      ))
    where
      seen :
          (w : World) (entry : IdempotencyRecord) (x : R)
          → find_record operation key w.db.idempotency_records ≡ some entry
          → (entry.request_hash == request_hash) ≡ true
          → over some (get entry.resource_id (table w.db)) ≡ some (some x)
          → IsRecorded operation key request_hash table x w
      seen w entry x found same stored = record {
        entry = entry;
        resource = x;
        found = found;
        same_hash = (==_iff entry.request_hash request_hash).0 same;
        stored = ground arith;
        same_key = refl;
      }

  Ended : R → World → Type 0
  Ended x after =
      (role ≡ ok tt) × (is_blank key ≡ false) × IsRecorded operation key request_hash table x after

  guarded-Ended :
      (w : World)
      → ((v : World) → OnOk (λ x after. IsRecorded operation key request_hash table x after) (m v))
      → OnOk Ended (guarded w)
  unfolding idempotent_resource Ended Seen
  guarded-Ended w records = OnOk-lift Ended _ _ _ λ allowed. OnOk-begin Ended _ _ (
      OnOk-bind Ended (Seen w) _ _ _
        (OnOk-raise_if _ _ _ _ _ λ present. OnOk-query _ _ _ _ (recorded-Seen w _ present refl))
        λ o v seen.
          OnOk-unless_found Ended o m v (λ x here. (allowed, seen.0, seen_at w v o x seen here))
            λ missing. weaken allowed seen.0 (m v) (records v))
    where
      seen_at :
          (w v : World) (o : Option R) (x : R)
          → Seen w o v
          → o ≡ some x
          → IsRecorded operation key request_hash table x v
      seen_at w v o x seen here =
          subst (IsRecorded operation key request_hash table x) (sym seen.1) (seen.2 x here)

      weaken :
          role ≡ ok tt
          → is_blank key ≡ false
          → (r : Result R × World)
          → OnOk (λ x after. IsRecorded operation key request_hash table x after) r
          → OnOk Ended r
      weaken allowed present (ok x, v) h = (allowed, present, h)
      weaken allowed present (err e, v) h = tt

  -- Sent again, a request that has succeeded returns the stored row of the same id and changes
  -- nothing.
  pub guarded-again :
      (w w' : World) (x : R)
      → ((v : World) → OnOk (λ y after. IsRecorded operation key request_hash table y after) (m v))
      → guarded w ≡ (ok x, w')
      → (y : R) × (guarded w' ≡ (ok y, w')) × (row.key y ≡ row.key x)
  unfolding Ended
  guarded-again w w' x records done =
      let (allowed, present, kept) =
        OnOk-elim Ended (guarded w) x w' (guarded-Ended w records) done in
      (
        kept.resource,
        guarded-replay w' kept.entry kept.resource allowed present kept.found kept.same_hash
            kept.stored,
        kept.same_key,
      )

  fresh_block :
      (Q : R → World → Type 0) (w : World)
      → find_record operation key w.db.idempotency_records ≡ none
      → OnOk Q (m w)
      → OnOk Q (
          (idempotent_resource operation key request_hash table >>= λ existing.
          unless_found existing m)
            w)
  unfolding ◌>>=◌ idempotent_resource recorded_resource
  fresh_block Q w missing h = elim (Bool-cases (is_blank key)) [
    | inl blank ↦ rw blank tt
    | inr present ↦ rw (present, missing) h
  ]

  -- A key that was not recorded: the call is the transaction.
  pub guarded-fresh :
      (Q : R → World → Type 0) (w : World)
      → find_record operation key w.db.idempotency_records ≡ none
      → (role ≡ ok tt → OnOk Q (m w))
      → OnOk Q (guarded w)
  guarded-fresh Q w missing h =
      OnOk-lift Q _ _ _ λ allowed. OnOk-begin Q _ _ (fresh_block Q w missing (h allowed))

-- The key of a request that has succeeded is refused for a request with another hash.
module _ {R : Type 0} ⦃row : Row R⦄ (role later : Result (Unit {0}))
    (operation key hash other : String) (table : Database → List R) (m n : Action R) where
  pub guarded-conflict :
      (w w' : World) (x : R)
      → ((v : World) → OnOk (λ y after. IsRecorded operation key hash table y after) (m v))
      → guarded role operation key hash table m w ≡ (ok x, w')
      → later ≡ ok tt
      → hash ≢ other
      → guarded later operation key other table n w' ≡ (err Error.conflict, w')
  unfolding Ended
  guarded-conflict w w' x records done allowed differ =
      let (was_allowed, present, kept) =
        OnOk-elim (Ended role operation key hash table m)
          (guarded role operation key hash table m w) x w'
          (guarded-Ended role operation key hash table m w records) done in
      guarded-reused later operation key other table n w' kept.entry allowed present kept.found
        (λ e. differ (sym kept.same_hash ∙ e))
