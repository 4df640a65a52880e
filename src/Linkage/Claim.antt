-- ===== src/Linkage/Claim.antt =====
-- A claim keeps the invariant, and what it hands out is of the message that it leased.
use energy_flex_trust_platfo.Prelude.{
  suc, ◌≡◌, refl, true, some, List, [], ◌∷◌, arith, inl, inr, ◌⊎◌, select_where, order_by,
}
use energy_flex_trust_platfo.Datetime.{Datetime, as_utc}
use energy_flex_trust_platfo.Platform.{Platform}
use energy_flex_trust_platfo.Models.Table.{get}
use energy_flex_trust_platfo.Models.Keyed.{IsIn, IsIn-select_where, IsIn-order_by, get-of_IsIn}
use energy_flex_trust_platfo.Models.{
  OutboxStatus, pending, processing, OutboxMessage, Dispatch, Reservation, Database,
  outbox_message_row,
}
use energy_flex_trust_platfo.Session.{World, ◌>>=◌, utc_now}
use energy_flex_trust_platfo.Session.Outcome.{
  OnOk, OnOk-query, OnOk-write, OnOk-pure, OnOk-if_found, OnOk-raise_if, OnOk-new_id, begin_keeps,
}
use energy_flex_trust_platfo.Outbox.Worker.{
  Settings, is_claimable, claim_order, next_claimable, first?, claim, claim_one,
}
use energy_flex_trust_platfo.Linkage.Defs.{view, Agrees, IsLinked}
use energy_flex_trust_platfo.Linkage.Keyed.{HasKeys}
use energy_flex_trust_platfo.Linkage.Rules.{message_step-IsLinked}

first?-IsIn : {A : Type 0} (xs : List A) (x : A) → first? xs ≡ some x → IsIn x xs
first?-IsIn [] x h = cc
first?-IsIn (y ∷ ys) x h = inl (cc h)

-- What the query of a claim has found.
pub next_claimable-found :
    (now : Datetime) (db : Database) (m : OutboxMessage)
    → HasKeys db
    → next_claimable now db ≡ some m
    → (get m.id db.outbox_messages ≡ some m) × (is_claimable now m ≡ true)
unfolding next_claimable
next_claimable-found now db m keys h =
    let waiting = select_where (is_claimable now) db.outbox_messages in
    let listed = first?-IsIn (order_by claim_order waiting) m h in
    let (stored, claimable) =
      IsIn-select_where (is_claimable now) db.outbox_messages m
        (IsIn-order_by claim_order waiting m listed) in
    (get-of_IsIn db.outbox_messages m keys.messages stored, claimable)

-- A claim takes a message that waits, or one whose lease has run out.
pub claimable-waits :
    (now : Datetime) (m : OutboxMessage)
    → is_claimable now m ≡ true
    → (m.status ≡ pending) ⊎ (m.status ≡ processing)
unfolding is_claimable
claimable-waits now m h = ground arith

waiting-Agrees :
    (m : OutboxStatus) (d : Dispatch) (r : Reservation)
    → (m ≡ pending) ⊎ (m ≡ processing)
    → Agrees m d.status r.status
    → Agrees processing d.status r.status
waiting-Agrees m d r (inl e) a = ground arith
waiting-Agrees m d r (inr e) a = ground arith

module _ ⦃p : Platform⦄ (s : Settings) where
  claim-IsLinked :
      (now : Datetime) (w : World)
      → HasKeys w.db
      → IsLinked (view w.db)
      → OnOk (λ c after. IsLinked (view after.db)) (claim s now w)
  unfolding claim
  claim-IsLinked now w keys h = OnOk-query _ _ _ _ (
      OnOk-if_found _ _ _ _ w (λ missing. h)
        λ m found. OnOk-new_id _ _ _ (
          OnOk-raise_if _ _ _ _ _ λ narrow. OnOk-write _ _ _ _ (
            OnOk-pure _ _ _ (
              let (stored, claimable) = next_claimable-found now w.db m keys found in
              message_step-IsLinked w.db m _ stored (λ x. refl) (λ x. refl)
                (λ d r. waiting-Agrees m.status d r (claimable-waits now m claimable)) tt h))))

  pub claim_one-IsLinked :
      (w : World) → HasKeys w.db → IsLinked (view w.db) → IsLinked (view (claim_one s w).1.db)
  unfolding claim_one ◌>>=◌ utc_now
  claim_one-IsLinked w keys h =
      let v : World = record w { ticks = suc w.ticks } in
      begin_keeps (λ db. IsLinked (view db)) (claim s (as_utc (p.clock w.ticks))) v h
        (claim-IsLinked (as_utc (p.clock w.ticks)) v keys h)
