-- ===== src/System/Invariant.antt =====
-- What holds after every sequence of calls.
use energy_flex_trust_platfo.Prelude.{
  suc, ◌≡◌, refl, sym, ap, ◌∙◌, subst, inl, inr, Option, none, some, List,
}
use energy_flex_trust_platfo.Domain.{Result, ok, err}
use energy_flex_trust_platfo.Platform.{Platform}
use energy_flex_trust_platfo.Models.Table.{get, update}
use energy_flex_trust_platfo.Models.Keyed.{IsIn}
use energy_flex_trust_platfo.Models.{
  Database, OutboxMessage, outbox_message_row, dispatch_row, reservation_row, settlement_row,
}
use energy_flex_trust_platfo.Session.{World, Action, ◌>>=◌, utc_now}
use energy_flex_trust_platfo.Session.Rules.{Keeps}
use energy_flex_trust_platfo.Session.Outcome.{
  OnOk, OnOk-query, OnOk-if_found, OnOk-new_id, OnOk-raise_if, OnOk-write, OnOk-pure, OnOk-begin,
}
use energy_flex_trust_platfo.Datetime.{Datetime, as_utc}
use energy_flex_trust_platfo.Linkage.Rules.{lost_row}
use energy_flex_trust_platfo.Audit.Defs.{verify_chain}
use energy_flex_trust_platfo.Audit.Chain.{IsVerified}
use energy_flex_trust_platfo.Outbox.Worker.{
  Settings, ClaimedMessage, claimed_at, claim, claim_one, record_success, record_failure,
}
use energy_flex_trust_platfo.Linkage.Defs.{view, IsLinked}
use energy_flex_trust_platfo.Linkage.Keyed.{
  Tables, HasKeys, HasKeys_tables, IsAbout, IsAbout_tables,
}
use energy_flex_trust_platfo.Linkage.Operations.{
  register_asset-Tables, create_offer-Tables, reserve_offer-Tables, issue_dispatch-Tables,
  record_meter_reading-Tables, settle_reservation-Tables, authorize_dead_dispatch_redrive-Tables,
  claim_one-Tables, record_success-Tables, record_failure-Tables,
}
use energy_flex_trust_platfo.Linkage.Claim.{next_claimable-found, claim_one-IsLinked}
use energy_flex_trust_platfo.Linkage.Delivery.{IsClaimOf, record_success-IsLinked}
use energy_flex_trust_platfo.Linkage.Failure.{record_failure-IsLinked}
use energy_flex_trust_platfo.Linkage.Redrive.{authorize_dead_dispatch_redrive-IsLinked}
use energy_flex_trust_platfo.Linkage.Service.{
  register_asset-IsLinked, create_offer-IsLinked, reserve_offer-IsLinked,
  record_meter_reading-IsLinked,
}
use energy_flex_trust_platfo.Linkage.Issue.{issue_dispatch-IsLinked}
use energy_flex_trust_platfo.Linkage.Settle.{settle_reservation-IsLinked}
use energy_flex_trust_platfo.Trail.Service.{
  register_asset-IsVerified, create_offer-IsVerified, reserve_offer-IsVerified,
  issue_dispatch-IsVerified, record_meter_reading-IsVerified, settle_reservation-IsVerified,
}
use energy_flex_trust_platfo.Trail.Delivery.{
  authorize_dead_dispatch_redrive-IsVerified, claim_one-IsVerified, record_success-IsVerified,
  record_failure-IsVerified,
}
use energy_flex_trust_platfo.Redrive.{authorize_dead_dispatch_redrive}
use energy_flex_trust_platfo.Service.Registration.{register_asset, create_offer}
use energy_flex_trust_platfo.Service.Reserve.{reserve_offer}
use energy_flex_trust_platfo.Service.Issue.{issue_dispatch}
use energy_flex_trust_platfo.Service.Metering.{record_meter_reading}
use energy_flex_trust_platfo.Service.Settle.{settle_reservation}
use energy_flex_trust_platfo.System.{
  State, with_claim, moved, Step, asset_call, offer_call, reserve_call, issue_call, reading_call,
  settle_call, redrive_call, take, acknowledge, fail, Reach, here, next, fresh_state,
}

-- Every claim in hand is of a stored message, about the claim's dispatch.
abbrev ClaimsHeld : List ClaimedMessage → Database → Type 0
ClaimsHeld claims db = (c : ClaimedMessage) → IsIn c claims → IsAbout c.id c.aggregate_id db

module _ ⦃p : Platform⦄ where
  pub record IsSafe (s : State) : Type 0 where
    pub verified : IsVerified s.world.db
    pub keys : HasKeys s.world.db
    pub linked : IsLinked (view s.world.db)
    pub held : ClaimsHeld s.claims s.world.db

  IsAbout-IsClaimOf :
      (c : ClaimedMessage) (db : Database) → IsAbout c.id c.aggregate_id db → IsClaimOf db c
  IsAbout-IsClaimOf c db h m found =
      let same : h.message ≡ m = cc (h.found, found) in
      ap (λ (x : OutboxMessage). x.aggregate_id) (sym same) ∙ h.about

  -- A call, from what it keeps of the tables and the log.
  called :
      {A : Type 0} (s : State) (m : Action A)
      → ((P : Database → Type 0) → Tables P → Keeps P m)
      → Keeps IsVerified m
      → IsLinked (view (m s.world).1.db)
      → IsSafe s
      → IsSafe (moved s (m s.world).1)
  called s m tables log linked h = record {
    verified = log.at s.world h.verified;
    keys = (tables HasKeys HasKeys_tables).at s.world h.keys;
    linked = linked;
    held = λ c listed.
        (tables (IsAbout c.id c.aggregate_id) IsAbout_tables).at s.world (h.held c listed);
  }

  about_claim :
      (m : OutboxMessage) (db : Database) (f : OutboxMessage → OutboxMessage) (c d : ClaimedMessage)
      → ((x : OutboxMessage) → (f x).id ≡ x.id)
      → ((x : OutboxMessage) → (f x).aggregate_id ≡ x.aggregate_id)
      → ◌≡◌ {A = Option ClaimedMessage} (some d) (some c)
      → d.id ≡ m.id
      → d.aggregate_id ≡ m.aggregate_id
      → get m.id db.outbox_messages ≡ some m
      → IsAbout c.id c.aggregate_id
          (record db { outbox_messages = update m.id f db.outbox_messages })
  about_claim m db f c d keeps about same id aggregate found =
      let here : d ≡ c = cc same in
      subst
        (λ (x : ClaimedMessage).
          IsAbout x.id x.aggregate_id
            (record db { outbox_messages = update m.id f db.outbox_messages }))
        here
        (rw (id, aggregate)
          ((IsAbout_tables {id = m.id} {a = m.aggregate_id}).messages m.id f keeps about db
            (record { message = m; found = found; about = refl })))

  module _ (settings : Settings) where
    -- A claim that was just taken is of a stored message.
    claim-IsAbout :
        (now : Datetime) (w : World)
        → HasKeys w.db
        → OnOk
            (λ o after. (c : ClaimedMessage) → o ≡ some c → IsAbout c.id c.aggregate_id after.db)
            (claim settings now w)
    unfolding claim
    claim-IsAbout now w keys = OnOk-query _ _ _ _ (
        OnOk-if_found _ _ _ _ w (λ missing c same. absurd (lost_row refl same))
          λ m found. OnOk-new_id _ _ _ (
            OnOk-raise_if _ _ _ _ _ λ narrow. OnOk-write _ _ _ _ (
              OnOk-pure _ _ _ λ c same.
                about_claim m w.db (claimed_at settings now _) c _ (λ x. refl) (λ x. refl) same refl
                  refl (next_claimable-found now w.db m keys found).0)))

    claim_one-IsAbout :
        (w : World)
        → HasKeys w.db
        → OnOk
            (λ o after. (c : ClaimedMessage) → o ≡ some c → IsAbout c.id c.aggregate_id after.db)
            (claim_one settings w)
    unfolding claim_one ◌>>=◌ utc_now
    claim_one-IsAbout w keys =
        let v : World = record w { ticks = suc w.ticks } in
        OnOk-begin
          (λ (o : Option ClaimedMessage) (after : World).
            (c : ClaimedMessage) → o ≡ some c → IsAbout c.id c.aggregate_id after.db)
          (claim settings (as_utc (p.clock w.ticks))) v
          (claim-IsAbout (as_utc (p.clock w.ticks)) v keys)

  still_held :
      (claims : List ClaimedMessage) (r : Result (Option ClaimedMessage) × World)
      → OnOk (λ o after. (c : ClaimedMessage) → o ≡ some c → IsAbout c.id c.aggregate_id after.db) r
      → ClaimsHeld claims r.1.db
      → ClaimsHeld (with_claim r.0 claims) r.1.db
  still_held claims (ok (some claimed), w) new old c (inl same) =
      new c (ap {B = Option ClaimedMessage} some same)
  still_held claims (ok (some claimed), w) new old c (inr listed) = old c listed
  still_held claims (ok none, w) new old c listed = old c listed
  still_held claims (err e, w) new old c listed = old c listed

  -- Each step keeps the invariant.
  transition-IsSafe : (s t : State) → Step s t → IsSafe s → IsSafe t
  transition-IsSafe s _ (asset_call command actor) h =
      called s (register_asset command actor) (λ P t. register_asset-Tables ⦃t = t⦄ command actor)
        (register_asset-IsVerified command actor)
        ((register_asset-IsLinked command actor).at s.world h.linked) h
  transition-IsSafe s _ (offer_call command actor) h =
      called s (create_offer command actor) (λ P t. create_offer-Tables ⦃t = t⦄ command actor)
        (create_offer-IsVerified command actor)
        ((create_offer-IsLinked command actor).at s.world h.linked) h
  transition-IsSafe s _ (reserve_call offer_id command actor key) h =
      called s (reserve_offer offer_id command actor key)
        (λ P t. reserve_offer-Tables ⦃t = t⦄ offer_id command actor key)
        (reserve_offer-IsVerified offer_id command actor key)
        ((reserve_offer-IsLinked offer_id command actor key).at s.world h.linked) h
  transition-IsSafe s _ (issue_call reservation_id command actor key) h =
      called s (issue_dispatch reservation_id command actor key)
        (λ P t. issue_dispatch-Tables ⦃t = t⦄ reservation_id command actor key)
        (issue_dispatch-IsVerified reservation_id command actor key)
        (issue_dispatch-IsLinked reservation_id command actor key s.world h.keys h.linked) h
  transition-IsSafe s _ (reading_call command actor) h =
      called s (record_meter_reading command actor)
        (λ P t. record_meter_reading-Tables ⦃t = t⦄ command actor)
        (record_meter_reading-IsVerified command actor)
        ((record_meter_reading-IsLinked command actor).at s.world h.linked) h
  transition-IsSafe s _ (settle_call reservation_id actor key) h =
      called s (settle_reservation reservation_id actor key)
        (λ P t. settle_reservation-Tables ⦃t = t⦄ reservation_id actor key)
        (settle_reservation-IsVerified reservation_id actor key)
        (settle_reservation-IsLinked reservation_id actor key s.world h.keys h.linked) h
  transition-IsSafe s _ (redrive_call actor message_id dispatch_id reason) h =
      called s (authorize_dead_dispatch_redrive actor message_id dispatch_id reason)
        (λ P t. authorize_dead_dispatch_redrive-Tables ⦃t = t⦄ actor message_id dispatch_id reason)
        (authorize_dead_dispatch_redrive-IsVerified actor message_id dispatch_id reason)
        ((authorize_dead_dispatch_redrive-IsLinked actor message_id dispatch_id reason).at s.world
          h.linked)
        h
  transition-IsSafe s _ (take settings) h =
      let after =
        called s (claim_one settings) (λ P t. claim_one-Tables ⦃t = t⦄ settings)
          (claim_one-IsVerified settings) (claim_one-IsLinked settings s.world h.keys h.linked) h in
      record {
        verified = after.verified;
        keys = after.keys;
        linked = after.linked;
        held =
            still_held s.claims (claim_one settings s.world)
              (claim_one-IsAbout settings s.world h.keys) after.held;
      }
  transition-IsSafe s _ (acknowledge settings claimed reference listed) h =
      called s (record_success settings claimed reference)
        (λ P t. record_success-Tables ⦃t = t⦄ settings claimed reference)
        (record_success-IsVerified settings claimed reference)
        (record_success-IsLinked settings claimed reference s.world h.linked
          (IsAbout-IsClaimOf claimed s.world.db (h.held claimed listed)))
        h
  transition-IsSafe s _ (fail settings claimed type_name exc listed) h =
      called s (record_failure settings claimed type_name exc)
        (λ P t. record_failure-Tables ⦃t = t⦄ settings claimed type_name exc)
        (record_failure-IsVerified settings claimed type_name exc)
        (record_failure-IsLinked settings claimed type_name exc s.world h.linked
          (IsAbout-IsClaimOf claimed s.world.db (h.held claimed listed)))
        h

  pub Reach-IsSafe : (s t : State) → IsSafe s → Reach s t → IsSafe t
  Reach-IsSafe s _ h here = h
  Reach-IsSafe s t h (next {s = u} path step) = transition-IsSafe u t step (Reach-IsSafe s u h path)

  pub fresh-IsSafe : IsSafe fresh_state
  unfolding verify_chain get
  fresh-IsSafe = record {
    verified = refl;
    keys = record { messages = tt; dispatches = tt };
    linked = record {
      links = λ k m found. absurd (lost_row refl found);
      one_message = λ j k m n found also same. absurd (lost_row refl found);
      one_dispatch = λ j k d e found also same. absurd (lost_row refl found);
      queued_all = λ k d found. absurd (lost_row refl found);
      settled_all = λ k s found. absurd (lost_row refl found);
    };
    held = λ c listed. absurd listed;
  }
