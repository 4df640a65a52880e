-- ===== src/Linkage/Arrival.antt =====
-- A new dispatch with its message comes into the database: the invariant is kept.
use energy_flex_trust_platfo.Prelude.{
  String, ◌≡◌, ◌≢◌, sym, ap, subst, ◌∙◌, ◌⊎◌, inl, inr, some, arith, String-discrete,
}
use energy_flex_trust_platfo.Domain.{reserved, DispatchStatus}
use energy_flex_trust_platfo.Models.Table.{Touched, Inserted}
use energy_flex_trust_platfo.Models.{
  OutboxStatus, OutboxMessage, Dispatch, Reservation, Settlement, outbox_message_row, dispatch_row,
  reservation_row, settlement_row,
}
use energy_flex_trust_platfo.Linkage.Defs.{
  View, Agrees, LeaseMatches, Link, Queued, Settled, IsLinked,
}
use energy_flex_trust_platfo.Linkage.Rules.{lost_row}

-- No message is about a reservation that is only reserved.
reserved-unlinked : (m : OutboxStatus) (d : DispatchStatus) → Agrees m d reserved → ⊥
reserved-unlinked m d a = ground arith

pub record Arrival (v u : View) : Type 0 where
  pub dispatch_id : String
  pub reservation_id : String
  pub message_id : String
  pub d : Dispatch
  pub m : OutboxMessage
  pub r : Reservation
  pub fr : Reservation → Reservation
  pub new_dispatch : Inserted dispatch_id d v.dispatch u.dispatch
  pub new_message : Inserted message_id m v.message u.message
  pub moved : Touched reservation_id fr v.reservation u.reservation
  pub same_settlements : u.settlement ≡ v.settlement
  pub found : v.reservation reservation_id ≡ some r
  pub was_reserved : r.status ≡ reserved
  pub owned : d.reservation_id ≡ reservation_id
  pub about : m.aggregate_id ≡ dispatch_id
  pub agrees : Agrees m.status d.status (fr r).status
  pub leased : LeaseMatches m.locked_by m.status

module _ (v u : View) (b : Arrival v u) (h : IsLinked v) where
  -- No dispatch of the reservation is there.
  unowned :
      (k : String) (e : Dispatch) → v.dispatch k ≡ some e → e.reservation_id ≢ b.reservation_id
  unowned k e found same =
      let q = h.queued_all k e found in
      let l = h.links q.message_id q.message q.found in
      let same_e : l.dispatch ≡ e = cc (l.found_dispatch, found, ap v.dispatch q.about) in
      let same_r : l.reservation ≡ b.r = cc (
        l.found_reservation,
        b.found,
        ap v.reservation same,
        ap (λ (x : Dispatch). v.reservation x.reservation_id) same_e,
      ) in
      reserved-unlinked q.message.status l.dispatch.status (
        subst (λ s. Agrees q.message.status l.dispatch.status s)
          (ap (λ (x : Reservation). x.status) same_r ∙ b.was_reserved) l.agrees)

  -- No message is about the new dispatch.
  unannounced :
      (k : String) (n : OutboxMessage) → v.message k ≡ some n → b.dispatch_id ≢ n.aggregate_id
  unannounced k n found same =
      let l = h.links k n found in
      lost_row (ap v.dispatch (sym same) ∙ b.new_dispatch.fresh) l.found_dispatch

  old_dispatch : (k : String) (e : Dispatch) → v.dispatch k ≡ some e → u.dispatch k ≡ some e
  old_dispatch k e found =
      b.new_dispatch.miss k
        (λ same. lost_row (ap v.dispatch (sym same) ∙ b.new_dispatch.fresh) found)
      ∙ found

  old_message : (k : String) (n : OutboxMessage) → v.message k ≡ some n → u.message k ≡ some n
  old_message k n found =
      b.new_message.miss k (λ same. lost_row (ap v.message (sym same) ∙ b.new_message.fresh) found)
      ∙ found

  new_rows : Link u b.m
  new_rows = record {
    dispatch = b.d;
    reservation = b.fr b.r;
    found_dispatch = cc (b.new_dispatch.hit, b.about);
    found_reservation = cc (b.moved.hit, b.owned, b.found);
    agrees = b.agrees;
    leased = b.leased;
  }

  old_rows : (k : String) (n : OutboxMessage) → v.message k ≡ some n → Link u n
  old_rows k n found =
      let l = h.links k n found in
      record {
        dispatch = l.dispatch;
        reservation = l.reservation;
        found_dispatch = old_dispatch n.aggregate_id l.dispatch l.found_dispatch;
        found_reservation =
            b.moved.miss l.dispatch.reservation_id
              (λ same. unowned n.aggregate_id l.dispatch l.found_dispatch (sym same))
            ∙ l.found_reservation;
        agrees = l.agrees;
        leased = l.leased;
      }

  -- A row is the new one, or it was there.
  which_message :
      (k : String) (n : OutboxMessage)
      → u.message k ≡ some n
      → ((b.message_id ≡ k) × (b.m ≡ n)) ⊎ (v.message k ≡ some n)
  which_message k n found = elim (String-discrete b.message_id k) [
    | yes here ↦ inl (here, cc (b.new_message.hit, found, ap u.message here))
    | no other ↦ inr (sym (b.new_message.miss k other) ∙ found)
  ]

  which_dispatch :
      (k : String) (e : Dispatch)
      → u.dispatch k ≡ some e
      → ((b.dispatch_id ≡ k) × (b.d ≡ e)) ⊎ (v.dispatch k ≡ some e)
  which_dispatch k e found = elim (String-discrete b.dispatch_id k) [
    | yes here ↦ inl (here, cc (b.new_dispatch.hit, found, ap u.dispatch here))
    | no other ↦ inr (sym (b.new_dispatch.miss k other) ∙ found)
  ]

  rows_after : (k : String) (n : OutboxMessage) → u.message k ≡ some n → Link u n
  rows_after k n found = elim (which_message k n found) [
    | inl (here, same) ↦ subst (Link u) same new_rows
    | inr old ↦ old_rows k n old
  ]

  one_message_after :
      (j k : String) (m n : OutboxMessage)
      → u.message j ≡ some m
      → u.message k ≡ some n
      → m.aggregate_id ≡ n.aggregate_id
      → j ≡ k
  one_message_after j k m n found_m found_n same = elim (which_message j m found_m) [
    | inl (here, new) ↦ elim (which_message k n found_n) [
      | inl (there, _) ↦ sym here ∙ there
      | inr old ↦ absurd (
          unannounced k n old (sym b.about ∙ ap (λ (x : OutboxMessage). x.aggregate_id) new ∙ same))
    ]
    | inr old ↦ elim (which_message k n found_n) [
      | inl (_, new) ↦ absurd (
          unannounced j m old
            (sym b.about ∙ ap (λ (x : OutboxMessage). x.aggregate_id) new ∙ sym same))
      | inr also ↦ h.one_message j k m n old also same
    ]
  ]

  one_dispatch_after :
      (j k : String) (d e : Dispatch)
      → u.dispatch j ≡ some d
      → u.dispatch k ≡ some e
      → d.reservation_id ≡ e.reservation_id
      → j ≡ k
  one_dispatch_after j k d e found_d found_e same = elim (which_dispatch j d found_d) [
    | inl (here, new) ↦ elim (which_dispatch k e found_e) [
      | inl (there, _) ↦ sym here ∙ there
      | inr old ↦
          absurd (
            unowned k e old
              (sym same ∙ sym (ap (λ (x : Dispatch). x.reservation_id) new) ∙ b.owned))
    ]
    | inr old ↦ elim (which_dispatch k e found_e) [
      | inl (_, new) ↦
          absurd
            (unowned j d old (same ∙ sym (ap (λ (x : Dispatch). x.reservation_id) new) ∙ b.owned))
      | inr also ↦ h.one_dispatch j k d e old also same
    ]
  ]

  kept_message : (k : String) (e : Dispatch) → u.dispatch k ≡ some e → Queued u k
  kept_message k e found = elim (which_dispatch k e found) [
    | inl (here, same) ↦ record {
      message_id = b.message_id;
      message = b.m;
      found = b.new_message.hit;
      about = b.about ∙ here;
    }
    | inr old ↦
        let q = h.queued_all k e old in
        record {
          message_id = q.message_id;
          message = q.message;
          found = old_message q.message_id q.message q.found;
          about = q.about;
        }
  ]

  kept_settlement :
      (k : String) (s : Settlement) → u.settlement k ≡ some s → Settled u s.reservation_id
  kept_settlement k s found =
      let t = h.settled_all k s (sym (ap (λ f. f k) b.same_settlements) ∙ found) in
      record {
        dispatch_id = t.dispatch_id;
        dispatch = t.dispatch;
        found = old_dispatch t.dispatch_id t.dispatch t.found;
        owned = t.owned;
        completed = t.completed;
      }

  pub arrival-IsLinked : IsLinked u
  arrival-IsLinked = record {
    links = rows_after;
    one_message = one_message_after;
    one_dispatch = one_dispatch_after;
    queued_all = kept_message;
    settled_all = kept_settlement;
  }
