-- ===== src/Linkage/Touch.antt =====
-- One message, its dispatch and its reservation move together: the invariant is kept.
use energy_flex_trust_platfo.Prelude.{
  String, ◌≡◌, ◌≢◌, refl, sym, ap, subst, ◌∙◌, ◌⊎◌, inl, inr, Option, some, String-discrete,
}
use energy_flex_trust_platfo.Domain.{DispatchStatus}
use energy_flex_trust_platfo.Models.Table.{Touched}
use energy_flex_trust_platfo.Models.{OutboxMessage, Dispatch, Reservation, Settlement}
use energy_flex_trust_platfo.Linkage.Defs.{
  View, Agrees, LeaseMatches, Link, Settled, Queued, IsLinked,
}

-- A row after the touch: at the key it is the old one with `f` applied, elsewhere the old one.
touched_row :
    {A : Type 0} (k j : String) (f : A → A) (before after : String → Option A) (a b : A)
    → Touched k f before after
    → before k ≡ some a
    → after j ≡ some b
    → ((k ≡ j) × (b ≡ f a)) ⊎ ((k ≢ j) × (before j ≡ some b))
touched_row k j f before after a b t old new = elim (String-discrete k j) [
  | yes same ↦ inl (same, cc (t.hit, old, new, ap after same))
  | no other ↦ inr (other, sym (t.miss j other) ∙ new)
]

pub record Moves (v : View) : Type 0 where
  pub message_id : String
  pub m : OutboxMessage
  pub d : Dispatch
  pub r : Reservation
  pub found_message : v.message message_id ≡ some m
  pub found_dispatch : v.dispatch m.aggregate_id ≡ some d
  pub found_reservation : v.reservation d.reservation_id ≡ some r

module _ (v u : View) (b : Moves v) (fm : OutboxMessage → OutboxMessage) (fd : Dispatch → Dispatch)
    (fr : Reservation → Reservation) (tm : Touched b.message_id fm v.message u.message)
    (td : Touched b.m.aggregate_id fd v.dispatch u.dispatch)
    (tr : Touched b.d.reservation_id fr v.reservation u.reservation)
    (same_aggregate : (x : OutboxMessage) → (fm x).aggregate_id ≡ x.aggregate_id)
    (same_reservation : (x : Dispatch) → (fd x).reservation_id ≡ x.reservation_id)
    (agrees : Agrees (fm b.m).status (fd b.d).status (fr b.r).status)
    (leased : LeaseMatches (fm b.m).locked_by (fm b.m).status)
    (finished : b.d.status ≡ DispatchStatus.completed → (fd b.d).status ≡ DispatchStatus.completed)
    (settled : (k : String) (s : Settlement)
      → u.settlement k ≡ some s
      → (v.settlement k ≡ some s)
        ⊎ ((s.reservation_id ≡ b.d.reservation_id) × ((fd b.d).status ≡ DispatchStatus.completed)))
    (h : IsLinked v) where
  moved_dispatch : u.dispatch b.m.aggregate_id ≡ some (fd b.d)
  moved_dispatch = cc (td.hit, b.found_dispatch)

  moved_reservation : u.reservation b.d.reservation_id ≡ some (fr b.r)
  moved_reservation = cc (tr.hit, b.found_reservation)

  moved_rows : Link u (fm b.m)
  moved_rows = record {
    dispatch = fd b.d;
    reservation = fr b.r;
    found_dispatch = cc (moved_dispatch, same_aggregate b.m);
    found_reservation = cc (moved_reservation, same_reservation b.d);
    agrees = agrees;
    leased = leased;
  }

  -- A message of another key keeps its dispatch and its reservation.
  other_rows : (j : String) (m : OutboxMessage) → b.message_id ≢ j → v.message j ≡ some m → Link u m
  other_rows j m other found =
      let l = h.links j m found in
      let apart : b.m.aggregate_id ≢ m.aggregate_id =
        λ same. other (h.one_message b.message_id j b.m m b.found_message found same) in
      let reserved_apart : b.d.reservation_id ≢ l.dispatch.reservation_id = λ same. apart (
        h.one_dispatch b.m.aggregate_id m.aggregate_id b.d l.dispatch b.found_dispatch
          l.found_dispatch same) in
      record {
        dispatch = l.dispatch;
        reservation = l.reservation;
        found_dispatch = td.miss m.aggregate_id apart ∙ l.found_dispatch;
        found_reservation = tr.miss l.dispatch.reservation_id reserved_apart ∙ l.found_reservation;
        agrees = l.agrees;
        leased = l.leased;
      }

  -- Where the row of a message, or of a dispatch, was before.
  message_before :
      (j : String) (m : OutboxMessage)
      → u.message j ≡ some m
      → (n : OutboxMessage) × (v.message j ≡ some n) × (m.aggregate_id ≡ n.aggregate_id)
  message_before j m found =
      elim (touched_row b.message_id j fm v.message u.message b.m m tm b.found_message found) [
        | inl (here, same) ↦ (
          b.m,
          subst (λ k. v.message k ≡ some b.m) here b.found_message,
          ap (λ (x : OutboxMessage). x.aggregate_id) same ∙ same_aggregate b.m,
        )
        | inr (other, old) ↦ (m, old, refl)
      ]

  dispatch_before :
      (j : String) (d : Dispatch)
      → u.dispatch j ≡ some d
      → (e : Dispatch) × (v.dispatch j ≡ some e) × (d.reservation_id ≡ e.reservation_id)
  dispatch_before j d found =
      elim (touched_row b.m.aggregate_id j fd v.dispatch u.dispatch b.d d td b.found_dispatch
        found) [
          | inl (here, same) ↦ (
            b.d,
            subst (λ k. v.dispatch k ≡ some b.d) here b.found_dispatch,
            ap (λ (x : Dispatch). x.reservation_id) same ∙ same_reservation b.d,
          )
          | inr (other, old) ↦ (d, old, refl)
        ]

  message_after :
      (j : String) (m : OutboxMessage)
      → v.message j ≡ some m
      → (n : OutboxMessage) × (u.message j ≡ some n) × (n.aggregate_id ≡ m.aggregate_id)
  message_after j m found = elim (String-discrete b.message_id j) [
    | yes here ↦ (fm m, cc (tm.hit, ap v.message here, ap u.message here, found), same_aggregate m)
    | no other ↦ (m, tm.miss j other ∙ found, refl)
  ]

  dispatch_after :
      (j : String) (d : Dispatch)
      → v.dispatch j ≡ some d
      → d.status ≡ DispatchStatus.completed
      → (e : Dispatch) × (u.dispatch j ≡ some e)
        × (e.reservation_id ≡ d.reservation_id)
        × (e.status ≡ DispatchStatus.completed)
  dispatch_after j d found done = elim (String-discrete b.m.aggregate_id j) [
    | yes here ↦
        let same : b.d ≡ d = cc (ap v.dispatch here, found, b.found_dispatch) in
        (
          fd d,
          cc (td.hit, ap v.dispatch here, ap u.dispatch here, found),
          same_reservation d,
          subst (λ x. (fd x).status ≡ DispatchStatus.completed) same
              (finished (ap (λ (x : Dispatch). x.status) same ∙ done)),
        )
    | no other ↦ (d, td.miss j other ∙ found, refl, done)
  ]

  kept_settlement :
      (k : String) (s : Settlement) → u.settlement k ≡ some s → Settled u s.reservation_id
  kept_settlement k s found = elim (settled k s found) [
    | inl old ↦
        let before = h.settled_all k s old in
        let (e, now, owned, done) =
          dispatch_after before.dispatch_id before.dispatch before.found before.completed in
        record {
          dispatch_id = before.dispatch_id;
          dispatch = e;
          found = now;
          owned = owned ∙ before.owned;
          completed = done;
        }
    | inr (here, done) ↦ record {
      dispatch_id = b.m.aggregate_id;
      dispatch = fd b.d;
      found = moved_dispatch;
      owned = same_reservation b.d ∙ sym here;
      completed = done;
    }
  ]

  rows_after : (j : String) (m : OutboxMessage) → u.message j ≡ some m → Link u m
  rows_after j m found =
      elim (touched_row b.message_id j fm v.message u.message b.m m tm b.found_message found) [
        | inl (here, same) ↦ rw same moved_rows
        | inr (other, old) ↦ other_rows j m other old
      ]

  one_message_after :
      (j k : String) (m n : OutboxMessage)
      → u.message j ≡ some m
      → u.message k ≡ some n
      → m.aggregate_id ≡ n.aggregate_id
      → j ≡ k
  one_message_after j k m n found_m found_n same =
      let (x, old_m, from_m) = message_before j m found_m in
      let (y, old_n, from_n) = message_before k n found_n in
      h.one_message j k x y old_m old_n (sym from_m ∙ same ∙ from_n)

  one_dispatch_after :
      (j k : String) (d e : Dispatch)
      → u.dispatch j ≡ some d
      → u.dispatch k ≡ some e
      → d.reservation_id ≡ e.reservation_id
      → j ≡ k
  one_dispatch_after j k d e found_d found_e same =
      let (x, old_d, from_d) = dispatch_before j d found_d in
      let (y, old_e, from_e) = dispatch_before k e found_e in
      h.one_dispatch j k x y old_d old_e (sym from_d ∙ same ∙ from_e)

  kept_message : (k : String) (d : Dispatch) → u.dispatch k ≡ some d → Queued u k
  kept_message k d found =
      let (e, old, _) = dispatch_before k d found in
      let before = h.queued_all k e old in
      let (n, now, same) = message_after before.message_id before.message before.found in
      record {
        message_id = before.message_id;
        message = n;
        found = now;
        about = same ∙ before.about;
      }

  pub touch-IsLinked : IsLinked u
  touch-IsLinked = record {
    links = rows_after;
    one_message = one_message_after;
    one_dispatch = one_dispatch_after;
    queued_all = kept_message;
    settled_all = kept_settlement;
  }
