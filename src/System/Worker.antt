-- ===== src/System/Worker.antt =====
-- The worker's loop takes only steps of the system, whatever the publisher answers.
use energy_flex_trust_platfo.Prelude.{
  ℕ, zero, suc, ◌≡◌, refl, sym, subst, ap, String, inl, inr, Option, none, some, ◌∷◌, ltb,
  Bool-cases,
}
use energy_flex_trust_platfo.Domain.{Result, ok, err}
use energy_flex_trust_platfo.Platform.{Platform}
use energy_flex_trust_platfo.Session.{World, Action, pure, continue, ◌>>=◌}
use energy_flex_trust_platfo.Models.Keyed.{IsIn}
use energy_flex_trust_platfo.Ports.{Publisher, Attempt, returned, raised}
use energy_flex_trust_platfo.Outbox.Worker.{
  Settings, ClaimedMessage, OutboxRunResult, claim_one, record_success, record_failure,
  record_attempt, Run, next_round, round, run_rounds, run_once,
}
use energy_flex_trust_platfo.System.{State, claimed_by, take, acknowledge, fail, Reach, next}

module _ ⦃p : Platform⦄ (start : State) where
  -- The world of a state that is reached.
  abbrev pub IsReached : World → Type 0
  IsReached w = (s : State) × Reach start s × (s.world ≡ w)

  after_pure :
      {A B : Type 0} (f : A → B) (m : Action A) (w : World)
      → ((m >>= λ a. pure (f a)) w).1 ≡ (m w).1
  unfolding ◌>>=◌
  after_pure {A} f m w = same (m w)
    where
      same : (r : Result A × World) → (continue (λ a. pure (f a)) r).1 ≡ r.1
      same (ok a, v) = refl
      same (err e, v) = refl

  module _ (s : Settings) {S : Type 0} (publisher : Publisher S) where
    taken :
        (t : State) (claimed : ClaimedMessage) (w : World)
        → claim_one s t.world ≡ (ok (some claimed), w)
        → Reach start t
        → Reach start (record { world = w; claims = claimed ∷ t.claims })
    taken t claimed w e path = subst (λ r. Reach start (claimed_by t r)) e (next path (take s))

    untaken :
        (t : State) (o : Result (Option ClaimedMessage)) (w : World)
        → claim_one s t.world ≡ (o, w)
        → Reach start t
        → Reach start (claimed_by t (o, w))
    untaken t o w e path = subst (λ r. Reach start (claimed_by t r)) e (next path (take s))

    recorded :
        (t : State) (claimed : ClaimedMessage) (counts : OutboxRunResult) (answer : Attempt String)
        → IsIn claimed t.claims
        → Reach start t
        → IsReached (record_attempt s publisher claimed counts answer t.world).1
    unfolding record_attempt
    recorded t claimed counts (raised type_name exc) listed path = (
      _,
      next path (fail s claimed type_name exc listed),
      sym (after_pure _ (record_failure s claimed type_name exc) t.world),
    )
    recorded t claimed counts (returned reference) listed path = (
      _,
      next path (acknowledge s claimed reference listed),
      sym (after_pure _ (record_success s claimed reference) t.world),
    )

    round_end :
        (state : S) (rest : OutboxRunResult → World → S → Run s publisher)
        (r : Result OutboxRunResult × World)
        → ((counts : OutboxRunResult) (w : World) (state : S)
            → IsReached w
            → IsReached (rest counts w state).1)
        → IsReached r.1
        → IsReached (next_round s publisher state rest r).1
    round_end state rest (err e, w) go reached = reached
    round_end state rest (ok counts, w) go reached = go counts w state reached

    round-IsReached :
        (t : State) (counts : OutboxRunResult) (state : S)
        (rest : OutboxRunResult → World → S → Run s publisher)
        (r : Result (Option ClaimedMessage) × World)
        → claim_one s t.world ≡ r
        → Reach start t
        → ((counts : OutboxRunResult) (w : World) (state : S)
            → IsReached w
            → IsReached (rest counts w state).1)
        → IsReached (round s publisher counts state rest r).1
    unfolding round
    round-IsReached t counts state rest (err e, w) same path go =
        (_, untaken t (err e) w same path, refl)
    round-IsReached t counts state rest (ok none, w) same path go =
        (_, untaken t (ok none) w same path, refl)
    round-IsReached t counts state rest (ok (some claimed), w) same path go =
        round_end _ rest _ go (
          recorded (record { world = w; claims = claimed ∷ t.claims }) claimed _ _ (inl refl)
            (taken t claimed w same path))

    run_rounds-IsReached :
        (left : ℕ) (counts : OutboxRunResult) (w : World) (state : S)
        → IsReached w
        → IsReached (run_rounds s publisher left counts w state).1
    unfolding run_rounds
    run_rounds-IsReached zero counts w state reached = reached
    run_rounds-IsReached (suc left) counts w state (t, path, here) =
        round-IsReached t counts state (run_rounds s publisher left) (claim_one s w)
          (ap (claim_one s) here) path (run_rounds-IsReached left)

    -- A run of the worker, however many messages it claims, whatever the publisher answers and
    -- however it ends, takes a reached state to a reached state.
    pub run_once-IsReached :
        (limit : ℕ) (w : World) (state : S)
        → IsReached w
        → IsReached (run_once s publisher limit w state).1
    unfolding run_once
    run_once-IsReached limit w state reached = elim (Bool-cases (ltb limit 1)) [
      | inl none_asked ↦ rw none_asked reached
      | inr asked ↦ rw asked (run_rounds-IsReached limit _ w state reached)
    ]
