-- ===== src/Guarantees/Drain.antt =====
-- How a run of the worker ends.
use Prim.Native.String
use energy_flex_trust_platfo.Prelude.{
  ℕ, zero, suc, String, ◌⊎◌, ap, subst, ◌+◌, ◌≤◌, ◌<◌, ◌≡◌, refl, Bool, true, false, inl, inr,
  Option, none, some, ltb, arith, Bool-cases, Option-cases,
}
use energy_flex_trust_platfo.Domain.{Error, Result, ok, err}
use energy_flex_trust_platfo.Datetime.{as_utc}
use energy_flex_trust_platfo.Platform.{Platform}
use energy_flex_trust_platfo.Models.Width.{fits}
use energy_flex_trust_platfo.Session.{
  World, begin, ◌>>=◌, utc_now, query, if_found, new_id, write, pure, raise_if, raise, too_wide,
}
use energy_flex_trust_platfo.Session.Outcome.{OnOk, OnOk-any, OnOk-pure}
use energy_flex_trust_platfo.Ports.{Publisher, Attempt, returned, raised}
use energy_flex_trust_platfo.Outbox.Worker.{
  Settings, ClaimedMessage, OutboxRunResult, next_claimable, count_failure, count_success, claim,
  claim_one, attempt_publish, record_attempt, Run, next_round, round, run_rounds, run_once,
}

module _ ⦃p : Platform⦄ (s : Settings) {S : Type 0} (publisher : Publisher S) where
  -- The world was last looked at for a message that can be claimed, and there was none.
  pub record Drained (w : World) : Type 0 where
    pub last_tick : ℕ
    pub ticked : w.ticks ≡ suc last_tick
    pub nothing_left : next_claimable (as_utc (p.clock last_tick)) w.db ≡ none

  claim_one-Drained : (w w' : World) → claim_one s w ≡ (ok none, w') → Drained w'
  unfolding claim_one claim ◌>>=◌ utc_now begin query if_found new_id write pure raise_if raise
  claim_one-Drained w w' h = elim (Option-cases (next_claimable (as_utc (p.clock w.ticks)) w.db)) [
    | inl nothing ↦
        subst Drained (ap (λ r. r.1) (rw nothing at h))
          (record { last_tick = w.ticks; ticked = refl; nothing_left = nothing })
    | inr (m, found) ↦
        elim (Bool-cases
          (too_wide (fits 100 (String.◌++◌ s.worker_id (String.◌++◌ ":" (p.uuid w.drawn)))))) [
            | inl wide ↦ absurd (refused (rw (found, wide) at h))
            | inr fitting ↦ absurd (claimed (rw (found, fitting) at h))
          ]
  ]
    where
      claimed :
          {c : ClaimedMessage} {v : World}
          → ◌≡◌ {A = Result (Option ClaimedMessage) × World} (ok (some c), v) (ok none, w')
          → ⊥
      claimed e = ground arith

      refused :
          {x : Error} {v : World}
          → ◌≡◌ {A = Result (Option ClaimedMessage) × World} (err x, v) (ok none, w')
          → ⊥
      refused e = ground arith

  -- The attempts that were recorded, one way or another.
  abbrev recorded : OutboxRunResult → ℕ
  recorded c = c.published_count + c.retried + c.dead_count

  -- The counts after one attempt.
  record Counted (before after : OutboxRunResult) : Type 0 where
    pub attempted_same : after.attempted ≡ before.attempted
    pub one_more : recorded after ≤ suc (recorded before)

  count_failure-Counted :
      (counts : OutboxRunResult) (b : Bool) → Counted counts (count_failure s publisher counts b)
  count_failure-Counted counts true = record { attempted_same = refl; one_more = omega arith }
  count_failure-Counted counts false = record { attempted_same = refl; one_more = omega arith }

  count_success-Counted :
      (counts : OutboxRunResult) (b : Bool) → Counted counts (count_success s publisher counts b)
  count_success-Counted counts true = record { attempted_same = refl; one_more = omega arith }
  count_success-Counted counts false = record { attempted_same = refl; one_more = omega arith }

  record_attempt-Counted :
      (claimed : ClaimedMessage) (counts : OutboxRunResult) (answer : Attempt String) (w : World)
      → OnOk (λ after v. Counted counts after) (record_attempt s publisher claimed counts answer w)
  unfolding record_attempt
  record_attempt-Counted claimed counts (raised type_name exc) w =
      OnOk-any _ _ _ _ λ terminal v. OnOk-pure _ _ _ (count_failure-Counted counts terminal)
  record_attempt-Counted claimed counts (returned reference) w =
      OnOk-any _ _ _ _ λ stored v. OnOk-pure _ _ _ (count_success-Counted counts stored)

  same_counts : (a b : OutboxRunResult) → ◌≡◌ {A = Result OutboxRunResult} (ok a) (ok b) → a ≡ b
  same_counts a b h = ground arith

  -- How `left` rounds end that start with the counts `before`.
  record Ended (left : ℕ) (before after : OutboxRunResult) (w : World) : Type 0 where
    pub within : after.attempted ≤ before.attempted + left
    pub counted : recorded after + before.attempted ≤ recorded before + after.attempted
    pub drained : (after.attempted ≡ before.attempted + left) ⊎ Drained w

  module _ (left : ℕ) (after : OutboxRunResult) (w' : World) (state' : S)
      (later : (counts : OutboxRunResult) (w : World) (state : S)
        → run_rounds s publisher left counts w state ≡ (ok after, w', state')
        → Ended left counts after w') where
    next_round-Ended :
        (before : OutboxRunResult) (state : S) (r : Result OutboxRunResult × World)
        → OnOk (λ counts v. Counted (record before { attempted = suc before.attempted }) counts) r
        → next_round s publisher state (run_rounds s publisher left) r ≡ (ok after, w', state')
        → Ended (suc left) before after w'
    next_round-Ended before state (err e, v) count h = absurd (ground arith)
    next_round-Ended before state (ok counts, v) count h =
        let rest = later counts v state h in
        record {
          within = omega (arith, rest.within, count.attempted_same);
          counted = omega (arith, rest.counted, count.attempted_same, count.one_more);
          drained = elim rest.drained [
            | inl all ↦ inl (omega (arith, all, count.attempted_same))
            | inr dry ↦ inr dry
          ];
        }

    round-Ended :
        (before : OutboxRunResult) (w : World) (state : S)
        (r : Result (Option ClaimedMessage) × World)
        → claim_one s w ≡ r
        → round s publisher before state (run_rounds s publisher left) r ≡ (ok after, w', state')
        → Ended (suc left) before after w'
    unfolding round
    round-Ended before w state (err e, v) taken h = absurd (ground arith)
    round-Ended before w state (ok none, v) taken h =
        let same = same_counts before after (ap (λ (r : Run s publisher). r.0) h) in
        record {
          within = omega (arith, ap (λ c. c.attempted) same);
          counted = omega (arith, ap (λ c. c.attempted) same, ap recorded same);
          drained =
              inr
                (subst Drained (ap (λ (r : Run s publisher). r.1) h) (claim_one-Drained w v taken));
        }
    round-Ended before w state (ok (some claimed), v) taken h =
        next_round-Ended before (attempt_publish s publisher claimed state).1 _
          (record_attempt-Counted claimed (record before { attempted = suc before.attempted })
            (attempt_publish s publisher claimed state).0 v)
          h

  run_rounds-Ended :
      (left : ℕ) (before : OutboxRunResult) (w : World) (state : S) (after : OutboxRunResult)
      (w' : World) (state' : S)
      → run_rounds s publisher left before w state ≡ (ok after, w', state')
      → Ended left before after w'
  unfolding run_rounds
  run_rounds-Ended zero before w state after w' state' h =
      let same = same_counts before after (ap (λ (r : Run s publisher). r.0) h) in
      record {
        within = omega (arith, ap (λ c. c.attempted) same);
        counted = omega (arith, ap (λ c. c.attempted) same, ap recorded same);
        drained = inl (omega (arith, ap (λ c. c.attempted) same));
      }
  run_rounds-Ended (suc left) before w state after w' state' h =
      round-Ended left after w' state'
        (λ counts v st k. run_rounds-Ended left counts v st after w' state' k) before w state
        (claim_one s w) refl h

  run_once-Ended :
      (limit : ℕ) (w : World) (state : S) (counts : OutboxRunResult) (w' : World) (state' : S)
      → run_once s publisher limit w state ≡ (ok counts, w', state')
      → Ended limit
          (record { attempted = 0; published_count = 0; retried = 0; dead_count = 0 })
          counts
          w'
  unfolding run_once
  run_once-Ended limit w state counts w' state' h = elim (Bool-cases (ltb limit 1)) [
    | inl none_asked ↦ absurd (refused (rw none_asked at h))
    | inr asked ↦ run_rounds-Ended limit _ w state counts w' state' (rw asked at h)
  ]
    where
      refused :
          ◌≡◌ {A = Run s publisher} (err Error.value_error, w, state) (ok counts, w', state') → ⊥
      refused e = ground arith

  -- A run of the worker attempts no more messages than its limit, and the messages that it counts as
  -- published, retried or dead are among those that it attempted.
  pub run_once-bounds :
      (limit : ℕ) (w : World) (state : S) (counts : OutboxRunResult) (w' : World) (state' : S)
      → run_once s publisher limit w state ≡ (ok counts, w', state')
      → (counts.attempted ≤ limit)
        × (counts.published_count + counts.retried + counts.dead_count ≤ counts.attempted)
  run_once-bounds limit w state counts w' state' h =
      let ended = run_once-Ended limit w state counts w' state' h in
      (omega (arith, ended.within), omega (arith, ended.counted))

  -- A run of the worker that attempts fewer messages than its limit has drained the queue: at its
  -- last reading of the clock no message in the database could be claimed.
  pub run_once-Drained :
      (limit : ℕ) (w : World) (state : S) (counts : OutboxRunResult) (w' : World) (state' : S)
      → run_once s publisher limit w state ≡ (ok counts, w', state')
      → counts.attempted < limit
      → Drained w'
  run_once-Drained limit w state counts w' state' h early =
      elim (run_once-Ended limit w state counts w' state' h).drained [
        | inl all ↦ absurd (omega (arith, all, early))
        | inr dry ↦ dry
      ]
