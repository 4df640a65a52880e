-- ===== src/Audit/Tamper.antt =====
-- What a retained head hash fixes: the whole history before it, unless SHA-256 has a collision.
use energy_flex_trust_platfo.Prelude.{
  ◌≡◌, ◌≢◌, refl, sym, ◌∙◌, String, ◌⊎◌, inl, inr, List, [], ◌∷◌, map, length, arith,
  String-discrete,
}
use energy_flex_trust_platfo.Platform.{Platform}
use energy_flex_trust_platfo.Models.{AuditEvent, Database}
use energy_flex_trust_platfo.Audit.Defs.{
  genesis_hash, ascending, canonical_json, sha256_json, audit_hash_material, calculate_event_hash,
  verify_chain,
}
use energy_flex_trust_platfo.Audit.Chain.{
  IsChained, head_of, IsVerified, IsVerified-IsChained, verify_chain-head,
}

module _ ⦃p : Platform⦄ where
  -- The text of an event that its hash is taken of.
  abbrev pub hashed_text : AuditEvent → String
  hashed_text e = canonical_json (audit_hash_material e)

  -- Two texts with one digest.
  abbrev pub Collision : Type 0
  Collision = (s : String) × (t : String) × (s ≢ t) × (p.sha256 s ≡ p.sha256 t)

  module _
      (text_names_previous : (e f : AuditEvent)
        → hashed_text e ≡ hashed_text f
        → e.previous_hash ≡ f.previous_hash) where
    step_back :
        (e f : AuditEvent)
        → calculate_event_hash e ≡ calculate_event_hash f
        → (hashed_text e ≡ hashed_text f) ⊎ Collision
    unfolding calculate_event_hash sha256_json
    step_back e f h = elim (String-discrete (hashed_text e) (hashed_text f)) [
      | yes same ↦ inl same
      | no other ↦ inr (hashed_text e, hashed_text f, other, h)
    ]

    same_history :
        (a b : String) (es fs : List AuditEvent)
        → IsChained a es
        → IsChained b fs
        → length es ≡ length fs
        → head_of a es ≡ head_of b fs
        → ((a ≡ b) × (map hashed_text es ≡ map hashed_text fs)) ⊎ Collision
    same_history a b [] [] h k n same = inl (same, refl)
    same_history a b [] (f ∷ fs) h k n same = absurd (omega arith)
    same_history a b (e ∷ es) [] h k n same = absurd (omega arith)
    same_history a b (e ∷ es) (f ∷ fs) h k n same =
        elim (same_history e.event_hash f.event_hash es fs h.2 k.2 (omega arith) same) [
          | inr found ↦ inr found
          | inl (hashes, rest) ↦ elim (step_back e f (h.1 ∙ hashes ∙ sym k.1)) [
            | inr found ↦ inr found
            | inl texts ↦ inl (sym h.0 ∙ text_names_previous e f texts ∙ k.0, cc (texts, rest))
          ]
        ]

    -- Where the text of an event fixes its previous hash: two logs that `verify_chain` accepts, with
    -- the same count and the same head, have the same hashed texts in the same order, or there are
    -- two different texts with one SHA-256 digest.
    pub head_fixes_history :
        (db other : Database)
        → IsVerified db
        → IsVerified other
        → (verify_chain db).event_count ≡ (verify_chain other).event_count
        → (verify_chain db).head_hash ≡ (verify_chain other).head_hash
        → (map hashed_text (ascending db.audit_events)
            ≡ map hashed_text (ascending other.audit_events))
          ⊎ Collision
    head_fixes_history db other h k count head =
        let (head_a, count_a) = verify_chain-head db h in
        let (head_b, count_b) = verify_chain-head other k in
        elim (same_history genesis_hash genesis_hash (ascending db.audit_events)
          (ascending other.audit_events) (IsVerified-IsChained db h) (IsVerified-IsChained other k)
          (sym count_a ∙ count ∙ count_b) (sym head_a ∙ head ∙ head_b)) [
            | inl same ↦ inl same.1
            | inr found ↦ inr found
          ]
