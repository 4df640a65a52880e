-- ===== src/Openadr/Order.antt =====
-- The order of the checks of an OpenADR 3 event.
use energy_flex_trust_platfo.Prelude.{
  String, ◌≡◌, refl, false, is_blank, Bool-cases, inl, inr, arith,
}
use energy_flex_trust_platfo.Json.{Json, obj, Fields, field}
use energy_flex_trust_platfo.Ports.{DispatchSignal, Attempt, returned, raised}
use energy_flex_trust_platfo.Openadr.{OpenAdr3, continue, event_document, contract_publisher}

module _ {S : Type 0} (adapter : OpenAdr3 S) where
  -- How a reference came to be.
  pub record Posted (signal : DispatchSignal) (key : String) (s s' : S) (reference : String)
      : Type 0 where
    pub document : Fields
    pub mapped : S
    pub validated : S
    pub has_key : is_blank key ≡ false
    pub from_mapper : adapter.map_dispatch signal s ≡ (returned (obj document), mapped)
    pub not_empty : event_document (obj document) ≡ returned document
    pub accepted : adapter.validate_event document mapped ≡ (returned tt, validated)
    pub posted : adapter.post_event document key validated ≡ (returned reference, s')

  module _ (signal : DispatchSignal) (key : String) (s s' : S) (reference : String) where
    after_validation :
        (document : Fields) (mapped : S) (r : Attempt (Unit {0}) × S)
        → is_blank key ≡ false
        → adapter.map_dispatch signal s ≡ (returned (obj document), mapped)
        → event_document (obj document) ≡ returned document
        → adapter.validate_event document mapped ≡ r
        → continue r (λ u s3. adapter.post_event document key s3) ≡ (returned reference, s')
        → Posted signal key s s' reference
    after_validation document mapped (raised type_name exc, v) named from_mapper not_empty
          validation done =
        absurd (ground arith)
    after_validation document mapped (returned tt, v) named from_mapper not_empty validation done =
        record {
          document = document;
          mapped = mapped;
          validated = v;
          has_key = named;
          from_mapper = from_mapper;
          not_empty = not_empty;
          accepted = validation;
          posted = done;
        }

    after_mapping :
        (r : Attempt Json × S)
        → is_blank key ≡ false
        → adapter.map_dispatch signal s ≡ r
        → continue r (λ j s1.
          continue
            (event_document j, s1)
            λ document s2.
              continue
                (adapter.validate_event document s2)
                λ u s3. adapter.post_event document key s3)
          ≡ (returned reference, s')
        → Posted signal key s s' reference
    unfolding event_document
    after_mapping (raised type_name exc, v) named mapping done = absurd (ground arith)
    after_mapping (returned (obj (field k j rest)), v) named mapping done =
        after_validation (field k j rest) v _ named mapping refl refl done
    after_mapping (returned j, v) named mapping done = absurd (ground arith)

    -- The contract publisher returns a reference only from the transport, for a key that is not
    -- blank and for the document of the mapper, which is not empty and which the validator accepted
    -- before. The transport gets the same key.
    pub contract_publisher-Posted :
        contract_publisher adapter signal key s ≡ (returned reference, s')
        → Posted signal key s s' reference
    unfolding contract_publisher
    contract_publisher-Posted done = elim (Bool-cases (is_blank key)) [
      | inl blank ↦ absurd (never (rw blank at done))
      | inr named ↦ after_mapping (adapter.map_dispatch signal s) named refl (rw named at done)
    ]
      where
        never :
            {message : String}
            → ◌≡◌ {A = Attempt String × S} (raised "ValueError" message, s) (returned reference, s')
            → ⊥
        never h = ground arith
