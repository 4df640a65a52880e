-- ===== src/Advisories/Bounded.antt =====
-- What a document of exceptions that passes shows.
use Prim.Native.String.{count}
use energy_flex_trust_platfo.Prelude.{
  ℕ, ◌≤◌, String, ◌≡◌, refl, Bool, true, false, not, ◌||◌, some, List, [], ◌∷◌, arith, note-none,
  append-not_empty, ltb, leb, ◌==◌, Bool-cases, inl, inr,
}
use energy_flex_trust_platfo.Domain.{Result, ok}
use energy_flex_trust_platfo.Json.{Json, null, bool, num, str, arr, obj, Items, nil, cons, Fields}
use energy_flex_trust_platfo.Auth.Rules.{IfOk, IfOk-elim, IfOk-intro, IfOk-ok, IfOk-bind}
use energy_flex_trust_platfo.Startup.Database.{strip}
use energy_flex_trust_platfo.Advisories.{
  Failure, Progress, is_member, find_field, scope, text_field, is_unused, has_reason, check_scope,
  check_dated, failed, check_item, check_items, report, validate,
}

report-none : (failures : List Failure) → report failures ≡ ok tt → failures ≡ []
report-none [] h = refl
report-none (x ∷ xs) h = ground arith

is_false : (b : Bool) → not b ≡ true → b ≡ false
is_false b h = ground arith

in_time : (m n : ℕ) → not (ltb n m) ≡ true → m ≤ n
in_time m n h = ground arith

long_enough : (m n : ℕ) → leb m n ≡ true → m ≤ n
long_enough m n h = ground arith

neither : (a b : Bool) → (a || b) ≡ false → (a ≡ false) × (b ≡ false)
neither true b h = absurd (ground arith)
neither false b h = (refl, h)

module _ (str_of : Json → String) (symbols : List String) where
  -- The scope of an exception and its texts.
  pub record Scoped (item : Fields) (names : Items) : Type 0 where
    pub name : Json
    pub rest : Items
    pub named : names ≡ cons name rest
    pub unused : is_unused str_of symbols names ≡ true
    pub fixed_upstream : (strip (text_field str_of "upstream_fix" item) == "") ≡ false
    pub explained : 40 ≤ count (strip (text_field str_of "reason" item))

  check_scope-none :
      (id : String) (item : Fields) (names : Items) (failures : List Failure)
      → check_scope str_of symbols id item names failures ≡ []
      → Scoped item names × (failures ≡ [])
  check_scope-none id item nil failures h = absurd (append-not_empty failures _ h)
  check_scope-none id item (cons name rest) failures h =
      let (reason, no_reason) = note-none (has_reason str_of item) _ _ h in
      let (fix, no_fix) =
        note-none (not (strip (text_field str_of "upstream_fix" item) == "")) _ _ no_reason in
      let (unused, before) =
        note-none (is_unused str_of symbols (cons name rest)) _ failures no_fix in
      (
        record {
          name = name;
          rest = rest;
          named = refl;
          unused = unused;
          fixed_upstream = is_false _ fix;
          explained = long_enough 40 _ reason;
        },
        before,
      )

  module _ (fromisoformat : String → Result ℕ) (today : ℕ → ℕ) where
    -- An exception that is accepted after those with the ids `seen`.
    pub record Accepted (seen : List String) (item : Json) : Type 0 where
      pub fields : Fields
      pub is_object : item ≡ obj fields
      pub has_id : (strip (text_field str_of "id" fields) == "") ≡ false
      pub has_new_id : is_member (strip (text_field str_of "id" fields)) seen ≡ false
      pub expires_on : ℕ
      pub dated : fromisoformat (text_field str_of "expires_on" fields) ≡ ok expires_on
      pub reading : ℕ
      pub not_expired : today reading ≤ expires_on
      pub scoped : Scoped fields (scope (find_field "affected_api" fields))

    -- An accepted entry and what is kept of it: its id, after the ids before.
    pub record Passed (before after : Progress) (item : Json) : Type 0 where
      pub entry : Accepted before.seen_ids item
      pub seen : after.seen_ids ≡ strip (text_field str_of "id" entry.fields) ∷ before.seen_ids
      pub no_failures : before.failures ≡ []

    check_dated-Passed :
        (item : Fields) (state : Progress)
        → (strip (text_field str_of "id" item) == "") ≡ false
        → is_member (strip (text_field str_of "id" item)) state.seen_ids ≡ false
        → IfOk
            (λ after. after.failures ≡ [] → Passed state after (obj item))
            (check_dated str_of symbols fromisoformat today
              (strip (text_field str_of "id" item))
              item
              state)
    check_dated-Passed item state has_id new_id = IfOk-bind _ _ _ λ expires_on dated.
        IfOk-ok _ _ λ h.
          let (scoped, on_time) = check_scope-none _ item _ _ h in
          let (current, before) =
            note-none (not (ltb expires_on (today state.readings))) _ _ on_time in
          record {
            entry = record {
              fields = item;
              is_object = refl;
              has_id = has_id;
              has_new_id = new_id;
              expires_on = expires_on;
              dated = dated;
              reading = state.readings;
              not_expired = in_time _ _ current;
              scoped = scoped;
            };
            seen = refl;
            no_failures = before;
          }

    failed-Passed :
        (failure : Failure) (state : Progress) (item : Json)
        → IfOk (λ after. after.failures ≡ [] → Passed state after item) (ok (failed failure state))
    failed-Passed failure state item =
        IfOk-ok _ _ λ h. absurd (append-not_empty state.failures failure h)

    check_item-Passed :
        (item : Json) (state : Progress)
        → IfOk
            (λ after. after.failures ≡ [] → Passed state after item)
            (check_item str_of symbols fromisoformat today item state)
    unfolding check_item
    check_item-Passed null state = failed-Passed _ state null
    check_item-Passed (bool b) state = failed-Passed _ state (bool b)
    check_item-Passed (num n) state = failed-Passed _ state (num n)
    check_item-Passed (str s) state = failed-Passed _ state (str s)
    check_item-Passed (arr items) state = failed-Passed _ state (arr items)
    check_item-Passed (obj item) state =
        elim (Bool-cases (
          strip (text_field str_of "id" item) == ""
          || is_member (strip (text_field str_of "id" item)) state.seen_ids)) [
            | inl bad ↦ rw bad (failed-Passed _ state (obj item))
            | inr good ↦
                let (has_id, new_id) = neither _ _ good in
                rw good (check_dated-Passed item state has_id new_id)
          ]

    -- Each entry is accepted after those before it.
    unfoldable pub IsAccepted : List String → Items → Type 0
    IsAccepted seen nil = Unit
    IsAccepted seen (cons item rest) =
        (entry : Accepted seen item) × IsAccepted
          (strip (text_field str_of "id" entry.fields) ∷ seen) rest

    check_items-IsAccepted :
        (items : Items) (state : Progress)
        → IfOk
            (λ after. after.failures ≡ [] → IsAccepted state.seen_ids items × (state.failures ≡ []))
            (check_items str_of symbols fromisoformat today items state)
    unfolding check_items IsAccepted
    check_items-IsAccepted nil state = IfOk-ok _ _ λ none. (tt, none)
    check_items-IsAccepted (cons item rest) state = IfOk-bind _ _ _ λ next checked.
        IfOk-intro _ _ λ after ended none.
          let (more, no_more) = IfOk-elim _ _ after (check_items-IsAccepted rest next) ended none in
          let passed = IfOk-elim _ _ next (check_item-Passed item state) checked no_more in
          ((passed.entry, rw passed.seen at more), passed.no_failures)

    -- A document that passes has a list of exceptions, and each of them is an object with an id of its
    -- own, an expiry that had not passed when the clock was read, a scope that is not empty and that the
    -- source does not use, an upstream fix and a reason of at least 40 characters.
    pub validate-IsAccepted :
        (document : Fields) (items : Items)
        → find_field "exceptions" document ≡ some (arr items)
        → validate str_of symbols fromisoformat today (obj document) ≡ ok tt
        → IsAccepted [] items
    unfolding validate
    validate-IsAccepted document items found h =
        IfOk-elim (λ u. IsAccepted [] items) _ tt
          (IfOk-bind _ _ (λ (state : Progress). report state.failures)
            λ state ended. IfOk-intro _ _ λ u reported.
              (IfOk-elim _ _ state
                (check_items-IsAccepted items
                  (record { seen_ids = []; failures = []; readings = 0 }))
                ended (report-none state.failures reported)).0)
          (rw (found, validate) at h)
