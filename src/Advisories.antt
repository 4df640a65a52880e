-- ===== src/Advisories.antt =====
-- scripts/verify_advisory_exceptions.py: the exceptions from security advisories, which must stay
-- bounded in time and in the code that they are about.
pub mod Bounded
use Prim.Native.String.{count}
use energy_flex_trust_platfo.Prelude.{
  ℕ, suc, String, Bool, true, false, not, ◌&&◌, ◌||◌, Option, none, some, List, [], ◌∷◌, ◌++◌, ltb,
  leb, ◌==◌, note, if◌then◌else◌,
}
use energy_flex_trust_platfo.Domain.{Error, Result, ok, err}
use energy_flex_trust_platfo.Json.{
  Json, null, bool, num, str, arr, obj, Items, nil, cons, Fields, end, field,
}
use energy_flex_trust_platfo.Auth.{◌>>=◌}
use energy_flex_trust_platfo.Startup.Database.{strip}

-- An entry of `failures`, without its text.
pub data Failure : Type 0 where
  not_an_object : Failure
  invalid_id expired no_scope used_by_source no_upstream_fix insufficient_reason : String → Failure

-- What the loop of `validate` keeps: the ids and failures so far, and the readings of the clock.
pub record Progress : Type 0 where
  pub seen_ids : List String
  pub failures : List Failure
  pub readings : ℕ

unfoldable pub is_member : String → List String → Bool
is_member name [] = false
is_member name (x ∷ xs) = x == name || is_member name xs

-- `name in item`, with its value.
unfoldable pub find_field : String → Fields → Option Json
find_field name end = none
find_field name (field k v rest) =
    let later = find_field name rest in if k == name then some v else later

-- `not isinstance(affected_api, list) or not affected_api`; the names of a list otherwise.
abbrev pub scope : Option Json → Items
scope (some (arr items)) = items
scope _ = nil

abbrev pub failed : Failure → Progress → Progress
failed failure state = record state { failures = state.failures ++ (failure ∷ []) }

-- `if failures: raise RuntimeError("; ".join(failures))`
abbrev pub report : List Failure → Result (Unit {0})
report [] = ok tt
report (failure ∷ rest) = err Error.runtime_error

-- Python's `str` of a value.
module _ (str_of : Json → String) where
  -- `str(item.get(name, ""))`
  abbrev pub text_field : String → Fields → String
  text_field name item = elim (find_field name item) [ none ↦ "" | some value ↦ str_of value ]

  abbrev pub has_reason : Fields → Bool
  has_reason item = leb 40 (count (strip (text_field "reason" item)))

  -- What `_source_symbols` finds with the `ast` module.
  module _ (symbols : List String) where
    -- `not ({str(name) for name in affected_api} & symbols)`
    unfoldable pub is_unused : Items → Bool
    is_unused nil = true
    is_unused (cons name rest) = not (is_member (str_of name) symbols) && is_unused rest

    -- The checks of an exception with a scope.
    abbrev pub check_scope : String → Fields → Items → List Failure → List Failure
    check_scope id item nil failures = failures ++ (no_scope id ∷ [])
    check_scope id item (cons name rest) failures =
        note (has_reason item) (insufficient_reason id) (
          note (not (strip (text_field "upstream_fix" item) == "")) (no_upstream_fix id)
            (note (is_unused (cons name rest)) (used_by_source id) failures))

    -- `date.fromisoformat` as the number of the day, and the readings of `_today()`.
    module _ (fromisoformat : String → Result ℕ) (today : ℕ → ℕ) where
      -- The checks of an exception with a new id.
      abbrev pub check_dated : String → Fields → Progress → Result Progress
      check_dated id item state = do
        expires_on ← fromisoformat (text_field "expires_on" item)
        ok (record {
          seen_ids = id ∷ state.seen_ids;
          failures =
              check_scope id item (scope (find_field "affected_api" item))
                (note (not (ltb expires_on (today state.readings))) (expired id) state.failures);
          readings = suc state.readings;
        })

      -- The body of the loop.
      unfoldable pub check_item : Json → Progress → Result Progress
      check_item (obj item) state =
          let id = strip (text_field "id" item) in
          if id == "" || is_member id state.seen_ids
          then ok (failed (invalid_id id) state)
          else check_dated id item state
      check_item _ state = ok (failed not_an_object state)

      unfoldable pub check_items : Items → Progress → Result Progress
      check_items nil state = ok state
      check_items (cons item rest) state = check_item item state >>= check_items rest

      -- `validate`, on the document that `json.loads` returns.
      unfoldable pub validate : Json → Result (Unit {0})
      validate (obj document) = elim (find_field "exceptions" document) [
        | none ↦ err Error.runtime_error
        | some (arr items) ↦ do
          state ← check_items items (record { seen_ids = []; failures = []; readings = 0 })
          report state.failures
        | some value ↦ err Error.runtime_error
      ]
      validate _ = err Error.attribute_error
