-- ===== src/Tests/Scripts.antt =====
-- The checks of the scripts at small inputs.
use energy_flex_trust_platfo.Prelude.{ℕ, String, ◌≡◌, refl, [], ◌∷◌}
use energy_flex_trust_platfo.Domain.{Error, Result, ok, err}
use energy_flex_trust_platfo.Json.{Json, str, arr, obj, nil, cons, Fields, end, field}
use energy_flex_trust_platfo.Auth.{◌>>=◌}
use energy_flex_trust_platfo.Startup.Database.{strip}
use energy_flex_trust_platfo.Advisories.{
  validate, check_items, check_item, find_field, is_member, is_unused,
}

abbrev text_of : Json → String
text_of (str s) = s
text_of _ = ""

abbrev exception_of : String → Fields
exception_of api = field "id" (str " ADV-1 ") (
    field "expires_on" (str "2026-12-31") (
      field "affected_api" (arr (cons (str api) nil)) (
        field "upstream_fix" (str "2.0")
          (field "reason" (str "The affected function is not called by this program.") end))))

abbrev document_of : Fields → Json
document_of item = obj (field "exceptions" (arr (cons (obj item) nil)) end)

abbrev day_of : String → Result ℕ
day_of text = ok 100

unused_api :
    validate text_of ("safe_load" ∷ []) day_of (λ n. 100) (document_of (exception_of "load"))
    ≡ ok tt
unfolding validate check_items check_item find_field is_member is_unused strip ◌>>=◌
unused_api = refl

used_api :
    validate text_of ("load" ∷ []) day_of (λ n. 100) (document_of (exception_of "load"))
    ≡ err Error.runtime_error
unfolding validate check_items check_item find_field is_member is_unused strip ◌>>=◌
used_api = refl

expired_exception :
    validate text_of [] day_of (λ n. 101) (document_of (exception_of "load"))
    ≡ err Error.runtime_error
unfolding validate check_items check_item find_field is_member is_unused strip ◌>>=◌
expired_exception = refl

repeated_id :
    validate text_of [] day_of
      (λ n. 1)
      (obj (
        field "exceptions"
          (arr (cons (obj (exception_of "load")) (cons (obj (exception_of "dump")) nil)))
          end))
    ≡ err Error.runtime_error
unfolding validate check_items check_item find_field is_member is_unused strip ◌>>=◌
repeated_id = refl
