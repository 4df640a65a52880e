-- ===== src/Privileges/Matrix.antt =====
-- When the check of the grants passes.
use energy_flex_trust_platfo.Prelude.{
  ℕ, String, ◌≡◌, refl, Bool, true, false, not, Option, List, [], ◌∷◌, arith, note-none,
}
use energy_flex_trust_platfo.Domain.{Result, ok}
use energy_flex_trust_platfo.Auth.Rules.{IfOk, IfOk-elim, IfOk-intro, IfOk-ok, IfOk-bind}
use energy_flex_trust_platfo.Privileges.{
  RoleExpectation, expectations, report, has_table_privilege, observed, check_grants, check_denies,
  role_url, check_roles, verify,
}

report-none : (failures : List String) → report failures ≡ ok tt → failures ≡ []
report-none [] h = refl
report-none (x ∷ xs) h = ground arith

module _ {Connection : Type 0}
    (scalar : Connection → String → List (String × String) → Result (Option Bool)) where
  unfoldable pub IsGranted : Connection → List (String × String) → Type 0
  IsGranted c [] = Unit
  IsGranted c ((resource, privilege) ∷ rest) =
      (has_table_privilege scalar c resource privilege ≡ ok true) × IsGranted c rest

  unfoldable pub IsDenied : Connection → List (String × String) → Type 0
  IsDenied c [] = Unit
  IsDenied c ((resource, privilege) ∷ rest) =
      (observed scalar c resource privilege ≡ ok false) × IsDenied c rest

  check_grants-none :
      (c : Connection) (role : String) (grants : List (String × String)) (failures : List String)
      → IfOk
          (λ out. out ≡ [] → IsGranted c grants × (failures ≡ []))
          (check_grants scalar c role grants failures)
  unfolding check_grants IsGranted
  check_grants-none c role [] failures = IfOk-ok _ _ λ none. (tt, none)
  check_grants-none c role ((resource, privilege) ∷ rest) failures = IfOk-bind _ _ _ λ held asked.
      IfOk-intro _ _ λ out ended none.
        let (more, empty) = IfOk-elim _ _ out (check_grants-none c role rest _) ended none in
        let (allowed, before) = note-none held _ failures empty in
        ((rw allowed at asked, more), before)

  not-true : (b : Bool) → not b ≡ true → b ≡ false
  not-true b h = ground arith

  check_denies-none :
      (c : Connection) (role : String) (denies : List (String × String)) (failures : List String)
      → IfOk
          (λ out. out ≡ [] → IsDenied c denies × (failures ≡ []))
          (check_denies scalar c role denies failures)
  unfolding check_denies IsDenied
  check_denies-none c role [] failures = IfOk-ok _ _ λ none. (tt, none)
  check_denies-none c role ((resource, privilege) ∷ rest) failures = IfOk-bind _ _ _ λ held asked.
      IfOk-intro _ _ λ out ended none.
        let (more, empty) = IfOk-elim _ _ out (check_denies-none c role rest _) ended none in
        let (refused, before) = note-none (not held) _ failures empty in
        ((rw (not-true held refused) at asked, more), before)

  -- The servers and the roles.
  module _ (connect : String → Result Connection) (decimal_text : ℕ → String) where
    -- A role can connect and has what it is granted and nothing that it is denied.
    pub record Matches (url : String) (e : RoleExpectation) : Type 0 where
      pub connection : Connection
      pub connected : connect url ≡ ok connection
      pub granted : IsGranted connection e.grants
      pub denied : IsDenied connection e.denies

    unfoldable pub IsMatrix :
        (host : String) (port : ℕ) (database : String) → List RoleExpectation → Type 0
    IsMatrix host port database [] = Unit
    IsMatrix host port database (e ∷ rest) =
        Matches (role_url scalar connect decimal_text host port database e) e
        × IsMatrix host port database rest

    check_roles-none :
        (host : String) (port : ℕ) (database : String) (roles : List RoleExpectation)
        (failures : List String)
        → IfOk
            (λ out. out ≡ [] → IsMatrix host port database roles × (failures ≡ []))
            (check_roles scalar connect decimal_text host port database roles failures)
    unfolding check_roles IsMatrix
    check_roles-none host port database [] failures = IfOk-ok _ _ λ none. (tt, none)
    check_roles-none host port database (e ∷ rest) failures = IfOk-bind _ _ _ λ c connected.
        IfOk-bind _ _ _ λ missing granting. IfOk-bind _ _ _ λ found denying.
          IfOk-intro _ _ λ out ended none.
            let (more, no_more) =
              IfOk-elim _ _ out (check_roles-none host port database rest found) ended none in
            let (denied, none_missing) =
              IfOk-elim _ _ found (check_denies-none c e.role e.denies missing) denying no_more in
            let (granted, before) =
              IfOk-elim _ _ missing (check_grants-none c e.role e.grants failures) granting
                none_missing in
            (
              (
                record {
                  connection = c;
                  connected = connected;
                  granted = granted;
                  denied = denied;
                },
                more,
              ),
              before,
            )

    -- The check of the grants passes only when every role can connect, holds each privilege that it
    -- is granted and none that it is denied.
    pub verify-IsMatrix :
        (host : String) (port : ℕ) (database : String)
        → verify scalar connect decimal_text host port database ≡ ok tt
        → IsMatrix host port database expectations
    unfolding verify
    verify-IsMatrix host port database h =
        IfOk-elim (λ u. IsMatrix host port database expectations) _ tt
          (IfOk-bind _ _ report λ failures ended. IfOk-intro _ _ λ u reported.
            (IfOk-elim _ _ failures (check_roles-none host port database expectations []) ended
              (report-none failures reported)).0)
          h
