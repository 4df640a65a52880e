-- ===== src/Auth/Roles.antt =====
-- Which claims name a role.
use energy_flex_trust_platfo.Prelude.{String, ◌≡◌, ◌↔◌, ◌⊎◌, inl, inr, refl, ap, ==_iff, arith}
use energy_flex_trust_platfo.Domain.{
  ActorRole, asset_owner, market_operator, settlement_analyst, auditor, recovery_operator, system,
  role_value, ok,
}
use energy_flex_trust_platfo.Json.{Json, str, arr, nil, cons}
use energy_flex_trust_platfo.Auth.{actor_role, resolve_role}

actor_role-role_value : (s : String) (r : ActorRole) → actor_role s ≡ ok r → s ≡ role_value r
unfolding actor_role role_value
actor_role-role_value s r h = ground (
  arith,
  ==_iff s "asset_owner",
  ==_iff s "market_operator",
  ==_iff s "settlement_analyst",
  ==_iff s "auditor",
  ==_iff s "recovery_operator",
  ==_iff s "system",
)

role_value-actor_role : (r : ActorRole) → actor_role (role_value r) ≡ ok r
unfolding actor_role role_value
role_value-actor_role asset_owner = refl
role_value-actor_role market_operator = refl
role_value-actor_role settlement_analyst = refl
role_value-actor_role auditor = refl
role_value-actor_role recovery_operator = refl
role_value-actor_role system = refl

-- A role claim resolves to a role exactly when it is the text of that role, or a list of this one
-- text.
pub resolve_role_lem :
    (claim : Json) (r : ActorRole)
    → (resolve_role claim ≡ ok r)
      ↔ ((claim ≡ str (role_value r)) ⊎ (claim ≡ arr (cons (str (role_value r)) nil)))
unfolding resolve_role
resolve_role_lem claim r = (
  λ h. named claim h,
  λ h. elim h [
    | inl one ↦ rw one (role_value-actor_role r)
    | inr listed ↦ rw listed (role_value-actor_role r)
  ],
)
  where
    named :
        (claim : Json)
        → resolve_role claim ≡ ok r
        → (claim ≡ str (role_value r)) ⊎ (claim ≡ arr (cons (str (role_value r)) nil))
    named (str s) h = inl (ap str (actor_role-role_value s r h))
    named (arr (cons (str s) nil)) h =
        inr (ap (λ t. arr (cons (str t) nil)) (actor_role-role_value s r h))
    named _ h = absurd (ground arith)
