-- ===== src/Kernel/Safety.antt =====
-- kernel/safety.py: `SafetyController`. The answer of the approval callback is a parameter of the check.
use decode.Prelude.{
  ◌≡◌, refl, String, Bool, true, false, Option, none, some, List, [], ◌∷◌, ◌++◌, mem, map, ◌⊎◌, inl,
  inr, Bool-cases, if◌then◌else◌,
}
use decode.Prelude.Text.{lower}
use decode.Prelude.Dict.{Dict, lookup, insert}
use decode.Governance.{RiskLevel, read, write, destructive}

pub data Permission : Type 0 where
  allow require_approval deny : Permission

pub record SafetyController : Type 0 where
  pub prohibited_actions : List String
  pub override_rules : Dict Permission

unfoldable pub prohibit : String → SafetyController → SafetyController
prohibit action c = record c { prohibited_actions = c.prohibited_actions ++ lower action ∷ [] }

unfoldable pub set_override : String → Permission → SafetyController → SafetyController
set_override skill_name permission c = record c {
  override_rules = insert (lower skill_name) permission c.override_rules;
}

-- by the risk alone; the callback is there with its answer, or is not
abbrev pub by_risk : RiskLevel → Option Bool → Permission
by_risk read approved = allow
by_risk destructive approved = deny
by_risk write none = require_approval
by_risk write (some approved) = if approved then allow else deny

unfoldable pub check : SafetyController → String → RiskLevel → Option Bool → Permission
check c skill_name risk approved = elim (lookup (lower skill_name) c.override_rules) [
  | some permission ↦ permission
  | none ↦
      if mem (lower skill_name) (map lower c.prohibited_actions)
      then deny
      else by_risk risk approved
]

-- Without an override for the skill, what the controller allows is not prohibited, and is a read, or a write
-- that the callback has approved.
pub check_allow :
    (c : SafetyController) (skill_name : String) (risk : RiskLevel) (approved : Option Bool)
    → lookup (lower skill_name) c.override_rules ≡ none
    → check c skill_name risk approved ≡ allow
    → (mem (lower skill_name) (map lower c.prohibited_actions) ≡ false)
      × ((risk ≡ read) ⊎ ((risk ≡ write) × (approved ≡ some true)))
unfolding check
check_allow c skill_name risk approved e h =
    elim (Bool-cases (mem (lower skill_name) (map lower c.prohibited_actions))) [
      | inl bad ↦ absurd (cc (rw (check, e, bad) at h))
      | inr fine ↦ (fine, by_risk_allow risk approved (rw (check, e, fine) at h))
    ]
  where
    by_risk_allow :
        (risk : RiskLevel) (approved : Option Bool)
        → by_risk risk approved ≡ allow
        → (risk ≡ read) ⊎ ((risk ≡ write) × (approved ≡ some true))
    by_risk_allow read approved h = inl refl
    by_risk_allow destructive approved h = cc
    by_risk_allow write none h = cc
    by_risk_allow write (some true) h = inr (refl, refl)
    by_risk_allow write (some false) h = cc
