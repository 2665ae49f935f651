-- ===== src/HostControl/Hooks.antt =====
-- hostcontrol/hooks.py: hooks that may veto an execution. A hook that raises is `none`.
use decode.Prelude.{
  ◌≡◌, ◌↔◌, refl, String, Bool, true, false, Option, none, some, List, [], ◌∷◌, ◌++◌, is_empty,
  if◌then◌else◌, Option-cases, sym, inl, inr,
}
use mathlib.Core.Bool.{true≢false}
use decode.Governance.{RiskLevel}

pub record HookEvent : Type 0 where
  pub capability : String
  pub risk : RiskLevel
  pub target : String

abbrev pub PreHook : Type 0
PreHook = HookEvent → Option (Bool × String)

-- `register_pre`
abbrev pub register_pre : PreHook → List PreHook → List PreHook
register_pre hook hooks = hooks ++ hook ∷ []

-- The name of the exception's type is left out of the reason.
unfoldable pub run_pre : List PreHook → HookEvent → Bool × String
run_pre [] event = (true, "")
run_pre (hook ∷ hooks) event = elim (hook event) [
  | none ↦ (false, "pre-hook error")
  | some (allow, reason) ↦ elim allow [
    | true ↦ run_pre hooks event
    | false ↦ (false, if is_empty reason then "denied by pre-execution hook" else reason)
  ]
]

-- Every hook answered, and none of them vetoed.
abbrev pub AllAllow : List PreHook → HookEvent → Type 0
AllAllow [] event = Unit
AllAllow (hook ∷ hooks) event =
    ((reason : String) × (hook event ≡ some (true, reason))) × AllAllow hooks event

-- The hooks let an execution pass exactly if each of them answers and allows it.
pub run_pre-AllAllow :
    (hooks : List PreHook) (event : HookEvent)
    → ((run_pre hooks event).0 ≡ true) ↔ AllAllow hooks event
unfolding run_pre
run_pre-AllAllow [] event = ((λ h. tt), λ h. refl)
run_pre-AllAllow (hook ∷ hooks) event = elim (Option-cases (hook event)) [
  | inl e ↦ ((λ h. absurd (true≢false (sym (rw (run_pre, e) at h)))), λ h. absurd (answered e h.0))
  | inr ((true, reason), e) ↦
      let (there, back) = run_pre-AllAllow hooks event in
      ((λ h. ((reason, e), there (rw (run_pre, e) at h))), λ h. rw (run_pre, e) (back h.1))
  | inr ((false, reason), e) ↦
      ((λ h. absurd (true≢false (sym (rw (run_pre, e) at h)))), λ h. absurd (vetoed e h.0))
]
  where
    answered :
        {o : Option (Bool × String)} → o ≡ none → (reason : String) × (o ≡ some (true, reason)) → ⊥
    answered e (reason, f) = cc

    vetoed :
        {o : Option (Bool × String)} {why : String}
        → o ≡ some (false, why)
        → (reason : String) × (o ≡ some (true, reason))
        → ⊥
    vetoed e (reason, f) = cc
