-- ===== src/Governance/Gate/Laws.antt =====
-- What governance/gate.py promises.
use decode.Prelude.{
  ◌≡◌, ◌≢◌, refl, String, Bool, true, false, ◌&&◌, ◌⊎◌, inl, inr, none, some, [], ◌∷◌, ◌++◌, arith,
  is_empty, eq_iff, Bool-cases, Option-cases,
}
use decode.Prelude.Text.{strip, upper}
use decode.Governance.Types.{
  RiskLevel, read, write, destructive, risk_value, plan, auto, ModeDecision, may_run, must_ask,
  refused, resolve_mode_decision, Decision, allow, needs_approval, deny, GovernanceDecision,
  AuditEvent, AuditLog, redacted,
}
use decode.Governance.Scope.{is_in_scope}
use decode.Governance.Gate.{
  GovernanceGate, GateEnv, Evaluation, evaluate, evaluate_risk, reject, rejection, effective_risk,
  out_of_scope, out_of_scope_reason, decided, safe_text,
}

-- The decision that an evaluation returned, with `deny` for a raised exception, which its caller
-- treats as a refusal.
abbrev pub decision_of : Evaluation → Decision
decision_of (none, log) = deny
decision_of (some d, log) = d.decision

-- How an evaluation accounts for itself: a denial has appended the redaction of one rejection, of this capability and
-- with the reason of the denial; any other decision leaves the trail alone, and after an exception no event has been added.
pub data Accounted (redact : String → String) (capability : String) (log : AuditLog)
    : Evaluation → Type 0 where
  denied :
      {after : AuditLog} (e : AuditEvent) (why : String)
      → after.events ≡ log.events ++ redacted redact e ∷ []
      → e.event ≡ "rejection"
      → e.approved ≡ false
      → e.tool ≡ capability
      → e.detail ≡ why
      → Accounted redact capability log (some (record { decision = deny; reason = why }), after)
  silent :
      (d : GovernanceDecision) → d.decision ≢ deny → Accounted redact capability log (some d, log)
  raised :
      {after : AuditLog} → after.events ≡ log.events → Accounted redact capability log (none, after)

module _ (env : GateEnv) (g : GovernanceGate) (capability target risk : String) (required : Bool)
    (log : AuditLog) where
  reject-Accounted :
      (t r why : String) → Accounted env.redact capability log (reject env capability t r why log)
  unfolding reject
  reject-Accounted t r why = elim (Bool-cases (env.writable log.calls)) [
    | inl up ↦ rw up (denied (rejection env capability t r why) why refl refl refl refl refl)
    | inr down ↦ rw down (raised refl)
  ]

  decided-Accounted :
      (d : Decision) (why : String)
      → d ≢ deny
      → Accounted env.redact capability log (decided d why log)
  decided-Accounted d why h = silent (record { decision = d; reason = why }) h

  evaluate_risk-Accounted :
      (r : String)
      → Accounted env.redact capability log (evaluate_risk env g capability target r log)
  unfolding evaluate_risk
  evaluate_risk-Accounted r = ground (
    arith,
    reject-Accounted (safe_text env target) r "plan mode: execution disabled",
    reject-Accounted (safe_text env target) r
        "destructive capability requires explicit engagement override",
    decided-Accounted allow "read-only, in scope" (λ e. cc),
    decided-Accounted allow "auto mode: write allowed in scope" (λ e. cc),
    decided-Accounted needs_approval "requires human approval" (λ e. cc),
    decided-Accounted needs_approval "destructive: override set, human approval still required"
        (λ e. cc),
  )

  -- For each denial the audit trail has one new line, the redaction of an unapproved rejection of the capability with
  -- the reason of the denial; any other decision, or an exception, adds nothing.
  pub evaluate-Accounted :
      Accounted env.redact capability log (evaluate env g capability target risk required log)
  unfolding evaluate
  evaluate-Accounted = elim (Bool-cases (required && is_empty (strip target))) [
    | inl lacking ↦ rw lacking (reject-Accounted _ _ _)
    | inr given ↦ elim (Option-cases (out_of_scope env g target)) [
      | inl e ↦ rw (given, e) (raised refl)
      | inr (b, e) ↦ elim (Bool-cases b) [
        | inl out ↦ rw (given, e, out) (reject-Accounted _ _ _)
        | inr within ↦ rw (given, e, within) (evaluate_risk-Accounted _)
      ]
    ]
  ]

  reject_denies : (t r why : String) → decision_of (reject env capability t r why log) ≡ deny
  unfolding reject
  reject_denies t r why = ground arith

  -- What a target has to be for the tests behind the scope to be reached.
  abbrev pub IsAdmissible : Type 0
  IsAdmissible =
      ((is_empty target ≡ true) ⊎ (is_in_scope env.net g.scope target ≡ some true))
      × ((required && is_empty (strip target)) ≡ false)

  evaluate_passes :
      (d : Decision)
      → d ≢ deny
      → decision_of (evaluate env g capability target risk required log) ≡ d
      → IsAdmissible
        × (decision_of (evaluate_risk env g capability target (effective_risk risk) log) ≡ d)
  unfolding evaluate out_of_scope
  evaluate_passes d other h = elim (Bool-cases (required && is_empty (strip target))) [
    | inl lacking ↦ absurd (
        other (
          cc (
            reject_denies "" (effective_risk risk)
                "explicit target is required for this capability",
            rw lacking at h,
          )))
    | inr given ↦ elim (Option-cases (out_of_scope env g target)) [
      | inl e ↦ absurd (other (cc (rw (given, e) at h)))
      | inr (b, e) ↦ elim (Bool-cases b) [
        | inl out ↦ absurd (
            other (
              cc (
                reject_denies (safe_text env target) (effective_risk risk)
                    (out_of_scope_reason env target),
                rw (given, e, out) at h,
              )))
        | inr within ↦ ((ground arith, given), rw (given, e, within) at h)
      ]
    ]
  ]

  evaluate_risk_allow :
      (r : String)
      → decision_of (evaluate_risk env g capability target r log) ≡ allow
      → (g.mode ≢ plan) × ((r ≡ "READ") ⊎ ((g.mode ≡ auto) × (r ≢ "DESTRUCTIVE")))
  unfolding evaluate_risk
  evaluate_risk_allow r h = ground (
    arith,
    eq_iff r "READ",
    eq_iff r "DESTRUCTIVE",
    reject_denies (safe_text env target) r "plan mode: execution disabled",
    reject_denies (safe_text env target) r
        "destructive capability requires explicit engagement override",
  )

  evaluate_risk_needs_approval :
      (r : String)
      → decision_of (evaluate_risk env g capability target r log) ≡ needs_approval
      → (g.mode ≢ plan) × (r ≢ "READ") × ((r ≢ "DESTRUCTIVE") ⊎ (g.allow_destructive ≡ true))
  unfolding evaluate_risk
  evaluate_risk_needs_approval r h = ground (
    arith,
    eq_iff r "READ",
    eq_iff r "DESTRUCTIVE",
    reject_denies (safe_text env target) r "plan mode: execution disabled",
    reject_denies (safe_text env target) r
        "destructive capability requires explicit engagement override",
  )

  -- A request is allowed only outside plan mode, with a target in scope or none at all, never without
  -- a target that the capability requires, and only if it is a read, or auto mode is on and it is not
  -- destructive.
  pub evaluate_allow :
      decision_of (evaluate env g capability target risk required log) ≡ allow
      → IsAdmissible
        × (g.mode ≢ plan)
        × ((effective_risk risk ≡ "READ")
            ⊎ ((g.mode ≡ auto) × (effective_risk risk ≢ "DESTRUCTIVE")))
  evaluate_allow h =
      let (target_ok, passed) = evaluate_passes allow (λ e. cc) h in
      let (mode, kind) = evaluate_risk_allow (effective_risk risk) passed in (target_ok, mode, kind)

  -- What the gate asks a human for lies in scope and is never a read or in plan mode; if it is
  -- destructive then the engagement's override is on.
  pub evaluate_needs_approval :
      decision_of (evaluate env g capability target risk required log) ≡ needs_approval
      → IsAdmissible
        × (g.mode ≢ plan)
        × (effective_risk risk ≢ "READ")
        × ((effective_risk risk ≢ "DESTRUCTIVE") ⊎ (g.allow_destructive ≡ true))
  evaluate_needs_approval h =
      let (target_ok, passed) = evaluate_passes needs_approval (λ e. cc) h in
      let (mode, kind, override) = evaluate_risk_needs_approval (effective_risk risk) passed in
      (target_ok, mode, kind, override)

-- The gate agrees with `resolve_mode_decision` on each target in scope, once the override is on.
abbrev pub gate_word : ModeDecision → Decision
gate_word may_run = allow
gate_word must_ask = needs_approval
gate_word refused = deny

-- For a nonempty target in scope, which is not blank where a target is required, with the override for destructive
-- capabilities on, the gate decides as `resolve_mode_decision` of the host's command policy says for the mode and the
-- risk.
pub evaluate-resolve_mode_decision :
    (env : GateEnv) (g : GovernanceGate) (capability target : String) (risk : RiskLevel)
    (required : Bool) (log : AuditLog)
    → (required && is_empty (strip target)) ≡ false
    → is_empty target ≡ false
    → is_in_scope env.net g.scope target ≡ some true
    → g.allow_destructive ≡ true
    → decision_of (evaluate env g capability target (risk_value risk) required log)
      ≡ gate_word (resolve_mode_decision g.mode risk)
unfolding evaluate out_of_scope resolve_mode_decision upper
evaluate-resolve_mode_decision env g capability target read required log worded full inside
      override =
    ground (
      arith,
      reject_denies env g capability target "" required log (safe_text env target) (risk_value read)
          "plan mode: execution disabled",
    )
evaluate-resolve_mode_decision env g capability target write required log worded full inside
      override =
    ground (
      arith,
      reject_denies env g capability target "" required log (safe_text env target)
          (risk_value write) "plan mode: execution disabled",
    )
evaluate-resolve_mode_decision env g capability target destructive required log worded full inside
      override =
    ground (
      arith,
      reject_denies env g capability target "" required log (safe_text env target)
          (risk_value destructive) "plan mode: execution disabled",
    )
