-- ===== src/Governance/Gate.antt =====
-- governance/gate.py: the decision before each execution.
pub mod Laws
use decode.Prelude.{
  ℕ, String, Bool, true, false, not, ◌&&◌, Option, none, some, List, [], ◌∷◌, ◌++◌, if◌then◌else◌,
  is_empty, str_eq, str_append,
}
use decode.Prelude.Text.{strip, upper, take_chars}
use decode.Governance.Types.{
  PermissionMode, plan, ask, auto, Decision, allow, needs_approval, deny, GovernanceDecision,
  AuditEvent, AuditLog, record_event,
}
use decode.Governance.Scope.{NetParsers, ScopePolicy, is_in_scope}

-- `GovernanceGate`'s fields, less the audit trail, which is passed on by each call.
pub record GovernanceGate : Type 0 where
  pub scope : ScopePolicy
  pub allow_destructive : Bool
  pub mode : PermissionMode

unfoldable pub set_mode : PermissionMode → GovernanceGate → GovernanceGate
set_mode m g = record g { mode = m }

-- What the gate uses and does not hold: the parsers of targets, whether the n-th write of the trail
-- succeeds, and the redaction of a text, which substitutes two patterns.
pub record GateEnv : Type 0 where
  pub net : NetParsers
  pub writable : ℕ → Bool
  pub redact : String → String

-- `none`: an exception left `evaluate`
abbrev pub Evaluation : Type 0
Evaluation = Option GovernanceDecision × AuditLog

abbrev pub decided : Decision → String → AuditLog → Evaluation
decided d why log = (some (record { decision = d; reason = why }), log)

-- `(risk or "WRITE").upper()`
abbrev pub effective_risk : String → String
effective_risk risk = upper (if is_empty risk then "WRITE" else risk)

module _ (env : GateEnv) where
  -- `_safe_text`: redacted, and at most 500 characters
  abbrev pub safe_text : String → String
  safe_text s = take_chars 500 (env.redact s)

  abbrev pub rejection : String → String → String → String → AuditEvent
  rejection capability target risk why = record {
    event = "rejection";
    tool = capability;
    target = target;
    risk = risk;
    approved = false;
    detail = why;
    request_id = "";
    approval_digest = "";
  }

  -- `_record` and the return of `DENY`; a failing `record` raises instead
  unfoldable pub reject : String → String → String → String → AuditLog → Evaluation
  unfolding record_event
  reject capability target risk why log =
      let (written, log') =
        record_event env.redact env.writable (rejection capability target risk why) log in
      if written then decided deny why log' else (none, log')

  -- the tests behind the scope: plan mode, and the three kinds of risk
  unfoldable pub evaluate_risk : GovernanceGate → String → String → String → AuditLog → Evaluation
  evaluate_risk g capability target risk log = elim g.mode [
    | plan ↦ reject capability (safe_text target) risk "plan mode: execution disabled" log
    | other ↦
        if str_eq risk "READ"
        then decided allow "read-only, in scope" log
        else if str_eq risk "DESTRUCTIVE"
        then (if g.allow_destructive
            then decided needs_approval "destructive: override set, human approval still required"
                log
            else reject capability (safe_text target) risk
                "destructive capability requires explicit engagement override" log)
        else elim other [
          | auto ↦ decided allow "auto mode: write allowed in scope" log
          | _ ↦ decided needs_approval "requires human approval" log
        ]
  ]

  -- `target and not is_in_scope(target)`
  unfoldable pub out_of_scope : GovernanceGate → String → Option Bool
  out_of_scope g target =
      if is_empty target
      then some false
      else elim (is_in_scope env.net g.scope target) [ none ↦ none | some b ↦ some (not b) ]

  pub out_of_scope_reason : String → String
  out_of_scope_reason target =
      str_append "target '" (str_append (safe_text target) "' is out of engagement scope")

  unfoldable pub evaluate : GovernanceGate → String → String → String → Bool → AuditLog → Evaluation
  unfolding evaluate_risk
  evaluate g capability target raw_risk target_required log =
      let risk = effective_risk raw_risk in
      if target_required && is_empty (strip target)
      then reject capability "" risk "explicit target is required for this capability" log
      else elim (out_of_scope g target) [
        | none ↦ (none, log)
        | some true ↦ reject capability (safe_text target) risk (out_of_scope_reason target) log
        | some false ↦ evaluate_risk g capability target risk log
      ]
