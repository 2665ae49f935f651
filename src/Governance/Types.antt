-- ===== src/Governance/Types.antt =====
-- skills/base.py: `RiskLevel`. hostcontrol/policy.py: `PermissionMode`, `resolve_mode_decision`.
-- governance/gate.py: `Decision`, `GovernanceDecision`. observability/audit.py: the audit trail.
use decode.Prelude.{ℕ, ◌+◌, String, Bool, true, false, List, [], ◌∷◌, ◌++◌, if◌then◌else◌}

pub data RiskLevel : Type 0 where
  read write destructive : RiskLevel

-- `risk.value`
abbrev pub risk_value : RiskLevel → String
risk_value read = "READ"
risk_value write = "WRITE"
risk_value destructive = "DESTRUCTIVE"

pub data PermissionMode : Type 0 where
  plan ask auto : PermissionMode

-- the strings 'allow', 'approve' and 'deny' that `resolve_mode_decision` returns
pub data ModeDecision : Type 0 where
  may_run must_ask refused : ModeDecision

unfoldable pub resolve_mode_decision : PermissionMode → RiskLevel → ModeDecision
resolve_mode_decision plan risk = refused
resolve_mode_decision ask read = may_run
resolve_mode_decision ask destructive = must_ask
resolve_mode_decision ask write = must_ask
resolve_mode_decision auto read = may_run
resolve_mode_decision auto destructive = must_ask
resolve_mode_decision auto write = may_run

pub data Decision : Type 0 where
  allow needs_approval deny : Decision

pub record GovernanceDecision : Type 0 where
  pub decision : Decision
  pub reason : String

-- One line of the audit trail. Of the metadata, the request's id and digest are kept.
pub record AuditEvent : Type 0 where
  pub event : String
  pub tool : String
  pub target : String
  pub risk : String
  pub approved : Bool
  pub detail : String
  pub request_id : String
  pub approval_digest : String

-- The trail so far, and how often `record` has been called.
pub record AuditLog : Type 0 where
  pub events : List AuditEvent
  pub calls : ℕ

-- `redact_sensitive` on the fields of an event, none of which has the name of a secret: each text is redacted.
abbrev pub redacted : (String → String) → AuditEvent → AuditEvent
redacted redact e = record {
  event = redact e.event;
  tool = redact e.tool;
  target = redact e.target;
  risk = redact e.risk;
  approved = e.approved;
  detail = redact e.detail;
  request_id = redact e.request_id;
  approval_digest = redact e.approval_digest;
}

-- `AuditLayer.record`: the n-th call appends its event, redacted, if the file can be written, and else raises.
unfoldable pub record_event :
    (String → String) → (ℕ → Bool) → AuditEvent → AuditLog → Bool × AuditLog
record_event redact writable e log =
    if writable log.calls
    then (true, record { events = log.events ++ redacted redact e ∷ []; calls = log.calls + 1 })
    else (false, record log { calls = log.calls + 1 })
