-- ===== src/Runtime/Coordinator/Recorders.antt =====
-- The recorders of a result: `_terminal_result`, `_record_authorization`, `_record_terminal`,
-- `_record_non_audit_telemetry`, `_capture_evidence`, and the two ways to end without a launch.
use decode.Prelude.{
  ◌+◌, String, Bool, true, false, ◌&&◌, Option, none, some, [], ◌∷◌, ◌++◌, if◌then◌else◌,
}
use decode.Governance.{AuditEvent, record_event, risk_value}
use decode.Runtime.Request.{
  ExecutionStatus, error, success, denied, blocked, timeout, cancelled, ErrorCategory,
  telemetry_failure,
}
use decode.Runtime.Coordinator.Effects.{
  safe_text, Env, Call, State, Step, stop, CoordinatedResult, Produced,
}

abbrev pub status_value : ExecutionStatus → String
status_value success = "success"
status_value denied = "denied"
status_value blocked = "blocked"
status_value error = "error"
status_value timeout = "timeout"
status_value cancelled = "cancelled"

module _ (env : Env) (call : Call) (digest : String) where
  unfoldable pub terminal_result :
      State
      → ExecutionStatus
      → Bool
      → Option ErrorCategory
      → String
      → Option Produced
      → CoordinatedResult
  terminal_result s status ok category message value = record {
    request_id = call.request_id;
    action = s.shared.request.action;
    status = status;
    success = ok;
    value = value;
    error_category = category;
    error = message;
    approval_digest = digest;
    evidence = none;
  }

  abbrev pub authorization_event : State → AuditEvent
  authorization_event s = record {
    event = "approval";
    tool = s.shared.request.action;
    target = safe_text env s.shared.request.target;
    risk = risk_value s.shared.request.risk;
    approved = true;
    detail = "execution authorized";
    request_id = call.request_id;
    approval_digest = digest;
  }

  unfoldable pub record_authorization : State → Bool × State
  unfolding record_event
  record_authorization s =
      let (written, log) =
        record_event env.gate_env.redact env.gate_env.writable (authorization_event s) s.audit in
      (written, record s { audit = log })

module _ (env : Env) where
  abbrev pub terminal_event : State → CoordinatedResult → Bool → AuditEvent
  terminal_event s result executed = record {
    event = if executed then "tool_execution" else "rejection";
    tool = s.shared.request.action;
    target = safe_text env s.shared.request.target;
    risk = risk_value s.shared.request.risk;
    approved = executed;
    detail = status_value result.status;
    request_id = result.request_id;
    approval_digest = result.approval_digest;
  }

  unfoldable pub record_audit : Bool → Bool → CoordinatedResult → State → Bool × State
  unfolding record_event
  record_audit wanted executed result s =
      let (written, log) =
        record_event env.gate_env.redact env.gate_env.writable (terminal_event s result executed)
          s.audit in
      if wanted then (written, record s { audit = log }) else (true, s)

  unfoldable pub record_log : CoordinatedResult → State → Bool × State
  record_log result s =
      let s' = record s { log_calls = s.log_calls + 1 } in
      if env.log_writable s.log_calls
      then (true, record s' { logs = s.logs ++ result ∷ [] })
      else (false, s')

  unfoldable pub record_feedback : CoordinatedResult → State → Bool × State
  record_feedback result s =
      let s' = record s { feedback_calls = s.feedback_calls + 1 } in
      if env.feedback_writable s.feedback_calls
      then (true, record s' { feedback = s.feedback ++ result ∷ [] })
      else (false, s')

  -- Both writes are tried, whatever becomes of the first.
  unfoldable pub record_non_audit_telemetry : CoordinatedResult → State → Bool × State
  unfolding record_log record_feedback
  record_non_audit_telemetry result s =
      let (logged, s1) = record_log result s in
      let (stored, s2) = record_feedback result s1 in (logged && stored, s2)

  unfoldable pub record_terminal : Bool → Bool → CoordinatedResult → State → Bool × State
  unfolding record_audit record_non_audit_telemetry
  record_terminal audit_event executed result s =
      let (audited, s1) = record_audit audit_event executed result s in
      let (stored, s2) = record_non_audit_telemetry result s1 in (stored && audited, s2)

  unfoldable pub capture_evidence : CoordinatedResult → State → Bool × State
  capture_evidence result s =
      let s' = record s { evidence_calls = s.evidence_calls + 1 } in
      if env.evidence_writable s.evidence_calls
      then (true, record s' { evidence = s.evidence ++ result.request_id ∷ [] })
      else (false, s')

-- what a result becomes where its telemetry could not be recorded
unfoldable pub degrade : CoordinatedResult → CoordinatedResult
degrade r = record r {
  status = error;
  success = false;
  error_category = some telemetry_failure;
  error = "mandatory execution telemetry could not be recorded";
}

module _ (env : Env) (call : Call) (digest : String) {A : Type 0} where
  -- `_finish_without_execution`
  unfoldable pub finish : ExecutionStatus → ErrorCategory → String → Bool → Step A
  unfolding terminal_result degrade
  finish status category message audit_event s =
      let result =
        terminal_result env call digest s status false (some category) (safe_text env message)
          none in
      let (recorded, s') = record_terminal env audit_event false result s in
      (stop (if recorded then result else degrade result), s')

  -- `_telemetry_unavailable`
  unfoldable pub telemetry_unavailable : Step A
  unfolding terminal_result
  telemetry_unavailable s =
      let result =
        terminal_result env call digest s error false (some telemetry_failure)
          "mandatory audit service is unavailable; execution was not started" none in
      let (recorded, s') = record_non_audit_telemetry env result s in (stop result, s')
