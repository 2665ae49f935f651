-- ===== src/Runtime/Coordinator/Reads.antt =====
-- A call of `ExecutionCoordinator.execute` for a read with a resolved action.
use decode.Prelude.{◌≡◌, refl, true, false, none, some, [], ◌∷◌}
use decode.Governance.{read}
use decode.Values.{null}
use decode.Runtime.Request.{ExecutionRequest, ResolvedAction, read_only, idempotent, vector}
use decode.Runtime.Request.Laws.{IsConsistent}
use decode.Runtime.Coordinator.Effects.{State, LaunchEvent}
use decode.Runtime.Coordinator.Launch.{execute}
use decode.Runtime.Coordinator.Laws.{execute-IsConsistent}
use decode.Runtime.Coordinator.Tests.{working, start_state, approved_call}

abbrev list_files : ResolvedAction
list_files = record {
  schema_version = "1";
  capability = "shell.run";
  provider = "host";
  tool = "ls";
  tool_version = "9";
  target = "";
  argv = "ls" ∷ "-l" ∷ [];
  executables = record { argv_index = 0; path = "/bin/ls"; sha256 = "ab" } ∷ [];
  cwd = "/";
  inputs = [];
  outputs = [];
  side_effects = read_only ∷ [];
  timeout_seconds = 5;
  idempotency = idempotent;
}

abbrev read_request : ExecutionRequest
read_request = record {
  action = "shell.run";
  target = "";
  target_required = false;
  risk = read;
  params = null;
  command = vector ("ls" ∷ "-l" ∷ []);
  executor = "host";
  required_privileges = [];
  credential_refs = [];
  execution_identity = record {
    tool = "ls";
    tool_version = "9";
    executable_path = "/bin/ls";
    executable_sha256 = "ab";
    rest = [];
  };
  resolved_action = some list_files;
  approval_ttl_seconds = 60;
  approval_expires_at = none;
  dependency = "";
  dependency_available = true;
  dependency_guidance = "";
  blocked_reason = "";
}

abbrev read_state : State
read_state = record start_state { shared = record (start_state.shared) { request = read_request } }

abbrev read_launch : LaunchEvent
read_launch = record {
  request = read_request;
  trail =
      record {
        event = "approval";
        tool = "shell.run";
        target = "";
        risk = "READ";
        approved = true;
        detail = "execution authorized";
        request_id = "r1";
        approval_digest = "shell.run";
      }
      ∷ [];
  reads = 0;
}

read_launched : (execute working approved_call read_state).1.launches ≡ read_launch ∷ []
unfolding execute decode.Runtime.Coordinator.Effects.◌>>=◌ decode.Runtime.Coordinator.Effects.◌>>◌
    decode.Runtime.Coordinator.Effects.gets decode.Runtime.Coordinator.Effects.when
    decode.Runtime.Coordinator.Effects.pure decode.Runtime.Coordinator.Effects.read_clock
    decode.Runtime.Coordinator.Guards.run_callback decode.Runtime.Coordinator.Guards.approval_digest
    decode.Runtime.Coordinator.Guards.is_unchanged decode.Runtime.Coordinator.Guards.restriction
    decode.Runtime.Coordinator.Recorders.record_authorization
    decode.Runtime.Coordinator.Guards.approve decode.Runtime.Coordinator.Guards.approve_by
    decode.Runtime.Coordinator.Guards.ask_gate decode.Runtime.Coordinator.Guards.authorize
    decode.Runtime.Coordinator.Guards.authorized decode.Runtime.Coordinator.Guards.check_approval
    decode.Runtime.Coordinator.Guards.check_gate decode.Runtime.Coordinator.Guards.check_grant
    decode.Runtime.Coordinator.Guards.check_hooks decode.Runtime.Coordinator.Guards.check_request
    decode.Runtime.Coordinator.Guards.check_restriction
    decode.Runtime.Coordinator.Guards.check_unchanged decode.Runtime.Coordinator.Guards.guards
    decode.Runtime.Coordinator.Guards.handle_decision decode.Runtime.Coordinator.Guards.read_answer
    decode.Runtime.Coordinator.Guards.refuse_denied decode.Runtime.Coordinator.Guards.refuse_or_pass
    decode.Runtime.Coordinator.Guards.request_approval decode.Runtime.Coordinator.Guards.run_hooks
    decode.Runtime.Coordinator.Guards.set_expiry decode.Runtime.Coordinator.Launch.check_expiry
    decode.Runtime.Coordinator.Launch.conclude decode.Runtime.Coordinator.Launch.finish_reply
    decode.Runtime.Coordinator.Launch.keep_evidence decode.Runtime.Coordinator.Launch.launch
    decode.Runtime.Coordinator.Launch.launch_by decode.Runtime.Coordinator.Launch.result_of_value
    decode.Runtime.Coordinator.Launch.run_operation decode.Runtime.Coordinator.Launch.start
    decode.Runtime.Coordinator.Recorders.capture_evidence
    decode.Runtime.Coordinator.Recorders.record_audit
    decode.Runtime.Coordinator.Recorders.record_feedback
    decode.Runtime.Coordinator.Recorders.record_log
    decode.Runtime.Coordinator.Recorders.record_non_audit_telemetry
    decode.Runtime.Coordinator.Recorders.record_terminal
    decode.Runtime.Coordinator.Recorders.terminal_result
    decode.Runtime.Request.resolved_action_error decode.Governance.Gate.evaluate
    decode.Governance.Gate.evaluate_risk decode.Prelude.Text.strip
    decode.Governance.Gate.out_of_scope decode.Governance.Scope.is_in_scope
    decode.Prelude.Text.upper decode.Runtime.Request.material decode.Governance.record_event
    native.Mathlib.Bridge.IsLe native.Mathlib.Decide.dec_le native.Mathlib.Decide.dec_lt
    decode.Runtime.Request.executable_error decode.Runtime.Coordinator.Effects.safe_text
    decode.Prelude.Text.take_chars
read_launched = refl

execute-IsConsistent_example : IsConsistent list_files read_launch.request
execute-IsConsistent_example =
    execute-IsConsistent working approved_call read_state read_launch list_files read_launched refl
