-- ===== src/Runtime/Coordinator/Tests.antt =====
-- One approved call of `ExecutionCoordinator.execute`, and one whose trail cannot be written.
use decode.Prelude.{
  ℕ, ◌≡◌, refl, ◌⊎◌, String, Bool, true, false, Option, none, some, List, [], ◌∷◌, length,
}
use decode.Governance.{AuditLog, write, ask, allow}
use decode.Governance.Scope.{NetParsers, ScopePolicy}
use decode.Governance.Gate.{GovernanceGate, GateEnv}
use decode.Values.{null}
use decode.Runtime.Request.{ExecutionRequest, ExecutionIdentity, Material, line}
use decode.Runtime.Coordinator.Effects.{
  Env, Call, State, Shared, Produced, Reply, returned, Answer, accepted, ApprovalRequest, Exit, go,
  stop, cancel,
}
use decode.Runtime.Coordinator.Launch.{execute}
use decode.Runtime.Coordinator.Course.{begun, call_digest}
use decode.Runtime.Coordinator.Started.{Runs}
use decode.Runtime.Coordinator.Laws.{
  succeeded, NothingStarted, Permitted, KeptInFull, execute-Permitted, execute_unaudited,
  execute-Runs, execute-Recorded,
}

abbrev no_net : NetParsers
no_net = record { ip_address = λ s. none; ip_network = λ s. none; hostname = λ s. none }

abbrev open_scope : ScopePolicy
open_scope = record { allow_all = true; networks = []; hosts = []; domains = [] }

abbrev asking_gate : GovernanceGate
asking_gate = record { scope = open_scope; allow_destructive = false; mode = ask }

abbrev env_with : (ℕ → Bool) → Env
env_with writable = record {
  gate_env = record { net = no_net; writable = writable; redact = λ s. s };
  hash = λ m. m.action;
  now = λ n. n;
  log_writable = λ n. true;
  feedback_writable = λ n. true;
  evidence_writable = λ n. true;
  hooks = none;
  run_check = λ n s. some "";
  safe_value = λ v. v;
  safe_action = λ a. null;
  command_display = λ c. "";
}

abbrev pub working : Env
working = env_with (λ n. true)

abbrev unaudited : Env
unaudited = env_with (λ n. false)

abbrev write_request : ExecutionRequest
write_request = record {
  action = "file.write";
  target = "notes.txt";
  target_required = true;
  risk = write;
  params = null;
  command = line "write notes.txt";
  executor = "host";
  required_privileges = [];
  credential_refs = [];
  execution_identity = record {
    tool = "host";
    tool_version = "1";
    executable_path = "";
    executable_sha256 = "";
    rest = [];
  };
  resolved_action = none;
  approval_ttl_seconds = 60;
  approval_expires_at = none;
  dependency = "";
  dependency_available = true;
  dependency_guidance = "";
  blocked_reason = "";
}

abbrev pub start_state : State
start_state = record {
  shared = record { request = write_request; gate = asking_gate; check = none };
  audit = record { events = []; calls = 0 };
  logs = [];
  log_calls = 0;
  feedback = [];
  feedback_calls = 0;
  evidence = [];
  evidence_calls = 0;
  clock_reads = 0;
  preparations = 0;
  launches = [];
}

abbrev written : Produced
written = record { succeeded = true; ran_out = false; error = ""; stderr = "" }

abbrev pub approved_call : Call
approved_call = record {
  request_id = "r1";
  approval = some (λ r s. (accepted, s));
  preparation = none;
  operation = λ s. (returned (some written), s);
}

-- The approved call succeeds, and runs its operation once.
approved_call_succeeds :
    (succeeded (execute working approved_call start_state).0 ≡ true)
    × (length (execute working approved_call start_state).1.launches ≡ 1)
unfolding execute decode.Runtime.Coordinator.Effects.◌>>=◌ decode.Runtime.Coordinator.Effects.◌>>◌
    decode.Runtime.Coordinator.Effects.gets decode.Runtime.Coordinator.Effects.when
    decode.Runtime.Coordinator.Effects.pure decode.Runtime.Coordinator.Effects.read_clock
    decode.Runtime.Coordinator.Guards.run_callback decode.Runtime.Coordinator.Guards.approval_digest
    decode.Runtime.Coordinator.Guards.is_unchanged decode.Runtime.Coordinator.Guards.restriction
    decode.Runtime.Coordinator.Recorders.record_authorization
    decode.Runtime.Coordinator.Guards.approve decode.Runtime.Coordinator.Guards.approve_by
    decode.Runtime.Coordinator.Guards.ask_gate decode.Runtime.Coordinator.Guards.authorize
    decode.Runtime.Coordinator.Guards.authorized decode.Runtime.Coordinator.Guards.check_approval
    decode.Runtime.Coordinator.Guards.check_gate decode.Runtime.Coordinator.Guards.check_grant
    decode.Runtime.Coordinator.Guards.check_hooks decode.Runtime.Coordinator.Guards.check_request
    decode.Runtime.Coordinator.Guards.check_restriction
    decode.Runtime.Coordinator.Guards.check_unchanged decode.Runtime.Coordinator.Guards.guards
    decode.Runtime.Coordinator.Guards.handle_decision decode.Runtime.Coordinator.Guards.read_answer
    decode.Runtime.Coordinator.Guards.refuse_denied decode.Runtime.Coordinator.Guards.refuse_or_pass
    decode.Runtime.Coordinator.Guards.request_approval decode.Runtime.Coordinator.Guards.run_hooks
    decode.Runtime.Coordinator.Guards.set_expiry decode.Runtime.Coordinator.Launch.check_expiry
    decode.Runtime.Coordinator.Launch.conclude decode.Runtime.Coordinator.Launch.finish_reply
    decode.Runtime.Coordinator.Launch.keep_evidence decode.Runtime.Coordinator.Launch.launch
    decode.Runtime.Coordinator.Launch.launch_by decode.Runtime.Coordinator.Launch.result_of_value
    decode.Runtime.Coordinator.Launch.run_operation decode.Runtime.Coordinator.Launch.start
    decode.Runtime.Coordinator.Recorders.capture_evidence
    decode.Runtime.Coordinator.Recorders.record_audit
    decode.Runtime.Coordinator.Recorders.record_feedback
    decode.Runtime.Coordinator.Recorders.record_log
    decode.Runtime.Coordinator.Recorders.record_non_audit_telemetry
    decode.Runtime.Coordinator.Recorders.record_terminal
    decode.Runtime.Coordinator.Recorders.terminal_result
    decode.Runtime.Request.resolved_action_error decode.Governance.Gate.evaluate
    decode.Governance.Gate.evaluate_risk decode.Prelude.Text.strip
    decode.Governance.Gate.out_of_scope decode.Governance.Scope.is_in_scope
    decode.Prelude.Text.upper decode.Runtime.Request.material decode.Governance.record_event
    native.Mathlib.Bridge.IsLe native.Mathlib.Decide.dec_le native.Mathlib.Decide.dec_lt
approved_call_succeeds = (refl, refl)

execute-Permitted_example :
    NothingStarted start_state (execute working approved_call start_state)
    ⊎ Permitted working approved_call start_state
execute-Permitted_example = execute-Permitted working approved_call start_state

execute-Runs_example :
    Runs working approved_call
      (call_digest working start_state)
      (begun working start_state).shared.request.approval_expires_at
      []
      (execute working approved_call start_state).1.launches
execute-Runs_example = execute-Runs working approved_call start_state

execute-Recorded_example : KeptInFull working (execute working approved_call start_state)
execute-Recorded_example =
    execute-Recorded working approved_call start_state approved_call_succeeds.0

execute_unaudited_example : NothingStarted start_state (execute unaudited approved_call start_state)
execute_unaudited_example = execute_unaudited unaudited approved_call start_state (λ n. refl)
