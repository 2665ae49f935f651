-- ===== src/Runtime/Coordinator/Guards.antt =====
-- The phases of `ExecutionCoordinator.execute` in front of the launch.
use Prim.Native.Nat.{min}
use mathlib.Core.Option
use decode.Prelude.{
  ℕ, ◌+◌, ◌*◌, String, Bool, true, false, not, ◌&&◌, ◌||◌, Option, none, some, List, leb, ltb,
  is_empty, str_eq, str_append, if◌then◌else◌,
}
use decode.Governance.{Decision, needs_approval, deny, GovernanceDecision, risk_value}
use decode.Governance.Gate.{evaluate}
use decode.HostControl.Hooks.{run_pre, PreHook}
use decode.Runtime.Request.{
  ExecutionRequest, material, is_read, resolved_action_error, denied, blocked, policy_denial,
  approval_required, approval_rejected, approval_invalid, approval_expired, missing_dependency,
  unsupported_action,
}
use decode.Runtime.Coordinator.Effects.{
  safe_text, Env, Call, State, Shared, Step, go, ApprovalRequest, ApprovalGrant, Answer, raised,
  accepted, rejected, other, grant, ◌>>=◌, ◌>>◌, pure, gets, when, read_clock,
}
use decode.Runtime.Coordinator.Recorders.{finish, telemetry_unavailable, record_authorization}

-- A request that is no read gets its expiry from the clock, unless it has one.
unfoldable pub set_expiry : Env → State → State
set_expiry env s =
    let r = s.shared.request in
    let at = env.now s.clock_reads + r.approval_ttl_seconds * 1000000 in
    elim r.approval_expires_at [
      | some t ↦ s
      | none ↦ if is_read r.risk then s else record s {
        clock_reads = s.clock_reads + 1;
        shared = record (s.shared) { request = record r { approval_expires_at = some at } };
      }
    ]

unfoldable pub approval_digest : Env → State → String
approval_digest env s = env.hash (material s.shared.request)

abbrev pub or_else : String → String → String
or_else s t = if is_empty s then t else s

module _ (env : Env) (call : Call) (digest : String) where
  -- blocked, missing dependency, inconsistent resolved action
  unfoldable pub check_request : Step (Unit {0})
  check_request = do
    r ← gets (λ s. s.shared.request)
    when (not (is_empty r.blocked_reason))
        (finish env call digest blocked unsupported_action r.blocked_reason true)
    when (not r.dependency_available) (
        finish env call digest blocked missing_dependency
          (or_else r.dependency_guidance
            (str_append "Required dependency missing: " (or_else r.dependency r.action)))
          true)
    when (not (is_empty (resolved_action_error r)))
        (finish env call digest blocked unsupported_action (resolved_action_error r) true)

  unfoldable pub run_hooks : Option (List PreHook) → Step (Unit {0})
  run_hooks none = pure tt
  run_hooks (some hooks) = do
    r ← gets (λ s. s.shared.request)
    let (ok, reason) =
        run_pre hooks (record { capability = r.action; risk = r.risk; target = r.target })
    when (not ok) (finish env call digest blocked unsupported_action reason true)

  unfoldable pub check_hooks : Step (Unit {0})
  unfolding run_hooks
  check_hooks = run_hooks env.hooks

  -- the call of the gate; `none` where it raised
  unfoldable pub ask_gate : State → Option GovernanceDecision × State
  ask_gate s =
      let r = s.shared.request in
      let (d, log) =
        evaluate env.gate_env s.shared.gate r.action r.target (risk_value r.risk) r.target_required
          s.audit in
      (d, record s { audit = log })

  unfoldable pub refuse_or_pass : Decision → String → Step Decision
  refuse_or_pass deny reason = finish env call digest denied policy_denial reason false
  refuse_or_pass passed reason = pure passed

  unfoldable pub refuse_denied : GovernanceDecision → Step Decision
  unfolding refuse_or_pass
  refuse_denied d = refuse_or_pass d.decision d.reason

  unfoldable pub handle_decision : Option GovernanceDecision → Step Decision
  unfolding refuse_denied
  handle_decision none = telemetry_unavailable env call digest
  handle_decision (some d) = refuse_denied d

  unfoldable pub check_gate : Step Decision
  unfolding ask_gate handle_decision
  check_gate s = let (r, s') = ask_gate s in handle_decision r s'

  abbrev pub approval_request : ExecutionRequest → ℕ → ApprovalRequest
  approval_request r expires = record {
    request_id = call.request_id;
    action = r.action;
    target = env.gate_env.redact r.target;
    risk = r.risk;
    params = env.safe_value r.params;
    command = env.gate_env.redact (env.command_display r.command);
    executor = r.executor;
    required_privileges = r.required_privileges;
    credential_refs = r.credential_refs;
    execution_identity = r.execution_identity;
    resolved_action = Option.map env.safe_action r.resolved_action;
    expires_at = expires;
    digest = digest;
  }

  -- the callback's run, on what it shares with the coordinator
  unfoldable pub run_callback :
      (ApprovalRequest → Shared → Answer × Shared) → ApprovalRequest → Step Answer
  run_callback ask req s =
      let (answer, shared) = ask req s.shared in (go answer, record s { shared = shared })

  abbrev pub reject_approval : Step ApprovalGrant
  reject_approval =
      finish env call digest denied approval_rejected "human approval was rejected" true

  abbrev pub mismatched_approval : Step ApprovalGrant
  mismatched_approval =
      finish env call digest denied approval_invalid
        "approval does not match the material execution request" true

  -- an answer as a grant for this digest, or the end of the call
  unfoldable pub read_answer : ℕ → Answer → Step ApprovalGrant
  read_answer expires raised = reject_approval
  read_answer expires rejected = reject_approval
  read_answer expires other = mismatched_approval
  read_answer expires accepted = do
    now ← read_clock env
    pure (record { digest = digest; approved_at = now; expires_at = expires })
  read_answer expires (grant g) = if str_eq g.digest digest then pure g else mismatched_approval

  unfoldable pub check_grant : ℕ → ApprovalGrant → Step (Option ℕ)
  check_grant expires g = do
    now ← read_clock env
    when (ltb now g.approved_at || leb (min g.expires_at expires) now)
        (finish env call digest denied approval_expired "approval expired before execution" true)
    current ← gets (approval_digest env)
    when (not (str_eq current digest)) (
        finish env call digest denied approval_invalid
          "material execution request changed after approval" true)
    pure (some (min g.expires_at expires))

  -- a callback, and an expiry in the future
  unfoldable pub request_approval :
      (ApprovalRequest → Shared → Answer × Shared) → ℕ → Step (Option ℕ)
  unfolding read_answer check_grant
  request_approval ask expires = do
    now ← read_clock env
    when (leb expires now) (
        finish env call digest denied approval_expired "approval request expired before execution"
          true)
    r ← gets (λ s. s.shared.request)
    answer ← run_callback ask (approval_request r expires)
    g ← read_answer expires answer
    check_grant expires g

  unfoldable pub approve_by :
      Option (ApprovalRequest → Shared → Answer × Shared) → Option ℕ → Step (Option ℕ)
  unfolding request_approval
  approve_by none expires =
      finish env call digest denied approval_required "human approval is required" true
  approve_by (some ask) none =
      finish env call digest denied approval_expired "approval request expired before execution"
        true
  approve_by (some ask) (some expires) = request_approval ask expires

  unfoldable pub approve : Step (Option ℕ)
  unfolding approve_by
  approve = do
    expires ← gets (λ s. s.shared.request.approval_expires_at)
    approve_by call.approval expires

  -- the expiry of the approval that the launch has to meet
  unfoldable pub check_approval : Decision → Step (Option ℕ)
  unfolding approve
  check_approval needs_approval = approve
  check_approval _ = gets (λ s. s.shared.request.approval_expires_at)

  -- the request is still the one that was decided on, and still consistent
  unfoldable pub is_unchanged : State → Bool
  is_unchanged s =
      str_eq (approval_digest env s) digest && is_empty (resolved_action_error s.shared.request)

  unfoldable pub check_unchanged : Step (Unit {0})
  check_unchanged = do
    unchanged ← gets is_unchanged
    when (not unchanged) (
        finish env call digest blocked unsupported_action
          "material resolved action changed before execution" true)

  -- `_pre_execution_check`, with the reason that stands for an exception
  unfoldable pub restriction : State → String
  restriction s = elim s.shared.check [
    | none ↦ ""
    | some c ↦ elim (env.run_check c s.shared) [
      | none ↦ "pre-execution validation unavailable"
      | some reason ↦ reason
    ]
  ]

  unfoldable pub check_restriction : Step (Unit {0})
  check_restriction = do
    reason ← gets restriction
    when (not (is_empty reason))
        (finish env call digest blocked unsupported_action (safe_text env reason) true)

  unfoldable pub authorized : Bool → Step (Unit {0})
  authorized true = pure tt
  authorized false = telemetry_unavailable env call digest

  unfoldable pub authorize : Step (Unit {0})
  unfolding authorized
  authorize s = let (written, s') = record_authorization env call digest s in authorized written s'

  -- everything in front of the `try`: the decision and the expiry that the launch has to meet
  unfoldable pub guards : Step (Decision × Option ℕ)
  unfolding check_request check_hooks check_gate check_approval check_unchanged check_restriction
      authorize
  guards = do
    check_request
    check_hooks
    decision ← check_gate
    expiry ← check_approval decision
    check_unchanged
    check_restriction
    authorize
    pure (decision, expiry)
