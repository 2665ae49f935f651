-- ===== src/Runtime/Coordinator/Launch.antt =====
-- The launch of `ExecutionCoordinator.execute`, the result that it makes of the reply, and the whole.
use decode.Prelude.{
  ℕ, ◌+◌, String, Bool, true, false, not, ◌||◌, Option, none, some, [], ◌∷◌, ◌++◌, leb, ◌==◌,
  is_empty, if◌then◌else◌,
}
use decode.Governance.{
  Decision, allow, needs_approval, deny, GovernanceDecision, PermissionMode, plan, ask, auto,
}
use decode.Runtime.Request.{
  success, error, denied, blocked, timeout, cancelled, ErrorCategory, policy_denial,
  approval_expired, cancellation, execution_failure, telemetry_failure, unsupported_action,
}
use decode.Runtime.Coordinator.Effects.{
  safe_text, Env, Call, State, Activity, Step, go, stop, cancel, Produced, Reply, returned,
  interrupted, overdue, failed, CoordinatedResult, LaunchEvent, ◌>>=◌, ◌>>◌, pure, gets, when,
  read_clock,
}
use decode.Runtime.Coordinator.Recorders.{
  terminal_result, record_terminal, capture_evidence, degrade, finish, telemetry_unavailable,
}
use decode.Runtime.Coordinator.Guards.{
  set_expiry, approval_digest, ask_gate, is_unchanged, restriction, guards, or_else,
}

abbrev pub same_mode : PermissionMode → PermissionMode → Bool
same_mode plan plan = true
same_mode ask ask = true
same_mode auto auto = true
same_mode _ _ = false

-- `is` on the registered check
abbrev pub same_check : Option ℕ → Option ℕ → Bool
same_check none none = true
same_check (some a) (some b) = a == b
same_check _ _ = false

module _ (env : Env) (call : Call) (digest : String) where
  unfoldable pub run_preparation : Activity → Step Reply
  run_preparation prepare s =
      let (reply, shared) = prepare s.shared in
      (go reply, record s { shared = shared; preparations = s.preparations + 1 })

  unfoldable pub run_operation : Step Reply
  run_operation s =
      let (reply, shared) = call.operation s.shared in
      let event : LaunchEvent = record {
        request = s.shared.request;
        trail = s.audit.events;
        reads = s.clock_reads;
      } in
      (go reply, record s { shared = shared; launches = s.launches ++ event ∷ [] })

  abbrev pub block : String → Step (Unit {0})
  block reason =
      when (not (is_empty reason))
        (finish env call digest blocked unsupported_action (safe_text env reason) true)

  -- why a request may no longer run once its preparation has ended
  unfoldable pub preparation_error : Option ℕ → PermissionMode → State → String
  preparation_error check mode s =
      if not (is_unchanged env call digest s)
      then "material resolved action changed during preparation"
      else if not (same_check s.shared.check check) || not (same_mode s.shared.gate.mode mode)
      then "execution restrictions changed during preparation"
      else restriction env call digest s

  -- the decision before the preparation, the one behind it, and its reason
  unfoldable pub compare_decision : Decision → Decision → String → Step (Unit {0})
  compare_decision before deny reason = finish env call digest denied policy_denial reason false
  compare_decision before allow reason = pure tt
  compare_decision needs_approval needs_approval reason = pure tt
  compare_decision before needs_approval reason = block "execution now requires renewed approval"

  unfoldable pub handle_again : Decision → Option GovernanceDecision → Step (Unit {0})
  unfolding compare_decision
  handle_again before none = telemetry_unavailable env call digest
  handle_again before (some d) = compare_decision before d.decision d.reason

  -- the second call of the gate
  unfoldable pub decide_again : Decision → Step (Unit {0})
  unfolding handle_again
  decide_again before s = let (r, s') = ask_gate env call digest s in handle_again before r s'

  unfoldable pub check_again : Decision → Option ℕ → PermissionMode → Step (Unit {0})
  unfolding decide_again
  check_again before check mode = do
    reason ← gets (preparation_error check mode)
    block reason
    decide_again before

  unfoldable pub check_expiry : Option ℕ → Step (Unit {0})
  check_expiry none = pure tt
  check_expiry (some t) = do
    now ← read_clock env
    when (leb t now)
        (finish env call digest denied approval_expired "approval expired before launch" true)

  unfoldable pub start : Option ℕ → Step Reply
  unfolding run_operation check_expiry
  start expiry = do check_expiry expiry; run_operation

  -- with a preparation: its value if it has one, and else the operation, behind the checks
  unfoldable pub prepared : Decision → Option ℕ → Option ℕ → PermissionMode → Reply → Step Reply
  unfolding check_again start
  prepared before expiry check mode (returned none) = do check_again before check mode; start expiry
  prepared before expiry check mode reply = pure reply

  unfoldable pub launch_by : Option Activity → Decision → Option ℕ → Step Reply
  unfolding run_preparation prepared start
  launch_by none before expiry = start expiry
  launch_by (some prepare) before expiry = do
    check ← gets (λ s. s.shared.check)
    mode ← gets (λ s. s.shared.gate.mode)
    reply ← run_preparation prepare
    prepared before expiry check mode reply

  -- the body of the `try`
  unfoldable pub launch : Decision → Option ℕ → Step Reply
  unfolding launch_by
  launch = launch_by call.preparation

  -- the result of a reply that is no cancellation
  unfoldable pub result_of_value : State → Option Produced → CoordinatedResult
  unfolding terminal_result
  result_of_value s none = terminal_result env call digest s success true none "" none
  result_of_value s (some v) =
      if v.succeeded
      then terminal_result env call digest s success true none "" (some v)
      else terminal_result env call digest s (if v.ran_out then timeout else error) false
          (some (if v.ran_out then ErrorCategory.timeout else execution_failure))
          (or_else (safe_text env (or_else v.error v.stderr)) "execution failed") (some v)

module _ (env : Env) where
  -- evidence of the value, then the terminal record; each failure turns the result into an error
  unfoldable pub keep_evidence : CoordinatedResult → State → CoordinatedResult × State
  unfolding capture_evidence
  keep_evidence result s = elim result.value [
    | none ↦ (result, s)
    | some v ↦
        let (captured, s') = capture_evidence env result s in
        if captured then (record result { evidence = some result.request_id }, s') else (
          record result {
            status = error;
            success = false;
            value = none;
            error_category = some telemetry_failure;
            error = "protected raw evidence could not be persisted";
          },
          s',
        )
  ]

  unfoldable pub conclude : CoordinatedResult → Step CoordinatedResult
  unfolding keep_evidence record_terminal degrade
  conclude result s =
      let (kept, s1) = keep_evidence result s in
      let (recorded, s2) = record_terminal env true true kept s1 in
      (stop (if recorded then kept else degrade kept), s2)

module _ (env : Env) (call : Call) (digest : String) where
  unfoldable pub finish_reply : Reply → Step CoordinatedResult
  unfolding conclude result_of_value terminal_result record_terminal
  finish_reply (returned v) s = conclude env (result_of_value env call digest s v) s
  finish_reply overdue s =
      conclude env
        (terminal_result env call digest s timeout false (some ErrorCategory.timeout)
          "execution timed out" none)
        s
  finish_reply (failed message) s =
      conclude env
        (terminal_result env call digest s error false (some execution_failure)
          (safe_text env message) none)
        s
  finish_reply interrupted s =
      let result =
        terminal_result env call digest s cancelled false (some cancellation) "execution cancelled"
          none in
      let (recorded, s') = record_terminal env true true result s in (cancel result, s')

-- `ExecutionCoordinator.execute`
unfoldable pub execute : Env → Call → Step CoordinatedResult
unfolding set_expiry guards launch finish_reply
execute env call s0 =
    let s = set_expiry env s0 in
    let digest = approval_digest env s in
    (do
      (decision, expiry) ← guards env call digest
      reply ← launch env call digest decision expiry
      finish_reply env call digest reply)
      s
