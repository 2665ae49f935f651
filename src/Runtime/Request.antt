-- ===== src/Runtime/Request.antt =====
-- runtime/coordinator.py, lines 61 to 407: what is asked for, and what comes back.
pub mod Laws
use decode.Prelude.{
  ℕ, ◌≡◌, String, Bool, true, false, not, ◌&&◌, ◌||◌, Option, none, some, List, [], ◌∷◌, any,
  is_empty, str_eq, if◌then◌else◌,
}
use decode.Prelude.Text.{texts_eq, first_error}
use decode.Governance.{RiskLevel, read, write, destructive, risk_value}
use decode.Values.{Value}

pub data ExecutionStatus : Type 0 where
  success denied blocked error timeout cancelled : ExecutionStatus

pub data ErrorCategory : Type 0 where
  policy_denial approval_required approval_rejected approval_invalid : ErrorCategory
  approval_expired missing_dependency timeout cancellation : ErrorCategory
  execution_failure telemetry_failure unsupported_action : ErrorCategory

-- Of the fifteen fields of `ExecutionIdentity`, those that a check reads; `rest` is the others.
pub record ExecutionIdentity : Type 0 where
  pub tool : String
  pub tool_version : String
  pub executable_path : String
  pub executable_sha256 : String
  pub rest : List String

pub data SideEffect : Type 0 where
  read_only filesystem_write network session_state unknown : SideEffect

pub data Idempotency : Type 0 where
  unknown idempotent non_idempotent : Idempotency

pub record ActionPath : Type 0 where
  pub host : String
  pub provider : String

pub record ResolvedExecutable : Type 0 where
  pub argv_index : ℕ
  pub path : String
  pub sha256 : String

-- Less the two policies whose types have one value.
pub record ResolvedAction : Type 0 where
  pub schema_version : String
  pub capability : String
  pub provider : String
  pub tool : String
  pub tool_version : String
  pub target : String
  pub argv : List String
  pub executables : List ResolvedExecutable
  pub cwd : String
  pub inputs : List ActionPath
  pub outputs : List ActionPath
  pub side_effects : List SideEffect
  pub timeout_seconds : ℕ
  pub idempotency : Idempotency

-- `str | list[str]`
pub data Command : Type 0 where
  line : String → Command
  vector : List String → Command

-- Times are in microseconds. `metadata` is passed to hooks only, and is left out.
pub record ExecutionRequest : Type 0 where
  pub action : String
  pub target : String
  pub target_required : Bool
  pub risk : RiskLevel
  pub params : Value
  pub command : Command
  pub executor : String
  pub required_privileges : List String
  pub credential_refs : List String
  pub execution_identity : ExecutionIdentity
  pub resolved_action : Option ResolvedAction
  pub approval_ttl_seconds : ℕ
  pub approval_expires_at : Option ℕ
  pub dependency : String
  pub dependency_available : Bool
  pub dependency_guidance : String
  pub blocked_reason : String

-- The fields that `approval_digest` hashes.
pub record Material : Type 0 where
  pub action : String
  pub target : String
  pub risk : String
  pub params : Value
  pub command : Command
  pub executor : String
  pub required_privileges : List String
  pub credential_refs : List String
  pub execution_identity : ExecutionIdentity
  pub resolved_action : Option ResolvedAction
  pub approval_expires_at : Option ℕ

unfoldable pub material : ExecutionRequest → Material
material r = record {
  action = r.action;
  target = r.target;
  risk = risk_value r.risk;
  params = r.params;
  command = r.command;
  executor = r.executor;
  required_privileges = r.required_privileges;
  credential_refs = r.credential_refs;
  execution_identity = r.execution_identity;
  resolved_action = r.resolved_action;
  approval_expires_at = r.approval_expires_at;
}

abbrev pub is_read : RiskLevel → Bool
is_read read = true
is_read _ = false

abbrev pub is_read_only : SideEffect → Bool
is_read_only read_only = true
is_read_only _ = false

-- `list(argv) == command`
abbrev pub is_command : List String → Command → Bool
is_command argv (line s) = false
is_command argv (vector c) = texts_eq argv c

-- the test on the primary executable: the first of the list
abbrev pub executable_rows : ResolvedExecutable → ExecutionIdentity → List (Bool × String)
executable_rows primary identity =
    (
      not (str_eq identity.executable_path primary.path),
      "resolved executable path does not match execution identity",
    )
    ∷ (
      not (str_eq identity.executable_sha256 primary.sha256),
      "resolved executable digest does not match execution identity",
    )
    ∷ []

unfoldable pub executable_error : List ResolvedExecutable → ExecutionIdentity → String
executable_error [] identity = ""
executable_error (primary ∷ rest) identity = first_error (executable_rows primary identity)

-- the tests of `resolved_action_error`, each with its message
abbrev pub resolved_rows : ResolvedAction → ExecutionRequest → List (Bool × String)
resolved_rows a r =
    (
      not (str_eq a.capability r.action) || not (str_eq a.provider r.executor),
      "resolved action does not match capability or provider",
    )
    ∷ (not (str_eq a.target r.target), "resolved target does not match execution target")
    ∷ (not (is_command a.argv r.command), "resolved action argv does not match execution command")
    ∷ (
      not (str_eq r.execution_identity.tool a.tool),
      "resolved tool identity does not match execution identity",
    )
    ∷ (
      not (str_eq r.execution_identity.tool_version a.tool_version),
      "resolved tool version does not match execution identity",
    )
    ∷ (
      not (is_empty (executable_error a.executables r.execution_identity)),
      executable_error a.executables r.execution_identity,
    )
    ∷ (
      is_read r.risk && any (λ effect. not (is_read_only effect)) a.side_effects,
      "resolved side effects require WRITE risk",
    )
    ∷ []

-- "" where the request is consistent
unfoldable pub resolved_action_error : ExecutionRequest → String
resolved_action_error r = elim r.resolved_action [
  | none ↦ ""
  | some a ↦ first_error (resolved_rows a r)
]
