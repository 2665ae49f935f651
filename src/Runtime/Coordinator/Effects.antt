-- ===== src/Runtime/Coordinator/Effects.antt =====
-- The state that `ExecutionCoordinator.execute` works on, and steps that may end the call early.
use decode.Prelude.{ℕ, ◌+◌, String, Bool, true, false, Option, List}
use decode.Prelude.Text.{take_chars}
use decode.Values.{Value}
use decode.Governance.{AuditEvent, AuditLog}
use decode.Governance.Gate.{GovernanceGate, GateEnv}
use decode.HostControl.Hooks.{PreHook}
use decode.Runtime.Request.{
  ResolvedAction, Command, ExecutionStatus, ErrorCategory, ExecutionIdentity, Material,
  ExecutionRequest,
}
use decode.Governance.{RiskLevel}

-- What the operation's value answers to `getattr`: `success`, `timed_out`, `error`, `stderr`.
pub record Produced : Type 0 where
  pub succeeded : Bool
  pub ran_out : Bool
  pub error : String
  pub stderr : String

-- How an awaited preparation or operation ends; `returned none` is `None`, and `failed` has the type
-- and the message of the exception, of which `_safe_error` makes a safe text.
pub data Reply : Type 0 where
  returned : Option Produced → Reply
  interrupted : Reply
  overdue : Reply
  failed : String → Reply

-- Less the duration. The reference of the captured evidence is its id.
pub record CoordinatedResult : Type 0 where
  pub request_id : String
  pub action : String
  pub status : ExecutionStatus
  pub success : Bool
  pub value : Option Produced
  pub error_category : Option ErrorCategory
  pub error : String
  pub approval_digest : String
  pub evidence : Option String

pub record ApprovalRequest : Type 0 where
  pub request_id : String
  pub action : String
  pub target : String
  pub risk : RiskLevel
  pub params : Value
  pub command : String
  pub executor : String
  pub required_privileges : List String
  pub credential_refs : List String
  pub execution_identity : ExecutionIdentity
  pub resolved_action : Option Value
  pub expires_at : ℕ
  pub digest : String

pub record ApprovalGrant : Type 0 where
  pub digest : String
  pub approved_at : ℕ
  pub expires_at : ℕ

-- What the approval callback gives back: it raises, answers `True` or `False`, returns a grant, or
-- returns something else.
pub data Answer : Type 0 where
  raised accepted rejected other : Answer
  grant : ApprovalGrant → Answer

-- The objects that callbacks, preparations and operations share with the coordinator: the request, the
-- gate, and the registered `_pre_execution_check`, by identity.
pub record Shared : Type 0 where
  pub request : ExecutionRequest
  pub gate : GovernanceGate
  pub check : Option ℕ

-- One run of the operation: the request at that moment, the audit trail as it then stood, and how often
-- the clock had been read.
pub record LaunchEvent : Type 0 where
  pub request : ExecutionRequest
  pub trail : List AuditEvent
  pub reads : ℕ

pub record State : Type 0 where
  pub shared : Shared
  pub audit : AuditLog
  pub logs : List CoordinatedResult
  pub log_calls : ℕ
  pub feedback : List CoordinatedResult
  pub feedback_calls : ℕ
  pub evidence : List String
  pub evidence_calls : ℕ
  pub clock_reads : ℕ
  pub preparations : ℕ
  pub launches : List LaunchEvent

abbrev pub Activity : Type 0
Activity = Shared → Reply × Shared

-- What surrounds the coordinator. The clock, the log, the feedback store and the evidence store answer
-- by the number of the call. A check reads what it shares and changes nothing; `none` is a raise.
-- The last three are the redaction of values and actions, and the display of a command.
pub record Env : Type 0 where
  pub gate_env : GateEnv
  pub hash : Material → String
  pub now : ℕ → ℕ
  pub log_writable : ℕ → Bool
  pub feedback_writable : ℕ → Bool
  pub evidence_writable : ℕ → Bool
  pub hooks : Option (List PreHook)
  pub run_check : ℕ → Shared → Option String
  pub safe_value : Value → Value
  pub safe_action : ResolvedAction → Value
  pub command_display : Command → String

-- `_safe_text`: redacted, and at most 500 characters
unfoldable pub safe_text : Env → String → String
safe_text env s = take_chars 500 (env.gate_env.redact s)

-- The arguments of one call: the fresh id, the selected approval callback, and the two coroutines.
pub record Call : Type 0 where
  pub request_id : String
  pub approval : Option (ApprovalRequest → Shared → Answer × Shared)
  pub preparation : Option Activity
  pub operation : Activity

-- A step goes on, ends the call with a result, or ends it with `CoordinatedCancellation`.
pub data Exit (A : Type 0) : Type 0 where
  go : A → Exit A
  stop : CoordinatedResult → Exit A
  cancel : CoordinatedResult → Exit A

abbrev pub Step : Type 0 → Type 0
Step A = State → Exit A × State

abbrev pub and_then : {A B : Type 0} → Exit A → (A → Step B) → Step B
and_then (go a) f = f a
and_then (stop r) f = λ s. (stop r, s)
and_then (cancel r) f = λ s. (cancel r, s)

infixl 5 ◌>>=◌ ◌>>◌
unfoldable pub ◌>>=◌ : {A B : Type 0} → Step A → (A → Step B) → Step B
m >>= f = λ s. let (r, s') = m s in and_then r f s'

unfoldable pub ◌>>◌ : {A B : Type 0} → Step A → Step B → Step B
unfolding ◌>>=◌
m >> n = m >>= λ _. n

unfoldable pub pure : {A : Type 0} → A → Step A
pure a s = (go a, s)

unfoldable pub gets : {A : Type 0} → (State → A) → Step A
gets f s = (go (f s), s)

unfoldable pub when : Bool → Step (Unit {0}) → Step (Unit {0})
unfolding pure
when true m = m
when false m = pure tt

-- `datetime.now(UTC)`
unfoldable pub read_clock : Env → Step ℕ
read_clock env s = (go (env.now s.clock_reads), record s { clock_reads = s.clock_reads + 1 })
