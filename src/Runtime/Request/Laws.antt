-- ===== src/Runtime/Request/Laws.antt =====
-- What an empty `resolved_action_error` of runtime/coordinator.py means.
use decode.Prelude.{
  ◌≡◌, ◌≢◌, refl, String, Bool, true, false, not, ◌&&◌, ◌⊎◌, inl, inr, some, List, [], ◌∷◌, any,
  All, is_empty, str_eq, arith, eq_iff,
}
use decode.Prelude.Text.{texts_eq→eq, first_error, first_error-empty}
use decode.Governance.{RiskLevel, read, write, destructive}
use decode.Runtime.Request.{
  ExecutionIdentity, SideEffect, read_only, ResolvedExecutable, ResolvedAction, Command, line,
  vector, ExecutionRequest, is_read, is_read_only, is_command, executable_rows, executable_error,
  resolved_rows, resolved_action_error,
}

abbrev pub NamesExecutable : List ResolvedExecutable → ExecutionIdentity → Type 0
NamesExecutable [] identity = Unit
NamesExecutable (primary ∷ rest) identity =
    (identity.executable_path ≡ primary.path) × (identity.executable_sha256 ≡ primary.sha256)

-- The request carries what the resolved action says: of the executables, where there are any, the first.
pub record IsConsistent (a : ResolvedAction) (r : ExecutionRequest) : Type 0 where
  pub same_capability : a.capability ≡ r.action
  pub same_provider : a.provider ≡ r.executor
  pub same_target : a.target ≡ r.target
  pub same_command : r.command ≡ vector a.argv
  pub same_tool : r.execution_identity.tool ≡ a.tool
  pub same_version : r.execution_identity.tool_version ≡ a.tool_version
  pub same_executable : NamesExecutable a.executables r.execution_identity
  pub read_is_read_only : (r.risk ≢ read) ⊎ All (λ e. e ≡ read_only) a.side_effects

All-read_only :
    (es : List SideEffect)
    → any (λ e. not (is_read_only e)) es ≡ false
    → All (λ e. e ≡ read_only) es
All-read_only [] h = tt
All-read_only (read_only ∷ es) h = (refl, All-read_only es h)
All-read_only (e ∷ es) h = cc

read_only_or :
    (risk : RiskLevel) (es : List SideEffect)
    → (is_read risk && any (λ effect. not (is_read_only effect)) es) ≡ false
    → (risk ≢ read) ⊎ All (λ e. e ≡ read_only) es
read_only_or read es h = inr (All-read_only es h)
read_only_or write es h = inl (λ e. cc)
read_only_or destructive es h = inl (λ e. cc)

is_command→eq : (argv : List String) (c : Command) → is_command argv c ≡ true → c ≡ vector argv
is_command→eq argv (line s) h = cc
is_command→eq argv (vector c) h = cc (texts_eq→eq argv c h)

not-eq-false : (s t : String) → not (str_eq s t) ≡ false → s ≡ t
not-eq-false s t h = ground (arith, eq_iff s t)

executable_error-empty :
    (es : List ResolvedExecutable) (i : ExecutionIdentity)
    → is_empty (executable_error es i) ≡ true
    → NamesExecutable es i
unfolding executable_error
executable_error-empty [] i h = tt
executable_error-empty (e ∷ es) i h =
    let rows = first_error-empty (executable_rows e i) ((λ _. refl), ((λ _. refl), tt)) h in
    (not-eq-false _ _ rows.0, not-eq-false _ _ rows.1.0)

message_of_executable : (m : String) → not (is_empty m) ≡ true → is_empty m ≡ false
message_of_executable m h = ground arith

resolved_rows-IsConsistent :
    (a : ResolvedAction) (r : ExecutionRequest)
    → is_empty (first_error (resolved_rows a r)) ≡ true
    → IsConsistent a r
resolved_rows-IsConsistent a r h =
    let executable = message_of_executable (executable_error a.executables r.execution_identity) in
    let literal = λ (b : Bool) (e : b ≡ true). refl {a = false} in
    let t =
      first_error-empty (resolved_rows a r)
        (
          literal _,
          (literal _, (literal _, (literal _, (literal _, (executable, (literal _, tt)))))),
        )
        h in
    record {
      same_capability = ground (arith, eq_iff a.capability r.action);
      same_provider = ground (arith, eq_iff a.provider r.executor);
      same_target = not-eq-false _ _ t.1.0;
      same_command = is_command→eq a.argv r.command (ground arith);
      same_tool = not-eq-false _ _ t.1.1.1.0;
      same_version = not-eq-false _ _ t.1.1.1.1.0;
      same_executable = executable_error-empty a.executables r.execution_identity (ground arith);
      read_is_read_only = read_only_or r.risk a.side_effects (ground arith);
    }

-- What the check of a request with a resolved action tells of the two.
pub resolved_action_error-IsConsistent :
    (r : ExecutionRequest) (a : ResolvedAction)
    → r.resolved_action ≡ some a
    → is_empty (resolved_action_error r) ≡ true
    → IsConsistent a r
unfolding resolved_action_error
resolved_action_error-IsConsistent r a e h = resolved_rows-IsConsistent a r (rw e at h)
