-- ===== src/Runtime/AgentLoop.antt =====
-- runtime/agent_loop.py: `ToolUseLoop.run`. What the provider answers, what the operations return and what
-- the verifier says is given by functions of the number of the turn; the events of the callback and the
-- texts of the prompt are left out.
pub mod Params
pub mod Round
pub mod Laws
mod Tests
use decode.Prelude.{
  ℕ, zero, suc, ◌+◌, ◌≡◌, refl, String, Bool, true, false, not, ◌&&◌, Option, none, some, List, [],
  ◌∷◌, ◌++◌, map, mem, str_eq, str_append, is_empty, is_nonempty, ltb, if◌then◌else◌,
}
use decode.Prelude.Dict.{Dict, lookup, insert}
use decode.Values.{ℤ, pos, negsuc, Value, Fields, bool, text, dict, end, field}
use decode.Values.Equality.{get_field}
use decode.Values.Truth.{is_true, got, or_empty}
use decode.Schema.TaskState.{
  TaskState, TaskStatus, investigating, blocked, complete, Report, record_action,
  record_observation, mark,
}
use decode.Verification.Verifier.{VerificationResult}
use decode.Runtime.AgentLoop.Params.{ToolSchema, validate_tool_params, join}

pub record Tool : Type 0 where
  pub name : String
  pub input_schema : Option ToolSchema

-- `parse_llm_response(raw)`, as the loop reads it: a tool is a text, and empty where none is called.
pub record Decision : Type 0 where
  pub thought : String
  pub tool : String
  pub params : Value
  pub message : String

pub record ToolUseLoop : Type 0 where
  pub tools : List Tool
  pub max_steps : ℕ
  pub max_replans : ℕ
  pub saves : Bool
  pub stop_on_failure : Bool

-- `self._verifier`
abbrev pub CompletionVerifier : Type 0
CompletionVerifier = ℕ → TaskState → Option Fields → Option VerificationResult

-- What the loop calls. Nothing is returned where a call raises.
pub record Surroundings : Type 0 where
  pub decide : ℕ → Option Decision
  pub invoke : ℕ → String → Value → Option Fields
  pub verifier : Option CompletionVerifier
  pub str : Value → String

pub record StepRecord : Type 0 where
  pub tool : String
  pub params : Value
  pub thought : String
  pub observation : Fields

-- `replans` is kept on the object; `calls` are the invocations, and `saved` the checkpoints, so far.
pub record LoopState : Type 0 where
  pub task : Option TaskState
  pub last_observation : Option Fields
  pub steps : List StepRecord
  pub replans : ℕ
  pub calls : List (String × Value)
  pub saved : List TaskState

pub data Stopped : Type 0 where
  final verification_failed action_failed budget : Stopped

pub record LoopResult : Type 0 where
  pub final : String
  pub thought : String
  pub stopped : Stopped
  pub failed_criteria : List String

-- One round of the loop: the next one follows, the loop returns, or it raises.
pub data Turn : Type 0 where
  go : LoopState → Turn
  returns : LoopResult → LoopState → Turn
  raises : LoopState → Turn

-- `max(1, max_steps)` and `max(0, max_replans)`
abbrev pub at_least_one : ℤ → ℕ
at_least_one (pos zero) = 1
at_least_one (pos (suc n)) = suc n
at_least_one (negsuc n) = 1

abbrev pub at_least_zero : ℤ → ℕ
at_least_zero (pos n) = n
at_least_zero (negsuc n) = 0

abbrev pub new_loop : List Tool → ℤ → ℤ → Bool → Bool → ToolUseLoop
new_loop tools max_steps max_replans saves stop_on_failure = record {
  tools = tools;
  max_steps = at_least_one max_steps;
  max_replans = at_least_zero max_replans;
  saves = saves;
  stop_on_failure = stop_on_failure;
}

abbrev pub tool_names : List Tool → List String
tool_names [] = []
tool_names (t ∷ ts) = t.name ∷ tool_names ts

-- Of two tools with one name the later gives the schema.
abbrev pub schema_of : List Tool → String → Option ToolSchema → Option ToolSchema
schema_of [] name found = found
schema_of (t ∷ ts) name found =
    schema_of ts name (if str_eq t.name name then t.input_schema else found)

-- `_save_checkpoint` with the task state
abbrev pub save_of : ToolUseLoop → LoopState → Option TaskState → LoopState
save_of loop s none = s
save_of loop s (some t) = if loop.saves then record s { saved = s.saved ++ t ∷ [] } else s

unfoldable pub save_checkpoint : ToolUseLoop → LoopState → LoopState
save_checkpoint loop s = save_of loop s s.task

abbrev pub update_of : (TaskState → TaskState) → LoopState → Option TaskState → LoopState
update_of f s none = s
update_of f s (some t) = record s { task = some (f t) }

-- The task state, where there is one, after a call of its method.
unfoldable pub update : (TaskState → TaskState) → LoopState → LoopState
update f s = update_of f s s.task

abbrev failed_of : VerificationResult → List String
failed_of verdict =
    if is_nonempty verdict.failed_criteria
    then verdict.failed_criteria
    else if is_nonempty verdict.reasons
    then verdict.reasons
    else "completion verification failed" ∷ []

-- The verdict is not valid: the loop goes on, or returns where no replan is left.
unfoldable pub reject : ToolUseLoop → Decision → VerificationResult → LoopState → Turn
unfolding save_checkpoint update
reject loop decision verdict s =
    if ltb s.replans loop.max_replans
    then go
        (save_checkpoint loop (update (mark investigating) (record s { replans = s.replans + 1 })))
    else returns
        (record {
          final = str_append "completion not verified: " (join "; " (failed_of verdict));
          thought = decision.thought;
          stopped = verification_failed;
          failed_criteria = failed_of verdict;
        })
        (save_checkpoint loop (update (mark blocked) s))

unfoldable pub accept : ToolUseLoop → Decision → LoopState → Turn
unfolding save_checkpoint update
accept loop decision s =
    returns
      (record {
        final = decision.message;
        thought = decision.thought;
        stopped = final;
        failed_criteria = [];
      })
      (save_checkpoint loop (update (mark complete) s))

unfoldable pub after_verdict : ToolUseLoop → Decision → LoopState → Option VerificationResult → Turn
unfolding reject accept
after_verdict loop decision s none = raises s
after_verdict loop decision s (some verdict) =
    if not verdict.valid then reject loop decision verdict s else accept loop decision s

unfoldable pub check_completion :
    ToolUseLoop → ℕ → Decision → LoopState → Option TaskState → Option CompletionVerifier → Turn
unfolding after_verdict accept
check_completion loop n decision s none verifier = accept loop decision s
check_completion loop n decision s (some t) none = accept loop decision s
check_completion loop n decision s (some t) (some verify) =
    after_verdict loop decision s (verify n t s.last_observation)

-- a round in which no tool is called
unfoldable pub finish : ToolUseLoop → Surroundings → ℕ → Decision → LoopState → Turn
unfolding check_completion
finish loop around n decision s = check_completion loop n decision s s.task around.verifier

abbrev report_with : (Value → String) → Fields → Fields → Fields → Report
report_with str fs evidence data_ = record {
  success = is_true (got "success" fs);
  summary = elim (get_field "summary" fs) [ none ↦ "" | some v ↦ str v ];
  data_ = data_;
  evidence_id = elim (get_field "id" evidence) [ none ↦ "" | some v ↦ str v ];
  evidence_sha256 = elim (get_field "sha256" evidence) [ none ↦ "" | some v ↦ str v ];
}

-- What `record_observation` reads; none: the evidence or the data is no mapping, and the call raises.
abbrev pub report_of : (Value → String) → Fields → Option Report
report_of str fs = elim (or_empty (got "evidence" fs)) [
  | dict evidence ↦ elim (or_empty (got "data" fs)) [
    | dict data_ ↦ some (report_with str fs evidence data_)
    | _ ↦ none
  ]
  | _ ↦ none
]

abbrev recorded_as : String → LoopState → Option Report → Option LoopState
recorded_as tool s none = none
recorded_as tool s (some report) = some (update (record_observation tool report) s)

-- The call of `record_observation`, which is made only with a task state; none: it raises.
unfoldable pub recorded :
    (Value → String) → String → Fields → LoopState → Option TaskState → Option LoopState
unfolding update
recorded str tool observation s none = some s
recorded str tool observation s (some t) = recorded_as tool s (report_of str observation)

abbrev failure : String → Fields
failure summary = field "success" (bool false) (field "summary" (text summary) end)

-- `params if isinstance(params, dict) else {}`
abbrev mapping_of : Value → Fields
mapping_of (dict fs) = fs
mapping_of v = end

-- `observation.get("success") is True`
abbrev succeeded : Option Value → Bool
succeeded (some (bool b)) = b
succeeded v = false

unfoldable pub validation_error : ToolUseLoop → String → Value → String
unfolding validate_tool_params
validation_error loop tool params =
    if mem tool (tool_names loop.tools)
    then validate_tool_params (schema_of loop.tools tool none) params
    else ""

-- The observation of a call: the operation is invoked only for a tool that is offered, with parameters
-- that its schema admits.
unfoldable pub observe :
    ToolUseLoop → Surroundings → ℕ → String → Value → LoopState → Option Fields × LoopState
unfolding validation_error
observe loop around n tool params s =
    if not (mem tool (tool_names loop.tools))
    then (some (failure (str_append "unknown tool '" (str_append tool "'"))), s)
    else if not (is_empty (validation_error loop tool params))
    then (
      some (failure (str_append "invalid tool parameters: " (validation_error loop tool params))),
      s,
    )
    else (around.invoke n tool params, record s { calls = s.calls ++ (tool, params) ∷ [] })

abbrev pub step_of : Decision → Value → Fields → StepRecord
step_of decision params observation = record {
  tool = decision.tool;
  params = params;
  thought = decision.thought;
  observation = observation;
}

abbrev stopped_early : LoopResult
stopped_early = record {
  final = "governed stage action did not complete; review required";
  thought = "";
  stopped = action_failed;
  failed_criteria = [];
}

-- Behind the recording of the observation the loop goes on or returns.
unfoldable pub settle_report :
    ToolUseLoop → Decision → Value → Fields → LoopState → Option LoopState → Turn
unfolding save_checkpoint update
settle_report loop decision params observation s none = raises s
settle_report loop decision params observation s (some s0) =
    let s1 = save_checkpoint loop s0 in
    let s2 : LoopState = record s1 {
      steps = s1.steps ++ step_of decision params observation ∷ [];
    } in
    if loop.stop_on_failure && not (succeeded (get_field "success" observation))
    then returns stopped_early (save_checkpoint loop (update (mark blocked) s2))
    else go s2

unfoldable pub settle :
    ToolUseLoop → Surroundings → Decision → Value → LoopState → Option Fields → Turn
unfolding settle_report recorded
settle loop around decision params s none = raises s
settle loop around decision params s (some observation) =
    let seen : LoopState = record s { last_observation = some observation } in
    settle_report loop decision params observation s
      (recorded around.str decision.tool observation seen seen.task)

-- a round in which a tool is called
unfoldable pub call_tool : ToolUseLoop → Surroundings → ℕ → Decision → LoopState → Turn
unfolding save_checkpoint update observe settle
call_tool loop around n decision s =
    let params = or_empty decision.params in
    let s1 =
      save_checkpoint loop
        (update (record_action decision.tool (mapping_of params) decision.thought) s) in
    let (observed, s2) = observe loop around n decision.tool params s1 in
    settle loop around decision params s2 observed

unfoldable pub turn_of : ToolUseLoop → Surroundings → ℕ → LoopState → Option Decision → Turn
unfolding finish call_tool
turn_of loop around n s none = raises s
turn_of loop around n s (some decision) =
    if is_empty decision.tool
    then finish loop around n decision s
    else call_tool loop around n decision s

unfoldable pub turn : ToolUseLoop → Surroundings → ℕ → LoopState → Turn
unfolding turn_of
turn loop around n s = turn_of loop around n s (around.decide n)

-- The end of the loop: a result, or none where a call raised.
abbrev pub Ended : Type 0
Ended = Option LoopResult × LoopState

unfoldable pub exhausted : ToolUseLoop → LoopState → LoopState
unfolding save_checkpoint update
exhausted loop s =
    if loop.stop_on_failure then save_checkpoint loop (update (mark blocked) s) else s

-- the rounds that are left, from the round `n` on
unfoldable pub rounds : ToolUseLoop → Surroundings → ℕ → ℕ → LoopState → Ended
unfolding turn exhausted
rounds loop around zero n s = (
  some (record {
    final = "step budget exhausted";
    thought = "";
    stopped = budget;
    failed_criteria = [];
  }),
  exhausted loop s,
)
rounds loop around (suc left) n s = elim (turn loop around n s) [
  | go s' ↦ rounds loop around left (n + 1) s'
  | returns result s' ↦ (some result, s')
  | raises s' ↦ (none, s')
]

abbrev pub start : Option TaskState → ℕ → LoopState
start task replans = record {
  task = task;
  last_observation = none;
  steps = [];
  replans = replans;
  calls = [];
  saved = [];
}

unfoldable pub run : ToolUseLoop → Surroundings → Option TaskState → Ended
unfolding rounds save_checkpoint
run loop around task = rounds loop around loop.max_steps 0 (save_checkpoint loop (start task 0))
