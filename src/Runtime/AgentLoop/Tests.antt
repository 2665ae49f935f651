-- ===== src/Runtime/AgentLoop/Tests.antt =====
-- Examples: a run that calls one tool, is sent back once, and then reports its task as done.
use decode.Prelude.{
  ℕ, zero, suc, ◌+◌, ◌≤◌, ◌≡◌, refl, String, Bool, true, false, Option, none, some, List, [], ◌∷◌,
  ◌++◌, length, All, ◌⊎◌, inl, inr, if◌then◌else◌,
}
use decode.Values.{Value, Fields, int, pos, text, dict, bool, end, field}
use decode.Planner.Graph.{CompletionCriterion}
use decode.Schema.TaskState.{TaskState, investigating, complete, mark}
use decode.Schema.TaskState.Laws.{IsSound}
use decode.Verification.Verifier.{Review, unavailable, model_verify}
use decode.Runtime.AgentLoop.{ToolUseLoop, Surroundings, Decision, LoopResult, final, run}
use decode.Runtime.AgentLoop.Round.{IsAdmitted}
use decode.Runtime.AgentLoop.Laws.{run-Bounded, run-Admitted, run-IsSound}
use decode.Runtime.AgentLoop.Params.{ToolSchema}

abbrev schema : ToolSchema
schema = record {
  properties = ("path", record { type_ = "string"; choices = []; item_type = "" }) ∷ [];
  closed = true;
  required = "path" ∷ [];
  alternatives = [];
}

abbrev given : Fields
given = field "path" (text "a") end

abbrev params : Value
params = dict given

abbrev loop : ToolUseLoop
loop = record {
  tools = record { name = "read"; input_schema = some schema } ∷ [];
  max_steps = 4;
  max_replans = 2;
  saves = true;
  stop_on_failure = false;
}

abbrev answer : String → Decision
answer tool = record { thought = ""; tool = tool; params = params; message = "done" }

-- a final message, a call, a call of a tool that is not offered, and a final message
abbrev decide : ℕ → Option Decision
decide zero = some (answer "")
decide (suc zero) = some (answer "read")
decide (suc (suc zero)) = some (answer "write")
decide _ = some (answer "")

abbrev observation : Fields
observation = field "success" (bool true) (field "data" (dict (field "code" (int (pos 0)) end)) end)

abbrev condition : CompletionCriterion
condition = record {
  kind = "at_least";
  field = "successful_actions";
  expected = int (pos 1);
  required = true;
}

abbrev str : Value → String
str v = "value"

abbrev reviewer : ℕ → Review
reviewer n = unavailable

abbrev around : Surroundings
around = record {
  decide = decide;
  invoke = λ n tool ps. some observation;
  verifier = some (λ n u last. model_verify str (reviewer n) (condition ∷ []) u last);
  str = str;
}

abbrev task : TaskState
task = record {
  revision = 0;
  hypotheses = [];
  actions = [];
  observations = [];
  findings = [];
  artifacts = [];
  unresolved_questions = [];
  status = investigating;
}

task-IsSound : IsSound task
task-IsSound = record {
  actions_count = tt;
  observations_count = tt;
  linked_all = tt;
  questions_distinct = tt;
}

abbrev done : LoopResult
done = record { final = "done"; thought = ""; stopped = final; failed_criteria = [] }

one_call : (run loop around (some task)).1.calls ≡ ("read", params) ∷ []
unfolding run model_verify mark decode.Prelude.Text.split_char
    decode.Schema.TaskState.record_observation decode.Schema.TaskState.record_action
one_call = refl

one_replan : (run loop around (some task)).1.replans ≡ 1
unfolding run model_verify mark decode.Prelude.Text.split_char
    decode.Schema.TaskState.record_observation decode.Schema.TaskState.record_action
one_replan = refl

run-Bounded_example :
    let s = (run loop around (some task)).1 in
    (length s.steps + s.replans ≤ 4) × (length s.calls ≤ 4) × (s.replans ≤ 2)
run-Bounded_example = run-Bounded loop around (some task)

run-Admitted_example : All (IsAdmitted loop) (run loop around (some task)).1.calls
run-Admitted_example = run-Admitted loop around (some task)

abbrev ended : TaskState
ended = record {
  revision = 6;
  hypotheses = [];
  actions =
      record { step = 1; tool = "read"; params = given; thought = "" }
      ∷ record { step = 2; tool = "write"; params = given; thought = "" }
      ∷ [];
  observations =
      record {
        step = 1;
        tool = "read";
        success = true;
        summary = "";
        data_ = field "code" (int (pos 0)) end;
        evidence_ref = "";
        evidence_hash = "";
      }
      ∷ record {
        step = 2;
        tool = "write";
        success = false;
        summary = "value";
        data_ = end;
        evidence_ref = "";
        evidence_hash = "";
      }
      ∷ [];
  findings = [];
  artifacts = [];
  unresolved_questions = [];
  status = complete;
}

last_task : (run loop around (some task)).1.task ≡ some ended
unfolding run model_verify mark decode.Prelude.Text.split_char
    decode.Schema.TaskState.record_observation decode.Schema.TaskState.record_action
    decode.Prelude.Text.take_chars
last_task = refl

run-IsSound_example : IsSound ended
run-IsSound_example = run-IsSound loop around task ended task-IsSound last_task
