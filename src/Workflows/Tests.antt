-- ===== src/Workflows/Tests.antt =====
-- Examples: a workflow of one agent stage, before and after its work.
use decode.Prelude.{◌+◌, ◌≤◌, ◌≡◌, refl, String, true, false, none, some, [], ◌∷◌, All, arith}
use decode.Prelude.Dict.{Dict, lookup}
use decode.Values.{pos, end}
use decode.Capabilities.Registry.{hybrid}
use decode.Planner.Graph.{PlanNode}
use decode.Planner.Order.{topological_order, Visits}
use decode.Planner.Order
use decode.Schema.TaskState.{TaskStatus}
use decode.Schema.ActiveNode.{ActiveOutcome, ActiveObservation, ActiveNodeResult}
use decode.Workflows.Budget.{
  CoreBudgetState, reserve, IsWithin, Reservations, here, then_, Reservations-IsWithin,
}
use decode.Workflows.Gate.{WorkflowGate, StageResult, check}
use decode.Workflows.Gate.Laws.{IsPassed, check-IsPassed}
use decode.Workflows.Specs.{WorkflowStage, WorkflowSpec, agent, stage_node, to_plan, validate_graph}
use decode.Workflows.Specs.Laws.{to_plan-IsRunnable}
use decode.Workflows.Selection.{
  CoreIntent, ReviewedWorkflow, CoreWorkflowSelection, selected, select, pins_for,
}
use decode.Workflows.Selection.Laws.{IsReviewed, IsOf, select-IsReviewed}
use decode.Workflows.Decisions.{CoreStageDecision, CoreOutcome, delegate, complete}
use decode.Workflows.Planner.{MissionState, Fingerprints, decide}
use decode.Workflows.Planner.Laws.{IsClear}
use decode.Workflows.Planner.Ends.{
  IsCompleted, IsHandedOver, decide-IsCompleted, decide-IsHandedOver,
}

abbrev gate : WorkflowGate
gate = record {
  require_final = true;
  min_successful_actions = 1;
  require_evidence = true;
  expected_file_sha256 = "d";
  expected_file_path = "/f";
  expected_file_size_bytes = some 42;
}

abbrev scan : WorkflowStage
scan = record {
  id = "scan";
  title = "Scan";
  objective = "";
  depends_on = [];
  execution = agent;
  model_role = "worker";
  risk = "read";
  max_steps = 8;
  instructions = [];
  deliverables = [];
  gate = gate;
}

abbrev pub spec : WorkflowSpec
spec = record {
  name = "audit";
  description = "";
  version = "1";
  mode = hybrid;
  target_required = false;
  stages = scan ∷ [];
  guidance = "";
  source = "";
}

spec_admitted : validate_graph spec ≡ true
unfolding validate_graph
spec_admitted = refl

to_plan-IsRunnable_example :
    All
      (λ (s : WorkflowStage). lookup s.id (to_plan spec "goal").nodes ≡ some (stage_node spec s))
      (scan ∷ [])
    × ((v : Visits) × (topological_order (to_plan spec "goal") ≡ Order.done v))
to_plan-IsRunnable_example = to_plan-IsRunnable spec "goal" spec_admitted

abbrev unspent : CoreBudgetState
unspent = record {
  limits = record { max_stage_dispatches = 2; max_reserved_steps = 10 };
  stage_dispatches = 0;
  reserved_steps = 0;
}

abbrev spent : CoreBudgetState
spent = record {
  limits = record { max_stage_dispatches = 2; max_reserved_steps = 10 };
  stage_dispatches = 1;
  reserved_steps = 8;
}

unspent-IsWithin : IsWithin unspent
unspent-IsWithin = ground arith

reserved : reserve unspent (pos 8) ≡ some spent
unfolding reserve
reserved = refl

overdrawn : reserve spent (pos 8) ≡ none
unfolding reserve
overdrawn = refl

Reservations-IsWithin_example :
    IsWithin spent
    × (spent.limits ≡ unspent.limits)
    × (spent.stage_dispatches ≡ unspent.stage_dispatches + (0 + 1))
    × (0 + 1 ≤ unspent.limits.max_stage_dispatches)
Reservations-IsWithin_example =
    Reservations-IsWithin unspent spent (0 + 1) unspent-IsWithin (then_ (pos 8) here reserved)

abbrev observation : ActiveObservation
observation = record {
  request_id = "r";
  capability = "file_read";
  provider = "host";
  status = "success";
  success = true;
  error_category = "";
  evidence_id = "e";
  evidence_hash = "h";
  signals = ("file_path_sha256", "/f") ∷ ("file_sha256", "d") ∷ ("file_size_bytes", "42") ∷ [];
}

abbrev result : StageResult
result = record {
  success = true;
  outcome = ActiveOutcome.completed;
  final = "done";
  summary = "";
  successful_actions = 1;
  evidence = [];
  data_ = end;
  error = "";
  failed_criteria = [];
  active = none;
}

abbrev same_path : String → String
same_path path = path

result_passes : (check same_path gate result (some (observation ∷ []))).0 ≡ true
unfolding check
result_passes = refl

check-IsPassed_example : IsPassed same_path gate result (some (observation ∷ []))
check-IsPassed_example =
    check-IsPassed same_path gate result (some (observation ∷ [])) result_passes

abbrev print : WorkflowSpec → String
print s = s.name

abbrev intent : CoreIntent
intent = record { objective = "look"; mode = hybrid; workflow_name = "" }

abbrev print_intent : CoreIntent → String
print_intent i = i.objective

abbrev pin : ReviewedWorkflow
pin = record { name = "audit"; version = "1"; fingerprint = "audit" }

abbrev selection : CoreWorkflowSelection
selection = record {
  intent_fingerprint = "look";
  outcome = selected;
  public_reason = "only compatible reviewed workflow selected";
  workflow = some pin;
  criteria = ("scan", gate) ∷ [];
}

pin_selected : select print print_intent (("audit", spec) ∷ []) intent (pin ∷ []) ≡ some selection
unfolding select
pin_selected = refl

select-IsReviewed_example :
    (s : WorkflowSpec) × IsReviewed print
      (("audit", spec) ∷ [])
      intent
      (pins_for intent (pin ∷ []))
      s
    × IsOf print print_intent s selection
select-IsReviewed_example =
    select-IsReviewed print print_intent (("audit", spec) ∷ []) intent (pin ∷ []) selection
      pin_selected refl

abbrev pub prints : Fingerprints
prints = record {
  of_state = λ s. "state";
  of_workflow = print;
  of_node = λ n. "node";
  of_active = λ a. "active";
}

abbrev node : String → PlanNode
node status = record (stage_node spec scan) { status = status }

abbrev verified_run : ActiveNodeResult
verified_run = record {
  session_id = "s";
  node_id = "scan";
  workflow_fingerprint = "audit";
  node_fingerprint = "node";
  outcome = ActiveOutcome.completed;
  gate_passed = true;
  attempts = 1;
  observations = observation ∷ [];
  failed_criteria = [];
  escalation = none;
}

abbrev pub mission : String → Dict ActiveNodeResult → MissionState
mission status runs = record {
  session_id = "s";
  revision = 3;
  status = TaskStatus.investigating;
  plan = record { goal = "goal"; nodes = ("scan", node status) ∷ []; reasoning = "" };
  active_nodes = runs;
  unresolved_questions = [];
  has_conditions = false;
  selection = some selection;
  strategy = none;
  stop = none;
  resolution = none;
  pending = "";
  budget = some unspent;
}

abbrev pub handed_over : CoreStageDecision
handed_over = record {
  session_id = "s";
  state_version = 3;
  state_fingerprint = "state";
  workflow_fingerprint = "audit";
  outcome = delegate;
  public_reason = "one ready stage delegated within its existing bounds";
  stage_id = "scan";
  node_fingerprint = "node";
  max_steps = 8;
  review_request = none;
}

abbrev completion : CoreStageDecision
completion = record {
  session_id = "s";
  state_version = 3;
  state_fingerprint = "state";
  workflow_fingerprint = "audit";
  outcome = complete;
  public_reason = "all workflow stages have bound completion";
  stage_id = "";
  node_fingerprint = "";
  max_steps = 0;
  review_request = none;
}

pub pending_handed : decide prints (mission "pending" []) spec ≡ some handed_over
unfolding decide topological_order decode.Workflows.Budget.stop_reason
    decode.Workflows.Decisions.bound_decision
pending_handed = refl

verified_completed :
    decide prints (mission "success" (("scan", verified_run) ∷ [])) spec ≡ some completion
unfolding decide topological_order decode.Workflows.Decisions.bound_decision
verified_completed = refl

decide-IsHandedOver_example :
    (v : Visits) × (topological_order (mission "pending" []).plan ≡ Order.done v)
    × IsClear prints (mission "pending" []) spec v.order
    × IsHandedOver prints (mission "pending" []) spec v.order handed_over
decide-IsHandedOver_example =
    decide-IsHandedOver prints (mission "pending" []) spec handed_over pending_handed refl

decide-IsCompleted_example :
    (v : Visits) × (topological_order (mission "success" (("scan", verified_run) ∷ [])).plan
      ≡ Order.done v)
    × IsCompleted prints (mission "success" (("scan", verified_run) ∷ [])) spec v.order
decide-IsCompleted_example =
    decide-IsCompleted prints (mission "success" (("scan", verified_run) ∷ [])) spec completion
      verified_completed refl
