-- ===== src/Workflows/Specs.antt =====
-- workflows/models.py: `WorkflowStage` and `WorkflowSpec`, and the plan of a workflow. The patterns of names and
-- the bounds of fields are left out.
pub mod Laws
use decode.Prelude.{
  ℕ, ◌≡◌, refl, String, Bool, true, false, not, ◌&&◌, ◌||◌, Option, none, some, List, [], ◌∷◌, map,
  all, mem, str_eq, str_append, if◌then◌else◌,
}
use decode.Prelude.Dict.{Dict, lookup}
use decode.Values.{
  Value, Items, Fields, null, bool, int, pos, text, list, dict, nil, end, item, field,
}
use decode.Capabilities.Registry.{TaskMode}
use decode.Planner.Graph.{PlanNode, PlanGraph, manual_review, add_node}
use decode.Planner.Order.{Outcome, done, failed, validate_edges}
use decode.Workflows.Gate.{WorkflowGate}

pub data StageExecution : Type 0 where
  agent human : StageExecution

abbrev pub is_human : StageExecution → Bool
is_human agent = false
is_human human = true

pub record WorkflowStage : Type 0 where
  pub id : String
  pub title : String
  pub objective : String
  pub depends_on : List String
  pub execution : StageExecution
  pub model_role : String
  pub risk : String
  pub max_steps : ℕ
  pub instructions : List String
  pub deliverables : List String
  pub gate : WorkflowGate

pub record WorkflowSpec : Type 0 where
  pub name : String
  pub description : String
  pub version : String
  pub mode : TaskMode
  pub target_required : Bool
  pub stages : List WorkflowStage
  pub guidance : String
  pub source : String

abbrev pub stage_ids : List WorkflowStage → List String
stage_ids [] = []
stage_ids (s ∷ ss) = s.id ∷ stage_ids ss

-- `len(ids) == len(set(ids))`
abbrev pub are_unique : List String → Bool
are_unique [] = true
are_unique (i ∷ ids) = not (mem i ids) && are_unique ids

abbrev texts : List String → Items
texts [] = nil
texts (t ∷ ts) = item (text t) (texts ts)

abbrev execution_text : StageExecution → String
execution_text agent = "agent"
execution_text human = "human"

-- `gate.model_dump(mode="json")`
abbrev dumped : WorkflowGate → Value
dumped gate = dict (
    field "require_final" (bool gate.require_final) (
      field "min_successful_actions" (int (pos gate.min_successful_actions)) (
        field "require_evidence" (bool gate.require_evidence) (
          field "expected_file_sha256" (text gate.expected_file_sha256) (
            field "expected_file_path" (text gate.expected_file_path) (
              field "expected_file_size_bytes"
                (elim gate.expected_file_size_bytes [ none ↦ null | some n ↦ int (pos n) ])
                end))))))

abbrev pub stage_params : WorkflowSpec → WorkflowStage → Value
stage_params spec stage = dict (
    field "workflow" (text spec.name) (
      field "workflow_version" (text spec.version) (
        field "objective" (text stage.objective) (
          field "execution" (text (execution_text stage.execution)) (
            field "model_role" (text stage.model_role) (
              field "risk" (text stage.risk) (
                field "max_steps" (int (pos stage.max_steps)) (
                  field "instructions" (list (texts stage.instructions)) (
                    field "deliverables" (list (texts stage.deliverables))
                      (field "gate" (dumped stage.gate) end))))))))))

abbrev pub stage_node : WorkflowSpec → WorkflowStage → PlanNode
stage_node spec stage = record {
  id = stage.id;
  capability = "workflow_stage";
  description = stage.title;
  params = stage_params spec stage;
  depends_on = stage.depends_on;
  completion = [];
  retry_category = manual_review;
  max_attempts = 1;
  idempotency_key =
      str_append spec.name (str_append "-" (str_append spec.version (str_append "-" stage.id)));
  status = "pending";
  result_summary = "";
}

-- the loop of `to_plan`
unfoldable pub add_stages : WorkflowSpec → List WorkflowStage → PlanGraph → PlanGraph
unfolding add_node
add_stages spec [] graph = graph
add_stages spec (s ∷ ss) graph = add_stages spec ss (add_node (stage_node spec s) graph)

unfoldable pub to_plan : WorkflowSpec → String → PlanGraph
unfolding add_stages
to_plan spec goal =
    let graph : PlanGraph = record {
      goal = goal;
      nodes = [];
      reasoning = str_append "workflow:" (str_append spec.name (str_append "@" spec.version));
    } in
    add_stages spec spec.stages graph

abbrev pub is_sorted : Outcome → Bool
is_sorted (done v) = true
is_sorted (failed e) = false

-- `validate_graph`: the specification is admitted
unfoldable pub validate_graph : WorkflowSpec → Bool
unfolding to_plan validate_edges
validate_graph spec =
    let ids = stage_ids spec.stages in
    are_unique ids
    && all (λ (s : WorkflowStage). all (λ d. mem d ids) s.depends_on) spec.stages
    && is_sorted (validate_edges (to_plan spec "validation"))

-- `spec.stage(id)`; none: `KeyError`
abbrev pub find_stage : String → List WorkflowStage → Option WorkflowStage
find_stage id [] = none
find_stage id (s ∷ ss) = if str_eq s.id id then some s else find_stage id ss

unfoldable pub stage : WorkflowSpec → String → Option WorkflowStage
stage spec id = find_stage id spec.stages
