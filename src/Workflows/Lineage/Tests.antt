-- ===== src/Workflows/Lineage/Tests.antt =====
-- Examples: a mission that replaces another.
use decode.Prelude.{
  ◌≤◌, ◌≡◌, refl, String, false, Option, none, some, List, [], ◌∷◌, str_eq, if◌then◌else◌,
}
use decode.Values.{Value, null, text}
use decode.Capabilities.Registry.{hybrid}
use decode.Workflows.Budget.{CoreBudgetState}
use decode.Workflows.Decisions.{CoreStageDecision, CoreOutcome, ReviewCategory, review_reason}
use decode.Values.Equality.{equal}
use decode.Workflows.Equality.{decision_eq, scope_eq, limits_eq}
use decode.Workflows.Selection.{CoreWorkflowSelection, SelectionOutcome}
use decode.Workflows.Lineage.{absent, held, MissionRecord, validate_core_lineage}
use decode.Workflows.Lineage.Laws.{Replacements, AreFresh, Keeps, validate_core_lineage-IsRooted}

abbrev stop_decision : CoreStageDecision
stop_decision = record {
  session_id = "a";
  state_version = 3;
  state_fingerprint = "state";
  workflow_fingerprint = "audit";
  outcome = CoreOutcome.needs_review;
  public_reason = "task has unresolved questions or no ready work";
  stage_id = "";
  node_fingerprint = "";
  max_steps = 0;
  review_request = some record {
    category = ReviewCategory.review;
    public_reason = review_reason ReviewCategory.review;
    stage_id = "";
    node_fingerprint = "";
    active_fingerprint = "";
    active_outcome = none;
    escalation_kind = none;
  };
}

abbrev replacement : CoreWorkflowSelection
replacement = record {
  intent_fingerprint = "intent";
  outcome = SelectionOutcome.selected;
  public_reason = "explicit reviewed workflow selected";
  workflow = none;
  criteria = [];
}

abbrev spent_budget : CoreBudgetState
spent_budget = record {
  limits = record { max_stage_dispatches = 4; max_reserved_steps = 32 };
  stage_dispatches = 1;
  reserved_steps = 8;
}

abbrev first_mission : MissionRecord
first_mission = record {
  session_id = "a";
  objective = "goal";
  mode = hybrid;
  scope = record {
    read_roots = "/w" ∷ [];
    write_roots = [];
    targets = [];
    allow_destructive = false;
  };
  constraints = [];
  completion_conditions = [];
  target = null;
  workflow_fingerprint = text "audit";
  selection = text "selection";
  origin = absent;
  transition =
      some record {
        decision = stop_decision;
        replacement = replacement;
        replacement_session_id = "b";
      };
  stop = some stop_decision;
  budget = held spent_budget;
}

abbrev second_mission : MissionRecord
second_mission = record first_mission {
  session_id = "b";
  origin = held record { parent_session_id = "a"; decision_fingerprint = "decision" };
}

abbrev stored : String → Option MissionRecord
stored id = if str_eq id "a" then some first_mission else none

abbrev decision_print : CoreStageDecision → String
decision_print d = "decision"

abbrev selection_dump : CoreWorkflowSelection → Value
selection_dump s = text "selection"

replaced_once : validate_core_lineage decision_print selection_dump stored second_mission ≡ some 1
unfolding validate_core_lineage decision_eq scope_eq limits_eq equal
replaced_once = refl

-- a mission that gives itself as its parent
abbrev own_parent : MissionRecord
own_parent = record second_mission { session_id = "a" }

cyclic_refused : validate_core_lineage decision_print selection_dump stored own_parent ≡ none
unfolding validate_core_lineage
cyclic_refused = refl

-- a budget that was refunded
abbrev refunded : MissionRecord
refunded = record second_mission {
  budget = held record spent_budget { stage_dispatches = 0; reserved_steps = 0 };
}

refund_refused : validate_core_lineage decision_print selection_dump stored refunded ≡ none
unfolding validate_core_lineage decision_eq scope_eq limits_eq equal
refund_refused = refl

validate_core_lineage-IsRooted_example :
    (root : MissionRecord) × (ids : List String) × (1 ≤ 32)
    × Replacements decision_print selection_dump stored second_mission 1 ids root
    × AreFresh ("b" ∷ []) ids
    × Keeps root second_mission
validate_core_lineage-IsRooted_example =
    validate_core_lineage-IsRooted decision_print selection_dump stored second_mission 1
      replaced_once
