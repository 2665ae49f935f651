-- ===== src/Planner/Tests.antt =====
-- A plan of two steps.
use decode.Prelude.{◌≡◌, ◌≢◌, refl, String, List, [], ◌∷◌, some, true, All, str_eq, if◌then◌else◌}
use decode.Values.{null, Value, int, pos, dict, field, end}
use decode.Planner.Completion.{validate_completion, evaluate_completion}
use decode.Planner.Completion.Laws.{Passes, validate_completion-Passes}
use decode.Planner.Graph.{CompletionCriterion, PlanNode, PlanGraph, never, ready_nodes, is_complete}
use decode.Planner.Order.{topological_order, failed, out_of_fuel}
use decode.Planner.Order.Laws.{Sorts, topological_order-Sorts}
use decode.Planner.Order.Ends.{topological_order_ends}

abbrev step : String → List String → String → PlanNode
step id needs status = record {
  id = id;
  capability = "scan";
  description = "";
  params = null;
  depends_on = needs;
  completion = [];
  retry_category = never;
  max_attempts = 1;
  idempotency_key = "";
  status = status;
  result_summary = "";
}

abbrev plan : PlanGraph
plan = record {
  goal = "scan";
  nodes = ("b", step "b" ("a" ∷ []) "pending") ∷ ("a", step "a" [] "success") ∷ [];
  reasoning = "";
}

abbrev finished_plan : PlanGraph
finished_plan = record { goal = "scan"; nodes = ("a", step "a" [] "error") ∷ []; reasoning = "" }

second_is_ready : ready_nodes plan ≡ some (step "b" ("a" ∷ []) "pending" ∷ [])
unfolding ready_nodes
second_is_ready = refl

plan_is_complete : is_complete finished_plan ≡ true
unfolding is_complete
plan_is_complete = refl

topological_order-Sorts_example : Sorts plan (topological_order plan)
topological_order-Sorts_example = topological_order-Sorts plan

topological_order_ends_example : topological_order plan ≢ failed out_of_fuel
topological_order_ends_example = topological_order_ends plan

abbrev enough_ports : CompletionCriterion
enough_ports = record {
  kind = "at_least";
  field = "scan.ports";
  expected = int (pos 2);
  required = true;
}

abbrev two_ports : Value
two_ports = dict (field "scan" (dict (field "ports" (int (pos 3)) end)) end)

abbrev checked_step : PlanNode
checked_step = record (step "a" [] "pending") { completion = enough_ports ∷ [] }

abbrev checked_plan : PlanGraph
checked_plan = record { goal = "scan"; nodes = ("a", checked_step) ∷ []; reasoning = "" }

ports_validate : validate_completion checked_plan "a" two_ports ≡ some (true, "")
unfolding validate_completion decode.Planner.Completion.check decode.Planner.Completion.check_kind
    decode.Planner.Completion.actual_value decode.Prelude.Text.split_char
ports_validate = refl

validate_completion-Passes_example : All (Passes two_ports) (enough_ports ∷ [])
validate_completion-Passes_example =
    validate_completion-Passes checked_plan "a" checked_step two_ports refl ports_validate

ports_complete : (evaluate_completion (enough_ports ∷ []) two_ports).0 ≡ true
unfolding evaluate_completion decode.Planner.Completion.check decode.Planner.Completion.check_kind
    decode.Planner.Completion.actual_value decode.Prelude.Text.split_char
ports_complete = refl
