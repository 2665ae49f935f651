-- ===== src/Planner/Graph.antt =====
-- planner/dag.py: the nodes of a plan, which of them are ready, and their marks.
pub mod Laws
use decode.Prelude.{
  ℕ, String, Bool, true, false, ◌&&◌, Option, none, some, List, [], ◌∷◌, all, mem, str_eq, is_empty,
  if◌then◌else◌,
}
use decode.Prelude.Dict.{Dict, lookup, insert, contains, values}
use decode.Values.{Value}

pub record CompletionCriterion : Type 0 where
  pub kind : String
  pub field : String
  pub expected : Value
  pub required : Bool

pub data RetryCategory : Type 0 where
  never transient_read manual_review : RetryCategory

pub record PlanNode : Type 0 where
  pub id : String
  pub capability : String
  pub description : String
  pub params : Value
  pub depends_on : List String
  pub completion : List CompletionCriterion
  pub retry_category : RetryCategory
  pub max_attempts : ℕ
  pub idempotency_key : String
  pub status : String
  pub result_summary : String

pub record PlanGraph : Type 0 where
  pub goal : String
  pub nodes : Dict PlanNode
  pub reasoning : String

unfoldable pub add_node : PlanNode → PlanGraph → PlanGraph
add_node n g = record g { nodes = insert n.id n g.nodes }

-- `none`: `KeyError` for an unknown dependency. `all` stops at the first dependency without success.
abbrev pub dependencies_met : Dict PlanNode → List String → Option Bool
dependencies_met nodes [] = some true
dependencies_met nodes (d ∷ ds) = elim (lookup d nodes) [
  | none ↦ none
  | some n ↦ if str_eq n.status "success" then dependencies_met nodes ds else some false
]

abbrev pub is_ready : Dict PlanNode → PlanNode → Option Bool
is_ready nodes n =
    if str_eq n.status "pending" then dependencies_met nodes n.depends_on else some false

abbrev pub kept_if : PlanNode → Option Bool → Option (List PlanNode) → Option (List PlanNode)
kept_if n none others = none
kept_if n (some ready) none = none
kept_if n (some ready) (some others) = some (if ready then n ∷ others else others)

abbrev pub select_ready : Dict PlanNode → List PlanNode → Option (List PlanNode)
select_ready nodes [] = some []
select_ready nodes (n ∷ ns) = kept_if n (is_ready nodes n) (select_ready nodes ns)

unfoldable pub ready_nodes : PlanGraph → Option (List PlanNode)
ready_nodes g = select_ready g.nodes (values g.nodes)

abbrev pub is_final : String → Bool
is_final status = mem status ("success" ∷ "error" ∷ "skipped" ∷ "needs_review" ∷ [])

unfoldable pub is_complete : PlanGraph → Bool
is_complete g = all (λ (n : PlanNode). is_final n.status) (values g.nodes)

abbrev pub marked : String → String → PlanNode → PlanNode
marked status summary n = record n {
  status = status;
  result_summary = if is_empty summary then n.result_summary else summary;
}

-- `none`: `KeyError`
unfoldable pub mark : String → String → String → PlanGraph → Option PlanGraph
mark id status summary g = elim (lookup id g.nodes) [
  | none ↦ none
  | some n ↦ some (record g { nodes = insert id (marked status summary n) g.nodes })
]
