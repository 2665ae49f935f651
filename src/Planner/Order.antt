-- ===== src/Planner/Order.antt =====
-- planner/dag.py: `topological_order` and `validate_edges`. The set `temporary` is passed down as the path
-- of the visits under way, since each visit that returns has taken its own node off it again. The fuel
-- bounds the depth of the visits; one more than the number of nodes is enough.
pub mod Laws
pub mod Ends
use decode.Prelude.{
  ℕ, zero, suc, String, Bool, true, false, Option, none, some, List, [], ◌∷◌, ◌++◌, mem, length,
}
use decode.Prelude.Dict.{Dict, lookup, keys, contains, values}
use decode.Planner.Graph.{PlanNode, PlanGraph}

-- `ValueError` for a cycle or an unknown node in `validate_edges`, `KeyError` for an unknown node in a visit
pub data OrderError : Type 0 where
  cycle unknown : String → OrderError
  out_of_fuel : OrderError

pub record Visits : Type 0 where
  pub permanent : List String
  pub order : List PlanNode

pub data Outcome : Type 0 where
  done : Visits → Outcome
  failed : OrderError → Outcome

abbrev pub visit_all : (String → Visits → Outcome) → List String → Visits → Outcome
visit_all visit [] v = done v
visit_all visit (id ∷ ids) v = elim (visit id v) [
  | done w ↦ visit_all visit ids w
  | failed e ↦ failed e
]

-- the end of a visit: `permanent.add(node_id)`, `order.append(...)`
abbrev pub finished : String → PlanNode → Outcome → Outcome
finished id n (done v) =
    done (record { permanent = v.permanent ++ id ∷ []; order = v.order ++ n ∷ [] })
finished id n (failed e) = failed e

unfoldable pub visit : ℕ → Dict PlanNode → List String → String → Visits → Outcome
visit zero nodes path id v = failed out_of_fuel
visit (suc fuel) nodes path id v = elim (mem id v.permanent) [
  | true ↦ done v
  | false ↦ elim (mem id path) [
    | true ↦ failed (cycle id)
    | false ↦ elim (lookup id nodes) [
      | none ↦ failed (unknown id)
      | some n ↦ finished id n (visit_all (visit fuel nodes (id ∷ path)) n.depends_on v)
    ]
  ]
]

unfoldable pub topological_order : PlanGraph → Outcome
unfolding visit
topological_order g =
    visit_all (visit (suc (length (keys g.nodes))) g.nodes []) (keys g.nodes)
      (record { permanent = []; order = [] })

-- the first dependency that is no node
abbrev pub unknown_dependency : Dict PlanNode → List String → Option String
unknown_dependency nodes [] = none
unknown_dependency nodes (d ∷ ds) = elim (contains d nodes) [
  | true ↦ unknown_dependency nodes ds
  | false ↦ some d
]

abbrev pub unknown_edge : Dict PlanNode → List PlanNode → Option String
unknown_edge nodes [] = none
unknown_edge nodes (n ∷ ns) = elim (unknown_dependency nodes n.depends_on) [
  | some d ↦ some d
  | none ↦ unknown_edge nodes ns
]

unfoldable pub validate_edges : PlanGraph → Outcome
unfolding topological_order
validate_edges g = elim (unknown_edge g.nodes (values g.nodes)) [
  | some d ↦ failed (unknown d)
  | none ↦ topological_order g
]
