-- ===== src/Workflows/Specs/Laws.antt =====
-- The plan of a workflow of workflows/models.py that is admitted.
use decode.Prelude.{
  ◌≡◌, refl, ap, ◌∙◌, String, true, false, ◌&&◌, some, List, [], ◌∷◌, and-eq-true, all, mem, eq_iff,
  Option-cases, All, inl, inr, arith,
}
use decode.Prelude.Dict.{lookup, insert, lookup-insert, values}
use decode.Planner.Graph.{PlanGraph, add_node}
use decode.Planner.Order.{
  Visits, Outcome, done, failed, validate_edges, topological_order, unknown_edge,
}
use decode.Workflows.Specs.{
  WorkflowSpec, WorkflowStage, stage_node, add_stages, to_plan, validate_graph, is_sorted,
  stage_ids, are_unique,
}

lookup-add_stages :
    (spec : WorkflowSpec) (ss : List WorkflowStage) (graph : PlanGraph) (id : String)
    → mem id (stage_ids ss) ≡ false
    → lookup id (add_stages spec ss graph).nodes ≡ lookup id graph.nodes
unfolding add_stages add_node
lookup-add_stages spec [] graph id h = refl
lookup-add_stages spec (s ∷ ss) graph id h =
    lookup-add_stages spec ss (add_node (stage_node spec s) graph) id (ground arith)
    ∙ ground (
      arith,
      lookup-insert s.id id (stage_node spec s) graph.nodes,
      eq_iff s.id id,
      eq_iff id s.id,
    )

all_added :
    (spec : WorkflowSpec) (ss : List WorkflowStage) (graph : PlanGraph)
    → are_unique (stage_ids ss) ≡ true
    → All
        (λ (s : WorkflowStage).
          lookup s.id (add_stages spec ss graph).nodes ≡ some (stage_node spec s))
        ss
unfolding add_stages add_node
all_added spec [] graph h = tt
all_added spec (s ∷ ss) graph h =
    let graph1 = add_node (stage_node spec s) graph in
    (
      lookup-add_stages spec ss graph1 s.id (ground arith)
          ∙ ground
              (arith, lookup-insert s.id s.id (stage_node spec s) graph.nodes, eq_iff s.id s.id),
      all_added spec ss graph1 (ground arith),
    )

nodes_alike :
    (spec : WorkflowSpec) (ss : List WorkflowStage) (g h : PlanGraph)
    → g.nodes ≡ h.nodes
    → (add_stages spec ss g).nodes ≡ (add_stages spec ss h).nodes
unfolding add_stages add_node
nodes_alike spec [] g h e = e
nodes_alike spec (s ∷ ss) g h e =
    nodes_alike spec ss (add_node (stage_node spec s) g) (add_node (stage_node spec s) h)
      (ap (insert s.id (stage_node spec s)) e)

order_alike : (g h : PlanGraph) → g.nodes ≡ h.nodes → topological_order g ≡ topological_order h
unfolding topological_order
order_alike g h e = rw e refl

sorted_of :
    (g : PlanGraph)
    → is_sorted (validate_edges g) ≡ true
    → (v : Visits) × (topological_order g ≡ done v)
unfolding validate_edges
sorted_of g h = elim (Option-cases (unknown_edge g.nodes (values g.nodes))) [
  | inr (d, e) ↦ absurd (cc (rw (validate_edges, e) at h))
  | inl e ↦ visits (topological_order g) (rw (validate_edges, e) at h)
]
  where
    visits : (o : Outcome) → is_sorted o ≡ true → (v : Visits) × (o ≡ done v)
    visits (done v) h = (v, refl)
    visits (failed e) h = cc

-- The plan of an admitted workflow has, for each stage, its pending node under its id, with the stage's
-- dependencies; and it has a topological order.
pub to_plan-IsRunnable :
    (spec : WorkflowSpec) (goal : String)
    → validate_graph spec ≡ true
    → All
        (λ (s : WorkflowStage). lookup s.id (to_plan spec goal).nodes ≡ some (stage_node spec s))
        spec.stages
      × ((v : Visits) × (topological_order (to_plan spec goal) ≡ done v))
unfolding validate_graph to_plan
to_plan-IsRunnable spec goal h =
    let (front, ok) =
      and-eq-true
        (are_unique (stage_ids spec.stages)
          && all (λ (s : WorkflowStage). all (λ d. mem d (stage_ids spec.stages)) s.depends_on)
              spec.stages)
        (is_sorted (validate_edges (to_plan spec "validation"))) h in
    let (unique, known) = and-eq-true (are_unique (stage_ids spec.stages)) _ front in
    let (v, e) = sorted_of (to_plan spec "validation") ok in
    (
      all_added spec spec.stages _ unique,
      (
        v,
        order_alike (to_plan spec goal) (to_plan spec "validation")
              (nodes_alike spec spec.stages _ _ refl)
            ∙ e,
      ),
    )
