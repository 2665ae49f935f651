-- ===== src/Workflows/Planner.antt =====
-- workflows/registry.py: `CoreWorkflowPlanner.decide` on the state of a mission. The fingerprints of states, workflows,
-- nodes and node results are parameters; where a check raises there is no decision.
pub mod Laws
pub mod Ends
use decode.Prelude.{
  ℕ, zero, suc, ◌≡◌, refl, String, Bool, true, false, not, ◌&&◌, ◌||◌, Option, none, some, List, [],
  ◌∷◌, all, any, mem, str_eq, is_empty, is_nonempty, ltb, if◌then◌else◌,
}
use decode.Prelude.Text.{texts_eq}
use decode.Prelude.Dict.{Dict, lookup}
use decode.Prelude.Filter.{passing}
use decode.Prelude.Sort.{sort_by}
use decode.Values.{pos}
use decode.Planner.Graph.{PlanNode, PlanGraph, dependencies_met}
use decode.Planner.Order.{topological_order, Visits}
use decode.Planner.Order
use decode.Schema.TaskState.{TaskStatus}
use decode.Schema.ActiveNode.{ActiveNodeResult, ActiveOutcome, ActiveEscalation, is_completed}
use decode.Workflows.Budget.{CoreBudgetState, stop_reason}
use decode.Workflows.Specs.{WorkflowSpec, WorkflowStage, is_human, stage, stage_ids, find_stage}
use decode.Workflows.Selection.{ReviewedWorkflow, CoreWorkflowSelection}
use decode.Workflows.Decisions.{
  ReviewCategory, material_replan, escalation, review, CoreReviewRequest, review_reason,
  bound_source, wants_replan, is_material_change, CoreOutcome, delegate, await_approval,
  needs_review, complete, failed, budget_exhausted, stopped, CoreStageDecision,
  CoreReviewResolution, is_review_stop, decided,
}

pub record CoreStrategy : Type 0 where
  pub workflow : ReviewedWorkflow
  pub stage_order : List String

-- What `decide` reads of a `TaskState` and of its environment. `stop` is the session of the decision that
-- stopped the mission; `pending` is empty where no stage is handed over.
pub record MissionState : Type 0 where
  pub session_id : String
  pub revision : ℕ
  pub status : TaskStatus
  pub plan : PlanGraph
  pub active_nodes : Dict ActiveNodeResult
  pub unresolved_questions : List String
  pub has_conditions : Bool
  pub selection : Option CoreWorkflowSelection
  pub strategy : Option CoreStrategy
  pub stop : Option String
  pub resolution : Option CoreReviewResolution
  pub pending : String
  pub budget : Option CoreBudgetState

-- The fingerprints, which are digests of JSON texts.
pub record Fingerprints : Type 0 where
  pub of_state : MissionState → String
  pub of_workflow : WorkflowSpec → String
  pub of_node : PlanNode → String
  pub of_active : ActiveNodeResult → String

abbrev pub is_failed : TaskStatus → Bool
is_failed TaskStatus.failed = true
is_failed _ = false

abbrev pub is_complete : TaskStatus → Bool
is_complete TaskStatus.complete = true
is_complete _ = false

abbrev pub is_blocked : TaskStatus → Bool
is_blocked TaskStatus.blocked = true
is_blocked _ = false

abbrev reviewed_eq : ReviewedWorkflow → ReviewedWorkflow → Bool
reviewed_eq a b =
    str_eq a.name b.name && str_eq a.version b.version && str_eq a.fingerprint b.fingerprint

-- of a list of nodes, whether a test that may raise holds of one: it stops there
abbrev pub any_of : (PlanNode → Option Bool) → List PlanNode → Option Bool
any_of test [] = some false
any_of test (n ∷ ns) = elim (test n) [
  | none ↦ none
  | some b ↦ if b then some true else any_of test ns
]

-- whether the stage of a node is a human one
abbrev pub human_stage : WorkflowSpec → String → Option Bool
human_stage spec id = elim (find_stage id spec.stages) [
  | none ↦ none
  | some s ↦ some (is_human s.execution)
]

abbrev pub interrupted : WorkflowSpec → PlanNode → Option Bool
interrupted spec n =
    if str_eq n.status "running"
    then some true
    else if str_eq n.status "needs_review"
    then (elim (human_stage spec n.id) [ none ↦ none | some h ↦ some (not h) ])
    else some false

abbrev pub is_waiting : PlanNode → Bool
is_waiting n = str_eq n.status "pending" || str_eq n.status "needs_review"

abbrev pub ready : Dict PlanNode → PlanNode → Option Bool
ready nodes n = if is_waiting n then dependencies_met nodes n.depends_on else some false

abbrev index_of : String → List String → ℕ
index_of id [] = 0
index_of id (i ∷ ids) = let n = index_of id ids in if str_eq i id then 0 else suc n

-- `<` of the keys: nodes in review first, and then in the order of the stages
abbrev pub sooner : WorkflowSpec → PlanNode → PlanNode → Bool
sooner spec a b =
    if str_eq a.status "needs_review"
    then (if str_eq b.status "needs_review"
        then ltb (index_of a.id (stage_ids spec.stages)) (index_of b.id (stage_ids spec.stages))
        else true)
    else if str_eq b.status "needs_review"
    then false
    else ltb (index_of a.id (stage_ids spec.stages)) (index_of b.id (stage_ids spec.stages))

module _ (prints : Fingerprints) where
  abbrev pub strategy_of : WorkflowSpec → CoreStrategy
  strategy_of spec = record {
    workflow = record {
      name = spec.name;
      version = spec.version;
      fingerprint = prints.of_workflow spec;
    };
    stage_order = stage_ids spec.stages;
  }

  abbrev strategy_matches : Option CoreStrategy → WorkflowSpec → Bool
  strategy_matches none spec = true
  strategy_matches (some s) spec =
      reviewed_eq s.workflow (strategy_of spec).workflow
      && texts_eq s.stage_order (strategy_of spec).stage_order

  abbrev selection_matches : Option CoreWorkflowSelection → WorkflowSpec → Bool
  selection_matches none spec = false
  selection_matches (some s) spec = elim s.workflow [
    | none ↦ false
    | some w ↦ str_eq w.fingerprint (prints.of_workflow spec)
  ]

  module _ (state : MissionState) (spec : WorkflowSpec) where
    -- the record of the node's run is of this mission, this workflow, and this node as it is
    abbrev pub is_bound_to : PlanNode → ActiveNodeResult → Bool
    is_bound_to n active =
        str_eq active.session_id state.session_id
        && str_eq active.node_id n.id
        && str_eq active.workflow_fingerprint (prints.of_workflow spec)
        && str_eq active.node_fingerprint (prints.of_node n)

    -- the completed work of a node lacks verification
    abbrev pub lacks_verification : PlanNode → Option ActiveNodeResult → Bool
    lacks_verification n none = true
    lacks_verification n (some active) =
        not (is_bound_to n active && is_completed active.outcome && active.gate_passed)

    abbrev pub unverified : PlanNode → Option Bool
    unverified n =
        if not (str_eq n.status "success") then some false else elim (human_stage spec n.id) [
          | none ↦ none
          | some h ↦
              some (if h then false else lacks_verification n (lookup n.id state.active_nodes))
        ]

    -- the node is one that a review with this outcome and reason is about
    abbrev relevant : CoreOutcome → String → PlanNode → Bool
    relevant failed reason n = str_eq n.status "error"
    relevant _ reason n =
        str_eq n.status "running"
        || str_eq n.status "needs_review"
        || (not (is_empty state.pending) && str_eq n.id state.pending)
        || (str_eq n.status "success"
            && str_eq reason "completed work lacks bound Active verification")

    abbrev plain_request : String → String → CoreReviewRequest
    plain_request stage_id node_fingerprint = record {
      category = review;
      public_reason = review_reason review;
      stage_id = stage_id;
      node_fingerprint = node_fingerprint;
      active_fingerprint = "";
      active_outcome = none;
      escalation_kind = none;
    }

    abbrev category_of : ActiveNodeResult → ActiveEscalation → ReviewCategory
    category_of active e =
        if wants_replan active.outcome || is_material_change e.kind
        then material_replan
        else escalation

    abbrev sourced_request : PlanNode → ActiveNodeResult → ActiveEscalation → CoreReviewRequest
    sourced_request n active e = record {
      category = category_of active e;
      public_reason = review_reason (category_of active e);
      stage_id = n.id;
      node_fingerprint = prints.of_node n;
      active_fingerprint = prints.of_active active;
      active_outcome = some active.outcome;
      escalation_kind = some e.kind;
    }

    -- the request about a node, by the record of its run and its escalation
    abbrev request_about : PlanNode → Option ActiveNodeResult → CoreReviewRequest
    request_about n none = plain_request n.id (prints.of_node n)
    request_about n (some active) = elim active.escalation [
      | none ↦ plain_request n.id (prints.of_node n)
      | some e ↦
          if is_bound_to n active && not (is_completed active.outcome)
          then sourced_request n active e
          else plain_request n.id (prints.of_node n)
    ]

    -- `_review_request`; none: a stage without a node raises `KeyError`
    unfoldable pub review_request :
        CoreOutcome → String → List WorkflowStage → Option CoreReviewRequest
    review_request outcome reason [] = some (plain_request "" "")
    review_request outcome reason (s ∷ ss) = elim (lookup s.id state.plan.nodes) [
      | none ↦ none
      | some n ↦
          if not (relevant outcome reason n) || is_human s.execution
          then review_request outcome reason ss
          else some (request_about n (lookup n.id state.active_nodes))
    ]

    abbrev pub decision_of :
        CoreOutcome → String → String → String → ℕ → Option CoreReviewRequest → CoreStageDecision
    decision_of outcome reason stage_id node_fingerprint max_steps request = record {
      session_id = state.session_id;
      state_version = state.revision;
      state_fingerprint = prints.of_state state;
      workflow_fingerprint = prints.of_workflow spec;
      outcome = outcome;
      public_reason = reason;
      stage_id = stage_id;
      node_fingerprint = node_fingerprint;
      max_steps = max_steps;
      review_request = request;
    }

    -- the decision with a request that the class of requests admits
    abbrev with_request : CoreOutcome → String → Option CoreReviewRequest → Option CoreStageDecision
    with_request outcome reason none = none
    with_request outcome reason (some r) =
        if bound_source r then decided (decision_of outcome reason "" "" 0 (some r)) else none

    unfoldable pub stop_with : CoreOutcome → String → Option CoreStageDecision
    unfolding review_request
    stop_with outcome reason =
        if is_review_stop outcome
        then with_request outcome reason (review_request outcome reason spec.stages)
        else decided (decision_of outcome reason "" "" 0 none)

    -- the decision to hand over a stage
    abbrev handed : PlanNode → WorkflowStage → Option CoreStageDecision
    handed n s =
        if is_human s.execution
        then decided (
            decision_of await_approval "human workflow gate requires explicit approval" n.id
              (prints.of_node n) 0 none)
        else decided (
            decision_of delegate "one ready stage delegated within its existing bounds" n.id
              (prints.of_node n) s.max_steps none)

    -- Behind the budget: a blocked task goes on with a human stage only.
    abbrev unless_blocked : PlanNode → WorkflowStage → Option CoreStageDecision
    unless_blocked n s =
        if is_blocked state.status && not (is_human s.execution)
        then stop_with needs_review "task has unresolved questions or no ready work"
        else handed n s

    abbrev within_budget :
        PlanNode → WorkflowStage → Option CoreBudgetState → Option CoreStageDecision
    within_budget n s none = unless_blocked n s
    within_budget n s (some budget) =
        if is_human s.execution
        then unless_blocked n s
        else elim (stop_reason budget (pos s.max_steps)) [
          | none ↦ none
          | some reason ↦
              if not (is_empty reason)
              then stop_with budget_exhausted reason
              else unless_blocked n s
        ]

    -- the first of the nodes that are ready
    unfoldable pub dispatch : List PlanNode → Option CoreStageDecision
    unfolding stop_with
    dispatch [] = stop_with needs_review "task has unresolved questions or no ready work"
    dispatch (n ∷ ns) =
        if is_complete state.status
        then stop_with needs_review "task has unresolved questions or no ready work"
        else elim (find_stage n.id spec.stages) [
          | none ↦ none
          | some s ↦ within_budget n s state.budget
        ]

    -- Behind the checks of completion: each node that is ready has its stage's place in the order.
    unfoldable pub dispatch_ready : List PlanNode → Option CoreStageDecision
    unfolding dispatch
    dispatch_ready nodes = elim (passing (ready state.plan.nodes) nodes) [
      | none ↦ none
      | some waiting ↦
          if all (λ (n : PlanNode). mem n.id (stage_ids spec.stages)) waiting
          then dispatch (sort_by (sooner spec) waiting)
          else none
    ]

    unfoldable pub after_checks : List PlanNode → Option CoreStageDecision
    unfolding stop_with dispatch_ready
    after_checks nodes =
        if is_nonempty state.unresolved_questions
        then stop_with needs_review "task has unresolved questions or no ready work"
        else if is_nonempty nodes && all (λ (n : PlanNode). str_eq n.status "success") nodes
        then (if state.has_conditions
            then stop_with needs_review "task has unresolved questions or no ready work"
            else stop_with complete "all workflow stages have bound completion")
        else dispatch_ready nodes

    -- the verification of the completed work
    unfoldable pub after_review : List PlanNode → Option CoreStageDecision
    unfolding stop_with after_checks
    after_review nodes = elim (any_of unverified nodes) [
      | none ↦ none
      | some b ↦
          if b
          then stop_with needs_review "completed work lacks bound Active verification"
          else after_checks nodes
    ]

    abbrev pub interruption : List PlanNode → Option Bool
    interruption nodes =
        if not (is_empty state.pending) then some true else any_of (interrupted spec) nodes

    unfoldable pub after_stop : List PlanNode → Option CoreStageDecision
    unfolding stop_with after_review
    after_stop nodes =
        if is_failed state.status || any (λ (n : PlanNode). str_eq n.status "error") nodes
        then stop_with failed "workflow failure requires review; no automatic replay"
        else elim (interruption nodes) [
          | none ↦ none
          | some b ↦
              if b
              then stop_with needs_review "interrupted or review-paused work requires human review"
              else after_review nodes
        ]

    -- the decision on the nodes in topological order
    unfoldable pub decide_on : List PlanNode → Option CoreStageDecision
    unfolding stop_with after_stop
    decide_on nodes = elim state.stop [
      | none ↦ after_stop nodes
      | some session ↦
          if str_eq session state.session_id
          then stop_with stopped "mission explicitly stopped by human; no automatic resume"
          else none
    ]

    unfoldable pub decide : Option CoreStageDecision
    unfolding decide_on
    decide =
        if selection_matches state.selection spec && strategy_matches state.strategy spec
        then (elim (topological_order state.plan) [
          | Order.done v ↦ decide_on v.order
          | Order.failed e ↦ none
        ])
        else none
