-- ===== src/Workflows/Planner/Ends.antt =====
-- What the planner of workflows/registry.py says of completion, and which stage it hands over.

use decode.Prelude.{
  ℕ, ◌≡◌, ◌≢◌, refl, ap, ◌∙◌, String, Bool, true, false, not, ◌&&◌, Option, none, some, List, [],
  ◌∷◌, all, mem, str_eq, eq_iff, is_empty, is_nonempty, All, Exists, ◌⊎◌, inl, inr, Bool-cases,
  bind-eq-some, if_cases, of_some, arith, if◌then◌else◌, and-eq-true,
}
use decode.Prelude.Dict.{lookup}
use decode.Prelude.Filter.{passing, passing-found}
use decode.Prelude.Sort.{sort_by, All-sort_by}
use decode.Values.{pos}
use decode.Planner.Graph.{PlanNode}
use decode.Planner.Order.{topological_order, Visits}
use decode.Planner.Order
use decode.Schema.ActiveNode.{ActiveNodeResult, is_completed}
use decode.Workflows.Budget.{CoreBudgetState, stop_reason}
use decode.Workflows.Specs.{WorkflowSpec, WorkflowStage, is_human, stage_ids, find_stage}
use decode.Workflows.Decisions.{
  delegate, await_approval, needs_review, complete, budget_exhausted, CoreStageDecision,
}
use decode.Workflows.Planner.{
  MissionState, Fingerprints, is_complete, is_blocked, any_of, human_stage, ready, sooner,
  selection_matches, strategy_matches, lacks_verification, unverified, is_bound_to, decision_of,
  stop_with, handed, unless_blocked, within_budget, dispatch, dispatch_ready, decide_on, decide,
}
use decode.Workflows.Planner.Laws.{
  decided-same, outcome-stop_with, past, IsClear, IsClear-decide_on,
}

module _ (prints : Fingerprints) (state : MissionState) (spec : WorkflowSpec) where
  -- The stage of a node is declared a human one, or the record of its run is bound to it, completed and past its gate.
  abbrev pub IsVerified : PlanNode → Type 0
  IsVerified n =
      (human_stage spec n.id ≡ some true)
      ⊎ ((active : ActiveNodeResult) × (lookup n.id state.active_nodes ≡ some active)
          × (is_bound_to prints state spec n active ≡ true)
          × (is_completed active.outcome ≡ true)
          × (active.gate_passed ≡ true))

  none_of :
      (test : PlanNode → Option Bool) (nodes : List PlanNode)
      → any_of test nodes ≡ some false
      → All (λ n. test n ≡ some false) nodes
  none_of test [] h = tt
  none_of test (n ∷ ns) h =
      let (b, t, h1) = bind-eq-some _ (test n) false h in
      elim (Bool-cases b) [
        | inl y ↦ absurd (cc (rw y at h1))
        | inr f ↦ (t ∙ ap some f, none_of test ns (rw f at h1))
      ]

  verified_record :
      (n : PlanNode) (o : Option ActiveNodeResult)
      → lookup n.id state.active_nodes ≡ o
      → lacks_verification prints state spec n o ≡ false
      → IsVerified n
  verified_record n none e h = cc
  verified_record n (some active) e h =
      let (front, gate) =
        and-eq-true (is_bound_to prints state spec n active && is_completed active.outcome)
          active.gate_passed (unnegated _ h) in
      let (bound, completed) = and-eq-true (is_bound_to prints state spec n active) _ front in
      inr (active, e, bound, completed, gate)
    where
      unnegated : (b : Bool) → not b ≡ false → b ≡ true
      unnegated true h = refl
      unnegated false h = cc

  verified_of :
      (n : PlanNode)
      → n.status ≡ "success"
      → unverified prints state spec n ≡ some false
      → IsVerified n
  verified_of n s e =
      let succeeded = (eq_iff n.status "success").1 s in
      let (h, found, e1) =
        bind-eq-some
          (λ h. some (
            if h
            then false
            else lacks_verification prints state spec n (lookup n.id state.active_nodes)))
          (human_stage spec n.id) false (rw (unverified, succeeded) at e) in
      elim (Bool-cases h) [
        | inl y ↦ inl (found ∙ ap some y)
        | inr f ↦ verified_record n (lookup n.id state.active_nodes) refl (of_some (rw f at e1))
      ]

  all_succeeded :
      (nodes : List PlanNode)
      → all (λ (n : PlanNode). str_eq n.status "success") nodes ≡ true
      → All (λ (n : PlanNode). unverified prints state spec n ≡ some false) nodes
      → All (λ (n : PlanNode). (n.status ≡ "success") × IsVerified n) nodes
  all_succeeded [] h u = tt
  all_succeeded (n ∷ ns) h u =
      let (s, more) = and-eq-true (str_eq n.status "success") _ h in
      let done_ = (eq_iff n.status "success").0 s in
      ((done_, verified_of n done_ u.0), all_succeeded ns more u.1)

  -- Completion is reported of a topological order in which nothing is left to do.
  pub record IsCompleted (nodes : List PlanNode) : Type 0 where
    pub clear : IsClear prints state spec nodes
    pub nonempty : is_nonempty nodes ≡ true
    pub unconditional : state.has_conditions ≡ false
    pub succeeded : All (λ (n : PlanNode). (n.status ≡ "success") × IsVerified n) nodes

  -- A budget, if there is one, can be reserved for so many steps.
  abbrev pub IsCovered : Option CoreBudgetState → ℕ → Type 0
  IsCovered none steps = Unit
  IsCovered (some budget) steps = stop_reason budget (pos steps) ≡ some ""

  -- The decision hands over a stage, which is not a human one, of a node that is ready, within its steps
  -- and the budget.
  pub record IsHandedOver (nodes : List PlanNode) (d : CoreStageDecision) : Type 0 where
    pub node : PlanNode
    pub handed_stage : WorkflowStage
    pub is_ready : Exists (λ n. (n ≡ node) × (ready state.plan.nodes n ≡ some true)) nodes
    pub found : find_stage node.id spec.stages ≡ some handed_stage
    pub not_human : is_human handed_stage.execution ≡ false
    pub stage_same : d.stage_id ≡ node.id
    pub node_same : d.node_fingerprint ≡ prints.of_node node
    pub steps_same : d.max_steps ≡ handed_stage.max_steps
    pub covered : IsCovered state.budget handed_stage.max_steps
    pub unblocked : is_blocked state.status ≡ false

  data Dispatched (nodes : List PlanNode) (d : CoreStageDecision) : Type 0 where
    reviewed : d.outcome ≡ needs_review → Dispatched nodes d
    exhausted : d.outcome ≡ budget_exhausted → Dispatched nodes d
    awaiting : d.outcome ≡ await_approval → Dispatched nodes d
    handed_over : d.outcome ≡ delegate → IsHandedOver nodes d → Dispatched nodes d

  module _ (nodes : List PlanNode) (n : PlanNode) (s : WorkflowStage)
      (r : Exists (λ m. (m ≡ n) × (ready state.plan.nodes m ≡ some true)) nodes)
      (f : find_stage n.id spec.stages ≡ some s) where
    Dispatched_of_handed :
        (d : CoreStageDecision)
        → (is_human s.execution ≡ true) ⊎ IsCovered state.budget s.max_steps
        → (is_blocked state.status && not (is_human s.execution)) ≡ false
        → handed prints state spec n s ≡ some d
        → Dispatched nodes d
    Dispatched_of_handed d c b e = elim (Bool-cases (is_human s.execution)) [
      | inl person ↦
          let same =
            decided-same
              (decision_of prints state spec await_approval
                "human workflow gate requires explicit approval" n.id (prints.of_node n) 0 none)
              d (rw (handed, person) at e) in
          awaiting (ap (λ (x : CoreStageDecision). x.outcome) same)
      | inr machine ↦
          let same =
            decided-same
              (decision_of prints state spec delegate
                "one ready stage delegated within its existing bounds" n.id (prints.of_node n)
                s.max_steps none)
              d (rw (handed, machine) at e) in
          handed_over (ap (λ (x : CoreStageDecision). x.outcome) same) (record {
            node = n;
            handed_stage = s;
            is_ready = r;
            found = f;
            not_human = machine;
            stage_same = ap (λ (x : CoreStageDecision). x.stage_id) same;
            node_same = ap (λ (x : CoreStageDecision). x.node_fingerprint) same;
            steps_same = ap (λ (x : CoreStageDecision). x.max_steps) same;
            covered = elim c [ inl person ↦ absurd (cc (rw machine at person)) | inr x ↦ x ];
            unblocked = free (is_blocked state.status) (is_human s.execution) machine b;
          })
    ]
      where
        free : (a h : Bool) → h ≡ false → (a && not h) ≡ false → a ≡ false
        free a h m b = ground arith

    Dispatched_of_unless_blocked :
        (d : CoreStageDecision)
        → (is_human s.execution ≡ true) ⊎ IsCovered state.budget s.max_steps
        → unless_blocked prints state spec n s ≡ some d
        → Dispatched nodes d
    Dispatched_of_unless_blocked d c e =
        elim (Bool-cases (is_blocked state.status && not (is_human s.execution))) [
          | inl b ↦
              reviewed
                (outcome-stop_with prints state spec needs_review _ d (rw (unless_blocked, b) at e))
          | inr b ↦ Dispatched_of_handed d c b (rw (unless_blocked, b) at e)
        ]

    Dispatched_of_within_budget :
        (d : CoreStageDecision) (budget : Option CoreBudgetState)
        → state.budget ≡ budget
        → within_budget prints state spec n s budget ≡ some d
        → Dispatched nodes d
    Dispatched_of_within_budget d none same e = Dispatched_of_unless_blocked d (inr (rw same tt)) e
    Dispatched_of_within_budget d (some budget) same e =
        elim (if_cases (is_human s.execution) _ _ (some d) e) [
          | inl (person, e0) ↦ Dispatched_of_unless_blocked d (inl person) e0
          | inr (machine, e0) ↦
              let (reason, x, e1) = bind-eq-some _ (stop_reason budget (pos s.max_steps)) d e0 in
              elim (Bool-cases (is_empty reason)) [
                | inr full ↦
                    exhausted (
                      outcome-stop_with prints state spec budget_exhausted reason d (rw full at e1))
                | inl empty ↦
                    Dispatched_of_unless_blocked d
                      (inr (rw same (x ∙ ap some (is_empty→eq reason empty)))) (rw empty at e1)
              ]
        ]
      where
        is_empty→eq : (t : String) → is_empty t ≡ true → t ≡ ""
        is_empty→eq String.[] h = refl
        is_empty→eq (String.◌∷◌ c t) h = cc

  Dispatched_of_dispatch :
      (nodes waiting : List PlanNode) (d : CoreStageDecision)
      → All (λ n. Exists (λ m. (m ≡ n) × (ready state.plan.nodes m ≡ some true)) nodes) waiting
      → dispatch prints state spec waiting ≡ some d
      → Dispatched nodes d
  unfolding dispatch
  Dispatched_of_dispatch nodes [] d r e = reviewed (
      outcome-stop_with prints state spec needs_review
        "task has unresolved questions or no ready work" d e)
  Dispatched_of_dispatch nodes (n ∷ ns) d r e = elim (Bool-cases (is_complete state.status)) [
    | inl over ↦ reviewed (
        outcome-stop_with prints state spec needs_review
          "task has unresolved questions or no ready work" d (rw (dispatch, over) at e))
    | inr open_ ↦
        let (s, f, e1) =
          bind-eq-some (λ s. within_budget prints state spec n s state.budget)
            (find_stage n.id spec.stages) d (rw (dispatch, open_) at e) in
        Dispatched_of_within_budget nodes n s r.0 f d state.budget refl e1
  ]

  Dispatched_of_dispatch_ready :
      (nodes : List PlanNode) (d : CoreStageDecision)
      → dispatch_ready prints state spec nodes ≡ some d
      → Dispatched nodes d
  unfolding dispatch_ready
  Dispatched_of_dispatch_ready nodes d e =
      let (waiting, p, e1) = bind-eq-some _ (passing (ready state.plan.nodes) nodes) d e in
      elim (Bool-cases (all (λ (n : PlanNode). mem n.id (stage_ids spec.stages)) waiting)) [
        | inl known ↦
            Dispatched_of_dispatch nodes (sort_by (sooner spec) waiting) d
              (All-sort_by _ (sooner spec) waiting
                (passing-found (ready state.plan.nodes) nodes waiting p))
              (rw known at e1)
        | inr lost ↦ absurd (cc (rw lost at e1))
      ]

  Dispatched-uncompleted :
      (nodes : List PlanNode) (d : CoreStageDecision) → Dispatched nodes d → d.outcome ≢ complete
  Dispatched-uncompleted nodes d (reviewed e) = λ c. cc
  Dispatched-uncompleted nodes d (exhausted e) = λ c. cc
  Dispatched-uncompleted nodes d (awaiting e) = λ c. cc
  Dispatched-uncompleted nodes d (handed_over e h) = λ c. cc

  IsHandedOver-Dispatched :
      (nodes : List PlanNode) (d : CoreStageDecision)
      → Dispatched nodes d
      → d.outcome ≡ delegate
      → IsHandedOver nodes d
  IsHandedOver-Dispatched nodes d (reviewed e) o = absurd (cc (rw e at o))
  IsHandedOver-Dispatched nodes d (exhausted e) o = absurd (cc (rw e at o))
  IsHandedOver-Dispatched nodes d (awaiting e) o = absurd (cc (rw e at o))
  IsHandedOver-Dispatched nodes d (handed_over e h) o = h

  -- the order that a decision goes by
  decide-order :
      (d : CoreStageDecision)
      → decide prints state spec ≡ some d
      → (v : Visits) × (topological_order state.plan ≡ Order.done v)
        × (decide_on prints state spec v.order ≡ some d)
  unfolding decide
  decide-order d e =
      elim (if_cases
        (selection_matches prints state.selection spec
          && strategy_matches prints state.strategy spec)
        _ _ (some d) e) [
          | inl (ok, e1) ↦ ordered (topological_order state.plan) refl e1
          | inr (bad, e1) ↦ cc
        ]
    where
      ordered :
          (o : Order.Outcome)
          → topological_order state.plan ≡ o
          → (elim o [ Order.done v ↦ decide_on prints state spec v.order | Order.failed x ↦ none ])
            ≡ some d
          → (v : Visits) × (topological_order state.plan ≡ Order.done v)
            × (decide_on prints state spec v.order ≡ some d)
      ordered (Order.done v) t e = (v, t, e)
      ordered (Order.failed x) t e = cc

  -- The planner reports completion only of a nonempty topological order of the plan in which every node has
  -- succeeded, and each whose stage is not declared a human one has a record of its run that is completed, past its
  -- gate, and bound to the mission, the workflow and the node; no question, no condition, no stop and no failure is left.
  pub decide-IsCompleted :
      (d : CoreStageDecision)
      → decide prints state spec ≡ some d
      → d.outcome ≡ complete
      → (v : Visits) × (topological_order state.plan ≡ Order.done v) × IsCompleted v.order
  decide-IsCompleted d e o =
      let (v, t, e1) = decide-order d e in
      let (clear, e2) =
        IsClear-decide_on prints state spec v.order d e1 (λ x. cc) (λ x. cc) (λ x. cc) in
      elim (if_cases
        (is_nonempty v.order && all (λ (n : PlanNode). str_eq n.status "success") v.order) _ _
        (some d) e2) [
          | inr (more, e3) ↦
              absurd
                (Dispatched-uncompleted v.order d (Dispatched_of_dispatch_ready v.order d e3) o)
          | inl (done_, e3) ↦
              let (full, succeeded) = and-eq-true (is_nonempty v.order) _ done_ in
              let (free, _) =
                past prints state spec state.has_conditions needs_review
                  "task has unresolved questions or no ready work" _ d e3 (λ x. cc) in
              (
                v,
                t,
                record {
                  clear = clear;
                  nonempty = full;
                  unconditional = free;
                  succeeded =
                      all_succeeded v.order succeeded
                        (none_of (unverified prints state spec) v.order clear.verified);
                },
              )
        ]

  -- The planner hands over a stage only past every stop for a review: the stage is not a human one, its node
  -- is pending or in review with all its dependencies succeeded, the steps are those of the stage, the budget
  -- can reserve them, and the task is not blocked.
  pub decide-IsHandedOver :
      (d : CoreStageDecision)
      → decide prints state spec ≡ some d
      → d.outcome ≡ delegate
      → (v : Visits) × (topological_order state.plan ≡ Order.done v)
        × IsClear prints state spec v.order
        × IsHandedOver v.order d
  decide-IsHandedOver d e o =
      let (v, t, e1) = decide-order d e in
      let (clear, e2) =
        IsClear-decide_on prints state spec v.order d e1 (λ x. cc) (λ x. cc) (λ x. cc) in
      elim (if_cases
        (is_nonempty v.order && all (λ (n : PlanNode). str_eq n.status "success") v.order) _ _
        (some d) e2) [
          | inr (more, e3) ↦ (
            v,
            t,
            clear,
            IsHandedOver-Dispatched v.order d (Dispatched_of_dispatch_ready v.order d e3) o,
          )
          | inl (done_, e3) ↦ absurd (undelegated e3)
        ]
    where
      undelegated :
          (if state.has_conditions
              then stop_with prints state spec needs_review
                  "task has unresolved questions or no ready work"
              else stop_with prints state spec complete "all workflow stages have bound completion")
            ≡ some d
          → ⊥
      undelegated e3 =
          let (_, e4) =
            past prints state spec state.has_conditions needs_review
              "task has unresolved questions or no ready work" _ d e3 (λ x. cc) in
          let kept = outcome-stop_with prints state spec complete _ d e4 in cc
