-- ===== src/Workflows/Equality.antt =====
-- `==` of the models in workflows/models.py that a lineage compares: the decisions with their requests, the
-- budgets, and the view of the scope of schema/task_state.py.
use decode.Prelude.{
  ℕ, ◌≡◌, refl, sym, ap, ◌∙◌, String, Bool, true, false, ◌&&◌, Option, none, some, List, [], ◌∷◌,
  ◌==◌, ==_iff, str_eq, if◌then◌else◌, and-eq-true, arith,
}
use decode.Prelude.Text.{texts_eq, texts_eq→eq}
use decode.Values.Equality.{equal}
use decode.Planner.Graph.{CompletionCriterion}
use decode.Schema.ActiveNode.{ActiveEscalationKind}
use decode.Capabilities.Registry.{TaskMode}
use decode.Workflows.Budget.{CoreMissionBudget}
use decode.Workflows.Gate.{outcome_eq}
use decode.Workflows.Selection.{mode_eq}
use decode.Workflows.Decisions.{
  ReviewCategory, CoreReviewRequest, CoreOutcome, CoreStageDecision, same_truth,
}

abbrev category_code : ReviewCategory → ℕ
category_code ReviewCategory.material_replan = 0
category_code ReviewCategory.escalation = 1
category_code ReviewCategory.review = 2

abbrev kind_code : ActiveEscalationKind → ℕ
kind_code ActiveEscalationKind.policy = 0
kind_code ActiveEscalationKind.approval = 1
kind_code ActiveEscalationKind.dependency = 2
kind_code ActiveEscalationKind.verification = 3
kind_code ActiveEscalationKind.timeout = 4
kind_code ActiveEscalationKind.cancellation = 5
kind_code ActiveEscalationKind.safety = 6
kind_code ActiveEscalationKind.execution = 7
kind_code ActiveEscalationKind.budget = 8
kind_code ActiveEscalationKind.material_change = 9
kind_code ActiveEscalationKind.legacy_unclassified = 10

abbrev outcome_code : CoreOutcome → ℕ
outcome_code CoreOutcome.delegate = 0
outcome_code CoreOutcome.await_approval = 1
outcome_code CoreOutcome.needs_review = 2
outcome_code CoreOutcome.complete = 3
outcome_code CoreOutcome.failed = 4
outcome_code CoreOutcome.budget_exhausted = 5
outcome_code CoreOutcome.stopped = 6

abbrev option_eq : {A : Type 0} → (A → A → Bool) → Option A → Option A → Bool
option_eq eq none none = true
option_eq eq (some a) (some b) = eq a b
option_eq eq _ _ = false

abbrev request_eq : CoreReviewRequest → CoreReviewRequest → Bool
request_eq a b =
    (category_code a.category == category_code b.category)
    && str_eq a.public_reason b.public_reason
    && str_eq a.stage_id b.stage_id
    && str_eq a.node_fingerprint b.node_fingerprint
    && str_eq a.active_fingerprint b.active_fingerprint
    && option_eq outcome_eq a.active_outcome b.active_outcome
    && option_eq (λ k l. kind_code k == kind_code l) a.escalation_kind b.escalation_kind

unfoldable pub decision_eq : CoreStageDecision → CoreStageDecision → Bool
decision_eq a b =
    str_eq a.session_id b.session_id
    && (a.state_version == b.state_version)
    && str_eq a.state_fingerprint b.state_fingerprint
    && str_eq a.workflow_fingerprint b.workflow_fingerprint
    && (outcome_code a.outcome == outcome_code b.outcome)
    && str_eq a.public_reason b.public_reason
    && str_eq a.stage_id b.stage_id
    && str_eq a.node_fingerprint b.node_fingerprint
    && (a.max_steps == b.max_steps)
    && option_eq request_eq a.review_request b.review_request

pub record ScopeView : Type 0 where
  pub read_roots : List String
  pub write_roots : List String
  pub targets : List String
  pub allow_destructive : Bool

unfoldable pub scope_eq : ScopeView → ScopeView → Bool
scope_eq a b =
    texts_eq a.read_roots b.read_roots
    && texts_eq a.write_roots b.write_roots
    && texts_eq a.targets b.targets
    && same_truth a.allow_destructive b.allow_destructive

unfoldable pub limits_eq : CoreMissionBudget → CoreMissionBudget → Bool
limits_eq a b =
    (a.max_stage_dispatches == b.max_stage_dispatches)
    && (a.max_reserved_steps == b.max_reserved_steps)

abbrev criterion_eq : CompletionCriterion → CompletionCriterion → Bool
criterion_eq a b =
    str_eq a.kind b.kind
    && str_eq a.field b.field
    && equal a.expected b.expected
    && same_truth a.required b.required

abbrev pub criteria_eq : List CompletionCriterion → List CompletionCriterion → Bool
criteria_eq [] [] = true
criteria_eq (a ∷ more) (b ∷ bs) = criterion_eq a b && criteria_eq more bs
criteria_eq _ _ = false

pub scope_eq→eq : (a b : ScopeView) → scope_eq a b ≡ true → a ≡ b
unfolding scope_eq
scope_eq→eq a b h =
    let (h3, d) = and-eq-true _ (same_truth a.allow_destructive b.allow_destructive) h in
    let (h2, t) = and-eq-true _ (texts_eq a.targets b.targets) h3 in
    let (r, w) = and-eq-true (texts_eq a.read_roots b.read_roots) _ h2 in
    same_fields a b (texts_eq→eq _ _ r) (texts_eq→eq _ _ w) (texts_eq→eq _ _ t)
      (same_bool a.allow_destructive b.allow_destructive d)
  where
    same_bool : (x y : Bool) → same_truth x y ≡ true → x ≡ y
    same_bool x y e = ground arith

    same_fields :
        (x y : ScopeView)
        → x.read_roots ≡ y.read_roots
        → x.write_roots ≡ y.write_roots
        → x.targets ≡ y.targets
        → x.allow_destructive ≡ y.allow_destructive
        → x ≡ y
    same_fields x y e f g i = cc

pub limits_eq→eq : (a b : CoreMissionBudget) → limits_eq a b ≡ true → a ≡ b
unfolding limits_eq
limits_eq→eq a b h = same_fields a b (ground arith) (ground arith)
  where
    same_fields :
        (x y : CoreMissionBudget)
        → x.max_stage_dispatches ≡ y.max_stage_dispatches
        → x.max_reserved_steps ≡ y.max_reserved_steps
        → x ≡ y
    same_fields x y e f = cc

pub mode_eq→eq : (a b : TaskMode) → mode_eq a b ≡ true → a ≡ b
mode_eq→eq a b h = ground arith

abbrev outcome_at : ℕ → CoreOutcome
outcome_at n =
    if n == 0
    then CoreOutcome.delegate
    else if n == 1
    then CoreOutcome.await_approval
    else if n == 2
    then CoreOutcome.needs_review
    else if n == 3
    then CoreOutcome.complete
    else if n == 4
    then CoreOutcome.failed
    else if n == 5
    then CoreOutcome.budget_exhausted
    else CoreOutcome.stopped

outcome_at-outcome_code : (o : CoreOutcome) → outcome_at (outcome_code o) ≡ o
outcome_at-outcome_code CoreOutcome.delegate = refl
outcome_at-outcome_code CoreOutcome.await_approval = refl
outcome_at-outcome_code CoreOutcome.needs_review = refl
outcome_at-outcome_code CoreOutcome.complete = refl
outcome_at-outcome_code CoreOutcome.failed = refl
outcome_at-outcome_code CoreOutcome.budget_exhausted = refl
outcome_at-outcome_code CoreOutcome.stopped = refl

pub outcome-decision_eq : (a b : CoreStageDecision) → decision_eq a b ≡ true → a.outcome ≡ b.outcome
unfolding decision_eq
outcome-decision_eq a b h =
    let first_five = first_of _ _ (first_of _ _ (first_of _ _ (first_of _ _ (first_of _ _ h)))) in
    let same =
      (==_iff (outcome_code a.outcome) (outcome_code b.outcome)).0
        (and-eq-true _ (outcome_code a.outcome == outcome_code b.outcome) first_five).1 in
    sym (outcome_at-outcome_code a.outcome) ∙ ap outcome_at same ∙ outcome_at-outcome_code b.outcome
  where
    first_of : (x y : Bool) → (x && y) ≡ true → x ≡ true
    first_of x y e = (and-eq-true x y e).0
