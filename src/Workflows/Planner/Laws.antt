-- ===== src/Workflows/Planner/Laws.antt =====
-- When the planner of workflows/registry.py hands over a stage, and when it reports completion.
use decode.Prelude.{
  ◌≡◌, ◌≢◌, refl, sym, ap, ◌∙◌, String, Bool, true, false, ◌&&◌, ◌||◌, Option, none, some, List,
  all, any, str_eq, is_nonempty, inl, inr, Bool-cases, Option-cases, bind-eq-some, of_some,
  if◌then◌else◌,
}
use decode.Planner.Graph.{PlanNode}
use decode.Workflows.Specs.{WorkflowSpec}
use decode.Workflows.Decisions.{
  CoreOutcome, needs_review, complete, failed, stopped, CoreStageDecision, CoreReviewRequest,
  is_review_stop, bound_decision, bound_source, decided,
}
use decode.Workflows.Planner.{
  MissionState, Fingerprints, is_failed, any_of, unverified, review_request, decision_of,
  with_request, stop_with, dispatch_ready, after_checks, after_review, interruption, after_stop,
  decide_on,
}

pub decided-same : (s d : CoreStageDecision) → decided s ≡ some d → d ≡ s
decided-same s d e = elim (Bool-cases (bound_decision s)) [
  | inl ok ↦ sym (of_some (rw (decided, ok) at e))
  | inr bad ↦ absurd (cc (rw (decided, bad) at e))
]

module _ (prints : Fingerprints) (state : MissionState) (spec : WorkflowSpec) where
  outcome-with_request :
      (o : CoreOutcome) (reason : String) (r : Option CoreReviewRequest) (d : CoreStageDecision)
      → with_request prints state spec o reason r ≡ some d
      → d.outcome ≡ o
  outcome-with_request o reason none d e = cc
  outcome-with_request o reason (some r) d e = elim (Bool-cases (bound_source r)) [
    | inl ok ↦
        ap (λ (x : CoreStageDecision). x.outcome)
          (decided-same (decision_of prints state spec o reason "" "" 0 (some r)) d
            (rw (with_request, ok) at e))
    | inr bad ↦ absurd (cc (rw (with_request, bad) at e))
  ]

  pub outcome-stop_with :
      (o : CoreOutcome) (reason : String) (d : CoreStageDecision)
      → stop_with prints state spec o reason ≡ some d
      → d.outcome ≡ o
  unfolding stop_with
  outcome-stop_with o reason d e = elim (Bool-cases (is_review_stop o)) [
    | inl y ↦
        outcome-with_request o reason (review_request prints state spec o reason spec.stages) d
          (rw (stop_with, y) at e)
    | inr n ↦
        ap (λ (x : CoreStageDecision). x.outcome)
          (decided-same (decision_of prints state spec o reason "" "" 0 none) d
            (rw (stop_with, n) at e))
  ]

  -- A decision with another outcome comes from behind the stop.
  pub past :
      (b : Bool) (o : CoreOutcome) (reason : String) (rest : Option CoreStageDecision)
      (d : CoreStageDecision)
      → (if b then stop_with prints state spec o reason else rest) ≡ some d
      → d.outcome ≢ o
      → (b ≡ false) × (rest ≡ some d)
  past true o reason rest d e other = absurd (other (outcome-stop_with o reason d e))
  past false o reason rest d e other = (refl, e)

  -- What is true of the state in which a decision goes past the stops for a review.
  pub record IsClear (nodes : List PlanNode) : Type 0 where
    pub going : state.stop ≡ none
    pub unfailed :
        (is_failed state.status || any (λ (n : PlanNode). str_eq n.status "error") nodes) ≡ false
    pub uninterrupted : interruption prints state spec nodes ≡ some false
    pub verified : any_of (unverified prints state spec) nodes ≡ some false
    pub unquestioned : is_nonempty state.unresolved_questions ≡ false

  -- the decision behind those stops
  abbrev pub last_part : List PlanNode → Option CoreStageDecision
  last_part nodes =
      if is_nonempty nodes && all (λ (n : PlanNode). str_eq n.status "success") nodes
      then (if state.has_conditions
          then stop_with prints state spec needs_review
              "task has unresolved questions or no ready work"
          else stop_with prints state spec complete "all workflow stages have bound completion")
      else dispatch_ready prints state spec nodes

  IsClear-after_stop :
      (nodes : List PlanNode) (d : CoreStageDecision)
      → state.stop ≡ none
      → after_stop prints state spec nodes ≡ some d
      → d.outcome ≢ failed
      → d.outcome ≢ needs_review
      → IsClear nodes × (last_part nodes ≡ some d)
  unfolding after_stop after_review after_checks
  IsClear-after_stop nodes d going e f r =
      let (a, e1) =
        past (is_failed state.status || any (λ (n : PlanNode). str_eq n.status "error") nodes)
          failed "workflow failure requires review; no automatic replay" _ d e f in
      let (b, i, e2) = bind-eq-some _ (interruption prints state spec nodes) d e1 in
      let (j, e3) =
        past b needs_review "interrupted or review-paused work requires human review" _ d e2 r in
      let (c, v, e4) = bind-eq-some _ (any_of (unverified prints state spec) nodes) d e3 in
      let (k, e5) = past c needs_review "completed work lacks bound Active verification" _ d e4 r in
      let (q, e6) =
        past (is_nonempty state.unresolved_questions) needs_review
          "task has unresolved questions or no ready work" (last_part nodes) d e5 r in
      (
        record {
          going = going;
          unfailed = a;
          uninterrupted = i ∙ ap some j;
          verified = v ∙ ap some k;
          unquestioned = q;
        },
        e6,
      )

  pub IsClear-decide_on :
      (nodes : List PlanNode) (d : CoreStageDecision)
      → decide_on prints state spec nodes ≡ some d
      → d.outcome ≢ stopped
      → d.outcome ≢ failed
      → d.outcome ≢ needs_review
      → IsClear nodes × (last_part nodes ≡ some d)
  unfolding decide_on
  IsClear-decide_on nodes d e s f r = elim (Option-cases state.stop) [
    | inl none_ ↦ IsClear-after_stop nodes d none_ (rw (decide_on, none_) at e) f r
    | inr (session, some_) ↦
        let e1 = rw (decide_on, some_) at e in
        elim (Bool-cases (str_eq session state.session_id)) [
          | inl same ↦ absurd (s (outcome-stop_with stopped _ d (rw same at e1)))
          | inr other ↦ absurd (cc (rw other at e1))
        ]
  ]
