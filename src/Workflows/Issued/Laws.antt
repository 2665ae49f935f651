-- ===== src/Workflows/Issued/Laws.antt =====
-- What a stop of workflows/runner.py guarantees.
use decode.Prelude.{
  ◌≡◌, refl, sym, ap, ◌∙◌, subst, arith, String, true, false, not, Option, none, some, List, str_eq,
  inl, inr, Option-cases, of_some, if_ind, if-eq-some, and-eq-true,
}
use decode.Planner.Graph.{PlanNode}
use decode.Workflows.Specs.{WorkflowSpec}
use decode.Workflows.Decisions.{stopped, CoreStageDecision, CoreReviewResolution}
use decode.Workflows.Equality.{outcome-decision_eq}
use decode.Workflows.Planner.{MissionState, Fingerprints, stop_with, decide_on, decide}
use decode.Workflows.Planner.Laws.{outcome-stop_with}
use decode.Planner.Order.{topological_order, Visits}
use decode.Planner.Order
use decode.Workflows.Issued.{
  IssuedMission, matches, reviewed, halted, stopped_by, decide_core, validate_core_decision,
  review_core, stop_core, issued_core, issued_with,
}

-- a person stopped the mission
abbrev pub WasStopped : MissionState → Type 0
WasStopped s = (session : String) × (s.stop ≡ some session)

halted-WasStopped : (s : MissionState) → WasStopped s → WasStopped (halted s)
halted-WasStopped s w = if_ind WasStopped _ _ _ (λ _. w) (λ _. w)

module _ (prints : Fingerprints) (fingerprint : CoreStageDecision → String)
    (spec : WorkflowSpec) where
  outcome-decide_on :
      (s : MissionState) (nodes : List PlanNode) (session : String) (d : CoreStageDecision)
      → s.stop ≡ some session
      → decide_on prints s spec nodes ≡ some d
      → d.outcome ≡ stopped
  unfolding decide_on
  outcome-decide_on s nodes session d at_ e =
      let stop =
        stop_with prints s spec stopped
          "mission explicitly stopped by human; no automatic resume" in
      let (_, f) = if-eq-some (str_eq session s.session_id) stop d (rw (decide_on, at_) at e) in
      outcome-stop_with prints s spec stopped _ d f

  outcome-decide :
      (s : MissionState) (d : CoreStageDecision)
      → WasStopped s
      → decide prints s spec ≡ some d
      → d.outcome ≡ stopped
  unfolding decide
  outcome-decide s d (session, at_) e =
      on_order (topological_order s.plan) (if-eq-some _ (ordered (topological_order s.plan)) d e).1
    where
      ordered : Order.Outcome → Option CoreStageDecision
      ordered o = elim o [ Order.done v ↦ decide_on prints s spec v.order | Order.failed x ↦ none ]

      on_order : (o : Order.Outcome) → ordered o ≡ some d → d.outcome ≡ stopped
      on_order (Order.done v) f = outcome-decide_on s v.order session d at_ f
      on_order (Order.failed x) f = cc

  -- Decisions, reviews and stops of a mission, one after another.
  pub data Steps (start : IssuedMission) : IssuedMission → Type 0 where
    here : Steps start start
    decided :
        {m n : IssuedMission} (d : CoreStageDecision)
        → Steps start m
        → decide_core prints fingerprint spec m ≡ some (d, n)
        → Steps start n
    resolved :
        {m n : IssuedMission} (r : CoreReviewResolution)
        → Steps start m
        → review_core prints fingerprint spec m r ≡ some n
        → Steps start n
    halted_by :
        {m n : IssuedMission} (d : CoreStageDecision)
        → Steps start m
        → stop_core prints fingerprint spec m d ≡ some n
        → Steps start n

  decide_core_lem :
      (m n : IssuedMission) (d : CoreStageDecision)
      → decide_core prints fingerprint spec m ≡ some (d, n)
      → (decide prints m.mission spec ≡ some d) × (n.mission ≡ m.mission)
  unfolding decide_core
  decide_core_lem m n d e = elim (Option-cases (decide prints m.mission spec)) [
    | inl empty ↦ absurd (cc (rw (decide_core, empty) at e))
    | inr (x, made) ↦
        let same = of_some (rw (decide_core, made) at e) in
        (
          made ∙ ap some (ap (λ (p : CoreStageDecision × IssuedMission). p.0) same),
          sym (ap (λ (p : CoreStageDecision × IssuedMission). p.1.mission) same),
        )
  ]

  stop_core_lem :
      (m n : IssuedMission) (d : CoreStageDecision)
      → stop_core prints fingerprint spec m d ≡ some n
      → WasStopped n.mission
  unfolding stop_core
  stop_core_lem m n d e =
      subst (λ (x : IssuedMission). WasStopped x.mission)
        (of_some (if-eq-some _ (some (stopped_by m d)) n e).1)
        (halted-WasStopped _ (d.session_id, refl))

  review_core_lem :
      (m n : IssuedMission) (r : CoreReviewResolution)
      → review_core prints fingerprint spec m r ≡ some n
      → WasStopped m.mission
      → WasStopped n.mission
  unfolding review_core
  review_core_lem m n r e w =
      subst (λ (x : IssuedMission). WasStopped x.mission)
        (of_some (if-eq-some _ (some (reviewed m r)) n e).1) w

  Steps-WasStopped : (m n : IssuedMission) → WasStopped m.mission → Steps m n → WasStopped n.mission
  Steps-WasStopped m _ w here = w
  Steps-WasStopped m n w (decided {m = k} d before e) =
      subst WasStopped (sym (decide_core_lem k n d e).1) (Steps-WasStopped m k w before)
  Steps-WasStopped m n w (resolved {m = k} r before e) =
      review_core_lem k n r e (Steps-WasStopped m k w before)
  Steps-WasStopped m n w (halted_by {m = k} d before e) = stop_core_lem k n d e

  valid-WasStopped :
      (m : IssuedMission) (d : CoreStageDecision)
      → WasStopped m.mission
      → validate_core_decision prints fingerprint spec m d ≡ true
      → d.outcome ≡ stopped
  unfolding validate_core_decision
  valid-WasStopped m d w h = on_expected _ refl (and-eq-true _ _ h).1
    where
      on_expected :
          (o : Option CoreStageDecision)
          → decide prints m.mission spec ≡ o
          → matches o d ≡ true
          → d.outcome ≡ stopped
      on_expected none e f = cc
      on_expected (some x) e f = sym (outcome-decision_eq x d f) ∙ outcome-decide m.mission x w e

  -- Once a person has stopped a mission, whatever decisions, reviews and stops follow, each decision that is issued
  -- reports the stop, and no other decision is valid.
  pub stop_core-IsFinal :
      (m n p : IssuedMission) (d : CoreStageDecision)
      → stop_core prints fingerprint spec m d ≡ some n
      → Steps n p
      → ((e : CoreStageDecision) (q : IssuedMission)
          → decide_core prints fingerprint spec p ≡ some (e, q)
          → e.outcome ≡ stopped)
        × ((e : CoreStageDecision)
            → validate_core_decision prints fingerprint spec p e ≡ true
            → e.outcome ≡ stopped)
  stop_core-IsFinal m n p d h steps =
      let w = Steps-WasStopped n p (stop_core_lem m n d h) steps in
      (
        λ e q i. outcome-decide p.mission e w (decide_core_lem p q e i).0,
        λ e i. valid-WasStopped p e w i,
      )

  -- A review or a stop uses up the decision that is issued.
  pub data Consumes (m n : IssuedMission) : Type 0 where
    by_review :
        (r : CoreReviewResolution) → review_core prints fingerprint spec m r ≡ some n → Consumes m n
    by_stop :
        (d : CoreStageDecision) → stop_core prints fingerprint spec m d ≡ some n → Consumes m n

  -- No decision can be reviewed, be stopped with, or be found by its identifier.
  abbrev pub IsSpent : IssuedMission → Type 0
  IsSpent n =
      ((d : CoreStageDecision) → validate_core_decision prints fingerprint spec n d ≡ false)
      × ((r : CoreReviewResolution) → review_core prints fingerprint spec n r ≡ none)
      × ((d : CoreStageDecision) → stop_core prints fingerprint spec n d ≡ none)
      × ((id : String) → issued_core prints fingerprint spec n id ≡ none)

  Consumes-consumed : (m n : IssuedMission) → Consumes m n → n.consumed ≡ some true
  unfolding review_core stop_core
  Consumes-consumed m n (by_review r e) =
      ap (λ (x : IssuedMission). x.consumed)
        (sym (of_some (if-eq-some _ (some (reviewed m r)) n e).1))
  Consumes-consumed m n (by_stop d e) =
      ap (λ (x : IssuedMission). x.consumed)
        (sym (of_some (if-eq-some _ (some (stopped_by m d)) n e).1))

  invalid_of_consumed :
      (n : IssuedMission) (d : CoreStageDecision)
      → n.consumed ≡ some true
      → validate_core_decision prints fingerprint spec n d ≡ false
  unfolding validate_core_decision
  invalid_of_consumed n d e = rw e refl

  unidentified :
      (n : IssuedMission) (id : String) (o : Option CoreStageDecision)
      → ((d : CoreStageDecision) → validate_core_decision prints fingerprint spec n d ≡ false)
      → issued_with prints fingerprint spec n id o ≡ none
  unidentified n id none h = refl
  unidentified n id (some d) h =
      if_ind (λ (o : Option CoreStageDecision). o ≡ none) (not (str_eq (fingerprint d) id)) _ _
        (λ _. refl) (λ _. rw (h d) refl)

  -- After a successful review or stop, no decision is valid, no review and no stop succeeds, and no identifier finds an
  -- issued decision, until another decision is issued: a decision is used at most once.
  pub Consumes-IsSpent : (m n : IssuedMission) → Consumes m n → IsSpent n
  unfolding review_core stop_core issued_core
  Consumes-IsSpent m n c =
      let used = Consumes-consumed m n c in
      let invalid = λ (d : CoreStageDecision). invalid_of_consumed n d used in
      (
        invalid,
        λ r. unreviewed r (invalid r.decision),
        λ d. rw (invalid d) refl,
        λ id. unidentified n id n.issued invalid,
      )
    where
      unreviewed :
          (r : CoreReviewResolution)
          → validate_core_decision prints fingerprint spec n r.decision ≡ false
          → review_core prints fingerprint spec n r ≡ none
      unreviewed r h = ground (arith, h)
