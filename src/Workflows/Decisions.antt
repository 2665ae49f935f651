-- ===== src/Workflows/Decisions.antt =====
-- workflows/models.py: `CoreReviewRequest` and `CoreStageDecision`, with the validators that admit them. The patterns
-- of identifiers and fingerprints are left out.
use decode.Prelude.{
  ℕ, String, Bool, true, false, not, ◌&&◌, ◌||◌, Option, none, some, List, [], ◌∷◌, mem, str_eq,
  is_empty, ltb, leb, if◌then◌else◌,
}
use decode.Schema.ActiveNode.{
  ActiveOutcome, needs_replan, ActiveEscalationKind, material_change, is_completed,
}

pub data ReviewCategory : Type 0 where
  material_replan escalation review : ReviewCategory

pub record CoreReviewRequest : Type 0 where
  pub category : ReviewCategory
  pub public_reason : String
  pub stage_id : String
  pub node_fingerprint : String
  pub active_fingerprint : String
  pub active_outcome : Option ActiveOutcome
  pub escalation_kind : Option ActiveEscalationKind

abbrev pub review_reason : ReviewCategory → String
review_reason material_replan =
    "material replanning requires separate human review; no changes applied"
review_reason escalation = "Active escalation requires human review; no automatic retry"
review_reason review = "mission stop requires human review; no authority granted"

abbrev pub same_truth : Bool → Bool → Bool
same_truth a b = if a then b else not b

abbrev is_sourced : ReviewCategory → Bool
is_sourced review = false
is_sourced _ = true

abbrev is_material_replan : ReviewCategory → Bool
is_material_replan material_replan = true
is_material_replan _ = false

abbrev pub wants_replan : ActiveOutcome → Bool
wants_replan needs_replan = true
wants_replan _ = false

abbrev pub is_material_change : ActiveEscalationKind → Bool
is_material_change material_change = true
is_material_change _ = false

-- the source of an escalation: outcome and kind, both or neither
abbrev source_admitted :
    CoreReviewRequest → Option ActiveOutcome → Option ActiveEscalationKind → Bool
source_admitted r (some outcome) (some kind) =
    is_sourced r.category
    && not (is_empty r.stage_id)
    && not (is_completed outcome)
    && same_truth (is_material_replan r.category) (wants_replan outcome || is_material_change kind)
source_admitted r none none = not (is_sourced r.category)
source_admitted r _ _ = false

-- `bound_source`
unfoldable pub bound_source : CoreReviewRequest → Bool
bound_source r =
    str_eq r.public_reason (review_reason r.category)
    && same_truth (is_empty r.stage_id) (is_empty r.node_fingerprint)
    && same_truth (is_sourced r.category) (not (is_empty r.active_fingerprint))
    && source_admitted r r.active_outcome r.escalation_kind

pub data CoreOutcome : Type 0 where
  delegate await_approval needs_review complete failed budget_exhausted stopped : CoreOutcome

pub record CoreStageDecision : Type 0 where
  pub session_id : String
  pub state_version : ℕ
  pub state_fingerprint : String
  pub workflow_fingerprint : String
  pub outcome : CoreOutcome
  pub public_reason : String
  pub stage_id : String
  pub node_fingerprint : String
  pub max_steps : ℕ
  pub review_request : Option CoreReviewRequest

abbrev pub reasons : CoreOutcome → List String
reasons delegate = "one ready stage delegated within its existing bounds" ∷ []
reasons await_approval = "human workflow gate requires explicit approval" ∷ []
reasons needs_review =
    "interrupted or review-paused work requires human review"
    ∷ "completed work lacks bound Active verification"
    ∷ "task has unresolved questions or no ready work" ∷ []
reasons complete = "all workflow stages have bound completion" ∷ []
reasons failed = "workflow failure requires review; no automatic replay" ∷ []
reasons budget_exhausted =
    "mission stage-dispatch budget exhausted"
    ∷ "mission step-reservation budget cannot cover the next stage" ∷ []
reasons stopped = "mission explicitly stopped by human; no automatic resume" ∷ []

abbrev pub is_delegate : CoreOutcome → Bool
is_delegate delegate = true
is_delegate _ = false

-- the outcome is about a node
abbrev pub is_bound : CoreOutcome → Bool
is_bound delegate = true
is_bound await_approval = true
is_bound _ = false

-- the outcome is a stop for a review
abbrev pub is_review_stop : CoreOutcome → Bool
is_review_stop needs_review = true
is_review_stop failed = true
is_review_stop budget_exhausted = true
is_review_stop _ = false

abbrev pub has_request : Option CoreReviewRequest → Bool
has_request none = false
has_request (some r) = true

-- `bound_decision`, with the bound of the steps
unfoldable pub bound_decision : CoreStageDecision → Bool
bound_decision d =
    mem d.public_reason (reasons d.outcome)
    && (if is_bound d.outcome
        then not (is_empty d.stage_id || is_empty d.node_fingerprint)
        else not (not (is_empty d.stage_id) || not (is_empty d.node_fingerprint)))
    && same_truth (is_delegate d.outcome) (ltb 0 d.max_steps)
    && not (has_request d.review_request && not (is_review_stop d.outcome))
    && leb d.max_steps 32

-- the decision that the class makes; none: `ValueError`
abbrev pub decided : CoreStageDecision → Option CoreStageDecision
decided d = if bound_decision d then some d else none

pub data Disposition : Type 0 where
  acknowledged rejected : Disposition

pub record CoreReviewResolution : Type 0 where
  pub decision : CoreStageDecision
  pub disposition : Disposition

-- `review_required`
abbrev pub review_required : CoreReviewResolution → Bool
review_required r = has_request r.decision.review_request
