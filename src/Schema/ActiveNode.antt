-- ===== src/Schema/ActiveNode.antt =====
-- schema/task_state.py: `ActiveNodeResult`, which its validator keeps honest. The patterns of the
-- fingerprints and the bounds on lengths are left out.
use decode.Prelude.{
  ℕ, ◌+◌, ◌≤◌, ◌≡◌, ◌≢◌, String, Bool, true, false, not, ◌&&◌, ◌||◌, Option, none, some, List, [],
  ◌∷◌, any, ltb, is_empty, is_nonempty, str_eq, if◌then◌else◌, Exists, Bool-cases, inl, inr, arith,
}
use decode.Prelude.Dict.{Dict}

pub data ActiveOutcome : Type 0 where
  completed needs_replan blocked failed : ActiveOutcome

pub data ActiveEscalationKind : Type 0 where
  policy approval dependency verification timeout cancellation : ActiveEscalationKind
  safety execution budget material_change legacy_unclassified : ActiveEscalationKind

pub record ActiveEscalation : Type 0 where
  pub kind : ActiveEscalationKind
  pub request_id : String

pub record ActiveObservation : Type 0 where
  pub request_id : String
  pub capability : String
  pub provider : String
  pub status : String
  pub success : Bool
  pub error_category : String
  pub evidence_id : String
  pub evidence_hash : String
  pub signals : Dict String

pub record ActiveNodeResult : Type 0 where
  pub session_id : String
  pub node_id : String
  pub workflow_fingerprint : String
  pub node_fingerprint : String
  pub outcome : ActiveOutcome
  pub gate_passed : Bool
  pub attempts : ℕ
  pub observations : List ActiveObservation
  pub failed_criteria : List String
  pub escalation : Option ActiveEscalation

abbrev pub is_completed : ActiveOutcome → Bool
is_completed completed = true
is_completed _ = false

abbrev pub is_escalated : Option ActiveEscalation → Bool
is_escalated none = false
is_escalated (some e) = true

abbrev pub is_protected : ActiveObservation → Bool
is_protected o = o.success && not (is_empty o.evidence_id) && not (is_empty o.evidence_hash)

-- the escalation names a request that no observation has
abbrev pub is_dangling : Option ActiveEscalation → List ActiveObservation → Bool
is_dangling none os = false
is_dangling (some e) os =
    not (is_empty e.request_id)
    && not (any (λ (o : ActiveObservation). str_eq o.request_id e.request_id) os)

-- `sum(observation.status != "blocked" ...)`
abbrev pub executions : List ActiveObservation → ℕ
executions [] = 0
executions (o ∷ os) = if str_eq o.status "blocked" then executions os else executions os + 1

pub data Verdict : Type 0 where
  valid unproved_completion missing_escalation dangling_escalation too_few_attempts : Verdict

-- `completion_requires_observation_and_gate`
unfoldable pub validate : ActiveNodeResult → Verdict
validate r =
    if is_completed r.outcome
      && (not r.gate_passed
          || not (any is_protected r.observations)
          || is_nonempty r.failed_criteria
          || is_escalated r.escalation)
    then unproved_completion
    else if not (is_completed r.outcome) && not (is_escalated r.escalation)
    then missing_escalation
    else if is_dangling r.escalation r.observations
    then dangling_escalation
    else if ltb r.attempts (executions r.observations)
    then too_few_attempts
    else valid

-- An observation of success with protected evidence.
abbrev pub IsProtected : ActiveObservation → Type 0
IsProtected o =
    (o.success ≡ true) × (is_empty o.evidence_id ≡ false) × (is_empty o.evidence_hash ≡ false)

any-IsProtected : (os : List ActiveObservation) → any is_protected os ≡ true → Exists IsProtected os
any-IsProtected [] h = cc
any-IsProtected (o ∷ os) h = elim (Bool-cases (is_protected o)) [
  | inl e ↦ inl (ground arith, ground arith, ground arith)
  | inr e ↦ inr (any-IsProtected os (rw e at h))
]

-- A result that validates as completed has passed its gate, has an observation of success with protected
-- evidence, no failed criterion and no escalation, and counts at least as many attempts as executions.
pub validate_completed :
    (r : ActiveNodeResult)
    → validate r ≡ valid
    → r.outcome ≡ completed
    → (r.gate_passed ≡ true)
      × Exists IsProtected r.observations
      × (is_nonempty r.failed_criteria ≡ false)
      × (is_escalated r.escalation ≡ false)
      × (executions r.observations ≤ r.attempts)
unfolding validate
validate_completed r h e = (
  ground arith,
  any-IsProtected r.observations (ground arith),
  ground arith,
  ground arith,
  ground arith,
)

-- A result that validates and is not completed says why: it has an escalation, and if that names a request
-- then an observation has it.
pub validate_incomplete :
    (r : ActiveNodeResult)
    → validate r ≡ valid
    → r.outcome ≢ completed
    → (is_escalated r.escalation ≡ true) × (is_dangling r.escalation r.observations ≡ false)
unfolding validate
validate_incomplete r h e = (ground arith, ground arith)
