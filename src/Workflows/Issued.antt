-- ===== src/Workflows/Issued.antt =====
-- workflows/runner.py: the decisions that a mission issues and what consumes them, on the state that `_load` gives. Where
-- a call raises, or a check that it makes, there is no state and nothing is saved.
mod Laws
mod Tests
use decode.Prelude.{
  ◌+◌, String, Bool, true, false, not, ◌&&◌, ◌||◌, Option, none, some, str_eq, if◌then◌else◌,
}
use decode.Schema.TaskState.{TaskStatus}
use decode.Workflows.Specs.{WorkflowSpec}
use decode.Workflows.Decisions.{
  CoreOutcome, CoreStageDecision, CoreReviewResolution, review_required,
}
use decode.Workflows.Equality.{decision_eq}
use decode.Workflows.Planner.{MissionState, Fingerprints, is_failed, is_complete, decide}

-- A mission with its issued decision (none: there is none that its class admits) and the mark of its use.
pub record IssuedMission : Type 0 where
  pub mission : MissionState
  pub issued : Option CoreStageDecision
  pub consumed : Option Bool

-- `is not False`
abbrev is_unused : Option Bool → Bool
is_unused (some false) = true
is_unused _ = false

abbrev matches : Option CoreStageDecision → CoreStageDecision → Bool
matches none decision = false
matches (some d) decision = decision_eq d decision

-- `TaskState.mark`, `TaskState._touch`
abbrev marked : TaskStatus → MissionState → MissionState
marked status s = record s { status = status; revision = s.revision + 1 }

abbrev touched : MissionState → MissionState
touched s = record s { revision = s.revision + 1 }

abbrev failed_outcome : CoreOutcome → Bool
failed_outcome CoreOutcome.failed = true
failed_outcome _ = false

abbrev pub halted : MissionState → MissionState
halted s =
    if is_complete s.status || is_failed s.status then touched s else marked TaskStatus.blocked s

abbrev pub reviewed : IssuedMission → CoreReviewResolution → IssuedMission
reviewed m r = record m {
  mission =
      marked (if failed_outcome r.decision.outcome then TaskStatus.failed else TaskStatus.blocked)
        (record m.mission { resolution = some r });
  consumed = some true;
}

abbrev pub stopped_by : IssuedMission → CoreStageDecision → IssuedMission
stopped_by m decision = record m {
  mission = halted (record m.mission { stop = some decision.session_id });
  consumed = some true;
}

module _ (prints : Fingerprints) (fingerprint : CoreStageDecision → String)
    (spec : WorkflowSpec) where
  abbrev issued_as :
      IssuedMission → Option CoreStageDecision → Option (CoreStageDecision × IssuedMission)
  issued_as m none = none
  issued_as m (some d) = some (d, record m { issued = some d; consumed = some false })

  unfoldable pub decide_core : IssuedMission → Option (CoreStageDecision × IssuedMission)
  unfolding decide
  decide_core m = issued_as m (decide prints m.mission spec)

  -- `_validate_core_decision`; false: it raises
  unfoldable pub validate_core_decision : IssuedMission → CoreStageDecision → Bool
  unfolding decide
  validate_core_decision m decision =
      is_unused m.consumed
      && matches m.issued decision
      && matches (decide prints m.mission spec) decision

  abbrev issued_with : IssuedMission → String → Option CoreStageDecision → Option CoreStageDecision
  issued_with m text none = none
  issued_with m text (some d) =
      if not (str_eq (fingerprint d) text)
      then none
      else if validate_core_decision m d
      then some d
      else none

  unfoldable pub issued_core : IssuedMission → String → Option CoreStageDecision
  unfolding validate_core_decision
  issued_core m text = issued_with m text m.issued

  unfoldable pub review_core : IssuedMission → CoreReviewResolution → Option IssuedMission
  unfolding validate_core_decision
  review_core m r =
      if review_required r && validate_core_decision m r.decision then some (reviewed m r) else none

  unfoldable pub stop_core : IssuedMission → CoreStageDecision → Option IssuedMission
  unfolding validate_core_decision
  stop_core m decision =
      if validate_core_decision m decision then some (stopped_by m decision) else none
