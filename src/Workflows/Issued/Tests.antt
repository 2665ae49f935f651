-- ===== src/Workflows/Issued/Tests.antt =====
-- Examples: a mission that a person stops before its stage is handed over.
use decode.Prelude.{◌≡◌, refl, String, true, false, some, []}
use decode.Workflows.Decisions.{CoreStageDecision, stopped}
use decode.Workflows.Equality.{decision_eq}
use decode.Planner.Order.{topological_order}
use decode.Workflows.Issued.{
  IssuedMission, decide_core, validate_core_decision, stop_core, stopped_by,
}
use decode.Workflows.Issued.Laws.{here, stop_core-IsFinal, by_stop, IsSpent, Consumes-IsSpent}
use decode.Workflows.Tests.{spec, prints, mission, handed_over}

abbrev offered : IssuedMission
offered = record {
  mission = mission "pending" [];
  issued = some handed_over;
  consumed = some false;
}

abbrev text_of : CoreStageDecision → String
text_of d = "decision"

offered_stopped :
    stop_core prints text_of spec offered handed_over ≡ some (stopped_by offered handed_over)
unfolding stop_core topological_order decision_eq decode.Workflows.Budget.stop_reason
    decode.Workflows.Decisions.bound_decision
offered_stopped = refl

-- the decision cannot be used again
used_refused :
    validate_core_decision prints text_of spec (stopped_by offered handed_over) handed_over ≡ false
unfolding validate_core_decision
used_refused = refl

stop_core-IsFinal_example :
    ((e : CoreStageDecision) (q : IssuedMission)
      → decide_core prints text_of spec (stopped_by offered handed_over) ≡ some (e, q)
      → e.outcome ≡ stopped)
    × ((e : CoreStageDecision)
        → validate_core_decision prints text_of spec (stopped_by offered handed_over) e ≡ true
        → e.outcome ≡ stopped)
stop_core-IsFinal_example =
    stop_core-IsFinal prints text_of spec offered (stopped_by offered handed_over)
      (stopped_by offered handed_over) handed_over offered_stopped here

Consumes-IsSpent_example : IsSpent prints text_of spec (stopped_by offered handed_over)
Consumes-IsSpent_example =
    Consumes-IsSpent prints text_of spec offered (stopped_by offered handed_over)
      (by_stop handed_over offered_stopped)
