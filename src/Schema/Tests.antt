-- ===== src/Schema/Tests.antt =====
-- A task's state after one observation, and a completed node.
use decode.Prelude.{◌≡◌, ◌≤◌, refl, true, false, Exists, none, some, [], ◌∷◌, is_nonempty}
use decode.Values.{end}
use decode.Schema.TaskState.{TaskState, investigating, Report, record_observation}
use decode.Schema.TaskState.Laws.{here, then_, saw, IsSound, Steps-IsSound}
use decode.Schema.ActiveNode.{
  ActiveNodeResult, ActiveObservation, completed, failed, policy, valid, validate, IsProtected,
  is_escalated, executions, validate_completed,
}

abbrev fresh : TaskState
fresh = record {
  revision = 0;
  hypotheses = [];
  actions = [];
  observations = [];
  findings = [];
  artifacts = [];
  unresolved_questions = [];
  status = investigating;
}

abbrev report : Report
report = record {
  success = true;
  summary = "open port";
  data_ = end;
  evidence_id = "e1";
  evidence_sha256 = "ab";
}

fresh-IsSound : IsSound fresh
fresh-IsSound = record {
  actions_count = tt;
  observations_count = tt;
  linked_all = tt;
  questions_distinct = tt;
}

Steps-IsSound_example : IsSound (record_observation "scan" report fresh)
Steps-IsSound_example =
    Steps-IsSound fresh (record_observation "scan" report fresh) (then_ here (saw "scan" report))
      fresh-IsSound

abbrev observation : ActiveObservation
observation = record {
  request_id = "r1";
  capability = "scan";
  provider = "host";
  status = "success";
  success = true;
  error_category = "";
  evidence_id = "e1";
  evidence_hash = "ab";
  signals = [];
}

abbrev done_node : ActiveNodeResult
done_node = record {
  session_id = "s";
  node_id = "n";
  workflow_fingerprint = "";
  node_fingerprint = "";
  outcome = completed;
  gate_passed = true;
  attempts = 1;
  observations = observation ∷ [];
  failed_criteria = [];
  escalation = none;
}

abbrev failed_node : ActiveNodeResult
failed_node = record {
  session_id = "s";
  node_id = "n";
  workflow_fingerprint = "";
  node_fingerprint = "";
  outcome = failed;
  gate_passed = false;
  attempts = 1;
  observations = observation ∷ [];
  failed_criteria = [];
  escalation = some (record { kind = policy; request_id = "r1" });
}

done_is_valid : validate done_node ≡ valid
unfolding validate
done_is_valid = refl

failed_is_valid : validate failed_node ≡ valid
unfolding validate
failed_is_valid = refl

validate_completed_example :
    (true ≡ true)
    × Exists IsProtected (observation ∷ [])
    × (is_nonempty done_node.failed_criteria ≡ false)
    × (is_escalated done_node.escalation ≡ false)
    × (executions (observation ∷ []) ≤ 1)
validate_completed_example = validate_completed done_node done_is_valid refl
