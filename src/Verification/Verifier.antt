-- ===== src/Verification/Verifier.antt =====
-- verification/verifier.py: `Verifier` and `ModelVerifier`. The completion conditions of the task state, which
-- no method changes, are an argument.
pub mod Laws
use decode.Prelude.{
  ℕ, suc, String, Bool, true, false, not, ◌&&◌, Option, none, some, List, [], ◌∷◌, map, length,
  get_last?, is_empty, is_nonempty, if◌then◌else◌,
}
use decode.Values.{
  Value, Items, Fields, null, bool, int, pos, text, list, dict, nil, end, item, field,
}
use decode.Values.Equality.{get_field}
use decode.Values.Truth.{is_true, got, or_empty, iterate}
use decode.Planner.Graph.{CompletionCriterion}
use decode.Planner.Completion.{evaluate_completion}
use decode.Schema.TaskState.{
  TaskState, TaskStatus, investigating, blocked, complete, failed, Observation, Artifact, Finding,
}

pub record VerificationResult : Type 0 where
  pub valid : Bool
  pub reasons : List String
  pub failed_criteria : List String

-- the value of the status
abbrev pub status_text : TaskStatus → String
status_text investigating = "investigating"
status_text blocked = "blocked"
status_text complete = "complete"
status_text failed = "failed"

abbrev pub count_successes : List Observation → ℕ
count_successes [] = 0
count_successes (o ∷ os) = let n = count_successes os in if o.success then suc n else n

abbrev pub count_evidence : List Artifact → ℕ
count_evidence [] = 0
count_evidence (a ∷ rest) =
    let n = count_evidence rest in
    if not (is_empty a.evidence_id) && not (is_empty a.evidence_hash) then suc n else n

abbrev titles : List Finding → Items
titles [] = nil
titles (f ∷ fs) = item (text f.title) (titles fs)

-- the data of the last observation that is given, and otherwise of the latest that is recorded
abbrev last_data : Option Fields → Option Observation → Value
last_data (some fs) latest = or_empty (got "data" fs)
last_data none (some o) = dict o.data_
last_data none none = dict end

abbrev last_success : Option Observation → Bool
last_success none = false
last_success (some o) = o.success

unfoldable pub build_context : TaskState → Option Fields → Value
build_context s last =
    let latest = get_last? s.observations in
    dict (
      field "last_success" (bool (last_success latest)) (
        field "last_observation" (last_data last latest) (
          field "observations_count" (int (pos (length s.observations))) (
            field "successful_actions" (int (pos (count_successes s.observations))) (
              field "evidence_count" (int (pos (count_evidence s.artifacts))) (
                field "findings_count" (int (pos (length s.findings))) (
                  field "findings" (list (titles s.findings))
                    (field "status" (text (status_text s.status)) end))))))))

unfoldable pub verify : List CompletionCriterion → TaskState → Option Fields → VerificationResult
unfolding build_context evaluate_completion
verify conditions s last =
    if not (is_nonempty conditions)
    then record {
      valid = true;
      reasons = "no completion conditions declared; accepting" ∷ [];
      failed_criteria = [];
    }
    else let (done, failures) = evaluate_completion conditions (build_context s last) in
      record {
        valid = done;
        reasons = if done then [] else "completion conditions not met" ∷ [];
        failed_criteria = failures;
      }

-- What the reviewer model answers: `chat` may raise, and what it returns is parsed into a mapping.
pub data Review : Type 0 where
  unavailable : Review
  reply : Fields → Review

abbrev accepting : String → VerificationResult
accepting reason = record { valid = true; reasons = reason ∷ []; failed_criteria = [] }

-- the verdict of a reply with `valid`, and its reasons
abbrev judged : Bool → List String → VerificationResult
judged ok reasons = record {
  valid = ok;
  reasons =
      if not ok && not (is_nonempty reasons)
      then "reviewer judged the objective not yet met" ∷ []
      else reasons;
  failed_criteria = [];
}

-- `str` of a value is a parameter; none: the reasons cannot be iterated, which raises `TypeError`.
unfoldable pub review : (Value → String) → Review → Option VerificationResult
review str unavailable = some (accepting "reviewer unavailable; accepting")
review str (reply decision) = elim (get_field "valid" decision) [
  | none ↦ some (accepting "reviewer reply not parseable; accepting")
  | some v ↦ elim (iterate (got "reasons" decision)) [
    | none ↦ none
    | some reasons ↦ some (judged (is_true v) (map str reasons))
  ]
]

-- `ModelVerifier.verify`: the reviewer is asked only where the rules accept.
unfoldable pub model_verify :
    (Value → String)
    → Review
    → List CompletionCriterion
    → TaskState
    → Option Fields
    → Option VerificationResult
unfolding verify review
model_verify str reviewer conditions s last =
    let base = verify conditions s last in if not base.valid then some base else review str reviewer
