-- ===== src/Schema/TaskState.antt =====
-- schema/task_state.py: `TaskState`, whose lists only its methods change. Identifiers and time stamps of
-- the records are left out.
pub mod Laws
use decode.Prelude.{
  ℕ, ◌+◌, String, Bool, true, false, not, ◌&&◌, List, [], ◌∷◌, ◌++◌, length, mem, remove_first,
  is_empty, if◌then◌else◌,
}
use decode.Prelude.Text.{take_chars}
use decode.Values.{Fields, Float}

pub data TaskStatus : Type 0 where
  investigating blocked complete failed : TaskStatus

pub record ActionRecord : Type 0 where
  pub step : ℕ
  pub tool : String
  pub params : Fields
  pub thought : String

pub record Observation : Type 0 where
  pub step : ℕ
  pub tool : String
  pub success : Bool
  pub summary : String
  pub data_ : Fields
  pub evidence_ref : String
  pub evidence_hash : String

pub record Artifact : Type 0 where
  pub source : String
  pub action : String
  pub related_step : ℕ
  pub summary : String
  pub evidence_id : String
  pub evidence_hash : String
  pub confidence : String

pub record Hypothesis : Type 0 where
  pub statement : String
  pub status : String
  pub confidence : Float

pub record Finding : Type 0 where
  pub title : String
  pub detail : String
  pub severity : String
  pub confidence : String
  pub evidence_ref : String
  pub related_action : String

-- Of the fields of `TaskState`, those that its methods change.
pub record TaskState : Type 0 where
  pub revision : ℕ
  pub hypotheses : List Hypothesis
  pub actions : List ActionRecord
  pub observations : List Observation
  pub findings : List Finding
  pub artifacts : List Artifact
  pub unresolved_questions : List String
  pub status : TaskStatus

-- What `record_observation` reads from its mapping: the fields that are missing are empty, and data that is no mapping is
-- refused before.
pub record Report : Type 0 where
  pub success : Bool
  pub summary : String
  pub data_ : Fields
  pub evidence_id : String
  pub evidence_sha256 : String

-- `_touch`
unfoldable pub touch : TaskState → TaskState
touch s = record s { revision = s.revision + 1 }

unfoldable pub record_action : String → Fields → String → TaskState → TaskState
unfolding touch
record_action tool params thought s =
    let action : ActionRecord = record {
      step = length s.actions + 1;
      tool = tool;
      params = params;
      thought = thought;
    } in
    touch (record s { actions = s.actions ++ action ∷ [] })

unfoldable pub add_artifact : Artifact → TaskState → TaskState
unfolding touch
add_artifact artifact s = touch (record s { artifacts = s.artifacts ++ artifact ∷ [] })

abbrev pub observed : ℕ → String → Report → Observation
observed step tool report = record {
  step = step;
  tool = tool;
  success = report.success;
  summary = take_chars 400 report.summary;
  data_ = report.data_;
  evidence_ref = report.evidence_id;
  evidence_hash = report.evidence_sha256;
}

-- the artifact that links the evidence of an observation
abbrev pub linked : Observation → Artifact
linked obs = record {
  source = obs.tool;
  action = obs.tool;
  related_step = obs.step;
  summary = obs.summary;
  evidence_id = obs.evidence_ref;
  evidence_hash = obs.evidence_hash;
  confidence = "medium";
}

unfoldable pub record_observation : String → Report → TaskState → TaskState
unfolding touch add_artifact
record_observation tool report s =
    let obs = observed (length s.observations + 1) tool report in
    let s1 : TaskState = record s { observations = s.observations ++ obs ∷ [] } in
    touch (if not (is_empty obs.evidence_ref) then add_artifact (linked obs) s1 else s1)

unfoldable pub add_hypothesis : Hypothesis → TaskState → TaskState
unfolding touch
add_hypothesis h s = touch (record s { hypotheses = s.hypotheses ++ h ∷ [] })

unfoldable pub add_finding : Finding → TaskState → TaskState
unfolding touch
add_finding f s = touch (record s { findings = s.findings ++ f ∷ [] })

unfoldable pub add_question : String → TaskState → TaskState
unfolding touch
add_question q s =
    if not (is_empty q) && not (mem q s.unresolved_questions)
    then touch (record s { unresolved_questions = s.unresolved_questions ++ q ∷ [] })
    else s

unfoldable pub resolve_question : String → TaskState → TaskState
unfolding touch
resolve_question q s =
    if mem q s.unresolved_questions
    then touch (record s { unresolved_questions = remove_first q s.unresolved_questions })
    else s

unfoldable pub mark : TaskStatus → TaskState → TaskState
unfolding touch
mark status s = touch (record s { status = status })
