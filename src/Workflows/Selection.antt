-- ===== src/Workflows/Selection.antt =====
-- workflows/registry.py: `CoreWorkflowPlanner.select`; workflows/models.py: `CoreWorkflowSelection` and its validator.
-- The fingerprints of intents and workflows are parameters.
pub mod Laws
use decode.Prelude.{
  ℕ, ◌≡◌, refl, String, Bool, true, false, not, ◌&&◌, ◌||◌, Option, none, some, List, [], ◌∷◌, ◌++◌,
  keep, mem, str_eq, is_empty, is_nonempty, ltb, length, if◌then◌else◌,
}
use decode.Prelude.Dict.{Dict, lookup}
use decode.Capabilities.Registry.{TaskMode, coding, security, hybrid}
use decode.Workflows.Gate.{WorkflowGate}
use decode.Workflows.Specs.{WorkflowSpec, WorkflowStage, are_unique}

pub record CoreIntent : Type 0 where
  pub objective : String
  pub mode : TaskMode
  pub workflow_name : String

pub record ReviewedWorkflow : Type 0 where
  pub name : String
  pub version : String
  pub fingerprint : String

pub data SelectionOutcome : Type 0 where
  selected needs_input blocked : SelectionOutcome

pub record CoreWorkflowSelection : Type 0 where
  pub intent_fingerprint : String
  pub outcome : SelectionOutcome
  pub public_reason : String
  pub workflow : Option ReviewedWorkflow
  pub criteria : List (String × WorkflowGate)

abbrev pub is_selected : SelectionOutcome → Bool
is_selected selected = true
is_selected _ = false

abbrev pub wants_input : SelectionOutcome → Bool
wants_input needs_input = true
wants_input _ = false

abbrev selected_reasons : List String
selected_reasons =
    "explicit reviewed workflow selected" ∷ "only compatible reviewed workflow selected" ∷ []

abbrev input_reasons : List String
input_reasons =
    "multiple reviewed workflows match; choose one explicitly"
    ∷ "no reviewed workflow matches the requested mode" ∷ []

abbrev pub has_workflow : Option ReviewedWorkflow → Bool
has_workflow none = false
has_workflow (some w) = true

-- `selected_workflow_required`: the selection is admitted
unfoldable pub selected_workflow_required : CoreWorkflowSelection → Bool
selected_workflow_required s =
    (if is_selected s.outcome
      then has_workflow s.workflow && is_nonempty s.criteria && mem s.public_reason selected_reasons
      else not (
          has_workflow s.workflow
          || is_nonempty s.criteria
          || mem s.public_reason selected_reasons))
    && (if wants_input s.outcome
        then mem s.public_reason input_reasons
        else not (mem s.public_reason input_reasons))

-- the selection that the class makes; none: `ValueError`
abbrev pub made : CoreWorkflowSelection → Option CoreWorkflowSelection
made s = if selected_workflow_required s then some s else none

abbrev pub mode_eq : TaskMode → TaskMode → Bool
mode_eq coding coding = true
mode_eq security security = true
mode_eq hybrid hybrid = true
mode_eq _ _ = false

abbrev pub pin_names : List ReviewedWorkflow → List String
pin_names [] = []
pin_names (p ∷ ps) = p.name ∷ pin_names ps

-- `stage.id: stage.gate` for the stages, whose ids are unique
abbrev pub criteria_of : List WorkflowStage → List (String × WorkflowGate)
criteria_of [] = []
criteria_of (s ∷ ss) = (s.id, s.gate) ∷ criteria_of ss

abbrev pub pins_for : CoreIntent → List ReviewedWorkflow → List ReviewedWorkflow
pins_for intent pins =
    if not (is_empty intent.workflow_name)
    then keep (λ (p : ReviewedWorkflow). str_eq p.name intent.workflow_name) pins
    else pins

-- The end of the loop over the pins: an unresolved selection, with its reason, or the candidates.
pub data Candidates : Type 0 where
  unresolved : String → Candidates
  found : List WorkflowSpec → Candidates

module _ (fingerprint : WorkflowSpec → String) where
  -- the workflow of the registry is the one that was reviewed
  abbrev pub is_current : WorkflowSpec → ReviewedWorkflow → Bool
  is_current spec pin =
      not (not (str_eq spec.version pin.version) || not (str_eq (fingerprint spec) pin.fingerprint))

  -- the loop, with the candidates so far
  unfoldable pub candidates :
      Dict WorkflowSpec → CoreIntent → List ReviewedWorkflow → List WorkflowSpec → Candidates
  candidates registry intent [] specs = found specs
  candidates registry intent (pin ∷ pins) specs = elim (lookup pin.name registry) [
    | none ↦ unresolved "reviewed workflow is missing or changed"
    | some spec ↦
        if not (is_current spec pin)
        then unresolved "reviewed workflow is missing or changed"
        else if not (mode_eq spec.mode intent.mode)
        then (if not (is_empty intent.workflow_name)
            then unresolved "requested workflow mode does not match intent"
            else candidates registry intent pins specs)
        else candidates registry intent pins (specs ++ spec ∷ [])
  ]

  module _ (intent_fingerprint : CoreIntent → String) where
    abbrev pub unresolved_as : CoreIntent → SelectionOutcome → String → Option CoreWorkflowSelection
    unresolved_as intent outcome reason = made (record {
      intent_fingerprint = intent_fingerprint intent;
      outcome = outcome;
      public_reason = reason;
      workflow = none;
      criteria = [];
    })

    abbrev pub selection_of : CoreIntent → WorkflowSpec → CoreWorkflowSelection
    selection_of intent chosen = record {
      intent_fingerprint = intent_fingerprint intent;
      outcome = selected;
      public_reason =
          if not (is_empty intent.workflow_name)
          then "explicit reviewed workflow selected"
          else "only compatible reviewed workflow selected";
      workflow = some (record {
        name = chosen.name;
        version = chosen.version;
        fingerprint = fingerprint chosen;
      });
      criteria = criteria_of chosen.stages;
    }

    -- the selection behind the loop
    unfoldable pub select_of : CoreIntent → Candidates → Option CoreWorkflowSelection
    unfolding selected_workflow_required
    select_of intent (unresolved reason) = unresolved_as intent blocked reason
    select_of intent (found []) =
        unresolved_as intent needs_input "no reviewed workflow matches the requested mode"
    select_of intent (found (chosen ∷ [])) = made (selection_of intent chosen)
    select_of intent (found (a ∷ b ∷ specs)) =
        unresolved_as intent needs_input "multiple reviewed workflows match; choose one explicitly"

    -- none: `ValueError`
    unfoldable pub select :
        Dict WorkflowSpec → CoreIntent → List ReviewedWorkflow → Option CoreWorkflowSelection
    unfolding candidates select_of
    select registry intent reviewed =
        if ltb 64 (length reviewed)
        then none
        else if not (are_unique (pin_names reviewed))
        then none
        else if not (is_empty intent.workflow_name) && not (is_nonempty (pins_for intent reviewed))
        then unresolved_as intent blocked "requested workflow is not reviewed"
        else select_of intent (candidates registry intent (pins_for intent reviewed) [])
