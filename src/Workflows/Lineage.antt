-- ===== src/Workflows/Lineage.antt =====
-- workflows/runner.py: `_validate_core_lineage`, on the states that the store loads. The fingerprint of a decision and
-- the dump of a selection are parameters; where the code raises there is no depth. Of a state it is kept what the
-- function reads, with the values of the environment as they are decoded.
pub mod Laws
mod Tests
use decode.Prelude.{
  ℕ, zero, suc, ◌+◌, String, Bool, true, false, not, ◌&&◌, ◌||◌, Option, none, some, List, [], ◌∷◌,
  mem, ltb, str_eq, if◌then◌else◌,
}
use decode.Prelude.Text.{texts_eq}
use decode.Values.{Value, text}
use decode.Values.Equality.{equal}
use decode.Planner.Graph.{CompletionCriterion}
use decode.Capabilities.Registry.{TaskMode}
use decode.Workflows.Budget.{CoreBudgetState}
use decode.Workflows.Decisions.{CoreStageDecision}
use decode.Workflows.Equality.{decision_eq, ScopeView, scope_eq, limits_eq, criteria_eq}
use decode.Workflows.Selection.{CoreWorkflowSelection, mode_eq}

-- An entry of the environment: not there, one that its class refuses, or the decoded one.
pub data Entry {ℓ} (A : Type ℓ) : Type ℓ where
  absent refused : Entry A
  held : A → Entry A

pub record CoreReplanOrigin : Type 0 where
  pub parent_session_id : String
  pub decision_fingerprint : String

pub record CoreReplanTransition : Type 0 where
  pub decision : CoreStageDecision
  pub replacement : CoreWorkflowSelection
  pub replacement_session_id : String

-- The state of a mission. `transition` and `stop` are none where they are absent or refused, since both raise; a value
-- that is absent is null.
pub record MissionRecord : Type 0 where
  pub session_id : String
  pub objective : String
  pub mode : TaskMode
  pub scope : ScopeView
  pub constraints : List String
  pub completion_conditions : List CompletionCriterion
  pub target : Value
  pub workflow_fingerprint : Value
  pub selection : Value
  pub origin : Entry CoreReplanOrigin
  pub transition : Option CoreReplanTransition
  pub stop : Option CoreStageDecision
  pub budget : Entry CoreBudgetState

abbrev is_present : {A : Type 0} → Entry A → Bool
is_present absent = false
is_present _ = true

-- the budget is not refunded or expanded; a refused one raises
unfoldable pub inherits : Entry CoreBudgetState → Entry CoreBudgetState → Bool
inherits parent absent = true
inherits (held inherited) (held current) = not (
    not (limits_eq current.limits inherited.limits)
    || ltb current.stage_dispatches inherited.stage_dispatches
    || ltb current.reserved_steps inherited.reserved_steps)
inherits _ _ = false

-- one of the two entries is there without the other
abbrev one_sided : Entry CoreBudgetState → Entry CoreBudgetState → Bool
one_sided a b = if is_present a then not (is_present b) else is_present b

-- What the parent hands on to the state is as it was.
unfoldable pub authority_changed : MissionRecord → MissionRecord → Bool
authority_changed state parent =
    not (str_eq state.objective parent.objective)
    || not (mode_eq state.mode parent.mode)
    || not (scope_eq state.scope parent.scope)
    || not (texts_eq state.constraints parent.constraints)
    || not (criteria_eq state.completion_conditions parent.completion_conditions)
    || not (equal state.target parent.target)
    || one_sided parent.budget state.budget

module _ (fingerprint : CoreStageDecision → String) (dump : CoreWorkflowSelection → Value)
    (load : String → Option MissionRecord) where
  -- the transition of the parent and its stop are those that led to the state
  unfoldable pub lineage_changed :
      MissionRecord
      → CoreReplanOrigin
      → MissionRecord
      → CoreReplanTransition
      → CoreStageDecision
      → Bool
  lineage_changed state origin parent transition stop =
      not (decision_eq stop transition.decision)
      || not (str_eq transition.decision.session_id parent.session_id)
      || not (str_eq (fingerprint transition.decision) origin.decision_fingerprint)
      || not (str_eq transition.replacement_session_id state.session_id)
      || not (equal (dump transition.replacement) state.selection)
      || not (equal (text stop.workflow_fingerprint) parent.workflow_fingerprint)

  -- the parent as it is checked
  unfoldable pub follows :
      MissionRecord
      → CoreReplanOrigin
      → MissionRecord
      → Option CoreReplanTransition
      → Option CoreStageDecision
      → Bool
  unfolding lineage_changed authority_changed inherits
  follows state origin parent (some transition) (some stop) =
      not (lineage_changed state origin parent transition stop || authority_changed state parent)
      && inherits parent.budget state.budget
  follows state origin parent _ _ = false

  abbrev pub admitted :
      MissionRecord → CoreReplanOrigin → Option MissionRecord → Option MissionRecord
  admitted state origin none = none
  admitted state origin (some parent) =
      if follows state origin parent parent.transition parent.stop then some parent else none

  unfoldable pub parent_of : List String → MissionRecord → CoreReplanOrigin → Option MissionRecord
  unfolding follows
  parent_of visited state origin =
      if mem origin.parent_session_id visited
      then none
      else admitted state origin (load origin.parent_session_id)

  -- the loop, with the transitions that may still follow: 32 less `depth`
  unfoldable pub walk : ℕ → List String → ℕ → MissionRecord → Entry CoreReplanOrigin → Option ℕ
  unfolding parent_of
  walk room visited depth state absent = some depth
  walk room visited depth state refused = none
  walk zero visited depth state (held origin) = none
  walk (suc room) visited depth state (held origin) = elim (parent_of visited state origin) [
    | none ↦ none
    | some parent ↦ walk room (origin.parent_session_id ∷ visited) (depth + 1) parent parent.origin
  ]

  unfoldable pub validate_core_lineage : MissionRecord → Option ℕ
  unfolding walk
  validate_core_lineage state = walk 32 (state.session_id ∷ []) 0 state state.origin
