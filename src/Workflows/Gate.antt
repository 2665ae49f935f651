-- ===== src/Workflows/Gate.antt =====
-- workflows/models.py: `StageResult`, `WorkflowGate` and its check of a result. The fingerprint of a file's path
-- is a parameter.
pub mod Laws
use Prim.Native.Nat.{◌/◌, ◌%◌}
use decode.Prelude.{
  ℕ, zero, suc, ◌+◌, ◌≡◌, refl, String, Bool, true, false, not, ◌&&◌, ◌||◌, Option, none, some,
  List, [], ◌∷◌, ◌++◌, any, all, keep, mem, str_eq, str_append, is_empty, is_nonempty, ltb, ◌==◌,
  if◌then◌else◌,
}
use decode.Prelude.Text.{strip}
use decode.Prelude.Dict.{Dict, lookup}
use decode.Values.{Value, Fields, ℤ, pos, int}
use decode.Planner.Graph.{CompletionCriterion}
use decode.Schema.ActiveNode.{
  ActiveOutcome, completed, failed, ActiveObservation, ActiveNodeResult, is_completed, is_protected,
}

pub record EvidenceLink : Type 0 where
  pub id : String
  pub sha256 : String
  pub summary : String

-- A result behind its validator, which fills in the outcome.
pub record StageResult : Type 0 where
  pub success : Bool
  pub outcome : ActiveOutcome
  pub final : String
  pub summary : String
  pub successful_actions : ℕ
  pub evidence : List EvidenceLink
  pub data_ : Fields
  pub error : String
  pub failed_criteria : List String
  pub active : Option ActiveNodeResult

abbrev pub outcome_eq : ActiveOutcome → ActiveOutcome → Bool
outcome_eq completed completed = true
outcome_eq ActiveOutcome.needs_replan ActiveOutcome.needs_replan = true
outcome_eq ActiveOutcome.blocked ActiveOutcome.blocked = true
outcome_eq failed failed = true
outcome_eq _ _ = false

abbrev count_successes : List ActiveObservation → ℕ
count_successes [] = 0
count_successes (o ∷ os) = let n = count_successes os in if o.success then suc n else n

-- the link's pair of id and hash is that of an observation with both
abbrev is_linked : List ActiveObservation → EvidenceLink → Bool
is_linked os link =
    any
      (λ (o : ActiveObservation).
        not (is_empty o.evidence_id)
        && not (is_empty o.evidence_hash)
        && str_eq o.evidence_id link.id
        && str_eq o.evidence_hash link.sha256)
      os

abbrev agrees : StageResult → Option ActiveNodeResult → Bool
agrees r none = true
agrees r (some active) =
    outcome_eq active.outcome r.outcome
    && r.successful_actions == count_successes active.observations
    && all (is_linked active.observations) r.evidence

abbrev outcome_of : Bool → Option ActiveOutcome → ActiveOutcome
outcome_of success none = if success then completed else failed
outcome_of success (some o) = o

-- `validate_outcome`, with the outcome that is given or that success says; none: `ValueError`
unfoldable pub validate_outcome : StageResult → Option ActiveOutcome → Option StageResult
validate_outcome r given =
    let outcome = outcome_of r.success given in
    let result : StageResult = record r { outcome = outcome } in
    if (if r.success then is_completed outcome else not (is_completed outcome))
      && agrees result r.active
    then some result
    else none

pub record WorkflowGate : Type 0 where
  pub require_final : Bool
  pub min_successful_actions : ℕ
  pub require_evidence : Bool
  pub expected_file_sha256 : String
  pub expected_file_path : String
  pub expected_file_size_bytes : Option ℕ

abbrev at_least_of : String → ℕ → CompletionCriterion
at_least_of name n = record {
  kind = "at_least";
  field = name;
  expected = int (pos n);
  required = true;
}

unfoldable pub completion_conditions : WorkflowGate → List CompletionCriterion
completion_conditions gate =
    (if gate.min_successful_actions == 0
      then []
      else at_least_of "successful_actions" gate.min_successful_actions ∷ [])
    ++ (if gate.require_evidence then at_least_of "evidence_count" 1 ∷ [] else [])

abbrev digit : ℕ → String
digit n =
    if n == 0
    then "0"
    else if n == 1
    then "1"
    else if n == 2
    then "2"
    else if n == 3
    then "3"
    else if n == 4
    then "4"
    else if n == 5
    then "5"
    else if n == 6
    then "6"
    else if n == 7
    then "7"
    else if n == 8
    then "8"
    else "9"

-- The decimals of a number below 10 to the fuel.
abbrev decimals : ℕ → ℕ → String
decimals zero n = ""
decimals (suc fuel) n =
    let front = decimals fuel (n / 10) in
    if n / 10 == 0 then digit n else str_append front (digit (n % 10))

-- `str` of a size, which is below 2 ^ 63
unfoldable pub size_text : ℕ → String
size_text n = decimals 19 n

abbrev signal_is : String → String → ActiveObservation → Bool
signal_is name value o = elim (lookup name o.signals) [ none ↦ false | some v ↦ str_eq v value ]

abbrev pub has_path : String → ActiveObservation → Bool
has_path hash o = signal_is "file_path_sha256" hash o

abbrev pub has_digest : String → ActiveObservation → Bool
has_digest hash o = signal_is "file_sha256" hash o

abbrev pub has_size : ℕ → ActiveObservation → Bool
has_size n o = signal_is "file_size_bytes" (size_text n) o

-- the size that is expected, if one is
abbrev pub has_size_if : Option ℕ → ActiveObservation → Bool
has_size_if none o = true
has_size_if (some n) o = has_size n o

abbrev pub is_given : Option ℕ → Bool
is_given none = false
is_given (some n) = true

-- the observations that the gate trusts: those that are given, or those of the active node
abbrev pub trusted : StageResult → Option (List ActiveObservation) → Option (List ActiveObservation)
trusted result (some os) = some os
trusted result none = elim result.active [ none ↦ none | some active ↦ some active.observations ]

abbrev pub observations_of : Option (List ActiveObservation) → List ActiveObservation
observations_of none = []
observations_of (some os) = os

abbrev is_link_protected : EvidenceLink → Bool
is_link_protected link = not (is_empty link.id) && not (is_empty link.sha256)

abbrev pub has_protected : StageResult → Option (List ActiveObservation) → Bool
has_protected result none = any is_link_protected result.evidence
has_protected result (some os) = any is_protected os

abbrev pub is_file_read : ActiveObservation → Bool
is_file_read o =
    o.success
    && str_eq o.capability "file_read"
    && not (is_empty o.evidence_id)
    && not (is_empty o.evidence_hash)

abbrev pub file_reads : List ActiveObservation → List ActiveObservation
file_reads os = keep is_file_read os

-- the messages of the tests that hold
abbrev pub messages : List (Bool × String) → List String
messages [] = []
messages ((test, message) ∷ rows) =
    let rest = messages rows in if test then message ∷ rest else rest

module _ (file_path_fingerprint : String → String) where
  abbrev pub expected_path_hash : WorkflowGate → String
  expected_path_hash gate =
      if is_empty gate.expected_file_path then "" else file_path_fingerprint gate.expected_file_path

  -- the tests of the gate with their messages, in the order of the source
  unfoldable pub tests :
      WorkflowGate → StageResult → Option (List ActiveObservation) → List (Bool × String)
  unfolding strip size_text
  tests gate result os =
      let reads = file_reads (observations_of os) in
      let path = expected_path_hash gate in
      let digest = gate.expected_file_sha256 in
      let size = gate.expected_file_size_bytes in
      (
        not result.success,
        if is_empty result.error then "stage executor reported failure" else result.error,
      )
      ∷ (
        gate.require_final && is_empty (strip result.final),
        "stage did not produce a final result",
      )
      ∷ (
        ltb result.successful_actions gate.min_successful_actions,
        str_append "stage requires at least "
            (str_append (size_text gate.min_successful_actions) " successful governed action(s)"),
      )
      ∷ (
        gate.require_evidence && not (has_protected result os),
        "stage produced no protected evidence reference",
      )
      ∷ (
        not (is_empty path) && not (any (has_path path) reads),
        "governed file path does not match the expected artifact",
      )
      ∷ (
        not (is_empty digest) && not (any (has_digest digest) reads),
        "governed file digest does not match the expected SHA-256",
      )
      ∷ (
        is_given size && not (any (has_size_if size) reads),
        "governed file size does not match the expected bytes",
      )
      ∷ (
        not (is_empty digest)
            && is_given size
            && not (any (λ o. has_digest digest o && has_size_if size o) reads),
        "governed file digest and size were not observed together",
      )
      ∷ (
        not (is_empty path)
            && not (any (λ o. has_path path o && has_digest digest o && has_size_if size o) reads),
        "governed file artifact criteria were not observed together",
      )
      ∷ []

  -- `check`, with the observations that are given
  unfoldable pub check :
      WorkflowGate → StageResult → Option (List ActiveObservation) → Bool × List String
  unfolding tests
  check gate result given =
      let failures = messages (tests gate result (trusted result given)) in
      (not (is_nonempty failures), failures)
