-- ===== src/Workflows/Selection/Laws.antt =====
-- Which workflow workflows/registry.py selects.
use decode.Prelude.{
  ◌≡◌, refl, sym, ap, String, true, not, ◌&&◌, some, List, [], ◌∷◌, ◌++◌, All, All-append, Exists,
  eq_iff, is_empty, is_nonempty, ltb, length, Bool-cases, Option-cases, ◌⊎◌, inl, inr, arith,
  of_some, if_ind,
}
use decode.Prelude.Dict.{Dict, lookup}
use decode.Workflows.Specs.{WorkflowSpec, are_unique}
use decode.Workflows.Selection.{
  CoreIntent, ReviewedWorkflow, CoreWorkflowSelection, SelectionOutcome, selected, needs_input,
  blocked, selected_workflow_required, made, mode_eq, pin_names, criteria_of, Candidates,
  unresolved, found, is_current, candidates, unresolved_as, selection_of, select_of, pins_for,
  select,
}

module _ (fingerprint : WorkflowSpec → String) where
  -- A workflow of the registry that was reviewed as it is, in the mode of the intent.
  abbrev pub IsReviewed :
      Dict WorkflowSpec → CoreIntent → List ReviewedWorkflow → WorkflowSpec → Type 0
  IsReviewed registry intent pins spec =
      Exists
        (λ (pin : ReviewedWorkflow).
          (lookup pin.name registry ≡ some spec)
          × (spec.version ≡ pin.version)
          × (fingerprint spec ≡ pin.fingerprint)
          × (mode_eq spec.mode intent.mode ≡ true))
        pins

  -- What an unresolved loop says, and what holds of the candidates that it finds.
  abbrev Gives : (WorkflowSpec → Type 0) → Candidates → Type 0
  Gives P (unresolved reason) =
      (reason ≡ "reviewed workflow is missing or changed")
      ⊎ (reason ≡ "requested workflow mode does not match intent")
  Gives P (found specs) = All P specs

  candidates-Gives :
      (P : WorkflowSpec → Type 0) (registry : Dict WorkflowSpec) (intent : CoreIntent)
      (pins : List ReviewedWorkflow) (specs : List WorkflowSpec)
      → ((spec : WorkflowSpec) → IsReviewed registry intent pins spec → P spec)
      → All P specs
      → Gives P (candidates fingerprint registry intent pins specs)
  unfolding candidates
  candidates-Gives P registry intent [] specs f h = h
  candidates-Gives P registry intent (pin ∷ pins) specs f h =
      elim (Option-cases (lookup pin.name registry)) [
        | inl e ↦ rw (candidates, e) (inl refl)
        | inr (spec, e) ↦
            rw (candidates, e)
              (if_ind (Gives P) (not (is_current fingerprint spec pin)) _ _ (λ _. inl refl)
                (λ current.
                  if_ind (Gives P) (not (mode_eq spec.mode intent.mode)) _ _
                    (λ _.
                      if_ind (Gives P) (not (is_empty intent.workflow_name)) _ _ (λ _. inr refl)
                        (λ _. candidates-Gives P registry intent pins specs (λ s r. f s (inr r)) h))
                    (λ mode.
                      candidates-Gives P registry intent pins (specs ++ spec ∷ [])
                        (λ s r. f s (inr r))
                        (All-append P specs (spec ∷ []) h (
                          f spec (
                              inl (
                                e,
                                ground (arith, eq_iff spec.version pin.version),
                                ground (arith, eq_iff (fingerprint spec) pin.fingerprint),
                                ground arith,
                              )),
                          tt,
                        )))))
      ]

  module _ (intent_fingerprint : CoreIntent → String) where
    made_same : (s t : CoreWorkflowSelection) → made s ≡ some t → t ≡ s
    made_same s t e = elim (Bool-cases (selected_workflow_required s)) [
      | inl ok ↦ sym (of_some (rw (made, ok) at e))
      | inr bad ↦ absurd (cc (rw (made, bad) at e))
    ]

    -- The selection is of the workflow, with its gates.
    abbrev pub IsOf : WorkflowSpec → CoreWorkflowSelection → Type 0
    IsOf spec selection =
        (selection.workflow
          ≡ some
              (record { name = spec.name; version = spec.version; fingerprint = fingerprint spec }))
        × (selection.criteria ≡ criteria_of spec.stages)

    outcome-unresolved_as :
        (intent : CoreIntent) (outcome : SelectionOutcome) (reason : String)
        (selection : CoreWorkflowSelection)
        → unresolved_as fingerprint intent_fingerprint intent outcome reason ≡ some selection
        → selection.outcome ≡ outcome
    outcome-unresolved_as intent outcome reason selection e =
        ap (λ (s : CoreWorkflowSelection). s.outcome) (made_same _ selection e)

    IsOf-select_of :
        (P : WorkflowSpec → Type 0) (intent : CoreIntent) (c : Candidates)
        (selection : CoreWorkflowSelection)
        → Gives P c
        → select_of fingerprint intent_fingerprint intent c ≡ some selection
        → selection.outcome ≡ selected
        → (spec : WorkflowSpec) × P spec × IsOf spec selection
    unfolding select_of
    IsOf-select_of P intent (unresolved reason) selection g e o =
        let kept = outcome-unresolved_as intent blocked reason selection e in cc
    IsOf-select_of P intent (found []) selection g e o =
        let kept =
          outcome-unresolved_as intent needs_input "no reviewed workflow matches the requested mode"
            selection e in
        cc
    IsOf-select_of P intent (found (spec ∷ [])) selection g e o = (
      spec,
      g.0,
      rw (made_same (selection_of fingerprint intent_fingerprint intent spec) selection e)
          (refl, refl),
    )
    IsOf-select_of P intent (found (a ∷ b ∷ specs)) selection g e o =
        let kept =
          outcome-unresolved_as intent needs_input
            "multiple reviewed workflows match; choose one explicitly" selection e in
        cc

    -- A workflow that is selected is the current one of the registry for a reviewed pin: its version and its
    -- fingerprint are those that were reviewed, its mode is the intent's, and the selection has its gates.
    -- If the intent names a workflow, the pin has that name.
    pub select-IsReviewed :
        (registry : Dict WorkflowSpec) (intent : CoreIntent) (reviewed : List ReviewedWorkflow)
        (selection : CoreWorkflowSelection)
        → select fingerprint intent_fingerprint registry intent reviewed ≡ some selection
        → selection.outcome ≡ selected
        → (spec : WorkflowSpec) × IsReviewed registry intent (pins_for intent reviewed) spec
          × IsOf spec selection
    unfolding select
    select-IsReviewed registry intent reviewed selection e o =
        elim (Bool-cases (ltb 64 (length reviewed))) [
          | inl long ↦ absurd (cc (rw (select, long) at e))
          | inr short ↦ elim (Bool-cases (are_unique (pin_names reviewed))) [
            | inr twice ↦ absurd (cc (rw (select, short, twice) at e))
            | inl unique ↦
                let pins = pins_for intent reviewed in
                elim (Bool-cases (not (is_empty intent.workflow_name) && not (is_nonempty pins))) [
                  | inl none_ ↦
                      let kept =
                        outcome-unresolved_as intent blocked "requested workflow is not reviewed"
                          selection (rw (select, short, unique, none_) at e) in
                      absurd (cc (rw kept at o))
                  | inr some_ ↦
                      IsOf-select_of (IsReviewed registry intent pins) intent
                        (candidates fingerprint registry intent pins []) selection
                        (candidates-Gives (IsReviewed registry intent pins) registry intent pins []
                          (λ spec r. r) tt)
                        (rw (select, short, unique, some_) at e) o
                ]
          ]
        ]
