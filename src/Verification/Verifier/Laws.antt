-- ===== src/Verification/Verifier/Laws.antt =====
-- What the verifiers of verification/verifier.py accept.
use decode.Prelude.{
  ◌≡◌, String, true, Option, some, List, [], ◌∷◌, All, inl, inr, Bool-cases, of_some,
}
use decode.Values.{Value, Fields}
use decode.Planner.Graph.{CompletionCriterion}
use decode.Planner.Completion.Laws.{Passes, evaluate_completion-Passes}
use decode.Schema.TaskState.{TaskState}
use decode.Verification.Verifier.{VerificationResult, build_context, verify, Review, model_verify}

-- A task that the rules accept meets every completion condition, in what its state and its last
-- observation show.
pub verify-Passes :
    (conditions : List CompletionCriterion) (s : TaskState) (last : Option Fields)
    → (verify conditions s last).valid ≡ true
    → All (Passes (build_context s last)) conditions
unfolding verify
verify-Passes [] s last h = tt
verify-Passes (c ∷ cs) s last h = (evaluate_completion-Passes (c ∷ cs) (build_context s last) h).1

-- The reviewer model cannot accept what the rules reject: what both accept meets every condition.
pub model_verify-Passes :
    (str : Value → String) (reviewer : Review) (conditions : List CompletionCriterion)
    (s : TaskState) (last : Option Fields) (verdict : VerificationResult)
    → model_verify str reviewer conditions s last ≡ some verdict
    → verdict.valid ≡ true
    → All (Passes (build_context s last)) conditions
unfolding model_verify
model_verify-Passes str reviewer conditions s last verdict e h =
    elim (Bool-cases (verify conditions s last).valid) [
      | inl ok ↦ verify-Passes conditions s last ok
      | inr bad ↦
          let same = of_some (rw (model_verify, bad) at e) in absurd (cc (rw (← same, bad) at h))
    ]
