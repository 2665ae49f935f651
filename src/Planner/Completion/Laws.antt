-- ===== src/Planner/Completion/Laws.antt =====
-- What a completed node or objective in planner/dag.py and schema/task_state.py has met.
use decode.Prelude.{
  ◌≡◌, refl, String, Bool, true, false, not, Option, none, some, List, [], ◌∷◌, All, Bool-cases,
  ◌⊎◌, inl, inr, eq_iff, str_eq, if◌then◌else◌, is_nonempty,
}
use decode.Prelude.Dict.{lookup}
use decode.Values.{Float, Value}
use decode.Values.Equality.{equal, float_lt}
use decode.Planner.Graph.{CompletionCriterion, PlanNode, PlanGraph}
use decode.Planner.Completion.{
  check, check_kind, actual_value, is_blank, finite_number, is_below, first_failure, failures,
  evaluate_completion, validate_completion, as_mapping,
}

-- What the value has to be for a criterion that is required.
pub data Meets (c : CompletionCriterion) (actual : Value) : Type 0 where
  equals : c.kind ≡ "equals" → equal actual c.expected ≡ true → Meets c actual
  present : c.kind ≡ "present" → is_blank actual ≡ false → Meets c actual
  at_least :
      (a e : Float)
      → c.kind ≡ "at_least"
      → finite_number actual ≡ some a
      → finite_number c.expected ≡ some e
      → float_lt a e ≡ false
      → Meets c actual

-- the tests of the kinds in the order of the source
below_cases :
    (x y : Option Float)
    → is_below x y ≡ false
    → (a : Float) × (e : Float) × (x ≡ some a) × (y ≡ some e) × (float_lt a e ≡ false)
below_cases (some a) (some e) h = (a, e, refl, refl, h)
below_cases (some a) none h = cc
below_cases none y h = cc

check_kind-Meets :
    (c : CompletionCriterion) (actual : Value) → (check_kind c actual).0 ≡ true → Meets c actual
unfolding check_kind
check_kind-Meets c actual h = elim (Bool-cases (str_eq c.kind "equals")) [
  | inl k ↦
      equals ((eq_iff c.kind "equals").0 k)
        (passed (equal actual c.expected) _ (rw (check_kind, k) at h))
  | inr k ↦ elim (Bool-cases (str_eq c.kind "present")) [
    | inl l ↦
        present ((eq_iff c.kind "present").0 l)
          (missed (is_blank actual) _ (rw (check_kind, k, l) at h))
    | inr l ↦ elim (Bool-cases (str_eq c.kind "at_least")) [
      | inl m ↦
          let below =
            missed (is_below (finite_number actual) (finite_number c.expected)) _
              (rw (check_kind, k, l, m) at h) in
          let (a, e, x, y, lt) =
            below_cases (finite_number actual) (finite_number c.expected) below in
          at_least a e ((eq_iff c.kind "at_least").0 m) x y lt
      | inr m ↦ absurd (cc (rw (check_kind, k, l, m) at h))
    ]
  ]
]
  where
    passed :
        (b : Bool) (m : String)
        → (if◌then◌else◌ {A = Bool × String} b (true, "") (false, m)).0 ≡ true
        → b ≡ true
    passed true m h = refl
    passed false m h = cc

    missed :
        (b : Bool) (m : String)
        → (if◌then◌else◌ {A = Bool × String} b (false, m) (true, "")).0 ≡ true
        → b ≡ false
    missed true m h = cc
    missed false m h = refl

-- A criterion that passes is not required, or its value meets it.
abbrev pub Passes : Value → CompletionCriterion → Type 0
Passes values c = (c.required ≡ false) ⊎ Meets c (actual_value c values)

check-Passes :
    (values : Value) (c : CompletionCriterion) → (check c values).0 ≡ true → Passes values c
unfolding check
check-Passes values c h = elim (Bool-cases c.required) [
  | inl e ↦ inr (check_kind-Meets c (actual_value c values) (rw (check, e) at h))
  | inr e ↦ inl e
]

first_failure-All :
    (values : Value) (cs : List CompletionCriterion)
    → first_failure cs values ≡ (true, "")
    → All (Passes values) cs
first_failure-All values [] h = tt
first_failure-All values (c ∷ cs) h = elim (Bool-cases (check c values).0) [
  | inl e ↦ (check-Passes values c e, first_failure-All values cs (rw (first_failure, e) at h))
  | inr e ↦ absurd (cc (rw (first_failure, e) at h))
]

failures-All :
    (values : Value) (cs : List CompletionCriterion)
    → is_nonempty (failures cs values) ≡ false
    → All (Passes values) cs
failures-All values [] h = tt
failures-All values (c ∷ cs) h = elim (Bool-cases (check c values).0) [
  | inl e ↦ (check-Passes values c e, failures-All values cs (rw (failures, e) at h))
  | inr e ↦ absurd (cc (rw (failures, e) at h))
]

-- A node's completion validates only if each of its criteria is not required or is met by the result: the value
-- equals the expected one, is not blank, or is a finite number that is not below the expected finite number.
pub validate_completion-Passes :
    (g : PlanGraph) (id : String) (n : PlanNode) (result : Value)
    → lookup id g.nodes ≡ some n
    → validate_completion g id result ≡ some (true, "")
    → All (Passes (as_mapping result)) n.completion
unfolding validate_completion
validate_completion-Passes g id n result e h =
    first_failure-All (as_mapping result) n.completion
      (some_same (rw (validate_completion, e) at h))
  where
    some_same : {x y : Bool × String} → some x ≡ some y → x ≡ y
    some_same e = cc

-- An objective is completed only if it has a condition, and each condition is not required or is met.
pub evaluate_completion-Passes :
    (cs : List CompletionCriterion) (values : Value)
    → (evaluate_completion cs values).0 ≡ true
    → (is_nonempty cs ≡ true) × All (Passes values) cs
unfolding evaluate_completion
evaluate_completion-Passes [] values h = cc
evaluate_completion-Passes (c ∷ cs) values h =
    (refl, failures-All values (c ∷ cs) (negated (is_nonempty (failures (c ∷ cs) values)) h))
  where
    negated : (b : Bool) → not b ≡ true → b ≡ false
    negated true h = cc
    negated false h = refl
