-- ===== src/Planner/Completion.antt =====
-- planner/dag.py: `CompletionCriterion.check` and `PlanGraph.validate_completion`; schema/task_state.py:
-- `TaskState.evaluate_completion`.
pub mod Laws
use decode.Prelude.{
  ℕ, String, Bool, true, false, not, ◌&&◌, ◌||◌, Option, none, some, List, [], ◌∷◌, ◌++◌, mem,
  str_eq, str_append, is_empty, is_nonempty, if◌then◌else◌,
}
use decode.Prelude.Text.{split_char}
use decode.Prelude.Dict.{lookup}
use decode.Values.{
  ℤ, Float, ratio, Value, Items, Fields, null, bool, int, float, text, list, dict, nil, end, field,
  item,
}
use decode.Values.Equality.{equal, get_field, float_lt}
use decode.Planner.Graph.{CompletionCriterion, PlanNode, PlanGraph}

-- `actual[part]`, and `None` where there is none
abbrev pub step_into : Value → String → Value
step_into (dict fs) part = elim (get_field part fs) [ none ↦ null | some v ↦ v ]
step_into v part = null

-- `field.split(".")`
abbrev pub split_dots : String → List String
split_dots name = let (first, others) = split_char b'.' name in first ∷ others

-- Behind a part that is missing the walk stops with `None`, into which no further part leads.
abbrev pub walk : Value → List String → Value
walk v [] = v
walk v (part ∷ parts) = walk (step_into v part) parts

-- `values if isinstance(values, dict) else {"value": values}`
abbrev pub as_mapping : Value → Value
as_mapping (dict fs) = dict fs
as_mapping v = dict (field "value" v end)

-- the value that the criterion is about
unfoldable pub actual_value : CompletionCriterion → Value → Value
actual_value c values =
    if is_empty c.field then as_mapping values else walk (as_mapping values) (split_dots c.field)

-- `actual in (None, "", [], {})`
abbrev pub is_blank : Value → Bool
is_blank null = true
is_blank (text t) = is_empty t
is_blank (list nil) = true
is_blank (dict end) = true
is_blank _ = false

-- a finite number that is no `bool`
abbrev pub finite_number : Value → Option Float
finite_number (int z) = some (ratio z 0)
finite_number (float (ratio a s)) = some (ratio a s)
finite_number _ = none

abbrev pub is_below : Option Float → Option Float → Bool
is_below (some a) (some e) = float_lt a e
is_below _ _ = true

abbrev pub criterion_failed : String → String → String
criterion_failed field_name rest =
    str_append "completion criterion failed: " (str_append field_name rest)

unfoldable pub check_kind : CompletionCriterion → Value → Bool × String
check_kind c actual =
    if str_eq c.kind "equals"
    then (if equal actual c.expected
        then (true, "")
        else (false, criterion_failed c.field " must equal expected value"))
    else if str_eq c.kind "present"
    then (if is_blank actual then (false, criterion_failed c.field " is required") else (true, ""))
    else if str_eq c.kind "at_least"
    then (if is_below (finite_number actual) (finite_number c.expected)
        then (false, criterion_failed c.field " is below the required minimum")
        else (true, ""))
    else (false, str_append "unsupported completion criterion: " c.kind)

unfoldable pub check : CompletionCriterion → Value → Bool × String
unfolding check_kind actual_value
check c values = if not c.required then (true, "") else check_kind c (actual_value c values)

abbrev pub first_failure : List CompletionCriterion → Value → Bool × String
first_failure [] values = (true, "")
first_failure (c ∷ cs) values =
    if (check c values).0 then first_failure cs values else (false, (check c values).1)

-- `none`: `KeyError`
unfoldable pub validate_completion : PlanGraph → String → Value → Option (Bool × String)
unfolding check
validate_completion g id result = elim (lookup id g.nodes) [
  | none ↦ none
  | some n ↦ some (first_failure n.completion (as_mapping result))
]

abbrev pub failures : List CompletionCriterion → Value → List String
failures [] values = []
failures (c ∷ cs) values =
    if (check c values).0 then failures cs values else (check c values).1 ∷ failures cs values

unfoldable pub evaluate_completion : List CompletionCriterion → Value → Bool × List String
unfolding check
evaluate_completion [] values = (false, "no completion conditions declared" ∷ [])
evaluate_completion (c ∷ cs) values =
    (not (is_nonempty (failures (c ∷ cs) values)), failures (c ∷ cs) values)
