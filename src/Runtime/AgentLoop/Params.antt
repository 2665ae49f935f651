-- ===== src/Runtime/AgentLoop/Params.antt =====
-- runtime/agent_loop.py: `_validate_tool_params`. A schema is given by what the function reads of it, what it
-- lacks being empty; property types and names are texts.
pub mod Laws
use decode.Prelude.{
  ℕ, suc, ◌+◌, ◌≡◌, refl, String, Bool, true, false, not, ◌&&◌, ◌||◌, Option, none, some, List, [],
  ◌∷◌, mem, all, any, keep, str_eq, str_append, is_empty, is_nonempty, ◌==◌, if◌then◌else◌, All,
  ◌⊎◌, inl, inr, Bool-cases, arith, eq_iff,
}
use decode.Prelude.Text.{text_lt}
use decode.Prelude.Dict.{Dict, lookup, contains}
use decode.Values.{
  Value, Items, Fields, null, bool, int, float, text, list, dict, nil, item, end, field,
}
use decode.Values.Equality.{equal, get_field}
use decode.Values.Truth.{items, field_names}

-- of a property: its type, its choices, and the type of its items
pub record Contract : Type 0 where
  pub type_ : String
  pub choices : List String
  pub item_type : String

pub record ToolSchema : Type 0 where
  pub properties : Dict Contract
  pub closed : Bool
  pub required : List String
  pub alternatives : List (List String)

unfoldable pub matches_json_type : Value → String → Bool
matches_json_type value expected =
    if str_eq expected "string"
    then (elim value [ text t ↦ true | _ ↦ false ])
    else if str_eq expected "integer"
    then (elim value [ int z ↦ true | _ ↦ false ])
    else if str_eq expected "number"
    then (elim value [ int z ↦ true | float f ↦ true | _ ↦ false ])
    else if str_eq expected "boolean"
    then (elim value [ bool b ↦ true | _ ↦ false ])
    else if str_eq expected "array"
    then (elim value [ list vs ↦ true | _ ↦ false ])
    else if str_eq expected "object"
    then (elim value [ dict fs ↦ true | _ ↦ false ])
    else true

-- `separator.join(texts)`
abbrev pub join : String → List String → String
join separator [] = ""
join separator (t ∷ []) = t
join separator (t ∷ u ∷ ts) = str_append t (str_append separator (join separator (u ∷ ts)))

abbrev pub insert_text : String → List String → List String
insert_text t [] = t ∷ []
insert_text t (u ∷ us) = let rest = insert_text t us in if text_lt u t then u ∷ rest else t ∷ u ∷ us

abbrev pub sorted : List String → List String
sorted [] = []
sorted (t ∷ ts) = insert_text t (sorted ts)

-- `name in params`
abbrev pub has_field : Fields → String → Bool
has_field fs name = elim (get_field name fs) [ none ↦ false | some v ↦ true ]

abbrev count_if : {A : Type 0} → (A → Bool) → List A → ℕ
count_if test [] = 0
count_if test (x ∷ xs) = let n = count_if test xs in if test x then suc n else n

abbrev pub contract_of : Dict Contract → String → Contract
contract_of properties name = elim (lookup name properties) [
  | none ↦ record { type_ = ""; choices = []; item_type = "" }
  | some c ↦ c
]

-- `isinstance(value, list) and any(not _matches_json_type(item, item_type) for item in value)`
unfoldable pub has_bad_item : String → Value → Bool
unfolding matches_json_type
has_bad_item item_type (list vs) = any (λ v. not (matches_json_type v item_type)) (items vs)
has_bad_item item_type v = false

-- the checks of one parameter, empty where it passes
unfoldable pub param_error : Contract → String → Value → String
unfolding matches_json_type has_bad_item
param_error contract name value =
    if not (is_empty contract.type_) && not (matches_json_type value contract.type_)
    then str_append "tool parameter '" (str_append name (str_append "' must be " contract.type_))
    else if is_nonempty contract.choices && not (any (λ c. equal value (text c)) contract.choices)
    then str_append "tool parameter '"
        (str_append name (str_append "' must be one of: " (join ", " contract.choices)))
    else if str_eq contract.type_ "array"
        && not (is_empty contract.item_type)
        && has_bad_item contract.item_type value
    then str_append "tool parameter '" (str_append name "' contains an invalid item")
    else ""

-- The first parameter with an error gives the result.
unfoldable pub params_error : Dict Contract → Fields → String
unfolding param_error
params_error properties end = ""
params_error properties (field name value rest) =
    let later = params_error properties rest in
    let now = param_error (contract_of properties name) name value in
    if is_empty now then later else now

abbrev pub unknown_names : ToolSchema → Fields → List String
unknown_names schema fs = keep (λ name. not (contains name schema.properties)) (field_names fs)

abbrev pub missing_names : ToolSchema → Fields → List String
missing_names schema fs = keep (λ name. not (has_field fs name)) schema.required

abbrev pub forms_met : ToolSchema → Fields → ℕ
forms_met schema fs = count_if (λ names. all (has_field fs) names) schema.alternatives

unfoldable pub fields_error : ToolSchema → Fields → String
unfolding params_error
fields_error schema fs =
    if schema.closed && is_nonempty (unknown_names schema fs)
    then str_append "unsupported tool parameters: " (join ", " (sorted (unknown_names schema fs)))
    else if is_nonempty (missing_names schema fs)
    then str_append "missing required tool parameters: " (join ", " (missing_names schema fs))
    else if is_nonempty schema.alternatives && not (forms_met schema fs == 1)
    then "tool parameters must satisfy exactly one allowed input form"
    else params_error schema.properties fs

unfoldable pub validate_tool_params : Option ToolSchema → Value → String
unfolding fields_error
validate_tool_params none (dict fs) = ""
validate_tool_params (some schema) (dict fs) = fields_error schema fs
validate_tool_params schema v = "tool parameters must be an object"
