-- ===== src/Runtime/AgentLoop/Params/Laws.antt =====
-- What the parameters that pass the check of runtime/agent_loop.py are.
use decode.Prelude.{◌≡◌, true, false, any, str_eq, is_empty, is_nonempty, All, ◌⊎◌}
use decode.Prelude.Dict.{contains}
use decode.Values.{Value, Fields, text, end, field}
use decode.Values.Equality.{equal}
use decode.Values.Truth.{field_names}
use decode.Runtime.AgentLoop.Params.{
  Contract, ToolSchema, matches_json_type, has_bad_item, contract_of, has_field, forms_met,
}

-- The value has the type of the contract, is one of its choices, and has no item of another type; where
-- the contract has none, any is admitted.
pub record Fits (contract : Contract) (value : Value) : Type 0 where
  pub typed : (is_empty contract.type_ ≡ true) ⊎ (matches_json_type value contract.type_ ≡ true)
  pub chosen :
      (is_nonempty contract.choices ≡ false)
      ⊎ (any (λ c. equal value (text c)) contract.choices ≡ true)
  pub filled :
      (str_eq contract.type_ "array" ≡ false)
      ⊎ (is_empty contract.item_type ≡ true)
      ⊎ (has_bad_item contract.item_type value ≡ false)

abbrev pub AllFit : ToolSchema → Fields → Type 0
AllFit schema end = Unit
AllFit schema (field name value rest) =
    Fits (contract_of schema.properties name) value × AllFit schema rest

pub record IsAdmissible (schema : ToolSchema) (fs : Fields) : Type 0 where
  pub known :
      (schema.closed ≡ false)
      ⊎ All (λ name. contains name schema.properties ≡ true) (field_names fs)
  pub present : All (λ name. has_field fs name ≡ true) schema.required
  pub one_form : (is_nonempty schema.alternatives ≡ false) ⊎ (forms_met schema fs ≡ 1)
  pub fit : AllFit schema fs
