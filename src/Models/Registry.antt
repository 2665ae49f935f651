-- ===== src/Models/Registry.antt =====
-- models/registry.py: the specification of a model, its data policy, and `ModelRegistry`. A call that
-- raises `ValueError` has no result.
use decode.Prelude.{
  ℕ, String, Bool, not, ◌&&◌, Option, none, some, List, [], ◌∷◌, ◌++◌, keep, all, mem, str_eq,
  is_empty, leb, if◌then◌else◌,
}
use decode.Prelude.Text.{after_char}
use decode.Prelude.Dict.{Dict, lookup, contains, values}
use decode.Models.Numbers.{Number}

unfoldable pub classification_rank : String → Option ℕ
classification_rank value =
    if str_eq value "public"
    then some 0
    else if str_eq value "internal"
    then some 1
    else if str_eq value "confidential"
    then some 2
    else if str_eq value "restricted"
    then some 3
    else none

pub record DataPolicy : Type 0 where
  pub max_classification : String
  pub locality : String
  pub retention : String

-- The rank of the argument is taken first.
unfoldable pub accepts : DataPolicy → String → Option Bool
unfolding classification_rank
accepts policy classification = elim (classification_rank classification) [
  | none ↦ none
  | some given ↦ elim (classification_rank policy.max_classification) [
    | none ↦ none
    | some limit ↦ some (leb given limit)
  ]
]

pub record ModelCost (W : Type 0) : Type 0 where
  pub input_per_mtok : W
  pub output_per_mtok : W
  pub pricing_version : String

pub record RateLimit (W : Type 0) : Type 0 where
  pub tokens_per_minute : Option ℕ
  pub requests_per_second : Option W

pub record ModelSpec (W : Type 0) : Type 0 where
  pub id : String
  pub provider : String
  pub version : ℕ
  pub capabilities : List String
  pub data_policy : DataPolicy
  pub context_limit : ℕ
  pub cost : ModelCost W
  pub rate_limit : RateLimit W
  pub latency_class : String
  pub quality_scores : Dict W
  pub available : Bool
  pub rate_limited : Bool
  pub fallback_group : String

abbrev pub ModelRegistry : Type 0 → Type 0
ModelRegistry W = Dict (ModelSpec W)

module _ {W : Type 0} where
  -- the id without what stands in front of its first `/`
  unfoldable pub model_name : ModelSpec W → String
  unfolding after_char
  model_name spec = elim (after_char b'/' spec.id) [ none ↦ spec.id | some rest ↦ rest ]

  unfoldable pub has_capabilities : ModelSpec W → List String → Bool
  has_capabilities spec required = all (λ c. mem c spec.capabilities) required

  unfoldable pub quality_for : ⦃d : Number W⦄ → ModelSpec W → String → W
  quality_for ⦃d⦄ spec task_class = elim (lookup task_class spec.quality_scores) [
    | none ↦ d.nought
    | some q ↦ q
  ]

  unfoldable pub register : ModelRegistry W → ModelSpec W → Option (ModelRegistry W)
  register models spec =
      if contains spec.id models then none else some (models ++ (spec.id, spec) ∷ [])

  -- `ModelRegistry(models)`
  unfoldable pub registry_of : List (ModelSpec W) → ModelRegistry W → Option (ModelRegistry W)
  unfolding register
  registry_of [] models = some models
  registry_of (spec ∷ specs) models = elim (register models spec) [
    | none ↦ none
    | some more ↦ registry_of specs more
  ]

  unfoldable pub get : ModelRegistry W → String → Option (ModelSpec W)
  get models model_id = lookup model_id models

  unfoldable pub all_models : ModelRegistry W → List (ModelSpec W)
  all_models models = values models

  unfoldable pub in_group : ModelRegistry W → String → List (ModelSpec W)
  in_group models group =
      keep (λ (s : ModelSpec W). not (is_empty group) && str_eq s.fallback_group group)
        (values models)
