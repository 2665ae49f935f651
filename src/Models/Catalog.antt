-- ===== src/Models/Catalog.antt =====
-- models/registry.py: the models of OpenRouter's catalogue. The request for the catalogue and the checks of
-- `model_validate` are not modelled: an entry is the model that was validated, or `none`.
pub mod Laws
use decode.Prelude.{
  ℕ, suc, ◌+◌, ◌≡◌, refl, String, Bool, true, false, not, ◌&&◌, ◌||◌, Option, none, some, List, [],
  ◌∷◌, ◌++◌, keep, mem, str_eq, str_append, leb, ◌==◌, if◌then◌else◌, length, is_nonempty,
}
use decode.Prelude.Text.{text_lt}
use decode.Prelude.Dict.{Dict, lookup, contains, values}
use decode.Models.Registry.{
  ModelSpec, ModelCost, RateLimit, DataPolicy, ModelRegistry, registry_of, all_models,
}
use decode.Prelude.Sort.{sort_by}

pub record OpenRouterArchitecture : Type 0 where
  pub input_modalities : List String
  pub output_modalities : List String

-- A price is a text or a number.
pub record OpenRouterPricing (P : Type 0) : Type 0 where
  pub prompt : P
  pub completion : P

pub record OpenRouterCatalogModel (P : Type 0) : Type 0 where
  pub id : String
  pub context_length : Option ℕ
  pub architecture : OpenRouterArchitecture
  pub pricing : OpenRouterPricing P
  pub supported_parameters : List String

-- What is done with a price `P`: `float(value)`, which may raise, and the tests and the product of a float.
pub record Prices (P W : Type 0) : Type 0 where
  pub read : P → Option W
  pub is_minus_one : W → Bool
  pub is_finite : W → Bool
  pub is_negative : W → Bool
  pub times_million : W → W
  pub nought : W

pub record OpenRouterCatalogResult (W : Type 0) : Type 0 where
  pub models : List (ModelSpec W)
  pub total_count : ℕ
  pub skipped : ℕ

-- `capabilities.add(name)` where the test holds
abbrev add_if : Bool → String → List String → List String
add_if test name names = if test then name ∷ names else names

abbrev shares : List String → List String → Bool
shares [] names = false
shares (x ∷ xs) names = mem x names || shares xs names

-- The rows are in the order of the names, as `sorted` leaves them.
unfoldable pub catalog_capabilities : {P : Type 0} → OpenRouterCatalogModel P → List String
catalog_capabilities model =
    let inputs = model.architecture.input_modalities in
    let outputs = model.architecture.output_modalities in
    let parameters = model.supported_parameters in
    add_if (mem "audio" inputs || mem "audio" outputs) "audio" (
      add_if (mem "text" outputs) "chat" (
        add_if (mem "embeddings" outputs) "embeddings" (
          add_if (mem "file" inputs) "file" (
            add_if (mem "image" outputs) "image_generation" (
              add_if (elim model.context_length [ none ↦ false | some n ↦ leb 32768 n ])
                "long_context"
                (add_if (shares ("reasoning" ∷ "include_reasoning" ∷ []) parameters) "reasoning" (
                  add_if (shares ("structured_outputs" ∷ "response_format" ∷ []) parameters)
                    "structured_output"
                    (add_if (mem "tools" parameters) "tools"
                      (add_if (mem "image" inputs) "vision" [])))))))))

unfoldable pub catalog_fallback_group : List String → String
catalog_fallback_group capabilities =
    if mem "embeddings" capabilities
    then "openrouter-embeddings"
    else if mem "image_generation" capabilities
    then "openrouter-image_generation"
    else if mem "audio" capabilities
    then "openrouter-audio"
    else "openrouter-general"

-- `sorted({*capabilities, "code"})`
abbrev with_code : List String → List String
with_code capabilities =
    if mem "code" capabilities then capabilities else sort_by text_lt ("code" ∷ capabilities)

module _ {W : Type 0} where
  -- One round of the loop: the models so far, and what is made of the entry, `none` where it raised.
  abbrev pub keep_entry : Dict (ModelSpec W) → Option (ModelSpec W) → Dict (ModelSpec W) × Bool
  keep_entry models none = (models, false)
  keep_entry models (some spec) =
      if contains spec.id models then (models, false) else (models ++ (spec.id, spec) ∷ [], true)

module _ {P W : Type 0} (prices : Prices P W) where
  unfoldable pub per_million : P → Option W
  per_million value = elim (prices.read value) [
    | none ↦ none
    | some per_token ↦
        if prices.is_minus_one per_token
        then some prices.nought
        else if not (prices.is_finite per_token) || prices.is_negative per_token
        then none
        else some (prices.times_million per_token)
  ]

  -- `float` of both prices; the second is read where the first is not -1
  unfoldable pub pricing_unavailable : OpenRouterPricing P → Bool
  pricing_unavailable pricing = elim (prices.read pricing.prompt) [
    | none ↦ false
    | some p ↦
        if prices.is_minus_one p
        then true
        else elim (prices.read pricing.completion) [ none ↦ false | some c ↦ prices.is_minus_one c ]
  ]

  abbrev capabilities_of : OpenRouterCatalogModel P → Option (ModelSpec W) → List String
  capabilities_of model none = catalog_capabilities model
  capabilities_of model (some curated) =
      if mem "code" curated.capabilities
      then with_code (catalog_capabilities model)
      else catalog_capabilities model

  abbrev context_of : Option ℕ → ℕ
  context_of none = 8192
  context_of (some n) = if n == 0 then 8192 else n

  abbrev version_of : OpenRouterPricing P → String
  version_of pricing =
      if pricing_unavailable pricing then "openrouter-live-unavailable" else "openrouter-live"

  abbrev group_of : List String → Option (ModelSpec W) → String
  group_of capabilities none = catalog_fallback_group capabilities
  group_of capabilities (some curated) = curated.fallback_group

  -- the specification, once both prices are known
  abbrev spec_of : OpenRouterCatalogModel P → Option (ModelSpec W) → W → W → ModelSpec W
  spec_of model curated prompt completion = record {
    id = str_append "openrouter/" model.id;
    provider = "openrouter";
    version = 1;
    capabilities = capabilities_of model curated;
    data_policy = record {
      max_classification = "internal";
      locality = "hosted";
      retention = "provider-default";
    };
    context_limit = context_of model.context_length;
    cost = record {
      input_per_mtok = prompt;
      output_per_mtok = completion;
      pricing_version = version_of model.pricing;
    };
    rate_limit = elim curated [
      | none ↦ record { tokens_per_minute = none; requests_per_second = none }
      | some c ↦ c.rate_limit
    ];
    latency_class = elim curated [ none ↦ "standard" | some c ↦ c.latency_class ];
    quality_scores = elim curated [ none ↦ [] | some c ↦ c.quality_scores ];
    available = true;
    rate_limited = false;
    fallback_group = group_of (capabilities_of model curated) curated;
  }

  -- none: a price that is not valid raises `ValueError`
  unfoldable pub catalog_model_spec :
      OpenRouterCatalogModel P → Option (ModelSpec W) → Option (ModelSpec W)
  unfolding per_million pricing_unavailable catalog_capabilities catalog_fallback_group
  catalog_model_spec model curated = elim (per_million model.pricing.prompt) [
    | none ↦ none
    | some prompt ↦ elim (per_million model.pricing.completion) [
      | none ↦ none
      | some completion ↦ some (spec_of model curated prompt completion)
    ]
  ]

  abbrev made : Dict (ModelSpec W) → Option (OpenRouterCatalogModel P) → Option (ModelSpec W)
  made curated none = none
  made curated (some entry) = catalog_model_spec entry (lookup entry.id curated)

  unfoldable pub read_entries :
      Dict (ModelSpec W)
      → List (Option (OpenRouterCatalogModel P))
      → Dict (ModelSpec W)
      → ℕ
      → Dict (ModelSpec W) × ℕ
  unfolding catalog_model_spec
  read_entries curated [] models skipped = (models, skipped)
  read_entries curated (raw ∷ raws) models skipped =
      let (kept, ok) = keep_entry models (made curated raw) in
      read_entries curated raws kept (if ok then skipped else skipped + 1)

  -- the result of the request's data; none: `OpenRouterCatalogError`
  unfoldable pub catalog_of :
      Dict (ModelSpec W)
      → List (Option (OpenRouterCatalogModel P))
      → Option (OpenRouterCatalogResult W)
  unfolding read_entries
  catalog_of curated data_ =
      let (models, skipped) = read_entries curated data_ [] 0 in
      if not (is_nonempty models)
      then none
      else some (record {
        models = sort_by (λ (s t : ModelSpec W). text_lt s.id t.id) (values models);
        total_count = length data_;
        skipped = skipped;
      })

-- The models of other providers, and those of the catalogue in place of OpenRouter's.
unfoldable pub registry_with_openrouter_catalog :
    {W : Type 0} → OpenRouterCatalogResult W → ModelRegistry W → Option (ModelRegistry W)
unfolding registry_of all_models
registry_with_openrouter_catalog result base =
    registry_of
      (keep (λ s. not (str_eq s.provider "openrouter")) (all_models base) ++ result.models) []
