-- ===== src/Models/Tests.antt =====
-- Examples: a hosted model, two local ones and a catalogue, with whole numbers as scores and prices.
use decode.Prelude.{
  ℕ, ◌+◌, ◌≤◌, ◌≡◌, refl, String, true, false, none, some, [], ◌∷◌, ◌++◌, length, All, Exists,
}
use decode.Values.{ℤ, pos}
use decode.Values.Equality.{int_lt}
use decode.Models.Numbers.{whole_number, ℤ-IsOrdered}
use decode.Models.Registry.{ModelSpec, ModelRegistry, all_models, get, model_name}
use decode.Models.Routing.{
  RoutingRequest, RoutingRule, RoutingDecision, default_rules, effective, route, fallback,
}
use decode.Models.Routing.Laws.{IsBest, route-IsBest}
use decode.Models.Routing.Safety.{IsAlternative, fallback-IsAlternative}
use decode.Models.Routing.Ends.{here, then_, Fallbacks-cease}
use decode.Models.Catalog.{
  OpenRouterCatalogModel, OpenRouterCatalogResult, Prices, catalog_model_spec, catalog_of,
}
use decode.Models.Catalog.Laws.{IsHosted, catalog_of-Counts, model_name-catalog_model_spec}

abbrev model : String → String → String → ℕ → ModelSpec ℤ
model id locality limit quality = record {
  id = id;
  provider = "p";
  version = 1;
  capabilities = [];
  data_policy = record { max_classification = limit; locality = locality; retention = "" };
  context_limit = 8192;
  cost = record { input_per_mtok = pos 0; output_per_mtok = pos 0; pricing_version = "" };
  rate_limit = record { tokens_per_minute = none; requests_per_second = none };
  latency_class = "standard";
  quality_scores = ("analysis", pos quality) ∷ [];
  available = true;
  rate_limited = false;
  fallback_group = "g";
}

abbrev models : ModelRegistry ℤ
models =
    ("big", model "big" "hosted" "restricted" 9)
    ∷ ("small", model "small" "local" "restricted" 5)
    ∷ ("tiny", model "tiny" "local" "restricted" 3)
    ∷ []

abbrev request : String → String → RoutingRequest ℤ
request classification pinned = record {
  task_class = "analysis";
  required_capabilities = [];
  data_classification = classification;
  local_only = false;
  allowlist = [];
  max_context = pos 0;
  quality_threshold = pos 0;
  latency_deadline_class = "";
  cost_budget_per_mtok = pos 0;
  pinned_model = pinned;
  allow_fallback = true;
}

abbrev confidential : RoutingRequest ℤ
confidential = request "confidential" ""

abbrev reason : String
reason =
    "task=analysis; passed policy/capability/health filters; ranked top by quality then latency then cost"

abbrev small_chosen : RoutingDecision
small_chosen = record {
  model_id = "small";
  selected = true;
  reason = reason;
  matched_rules = "confidential-local" ∷ [];
  fallback_candidates = "tiny" ∷ [];
  tried = "small" ∷ [];
}

abbrev confidential_rule : RoutingRule
confidential_rule = record {
  name = "confidential-local";
  when_task_class = "";
  when_data_classification = "confidential";
  require_locality = "local";
  require_capabilities = [];
}

confidential_routed : route models default_rules confidential ≡ some small_chosen
unfolding route decode.Models.Routing.Rank.rank_lt
confidential_routed = refl

route-IsBest_example : IsBest models (effective default_rules confidential).0 small_chosen
route-IsBest_example =
    route-IsBest models ℤ-IsOrdered default_rules confidential small_chosen refl confidential_routed

-- A pinned model skips the rules: confidential data goes to the hosted model that is pinned.
abbrev big_pinned : RoutingDecision
big_pinned = record {
  model_id = "big";
  selected = true;
  reason = "pinned model";
  matched_rules = [];
  fallback_candidates = [];
  tried = "big" ∷ [];
}

pinned_hosted : route models default_rules (request "confidential" "big") ≡ some big_pinned
unfolding route
pinned_hosted = refl

abbrev tiny_chosen : RoutingDecision
tiny_chosen = record {
  model_id = "tiny";
  selected = true;
  reason = "fallback from small within g; same locality and data policy";
  matched_rules = "confidential-local" ∷ [];
  fallback_candidates = [];
  tried = "small" ∷ "tiny" ∷ [];
}

fallen_back : fallback models small_chosen confidential ≡ some tiny_chosen
unfolding fallback
fallen_back = refl

fallback-IsAlternative_example :
    (current : ModelSpec ℤ) × (get models "small" ≡ some current)
    × Exists (IsAlternative models current confidential ("small" ∷ []) "tiny") (all_models models)
    × (tiny_chosen.tried ≡ small_chosen.tried ++ "tiny" ∷ [])
fallback-IsAlternative_example =
    fallback-IsAlternative models small_chosen tiny_chosen confidential fallen_back refl

Fallbacks-cease_example : 0 + 1 ≤ length (all_models models)
Fallbacks-cease_example =
    Fallbacks-cease models confidential small_chosen tiny_chosen (0 + 1)
      (then_ tiny_chosen here fallen_back refl)

-- prices in whole numbers: a text of digits is not read
abbrev prices : Prices ℕ ℤ
prices = record {
  read = λ n. some (pos n);
  is_minus_one = λ z. false;
  is_finite = λ z. true;
  is_negative = λ z. int_lt z (pos 0);
  times_million = λ z. z;
  nought = pos 0;
}

abbrev entry : OpenRouterCatalogModel ℕ
entry = record {
  id = "maker/model";
  context_length = none;
  architecture = record { input_modalities = []; output_modalities = "text" ∷ [] };
  pricing = record { prompt = 2; completion = 3 };
  supported_parameters = "tools" ∷ [];
}

abbrev entry_spec : ModelSpec ℤ
entry_spec = record {
  id = "openrouter/maker/model";
  provider = "openrouter";
  version = 1;
  capabilities = "chat" ∷ "tools" ∷ [];
  data_policy = record {
    max_classification = "internal";
    locality = "hosted";
    retention = "provider-default";
  };
  context_limit = 8192;
  cost = record {
    input_per_mtok = pos 2;
    output_per_mtok = pos 3;
    pricing_version = "openrouter-live";
  };
  rate_limit = record { tokens_per_minute = none; requests_per_second = none };
  latency_class = "standard";
  quality_scores = [];
  available = true;
  rate_limited = false;
  fallback_group = "openrouter-general";
}

entry_made : catalog_model_spec prices entry none ≡ some entry_spec
unfolding catalog_model_spec
entry_made = refl

model_name-catalog_model_spec_example : model_name entry_spec ≡ "maker/model"
model_name-catalog_model_spec_example =
    model_name-catalog_model_spec prices entry none entry_spec entry_made

abbrev result : OpenRouterCatalogResult ℤ
result = record { models = entry_spec ∷ []; total_count = 3; skipped = 2 }

-- an entry that is not valid, and a second one of the same id
result_made : catalog_of prices [] (some entry ∷ none ∷ some entry ∷ []) ≡ some result
unfolding catalog_of
result_made = refl

catalog_of-Counts_example :
    All IsHosted (entry_spec ∷ [])
    × (length (entry_spec ∷ []) + 2 ≡ length (some entry ∷ none ∷ some entry ∷ []))
    × (result.total_count ≡ length (some entry ∷ none ∷ some entry ∷ []))
    × (1 ≤ length (entry_spec ∷ []))
catalog_of-Counts_example =
    catalog_of-Counts prices [] (some entry ∷ none ∷ some entry ∷ []) result result_made
