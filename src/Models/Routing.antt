-- ===== src/Models/Routing.antt =====
-- models/routing.py: `RoutingRule`, and the choice of a model and of its fallback by `ModelRouter`. A
-- classification that is not known raises, and the call has no result.
pub mod Rank
pub mod Order
pub mod Laws
pub mod Safety
pub mod Ends
use decode.Prelude.{
  ℕ, ◌≡◌, refl, String, Bool, true, false, not, ◌&&◌, ◌||◌, Option, none, some, List, [], ◌∷◌, ◌++◌,
  map, mem, str_eq, str_append, is_empty, is_nonempty, ltb, if◌then◌else◌,
}
use decode.Prelude.Dict.{lookup}
use decode.Values.{ℤ, pos}
use decode.Values.Equality.{int_eq, int_lt}
use decode.Models.Numbers.{Number}
use decode.Models.Registry.{
  ModelSpec, ModelRegistry, accepts, has_capabilities, quality_for, get, all_models, in_group,
}
use decode.Prelude.Filter.{passing}
use decode.Prelude.Sort.{sort_by}
use decode.Models.Routing.Rank.{latency_rank, rank_lt}

pub record RoutingRequest (W : Type 0) : Type 0 where
  pub task_class : String
  pub required_capabilities : List String
  pub data_classification : String
  pub local_only : Bool
  pub allowlist : List String
  pub max_context : ℤ
  pub quality_threshold : W
  pub latency_deadline_class : String
  pub cost_budget_per_mtok : W
  pub pinned_model : String
  pub allow_fallback : Bool

pub record RoutingRule : Type 0 where
  pub name : String
  pub when_task_class : String
  pub when_data_classification : String
  pub require_locality : String
  pub require_capabilities : List String

pub record RoutingDecision : Type 0 where
  pub model_id : String
  pub selected : Bool
  pub reason : String
  pub matched_rules : List String
  pub fallback_candidates : List String
  pub tried : List String

abbrev pub default_rules : List RoutingRule
default_rules =
    record {
      name = "confidential-local";
      when_task_class = "";
      when_data_classification = "confidential";
      require_locality = "local";
      require_capabilities = [];
    }
    ∷ record {
      name = "restricted-local";
      when_task_class = "";
      when_data_classification = "restricted";
      require_locality = "local";
      require_capabilities = [];
    }
    ∷ record {
      name = "structured-planning";
      when_task_class = "planning";
      when_data_classification = "";
      require_locality = "";
      require_capabilities = "structured_output" ∷ [];
    }
    ∷ []

-- the capabilities that are not yet required go behind those that are
abbrev pub require : List String → List String → List String
require [] required = required
require (c ∷ cs) required = require cs (if mem c required then required else required ++ c ∷ [])

-- a decision that selects no model
abbrev refused : String → List String → List String → RoutingDecision
refused reason matched tried = record {
  model_id = "";
  selected = false;
  reason = reason;
  matched_rules = matched;
  fallback_candidates = [];
  tried = tried;
}

abbrev chosen_as : String → String → List String → List String → List String → RoutingDecision
chosen_as id reason matched candidates tried = record {
  model_id = id;
  selected = true;
  reason = reason;
  matched_rules = matched;
  fallback_candidates = candidates;
  tried = tried;
}

abbrev pub quoted : String → String → String → String
quoted before name after = str_append before (str_append name after)

module _ {W : Type 0} where
  unfoldable pub matches : RoutingRule → RoutingRequest W → Bool
  matches rule request =
      if not (is_empty rule.when_task_class) && not (str_eq rule.when_task_class request.task_class)
      then false
      else not (
          not (is_empty rule.when_data_classification)
          && not (str_eq rule.when_data_classification request.data_classification))

  -- The loop of `_effective`: what is matched, local only, and required so far, and the rules left.
  unfoldable pub gather :
      List RoutingRule
      → RoutingRequest W
      → List String
      → Bool
      → List String
      → List String × Bool × List String
  unfolding matches
  gather [] request matched local required = (matched, local, required)
  gather (rule ∷ rules) request matched local required =
      if matches rule request
      then gather rules request (matched ++ rule.name ∷ [])
          (if str_eq rule.require_locality "local" then true else local)
          (require rule.require_capabilities required)
      else gather rules request matched local required

  unfoldable pub effective : List RoutingRule → RoutingRequest W → RoutingRequest W × List String
  unfolding gather
  effective rules request =
      let found = gather rules request [] request.local_only request.required_capabilities in
      let wanted : RoutingRequest W = record request {
        local_only = found.1;
        required_capabilities = found.2;
      } in
      (wanted, found.0)

module _ {W : Type 0} ⦃d : Number W⦄ where
  -- the filters behind that on the data classification
  unfoldable pub passes_limits : ModelSpec W → RoutingRequest W → Bool
  unfolding has_capabilities quality_for latency_rank
  passes_limits spec request =
      if request.local_only && not (str_eq spec.data_policy.locality "local")
      then false
      else if not (has_capabilities spec request.required_capabilities)
      then false
      else if not (int_eq request.max_context (pos 0))
          && int_lt (pos spec.context_limit) request.max_context
      then false
      else if not (d.eq request.quality_threshold d.nought)
          && d.lt (quality_for spec request.task_class) request.quality_threshold
      then false
      else if not (is_empty request.latency_deadline_class)
          && ltb (latency_rank request.latency_deadline_class) (latency_rank spec.latency_class)
      then false
      else not (
          not (d.eq request.cost_budget_per_mtok d.nought)
          && d.lt request.cost_budget_per_mtok spec.cost.input_per_mtok)

  unfoldable pub passes_hard_filters : ModelSpec W → RoutingRequest W → Option Bool
  unfolding passes_limits accepts
  passes_hard_filters spec request =
      if not spec.available || spec.rate_limited
      then some false
      else if is_nonempty request.allowlist
          && not (mem spec.id request.allowlist)
          && not (mem spec.provider request.allowlist)
      then some false
      else elim (accepts spec.data_policy request.data_classification) [
        | none ↦ none
        | some ok ↦ some (if not ok then false else passes_limits spec request)
      ]

  module _ (models : ModelRegistry W) where
    -- the order of two ids by the models that they are registered for
    abbrev pub id_lt : String → String → String → Bool
    id_lt task_class a b = elim (lookup a models) [
      | none ↦ false
      | some s ↦ elim (lookup b models) [ none ↦ false | some t ↦ rank_lt task_class s t ]
    ]

    -- the test of the loop of `_fallback_pool`
    unfoldable pub in_pool :
        ModelSpec W → RoutingRequest W → List String → ModelSpec W → Option Bool
    unfolding passes_hard_filters
    in_pool current request tried spec =
        if mem spec.id tried
        then some false
        else if not (str_eq spec.data_policy.locality current.data_policy.locality)
        then some false
        else passes_hard_filters spec request

    unfoldable pub fallback_pool :
        ModelSpec W → RoutingRequest W → List String → Option (List String)
    unfolding in_pool in_group
    fallback_pool current request tried =
        elim (passing (in_pool current request tried) (in_group models current.fallback_group)) [
          | none ↦ none
          | some pool ↦
              some (sort_by (id_lt request.task_class) (map (λ (s : ModelSpec W). s.id) pool))
        ]

    -- the choice of a model, with the pool behind it
    unfoldable pub choose :
        ModelSpec W → RoutingRequest W → String → List String → Option RoutingDecision
    unfolding fallback_pool
    choose spec request reason matched = elim (fallback_pool spec request (spec.id ∷ [])) [
      | none ↦ none
      | some pool ↦ some (chosen_as spec.id reason matched pool (spec.id ∷ []))
    ]

    -- `route` where a model is pinned
    unfoldable pub route_pinned : RoutingRequest W → Option RoutingDecision
    unfolding choose get passes_hard_filters
    route_pinned request = elim (get models request.pinned_model) [
      | none ↦
          some (refused (quoted "pinned model '" request.pinned_model "' is not registered") [] [])
      | some spec ↦ elim (passes_hard_filters spec request) [
        | none ↦ none
        | some false ↦ some (
            refused (quoted "pinned model '" request.pinned_model "' fails a hard policy filter") []
              [])
        | some true ↦ choose spec request "pinned model" []
      ]
    ]

    -- the first of the eligible models, in order
    unfoldable pub pick :
        RoutingRequest W → List String → List (ModelSpec W) → Option RoutingDecision
    unfolding choose
    pick wanted matched [] = some (
        refused
          (if wanted.local_only
            then "local-only requirement with no registered local model"
            else "no model satisfies the policy and capability filters")
          matched [])
    pick wanted matched (chosen ∷ others) =
        choose chosen wanted
          (quoted "task=" wanted.task_class
            "; passed policy/capability/health filters; ranked top by quality then latency then cost")
          matched

    -- `route` with the effective request
    unfoldable pub route_best : RoutingRequest W → List String → Option RoutingDecision
    unfolding pick all_models passes_hard_filters
    route_best wanted matched =
        elim (passing (λ s. passes_hard_filters s wanted) (all_models models)) [
          | none ↦ none
          | some eligible ↦ pick wanted matched (sort_by (rank_lt wanted.task_class) eligible)
        ]

    unfoldable pub route : List RoutingRule → RoutingRequest W → Option RoutingDecision
    unfolding route_pinned route_best effective
    route rules request =
        if not (is_empty request.pinned_model)
        then route_pinned request
        else route_best (effective rules request).0 (effective rules request).1

    -- `fallback` with its pool: what is registered for an id of the pool is its current model.
    unfoldable pub fall_to :
        ModelSpec W → RoutingDecision → RoutingRequest W → List String → Option RoutingDecision
    unfolding fallback_pool get
    fall_to current decision request [] =
        some (refused "no safe fallback within the data and locality policy" [] decision.tried)
    fall_to current decision request (id ∷ ids) = elim (get models id) [
      | none ↦ none
      | some spec ↦ elim (fallback_pool spec request (decision.tried ++ id ∷ [])) [
        | none ↦ none
        | some pool ↦ some (
            chosen_as id
              (str_append "fallback from " (
                quoted decision.model_id " within "
                  (str_append current.fallback_group "; same locality and data policy")))
              decision.matched_rules pool (decision.tried ++ id ∷ []))
      ]
    ]

    unfoldable pub fallback : RoutingDecision → RoutingRequest W → Option RoutingDecision
    unfolding fall_to fallback_pool get
    fallback decision request =
        if not request.allow_fallback
        then some (refused "fallback disabled for this request" [] decision.tried)
        else elim (get models decision.model_id) [
          | none ↦ some (refused "no current model to fall back from" [] decision.tried)
          | some current ↦ elim (fallback_pool current request decision.tried) [
            | none ↦ none
            | some pool ↦ fall_to current decision request pool
          ]
        ]
