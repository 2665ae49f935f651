-- ===== src/Models/Routing/Safety.antt =====
-- What models/routing.py never does: leave the local models, or fall back across a boundary.
use decode.Prelude.{
  ◌≡◌, refl, ap, String, Bool, true, false, not, ◌&&◌, some, List, [], ◌∷◌, ◌++◌, map, mem, str_eq,
  is_empty, All, All-map, Exists, Exists-map, ◌⊎◌, inl, inr, Bool-cases, Option-cases, arith,
  eq_iff, keep, bind-eq-some, of_some,
}
use decode.Prelude.Dict.{values}
use decode.Models.Numbers.{Number}
use decode.Models.Registry.{ModelSpec, ModelRegistry, all_models, in_group, get}
use decode.Models.Routing.{
  RoutingRequest, RoutingRule, RoutingDecision, matches, passes_hard_filters, in_pool,
  fallback_pool, id_lt, fall_to, fallback,
}
use decode.Prelude.Sort.{All-sort_by}
use decode.Prelude.Filter.{passing, passing-found}

module _ {W : Type 0} where
  -- The request asks for a local model, or a rule that matches it does.
  abbrev pub NeedsLocal : List RoutingRule → RoutingRequest W → Bool → Type 0
  NeedsLocal rules request local =
      (local ≡ true)
      ⊎ Exists
          (λ (rule : RoutingRule).
            (matches rule request ≡ true) × (rule.require_locality ≡ "local"))
          rules

module _ {W : Type 0} ⦃d : Number W⦄ (models : ModelRegistry W) where
  -- A model that a fallback may choose: registered, untried, in the group and at the locality of the
  -- current one, and with every filter passed.
  abbrev pub IsAlternative :
      ModelSpec W → RoutingRequest W → List String → String → ModelSpec W → Type 0
  IsAlternative current request tried id s =
      (s.id ≡ id)
      × (mem s.id tried ≡ false)
      × (s.fallback_group ≡ current.fallback_group)
      × (s.data_policy.locality ≡ current.data_policy.locality)
      × (passes_hard_filters s request ≡ some true)

  Exists-in_group :
      (P : ModelSpec W → Type 0) (group : String) (ss : List (ModelSpec W))
      → Exists P (keep (λ s. not (is_empty group) && str_eq s.fallback_group group) ss)
      → Exists (λ s. (s.fallback_group ≡ group) × P s) ss
  Exists-in_group P group [] h = absurd h
  Exists-in_group P group (s ∷ ss) h =
      elim (Bool-cases (not (is_empty group) && str_eq s.fallback_group group)) [
        | inl e ↦ elim (rw (keep, e) at h) [
          | inl p ↦ inl (ground (arith, eq_iff s.fallback_group group), p)
          | inr more ↦ inr (Exists-in_group P group ss more)
        ]
        | inr e ↦ inr (Exists-in_group P group ss (rw (keep, e) at h))
      ]

  IsAlternative-in_pool :
      (current : ModelSpec W) (request : RoutingRequest W) (tried : List String) (id : String)
      (s : ModelSpec W)
      → s.fallback_group ≡ current.fallback_group
      → s.id ≡ id
      → in_pool models current request tried s ≡ some true
      → IsAlternative current request tried id s
  unfolding in_pool
  IsAlternative-in_pool current request tried id s g i e = (
    i,
    ground arith,
    g,
    ground (arith, eq_iff s.data_policy.locality current.data_policy.locality),
    ground arith,
  )

  All-ids :
      (P : String → Type 0) (ss : List (ModelSpec W))
      → All (λ s. P s.id) ss
      → All P (map (λ (s : ModelSpec W). s.id) ss)
  All-ids P [] h = tt
  All-ids P (s ∷ ss) h = (h.0, All-ids P ss h.1)

  -- Each id of the pool is that of an alternative.
  pub fallback_pool-All :
      (current : ModelSpec W) (request : RoutingRequest W) (tried pool : List String)
      → fallback_pool models current request tried ≡ some pool
      → All (λ id. Exists (IsAlternative current request tried id) (all_models models)) pool
  unfolding fallback_pool in_group all_models
  fallback_pool-All current request tried pool e =
      let test = in_pool models current request tried in
      let group = in_group models current.fallback_group in
      let (specs, p, q) = bind-eq-some _ (passing test group) pool e in
      rw (← of_some q) (
        All-sort_by _ (id_lt models request.task_class) (map (λ (s : ModelSpec W). s.id) specs) (
          All-ids _ specs (
            All-map _ _ specs
              (λ y h.
                Exists-map _ _ (values models)
                  (λ s (g, found).
                    IsAlternative-in_pool current request tried y.id s g
                      (ap (λ (m : ModelSpec W). m.id) found.0) found.1)
                  (Exists-in_group (λ x. (x ≡ y) × (test x ≡ some true)) current.fallback_group
                    (values models) h))
              (passing-found test group specs p))))

  head-fall_to :
      (P : String → Type 0) (current : ModelSpec W) (decision next : RoutingDecision)
      (request : RoutingRequest W) (pool : List String)
      → All P pool
      → fall_to models current decision request pool ≡ some next
      → next.selected ≡ true
      → P next.model_id × (next.tried ≡ decision.tried ++ next.model_id ∷ [])
  unfolding fall_to
  head-fall_to P current decision next request [] h e selected =
      absurd (cc (rw (← of_some e) at selected))
  head-fall_to P current decision next request (id ∷ ids) h e selected =
      let (spec, g, e1) = bind-eq-some _ (get models id) next e in
      let (pool, p, e2) =
        bind-eq-some _ (fallback_pool models spec request (decision.tried ++ id ∷ [])) next e1 in
      rw (← of_some e2) (h.0, refl)

  -- A fallback selects a registered model that was not tried before, in the group and at the locality
  -- of the current model, which passes every filter of the request, and adds it to the models tried.
  pub fallback-IsAlternative :
      (decision next : RoutingDecision) (request : RoutingRequest W)
      → fallback models decision request ≡ some next
      → next.selected ≡ true
      → (current : ModelSpec W) × (get models decision.model_id ≡ some current)
        × Exists (IsAlternative current request decision.tried next.model_id) (all_models models)
        × (next.tried ≡ decision.tried ++ next.model_id ∷ [])
  unfolding fallback
  fallback-IsAlternative decision next request e selected =
      elim (Bool-cases request.allow_fallback) [
        | inr off ↦ absurd (cc (rw (← of_some (rw (fallback, off) at e)) at selected))
        | inl on ↦ elim (Option-cases (get models decision.model_id)) [
          | inl n ↦ absurd (cc (rw (← of_some (rw (fallback, on, n) at e)) at selected))
          | inr (current, g) ↦
              let (pool, p, f) =
                bind-eq-some _ (fallback_pool models current request decision.tried) next
                  (rw (fallback, on, g) at e) in
              let (alternative, tried) =
                head-fall_to _ current decision next request pool
                  (fallback_pool-All current request decision.tried pool p) f selected in
              (current, g, alternative, tried)
        ]
      ]
