-- ===== src/Models/Routing/Laws.antt =====
-- What the router of models/routing.py selects.
use decode.Prelude.{
  ◌≡◌, refl, sym, String, true, false, some, List, [], ◌∷◌, is_empty, All, All-map, Exists,
  Exists-map, ◌⊎◌, inl, inr, bind-eq-some, of_some,
}
use decode.Prelude.Filter.{passing, passing-All, passing-Exists}
use decode.Prelude.Sort.{sort_by, IsHead, IsHead-sort_by}
use decode.Models.Numbers.{Number, IsOrdered}
use decode.Models.Registry.{ModelSpec, ModelRegistry, quality_for, all_models}
use decode.Models.Routing.{
  RoutingRequest, RoutingRule, RoutingDecision, effective, passes_hard_filters, fallback_pool,
  choose, pick, route_best, route,
}
use decode.Models.Routing.Rank.{rank_lt}
use decode.Models.Routing.Order.{rank_lt-IsWeakOrder, quality-rank_lt}

module _ {W : Type 0} ⦃d : Number W⦄ (models : ModelRegistry W) where
  pub choose-id :
      (spec : ModelSpec W) (request : RoutingRequest W) (reason : String) (matched : List String)
      (decision : RoutingDecision)
      → choose models spec request reason matched ≡ some decision
      → (decision.model_id ≡ spec.id) × (decision.selected ≡ true)
  unfolding choose
  choose-id spec request reason matched decision e =
      let (pool, p, q) =
        bind-eq-some _ (fallback_pool models spec request (spec.id ∷ [])) decision e in
      rw (← of_some q) (refl, refl)

  -- The model that is selected, if one is, with what the others are.
  abbrev pub IsBest : RoutingRequest W → RoutingDecision → Type 0
  IsBest wanted decision =
      ((decision.selected ≡ false)
        × All (λ s. passes_hard_filters s wanted ≡ some false) (all_models models))
      ⊎ ((decision.selected ≡ true)
          × Exists
              (λ (s : ModelSpec W).
                (passes_hard_filters s wanted ≡ some true)
                × (s.id ≡ decision.model_id)
                × All
                    (λ (t : ModelSpec W).
                      (passes_hard_filters t wanted ≡ some false)
                      ⊎ ((rank_lt wanted.task_class t s ≡ false)
                          × (d.lt (quality_for s wanted.task_class)
                                (quality_for t wanted.task_class)
                              ≡ false)))
                    (all_models models))
              (all_models models))

  pub IsBest-pick :
      IsOrdered W
      → (wanted : RoutingRequest W) (matched : List String) (eligible ys : List (ModelSpec W))
        (decision : RoutingDecision)
      → passing (λ s. passes_hard_filters s wanted) (all_models models) ≡ some eligible
      → IsHead (rank_lt wanted.task_class) eligible ys
      → pick models wanted matched ys ≡ some decision
      → IsBest wanted decision
  unfolding pick
  IsBest-pick o wanted matched eligible [] decision p h e =
      let none_pass =
        passing-All (λ s. passes_hard_filters s wanted) (λ s. ⊥) (all_models models) eligible p
          (rw h tt) in
      inl (
        rw (← of_some e) refl,
        All-map _ _ (all_models models) (λ s side. elim side [ inl f ↦ f | inr x ↦ absurd x ])
            none_pass,
      )
  IsBest-pick o wanted matched eligible (s ∷ ys) decision p h e =
      let (id, selected) = choose-id s wanted _ matched decision e in
      let others =
        passing-All (λ t. passes_hard_filters t wanted)
          (λ (t : ModelSpec W).
            (rank_lt wanted.task_class t s ≡ false)
            × (d.lt (quality_for s wanted.task_class) (quality_for t wanted.task_class) ≡ false))
          (all_models models) eligible p
          (All-map _ _ eligible (λ t r. (r, quality-rank_lt o wanted.task_class s t r)) h.0) in
      inr (
        selected,
        Exists-map _ _ (all_models models) (λ x (ok, same). (ok, rw same (sym id), rw same others))
            (passing-Exists (λ t. passes_hard_filters t wanted) (λ x. x ≡ s) (all_models models)
              eligible p h.1),
      )

  -- Without a pinned model, what is selected is a registered model that passes the filters of the
  -- effective request; each registered model fails a filter, or does not rank before it and has no
  -- higher quality for the task. Where no model is selected, each fails a filter.
  pub route-IsBest :
      IsOrdered W
      → (rules : List RoutingRule) (request : RoutingRequest W) (decision : RoutingDecision)
      → is_empty request.pinned_model ≡ true
      → route models rules request ≡ some decision
      → IsBest (effective rules request).0 decision
  unfolding route route_best
  route-IsBest o rules request decision free e =
      let wanted = (effective rules request).0 in
      let (eligible, p, q) =
        bind-eq-some _ (passing (λ s. passes_hard_filters s wanted) (all_models models)) decision
          (rw (route, free) at e) in
      IsBest-pick o wanted (effective rules request).1 eligible
        (sort_by (rank_lt wanted.task_class) eligible) decision p
        (IsHead-sort_by (rank_lt wanted.task_class) (rank_lt-IsWeakOrder o wanted.task_class)
          eligible)
        q
