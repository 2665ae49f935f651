-- ===== src/Models/Routing/Ends.antt =====
-- Fallbacks of models/routing.py come to an end: each one tries a registered model that was not tried.
use decode.Prelude.{
  ℕ, suc, ◌+◌, ◌≤◌, ◌<◌, ◌≡◌, String, true, false, some, List, [], ◌∷◌, ◌++◌, mem, mem-append,
  Exists, Exists-map, inl, inr, arith, eq_iff, length, if◌then◌else◌,
}
use decode.Models.Numbers.{Number}
use decode.Models.Registry.{ModelSpec, ModelRegistry, all_models}
use decode.Models.Routing.{RoutingRequest, RoutingDecision, fallback}
use decode.Models.Routing.Safety.{fallback-IsAlternative}

module _ {W : Type 0} ⦃d : Number W⦄ (models : ModelRegistry W) (request : RoutingRequest W) where
  -- A number of successive fallbacks that each select a model.
  pub data Fallbacks (start : RoutingDecision) : ℕ → RoutingDecision → Type 0 where
    here : Fallbacks start 0 start
    then_ :
        {n : ℕ} {before : RoutingDecision} (after : RoutingDecision)
        → Fallbacks start n before
        → fallback models before request ≡ some after
        → after.selected ≡ true
        → Fallbacks start (n + 1) after

  -- the models that were not tried
  abbrev untried : List String → List (ModelSpec W) → ℕ
  untried tried [] = 0
  untried tried (s ∷ ss) = let n = untried tried ss in if mem s.id tried then n else suc n

  untried_bounded : (tried : List String) (ss : List (ModelSpec W)) → untried tried ss ≤ length ss
  untried_bounded tried [] = omega arith
  untried_bounded tried (s ∷ ss) = ground (arith, untried_bounded tried ss)

  untried_falls :
      (tried : List String) (id : String) (ss : List (ModelSpec W))
      → untried (tried ++ id ∷ []) ss ≤ untried tried ss
  untried_falls tried id [] = omega arith
  untried_falls tried id (s ∷ ss) =
      ground (arith, untried_falls tried id ss, mem-append s.id tried (id ∷ []))

  untried-snoc :
      (tried : List String) (id : String) (ss : List (ModelSpec W))
      → Exists (λ (s : ModelSpec W). (s.id ≡ id) × (mem s.id tried ≡ false)) ss
      → untried (tried ++ id ∷ []) ss < untried tried ss
  untried-snoc tried id [] h = absurd h
  untried-snoc tried id (s ∷ ss) (inl p) =
      ground (arith, p, untried_falls tried id ss, mem-append s.id tried (id ∷ []), eq_iff s.id id)
  untried-snoc tried id (s ∷ ss) (inr more) =
      ground (arith, untried-snoc tried id ss more, mem-append s.id tried (id ∷ []))

  untried-Fallbacks :
      (start last : RoutingDecision) (n : ℕ)
      → Fallbacks start n last
      → n + untried last.tried (all_models models) ≤ untried start.tried (all_models models)
  untried-Fallbacks start last _ here = omega arith
  untried-Fallbacks start last _ (then_ {n} {before} after chain e selected) =
      let (current, _, alternative, tried) =
        fallback-IsAlternative models before after request e selected in
      let less =
        untried-snoc before.tried after.model_id (all_models models)
          (Exists-map _ _ (all_models models) (λ s h. (h.0, h.1)) alternative) in
      let before_bound = untried-Fallbacks start before n chain in rw tried (omega arith)

  -- No more fallbacks can follow one another than there are registered models.
  pub Fallbacks-cease :
      (start last : RoutingDecision) (n : ℕ)
      → Fallbacks start n last
      → n ≤ length (all_models models)
  Fallbacks-cease start last n chain =
      omega (
        arith,
        untried-Fallbacks start last n chain,
        untried_bounded start.tried (all_models models),
      )
