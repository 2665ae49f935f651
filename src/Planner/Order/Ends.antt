-- ===== src/Planner/Order/Ends.antt =====
-- The fuel that `topological_order` is given in the model of planner/dag.py is enough.
use decode.Prelude.{
  ℕ, zero, suc, ◌≤◌, ◌<◌, ◌≡◌, ◌≢◌, refl, String, true, false, some, List, [], ◌∷◌, mem, Bool-cases,
  Option-cases, inl, inr, arith, eq_iff, length, str_eq, subst, if◌then◌else◌,
}
use decode.Prelude.Dict.{Dict, lookup, keys}
use decode.Planner.Graph.{PlanNode, PlanGraph}
use decode.Planner.Order.{
  Visits, Outcome, done, failed, cycle, unknown, out_of_fuel, visit_all, finished, visit,
  topological_order,
}

-- how many of the ids are not on the path
abbrev off_path : List String → List String → ℕ
off_path path [] = 0
off_path path (k ∷ ks) = if mem k path then off_path path ks else suc (off_path path ks)

off_path-fewer : (id : String) (path ks : List String) → off_path (id ∷ path) ks ≤ off_path path ks
off_path-fewer id path [] = omega arith
off_path-fewer id path (k ∷ ks) = ground (arith, off_path-fewer id path ks)

off_path-less :
    (id : String) (path ks : List String)
    → mem id ks ≡ true
    → mem id path ≡ false
    → off_path (id ∷ path) ks < off_path path ks
off_path-less id path [] h fresh = cc
off_path-less id path (k ∷ ks) h fresh = elim (Bool-cases (str_eq id k)) [
  | inl e ↦ head ((eq_iff id k).0 e)
  | inr e ↦ tail e (λ m. off_path-less id path ks m fresh)
]
  where
    head : id ≡ k → off_path (id ∷ path) (k ∷ ks) < off_path path (k ∷ ks)
    head same =
        let new = subst (λ (x : String). mem x path ≡ false) same fresh in
        ground (arith, off_path-fewer id path ks, eq_iff k id, new)

    tail :
        str_eq id k ≡ false
        → (mem id ks ≡ true → off_path (id ∷ path) ks < off_path path ks)
        → off_path (id ∷ path) (k ∷ ks) < off_path path (k ∷ ks)
    tail other less = ground (arith, less)

off_path-empty : (ks : List String) → off_path [] ks ≡ length ks
off_path-empty [] = refl
off_path-empty (k ∷ ks) = ground (arith, off_path-empty ks)

lookup-mem :
    {V : Type 0} (id : String) (v : V) (d : Dict V) → lookup id d ≡ some v → mem id (keys d) ≡ true
lookup-mem id v [] h = cc
lookup-mem id v ((j, w) ∷ d) h = ground (arith, eq_iff j id, eq_iff id j, lookup-mem id v d)

-- The outcome is not for want of fuel.
abbrev Fed : Outcome → Type 0
Fed (done v) = Unit
Fed (failed out_of_fuel) = ⊥
Fed (failed e) = Unit

module _ (nodes : Dict PlanNode) where
  visit_all-Fed :
      (step : String → Visits → Outcome)
      → ((id : String) (v : Visits) → Fed (step id v))
      → (ids : List String) (v : Visits) → Fed (visit_all step ids v)
  visit_all-Fed step fed [] v = tt
  visit_all-Fed step fed (id ∷ ids) v = one (step id v) refl (fed id v) (visit_all-Fed step fed ids)
    where
      one :
          (o : Outcome)
          → step id v ≡ o
          → Fed o
          → ((w : Visits) → Fed (visit_all step ids w))
          → Fed (visit_all step (id ∷ ids) v)
      one (done w) same h rest = rw (visit_all, same) (rest w)
      one (failed out_of_fuel) same h rest = absurd h
      one (failed (cycle c)) same h rest = rw (visit_all, same) tt
      one (failed (unknown c)) same h rest = rw (visit_all, same) tt

  finished-Fed : (id : String) (n : PlanNode) (o : Outcome) → Fed o → Fed (finished id n o)
  finished-Fed id n (done v) h = tt
  finished-Fed id n (failed out_of_fuel) h = h
  finished-Fed id n (failed (cycle c)) h = tt
  finished-Fed id n (failed (unknown c)) h = tt

  visit-Fed :
      (fuel : ℕ) (path : List String)
      → off_path path (keys nodes) < fuel
      → (id : String) (v : Visits) → Fed (visit fuel nodes path id v)
  unfolding visit
  visit-Fed zero path enough id v = absurd (omega arith)
  visit-Fed (suc fuel) path enough id v = elim (Bool-cases (mem id v.permanent)) [
    | inl seen ↦ rw (visit, seen) tt
    | inr new ↦ elim (Bool-cases (mem id path)) [
      | inl again ↦ rw (visit, new, again) tt
      | inr fresh ↦ elim (Option-cases (lookup id nodes)) [
        | inl e ↦ rw (visit, new, fresh, e) tt
        | inr (n, e) ↦
            let less = off_path-less id path (keys nodes) (lookup-mem id n nodes e) fresh in
            rw (visit, new, fresh, e)
              (finished-Fed id n _
                (visit_all-Fed _ (visit-Fed fuel (id ∷ path) (omega arith)) n.depends_on v))
      ]
    ]
  ]

Fed-not : (o : Outcome) → Fed o → o ≢ failed out_of_fuel
Fed-not (done v) h e = cc
Fed-not (failed out_of_fuel) h e = h
Fed-not (failed (cycle c)) h e = cc
Fed-not (failed (unknown c)) h e = cc

-- The search for a topological order ends, with an order or an error of the source, within the fuel that
-- it is given: one more than the number of nodes.
pub topological_order_ends : (g : PlanGraph) → topological_order g ≢ failed out_of_fuel
unfolding topological_order
topological_order_ends g = Fed-not _ (
    visit_all-Fed g.nodes _
      (visit-Fed g.nodes (suc (length (keys g.nodes))) [] (enough (off_path-empty (keys g.nodes))))
      (keys g.nodes) (record { permanent = []; order = [] }))
  where
    enough : {a b : ℕ} → a ≡ b → a < suc b
    enough e = omega arith
