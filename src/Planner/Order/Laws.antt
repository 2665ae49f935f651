-- ===== src/Planner/Order/Laws.antt =====
-- What an order of planner/dag.py is.
use decode.Prelude.{
  ℕ, zero, suc, ◌≡◌, refl, String, true, some, List, [], ◌∷◌, ◌++◌, mem, mem-append, All,
  Bool-cases, Option-cases, inl, inr, arith, eq_iff, length,
}
use decode.Prelude.Dict.{Dict, lookup, keys}
use decode.Planner.Graph.{PlanNode, PlanGraph}
use decode.Planner.Order.{
  Visits, OrderError, Outcome, done, failed, cycle, unknown, out_of_fuel, visit_all, finished,
  visit, topological_order,
}

-- An order of nodes, with their ids: each node stands behind all nodes that it depends on.
pub data Ordered (nodes : Dict PlanNode) : List String → List PlanNode → Type 0 where
  empty : Ordered nodes [] []
  next :
      {ids : List String} {ns : List PlanNode} (id : String) (n : PlanNode)
      → Ordered nodes ids ns
      → lookup id nodes ≡ some n
      → All (λ d. mem d ids ≡ true) n.depends_on
      → Ordered nodes (ids ++ id ∷ []) (ns ++ n ∷ [])

-- The visits have grown from `v` to `w`, and `w` is in order.
record Grown (nodes : Dict PlanNode) (v w : Visits) : Type 0 where
  pub in_order : Ordered nodes w.permanent w.order
  pub keeps : (d : String) → mem d v.permanent ≡ true → mem d w.permanent ≡ true

-- What a visit of `ids` leaves behind.
data Visited (nodes : Dict PlanNode) (ids : List String) (v : Visits) : Outcome → Type 0 where
  good :
      {w : Visits}
      → Grown nodes v w
      → All (λ d. mem d w.permanent ≡ true) ids
      → Visited nodes ids v (done w)
  bad : (e : OrderError) → Visited nodes ids v (failed e)

All-keeps :
    (ids xs ys : List String)
    → ((d : String) → mem d xs ≡ true → mem d ys ≡ true)
    → All (λ d. mem d xs ≡ true) ids
    → All (λ d. mem d ys ≡ true) ids
All-keeps [] xs ys f h = tt
All-keeps (i ∷ ids) xs ys f h = (f i h.0, All-keeps ids xs ys f h.1)

module _ (nodes : Dict PlanNode) where
  -- `step` visits one node.
  abbrev Steps : (String → Visits → Outcome) → Type 0
  Steps step =
      (id : String) (v : Visits)
      → Ordered nodes v.permanent v.order
      → Visited nodes (id ∷ []) v (step id v)

  after_one :
      (step : String → Visits → Outcome) (id : String) (ids : List String) (v : Visits)
      (o : Outcome)
      → ((w : Visits)
          → Ordered nodes w.permanent w.order
          → Visited nodes ids w (visit_all step ids w))
      → Visited nodes (id ∷ []) v o
      → step id v ≡ o
      → Visited nodes (id ∷ ids) v (visit_all step (id ∷ ids) v)
  after_one step id ids v o rest (bad e) same = rw (visit_all, same) (bad e)
  after_one step id ids v o rest (good {w} grown seen) same =
      rw (visit_all, same) (join (visit_all step ids w) (rest w grown.in_order))
    where
      join : (p : Outcome) → Visited nodes ids w p → Visited nodes (id ∷ ids) v p
      join p (bad e) = bad e
      join p (good later all_seen) =
          good
            (record { in_order = later.in_order; keeps = λ d h. later.keeps d (grown.keeps d h) })
            (later.keeps id seen.0, all_seen)

  visit_all-Visited :
      (step : String → Visits → Outcome)
      → Steps step
      → (ids : List String) (v : Visits) → Ordered nodes v.permanent v.order
      → Visited nodes ids v (visit_all step ids v)
  visit_all-Visited step steps [] v h = good (record { in_order = h; keeps = λ d e. e }) tt
  visit_all-Visited step steps (id ∷ ids) v h =
      after_one step id ids v (step id v) (visit_all-Visited step steps ids) (steps id v h) refl

  mem-snoc : (d id : String) (ids : List String) → mem d ids ≡ true → mem d (ids ++ id ∷ []) ≡ true
  mem-snoc d id ids h = ground (arith, mem-append d ids (id ∷ []))

  mem-last : (id : String) (ids : List String) → mem id (ids ++ id ∷ []) ≡ true
  mem-last id ids = ground (arith, mem-append id ids (id ∷ []), eq_iff id id)

  finished-Visited :
      (id : String) (n : PlanNode) (v : Visits) (o : Outcome)
      → lookup id nodes ≡ some n
      → Visited nodes n.depends_on v o
      → Visited nodes (id ∷ []) v (finished id n o)
  finished-Visited id n v o e (bad err) = bad err
  finished-Visited id n v o e (good {w} grown seen) =
      good
        (record {
          in_order = next id n grown.in_order e seen;
          keeps = λ d h. mem-snoc d id w.permanent (grown.keeps d h);
        })
        (mem-last id w.permanent, tt)

  visit-Visited : (fuel : ℕ) (path : List String) → Steps (visit fuel nodes path)
  unfolding visit
  visit-Visited zero path id v h = bad out_of_fuel
  visit-Visited (suc fuel) path id v h = elim (Bool-cases (mem id v.permanent)) [
    | inl seen ↦ rw (visit, seen) (good (record { in_order = h; keeps = λ d e. e }) (seen, tt))
    | inr new ↦ elim (Bool-cases (mem id path)) [
      | inl again ↦ rw (visit, new, again) (bad (cycle id))
      | inr fresh ↦ elim (Option-cases (lookup id nodes)) [
        | inl e ↦ rw (visit, new, fresh, e) (bad (unknown id))
        | inr (n, e) ↦
            rw (visit, new, fresh, e)
              (finished-Visited id n v _ e
                (visit_all-Visited _ (visit-Visited fuel (id ∷ path)) n.depends_on v h))
      ]
    ]
  ]

-- What the search for an order gives: an order that holds every node of the plan, or an error.
pub data Sorts (g : PlanGraph) : Outcome → Type 0 where
  sorted :
      {w : Visits}
      → Ordered g.nodes w.permanent w.order
      → All (λ id. mem id w.permanent ≡ true) (keys g.nodes)
      → Sorts g (done w)
  unsorted : {e : OrderError} → Sorts g (failed e)

-- If a topological order is returned, each node stands in it behind all nodes that it depends on, and every
-- node of the plan is in it.
pub topological_order-Sorts : (g : PlanGraph) → Sorts g (topological_order g)
unfolding topological_order
topological_order-Sorts g = read_off _ (
    visit_all-Visited g.nodes _ (visit-Visited g.nodes (suc (length (keys g.nodes))) [])
      (keys g.nodes) (record { permanent = []; order = [] }) empty)
  where
    read_off : (o : Outcome) {v : Visits} → Visited g.nodes (keys g.nodes) v o → Sorts g o
    read_off o (bad e) = unsorted
    read_off o (good grown seen) = sorted grown.in_order seen
