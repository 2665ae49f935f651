-- ===== src/Planner/Graph/Laws.antt =====
-- What the readiness and the marks of planner/dag.py mean.
use decode.Prelude.{
  ◌≡◌, refl, String, Bool, true, false, Option, none, some, List, [], ◌∷◌, all, str_eq, eq_iff, All,
  Bool-cases, Option-cases, inl, inr, if◌then◌else◌, subst, sym, ap, ◌∙◌, and-eq-true,
}
use mathlib.Core.Bool.{true≢false}
use decode.Prelude.Dict.{Dict, lookup, insert, values, lookup-insert}
use decode.Planner.Graph.{
  PlanNode, PlanGraph, dependencies_met, is_ready, kept_if, select_ready, ready_nodes, is_final,
  is_complete, mark, marked,
}

-- A pending node, all of whose dependencies are nodes that have succeeded.
pub record IsReady (nodes : Dict PlanNode) (n : PlanNode) : Type 0 where
  pub pending : n.status ≡ "pending"
  pub met :
      All (λ d. (m : PlanNode) × (lookup d nodes ≡ some m) × (m.status ≡ "success")) n.depends_on

dependencies_met-All :
    (nodes : Dict PlanNode) (ds : List String)
    → dependencies_met nodes ds ≡ some true
    → All (λ d. (m : PlanNode) × (lookup d nodes ≡ some m) × (m.status ≡ "success")) ds
dependencies_met-All nodes [] h = tt
dependencies_met-All nodes (d ∷ ds) h = elim (Option-cases (lookup d nodes)) [
  | inl e ↦ absurd (cc (rw (dependencies_met, e) at h))
  | inr (m, e) ↦ elim (Bool-cases (str_eq m.status "success")) [
    | inl f ↦ (
      (m, e, (eq_iff m.status "success").0 f),
      dependencies_met-All nodes ds (rw (dependencies_met, e, f) at h),
    )
    | inr f ↦ absurd (cc (rw (dependencies_met, e, f) at h))
  ]
]

is_ready-IsReady :
    (nodes : Dict PlanNode) (n : PlanNode) → is_ready nodes n ≡ some true → IsReady nodes n
is_ready-IsReady nodes n h = elim (Bool-cases (str_eq n.status "pending")) [
  | inl e ↦ record {
    pending = (eq_iff n.status "pending").0 e;
    met = dependencies_met-All nodes n.depends_on (rw e at h);
  }
  | inr e ↦ absurd (cc (rw e at h))
]

none-some : {ns : List PlanNode} → none ≡ some ns → ⊥
none-some e = cc

some-injective : {ms ns : List PlanNode} → some ms ≡ some ns → ms ≡ ns
some-injective e = cc

kept_if-All :
    (P : PlanNode → Type 0) (n : PlanNode) (r : Option Bool) (others : Option (List PlanNode))
    → (r ≡ some true → P n)
    → ((ms : List PlanNode) → others ≡ some ms → All P ms)
    → (ns : List PlanNode) → kept_if n r others ≡ some ns
    → All P ns
kept_if-All P n none others p h ns e = absurd (none-some e)
kept_if-All P n (some r) none p h ns e = absurd (none-some e)
kept_if-All P n (some true) (some ms) p h ns e =
    subst (All P) (some-injective e) (p refl, h ms refl)
kept_if-All P n (some false) (some ms) p h ns e = subst (All P) (some-injective e) (h ms refl)

select_ready-All :
    (nodes : Dict PlanNode) (ms ns : List PlanNode)
    → select_ready nodes ms ≡ some ns
    → All (IsReady nodes) ns
select_ready-All nodes [] ns h = subst (All (IsReady nodes)) (some-injective h) tt
select_ready-All nodes (m ∷ ms) ns h =
    kept_if-All (IsReady nodes) m (is_ready nodes m) (select_ready nodes ms)
      (is_ready-IsReady nodes m) (λ os e. select_ready-All nodes ms os e) ns h

-- Every node that is listed as ready is pending, and each of its dependencies is a node that has succeeded.
pub ready_nodes-IsReady :
    (g : PlanGraph) (ns : List PlanNode) → ready_nodes g ≡ some ns → All (IsReady g.nodes) ns
unfolding ready_nodes
ready_nodes-IsReady g ns h = select_ready-All g.nodes (values g.nodes) ns h

final_not_ready :
    (nodes : Dict PlanNode) (n : PlanNode)
    → is_final n.status ≡ true
    → is_ready nodes n ≡ some false
final_not_ready nodes n h = elim (Bool-cases (str_eq n.status "pending")) [
  | inl e ↦ absurd (pending_final n.status ((eq_iff n.status "pending").0 e) h)
  | inr e ↦ rw e refl
]
  where
    pending_final : (s : String) → s ≡ "pending" → is_final s ≡ true → ⊥
    pending_final s e h = true≢false (sym h ∙ ap is_final e)

select_ready-final :
    (nodes : Dict PlanNode) (ns : List PlanNode)
    → all (λ (n : PlanNode). is_final n.status) ns ≡ true
    → select_ready nodes ns ≡ some []
select_ready-final nodes [] h = refl
select_ready-final nodes (n ∷ ns) h =
    let (this, rest) =
      and-eq-true (is_final n.status) (all (λ (n : PlanNode). is_final n.status) ns) h in
    rw (final_not_ready nodes n this, select_ready-final nodes ns rest) refl

-- A plan that is complete has no ready node, and the question for one does not fail.
pub is_complete-ready_nodes : (g : PlanGraph) → is_complete g ≡ true → ready_nodes g ≡ some []
unfolding ready_nodes is_complete
is_complete-ready_nodes g h = select_ready-final g.nodes (values g.nodes) h

-- A mark of a node of the plan succeeds, changes that node as the mark says, and no other node.
pub lookup-mark :
    (id status summary other : String) (g : PlanGraph) (n : PlanNode)
    → lookup id g.nodes ≡ some n
    → (h : PlanGraph) × (mark id status summary g ≡ some h)
      × (lookup other h.nodes
          ≡ (if str_eq id other then some (marked status summary n) else lookup other g.nodes))
unfolding mark
lookup-mark id status summary other g n e = (
  record g { nodes = insert id (marked status summary n) g.nodes },
  rw (mark, e) refl,
  lookup-insert id other (marked status summary n) g.nodes,
)
