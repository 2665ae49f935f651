-- ===== src/Models/Routing/Order.antt =====
-- The ranking of models is an order.

use decode.Prelude.{
  ◌≡◌, refl, String, Bool, true, false, not, ◌||◌, ltb, ◌==◌, arith, if◌then◌else◌,
}
use decode.Prelude.Text.{text_lt}
use decode.Prelude.Sort.{IsWeakOrder}
use decode.Models.Numbers.{Number, IsOrdered}
use decode.Models.Registry.{ModelSpec, quality_for}
use decode.Models.Routing.Rank.{latency_rank, rank_lt}

-- Where the first test does not find the two equal it decides, and the rest decides otherwise.
abbrev lex : {A : Type 0} → (A → A → Bool) → (A → A → Bool) → (A → A → Bool) → A → A → Bool
lex eq lt rest x y = if not (eq x y) then lt x y else rest x y

lex-IsWeakOrder :
    {A : Type 0} (eq lt rest : A → A → Bool)
    → ((x y : A) → eq x y ≡ not (lt x y || lt y x))
    → IsWeakOrder lt
    → IsWeakOrder rest
    → IsWeakOrder (lex eq lt rest)
lex-IsWeakOrder eq lt rest e w v = record {
  asym = λ x y. ground (arith, e x y, e y x, w.asym x y, v.asym x y);
  not_trans = λ x y z. ground (
    arith,
    e x y,
    e y z,
    e x z,
    w.not_trans x y z,
    w.not_trans z y x,
    w.not_trans y z x,
    w.not_trans z x y,
    v.not_trans x y z,
  );
}

text_lt_asym : (s t : String) → text_lt s t ≡ true → text_lt t s ≡ false
text_lt_asym String.[] String.[] h = refl
text_lt_asym String.[] (String.◌∷◌ d t) h = refl
text_lt_asym (String.◌∷◌ c s) String.[] h = cc
text_lt_asym (String.◌∷◌ c s) (String.◌∷◌ d t) h = ground (arith, text_lt_asym s t)

text_lt_not_trans :
    (s t u : String) → text_lt s t ≡ false → text_lt t u ≡ false → text_lt s u ≡ false
text_lt_not_trans String.[] String.[] u h k = k
text_lt_not_trans String.[] (String.◌∷◌ d t) u h k = cc
text_lt_not_trans (String.◌∷◌ c s) t String.[] h k = refl
text_lt_not_trans (String.◌∷◌ c s) String.[] (String.◌∷◌ e u) h k = cc
text_lt_not_trans (String.◌∷◌ c s) (String.◌∷◌ d t) (String.◌∷◌ e u) h k =
    ground (arith, text_lt_not_trans s t u)

pub text_lt-IsWeakOrder : IsWeakOrder text_lt
text_lt-IsWeakOrder = record { asym = text_lt_asym; not_trans = text_lt_not_trans }

module _ {W : Type 0} ⦃d : Number W⦄ (o : IsOrdered W) (task_class : String) where
  pub rank_lt-IsWeakOrder : IsWeakOrder (rank_lt {W = W} task_class)
  unfolding rank_lt
  rank_lt-IsWeakOrder =
      lex-IsWeakOrder
        (λ s t. d.eq (d.neg (quality_for s task_class)) (d.neg (quality_for t task_class)))
        (λ s t. d.lt (d.neg (quality_for s task_class)) (d.neg (quality_for t task_class))) _
        (λ s t. o.eq-not-lt _ _)
        (record { asym = λ s t. o.lt_asym _ _; not_trans = λ s t u. o.not_lt_trans _ _ _ })
        (lex-IsWeakOrder (λ s t. latency_rank s.latency_class == latency_rank t.latency_class)
          (λ s t. ltb (latency_rank s.latency_class) (latency_rank t.latency_class)) _
          (λ s t. ground arith)
          (record { asym = λ s t h. ground arith; not_trans = λ s t u h k. ground arith })
          (lex-IsWeakOrder (λ s t. d.eq s.cost.input_per_mtok t.cost.input_per_mtok)
            (λ s t. d.lt s.cost.input_per_mtok t.cost.input_per_mtok) _ (λ s t. o.eq-not-lt _ _)
            (record { asym = λ s t. o.lt_asym _ _; not_trans = λ s t u. o.not_lt_trans _ _ _ })
            (record {
              asym = λ s t. text_lt_asym s.id t.id;
              not_trans = λ s t u. text_lt_not_trans s.id t.id u.id;
            })))

  -- A model that does not rank before another has no higher quality.
  pub quality-rank_lt :
      (s t : ModelSpec W)
      → rank_lt task_class t s ≡ false
      → d.lt (quality_for s task_class) (quality_for t task_class) ≡ false
  unfolding rank_lt
  quality-rank_lt s t h = ground (
    arith,
    o.eq-not-lt (d.neg (quality_for t task_class)) (d.neg (quality_for s task_class)),
    o.lt-neg (quality_for t task_class) (quality_for s task_class),
    o.lt-neg (quality_for s task_class) (quality_for t task_class),
    o.lt_asym (quality_for s task_class) (quality_for t task_class),
  )
