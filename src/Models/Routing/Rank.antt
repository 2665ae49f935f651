-- ===== src/Models/Routing/Rank.antt =====
-- models/routing.py: the key that ranks the models, as Python orders tuples.
use decode.Prelude.{ℕ, String, Bool, not, str_eq, ltb, ◌==◌, if◌then◌else◌}
use decode.Prelude.Text.{text_lt}
use decode.Models.Numbers.{Number}
use decode.Models.Registry.{ModelSpec, quality_for}

unfoldable pub latency_rank : String → ℕ
latency_rank value =
    if str_eq value "fast"
    then 0
    else if str_eq value "standard"
    then 1
    else if str_eq value "slow"
    then 2
    else 1

module _ {W : Type 0} ⦃d : Number W⦄ where
  -- `<` of the keys: the first entries that are not equal decide.
  unfoldable pub rank_lt : String → ModelSpec W → ModelSpec W → Bool
  unfolding quality_for latency_rank
  rank_lt task_class s t =
      if not (d.eq (d.neg (quality_for s task_class)) (d.neg (quality_for t task_class)))
      then d.lt (d.neg (quality_for s task_class)) (d.neg (quality_for t task_class))
      else if not (latency_rank s.latency_class == latency_rank t.latency_class)
      then ltb (latency_rank s.latency_class) (latency_rank t.latency_class)
      else if not (d.eq s.cost.input_per_mtok t.cost.input_per_mtok)
      then d.lt s.cost.input_per_mtok t.cost.input_per_mtok
      else text_lt s.id t.id
