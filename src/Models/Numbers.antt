-- ===== src/Models/Numbers.antt =====
-- What the router does with a float: the constant 0.0, `==`, `<` and the sign. A score and a price are
-- numbers, no `nan`.
use decode.Prelude.{zero, suc, ◌≡◌, Bool, true, false, not, ◌||◌, arith}
use decode.Values.{ℤ, pos, negsuc}
use decode.Values.Equality.{int_eq, int_lt}

pub record Number (W : Type 0) : Type 0 where
  pub nought : W
  pub eq : W → W → Bool
  pub lt : W → W → Bool
  pub neg : W → W

-- The order of the numbers: total, and turned around by the sign.
pub record IsOrdered (W : Type 0) ⦃d : Number W⦄ : Type 0 where
  pub lt_asym : (x y : W) → d.lt x y ≡ true → d.lt y x ≡ false
  pub not_lt_trans : (x y z : W) → d.lt x y ≡ false → d.lt y z ≡ false → d.lt x z ≡ false
  pub eq-not-lt : (x y : W) → d.eq x y ≡ not (d.lt x y || d.lt y x)
  pub lt-neg : (x y : W) → d.lt (d.neg x) (d.neg y) ≡ d.lt y x

-- The laws can be met: whole numbers.
abbrev negated : ℤ → ℤ
negated (pos n) = elim n [ zero ↦ pos 0 | suc m ↦ negsuc m ]
negated (negsuc n) = pos (suc n)

instance abbrev pub whole_number : Number ℤ
whole_number = record { nought = pos 0; eq = int_eq; lt = int_lt; neg = negated }

pub ℤ-IsOrdered : IsOrdered ℤ
ℤ-IsOrdered = record {
  lt_asym = λ x y. ground arith;
  not_lt_trans = λ x y z. ground arith;
  eq-not-lt = λ x y. ground arith;
  lt-neg = λ x y. ground arith;
}
