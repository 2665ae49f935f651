-- ===== src/Values.antt =====
-- Python values as the planner's criteria and the parameters of a request meet them: `None`, `bool`,
-- `int`, `float`, `str`, `list` and `dict`. A finite float is a whole number over a power of two.
pub mod Equality
pub mod Truth
use decode.Prelude.{ℕ, String, Bool}

-- `negsuc n` is -(n + 1).
pub data ℤ : Type 0 where
  pos : ℕ → ℤ
  negsuc : ℕ → ℤ

pub data Float : Type 0 where
  ratio : (numerator : ℤ) (scale : ℕ) → Float
  infinity minus_infinity nan : Float

mutual
  pub data Value : Type 0 where
    null : Value
    bool : Bool → Value
    int : ℤ → Value
    float : Float → Value
    text : String → Value
    list : Items → Value
    dict : Fields → Value

  pub data Items : Type 0 where
    nil : Items
    item : Value → Items → Items

  pub data Fields : Type 0 where
    end : Fields
    field : String → Value → Fields → Fields
