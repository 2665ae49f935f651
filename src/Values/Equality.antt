-- ===== src/Values/Equality.antt =====
-- Python's `==` and `<` on values. Numbers of the three types are compared exactly. The identity that a
-- container tests before equality, which only `nan` can tell, is left out.
use decode.Prelude.{
  ℕ, zero, suc, ◌+◌, ◌*◌, String, Bool, true, false, ◌&&◌, Option, none, some, ltb, ◌==◌, str_eq,
  if◌then◌else◌,
}
use decode.Values.{
  ℤ, pos, negsuc, Float, ratio, infinity, minus_infinity, Value, Items, Fields, null, bool, int,
  float, text, list, dict, nil, item, end, field,
}

abbrev pub power_of_two : ℕ → ℕ
power_of_two zero = 1
power_of_two (suc n) = 2 * power_of_two n

-- a whole number times a power of two
abbrev pub scaled : ℤ → ℕ → ℤ
scaled (pos n) k = pos (n * power_of_two k)
scaled (negsuc n) k = shifted ((n + 1) * power_of_two k)
  where
    shifted : ℕ → ℤ
    shifted zero = pos 0
    shifted (suc m) = negsuc m

abbrev pub int_eq : ℤ → ℤ → Bool
int_eq (pos m) (pos n) = m == n
int_eq (negsuc m) (negsuc n) = m == n
int_eq _ _ = false

abbrev pub int_lt : ℤ → ℤ → Bool
int_lt (pos m) (pos n) = ltb m n
int_lt (negsuc m) (negsuc n) = ltb n m
int_lt (negsuc m) (pos n) = true
int_lt (pos m) (negsuc n) = false

abbrev pub float_eq : Float → Float → Bool
float_eq (ratio a s) (ratio b t) = int_eq (scaled a t) (scaled b s)
float_eq infinity infinity = true
float_eq minus_infinity minus_infinity = true
float_eq _ _ = false

-- `<` of two finite numbers
abbrev pub float_lt : Float → Float → Bool
float_lt (ratio a s) (ratio b t) = int_lt (scaled a t) (scaled b s)
float_lt _ _ = false

abbrev pub as_number : Value → Option Float
as_number (bool true) = some (ratio (pos 1) 0)
as_number (bool false) = some (ratio (pos 0) 0)
as_number (int z) = some (ratio z 0)
as_number (float f) = some f
as_number _ = none

abbrev pub number_eq : Option Float → Option Float → Bool
number_eq (some a) (some b) = float_eq a b
number_eq _ _ = false

-- `d.get(key)`
abbrev pub get_field : String → Fields → Option Value
get_field key end = none
get_field key (field k v rest) = if str_eq k key then some v else get_field key rest

abbrev pub count_fields : Fields → ℕ
count_fields end = 0
count_fields (field k v rest) = suc (count_fields rest)

unfoldable mutual
  pub equal : Value → Value → Bool
  equal null null = true
  equal (text a) (text b) = str_eq a b
  equal (list a) (list b) = equal_items a b
  equal (dict a) (dict b) = count_fields a == count_fields b && equal_fields a b
  equal (bool a) w = number_eq (as_number (bool a)) (as_number w)
  equal (int a) w = number_eq (as_number (int a)) (as_number w)
  equal (float a) w = number_eq (as_number (float a)) (as_number w)
  equal _ _ = false

  pub equal_items : Items → Items → Bool
  equal_items nil nil = true
  equal_items (item a more) (item b bs) = equal a b && equal_items more bs
  equal_items _ _ = false

  -- each field of the first is in the second, with an equal value
  pub equal_fields : Fields → Fields → Bool
  equal_fields end others = true
  equal_fields (field k v rest) others =
      elim (get_field k others) [ none ↦ false | some w ↦ equal v w ] && equal_fields rest others
