-- ===== src/Values/Truth.antt =====
-- What Python takes a value for in a test, and what `or` and `for` make of it.

use decode.Prelude.{
  String, Bool, true, false, not, Option, none, some, List, [], ◌∷◌, is_empty, if◌then◌else◌,
}
use decode.Values.{
  ratio, pos, Value, Items, Fields, null, bool, int, float, text, list, dict, nil, end, item, field,
}
use decode.Values.Equality.{int_eq, get_field}

abbrev pub is_true : Value → Bool
is_true null = false
is_true (bool b) = b
is_true (int z) = not (int_eq z (pos 0))
is_true (float (ratio a s)) = not (int_eq a (pos 0))
is_true (float f) = true
is_true (text t) = not (is_empty t)
is_true (list nil) = false
is_true (list (item v vs)) = true
is_true (dict end) = false
is_true (dict (field k v fs)) = true

-- `d.get(key)`, `None` where there is none
abbrev pub got : String → Fields → Value
got key fs = elim (get_field key fs) [ none ↦ null | some v ↦ v ]

-- `value or {}`
abbrev pub or_empty : Value → Value
or_empty v = if is_true v then v else dict end

abbrev pub items : Items → List Value
items nil = []
items (item v vs) = v ∷ items vs

abbrev pub field_names : Fields → List String
field_names end = []
field_names (field k v fs) = k ∷ field_names fs

abbrev texts : List String → List Value
texts [] = []
texts (t ∷ ts) = text t ∷ texts ts

abbrev characters : String → List Value
characters String.[] = []
characters (String.◌∷◌ c s) = text (String.◌∷◌ c String.[]) ∷ characters s

-- What `for x in value or []` runs through; nothing where it raises.
abbrev pub iterate : Value → Option (List Value)
iterate (list vs) = some (items vs)
iterate (dict fs) = some (texts (field_names fs))
iterate (text t) = some (characters t)
iterate v = if is_true v then none else some []
