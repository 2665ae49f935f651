-- ===== src/Prelude/Text.antt =====
-- Python's `str` as the native text: equality, membership, and the string methods that the
-- sources use. `lower` is that of ASCII text.
use Prim.Native.Nat.{ℕ, zero, suc, ◌+◌, ◌-◌, ◌<◌, compare, Ordering}
use Prim.Native.Char.{Char, char, code, IsScalar}
use Prim.Native.String.{String}
pub use Prim.Native.String.{◌++◌ as str_append}
use mathlib.Core.Path.{◌≡◌, refl, sym, ◌∙◌}
use mathlib.Core.Bool.{Bool, true, false, ◌&&◌, ◌||◌, false≢true}
use mathlib.Core.Option.{Option, none, some}
use mathlib.Core.Logic.{dite}
use mathlib.Core.List.{List, [], ◌∷◌, ◌++◌}
use native.Mathlib.Decide.{dec_lt}
use native.Mathlib.Omega.{arith}
pub use text.Mathlib.Text.{◌==◌ as str_eq}
pub use text.Mathlib.TextEquality.{eq_iff}
pub use text.Mathlib.TextLemmas.{cons-append, nil-append}
use decode.Prelude.Lists.{All}
use decode.Prelude.Tests.{leb, ltb, ◌==◌, if◌then◌else◌}

-- `not text`
abbrev pub is_empty : String → Bool
is_empty String.[] = true
is_empty (String.◌∷◌ c s) = false

-- `text in texts`
abbrev pub mem : String → List String → Bool
mem a [] = false
mem a (x ∷ xs) = str_eq a x || mem a xs

-- `texts.remove(text)`: the first occurrence goes
abbrev pub remove_first : String → List String → List String
remove_first a [] = []
remove_first a (x ∷ xs) = if str_eq a x then xs else x ∷ remove_first a xs

pub mem-append : (a : String) (xs ys : List String) → mem a (xs ++ ys) ≡ (mem a xs || mem a ys)
mem-append a [] ys = refl
mem-append a (x ∷ xs) ys = ground (arith, mem-append a xs ys)

compare-lt : (a b : ℕ) → a < b → compare a b ≡ Ordering.lt
compare-lt a b h = ground arith

pub below_surrogates : (n : ℕ) → n < 55296 → IsScalar n
below_surrogates n h = rw (compare-lt n 55296 h) tt

lower_of : (c : Char) → code c < 91 → Char
lower_of c h = char (code c + 32) (below_surrogates (code c + 32) (omega arith))

-- one character of `str.lower()`
lower_char : Char → Char
unfolding lower_of
lower_char c = dite (dec_lt (code c) 91) (λ h. if leb 65 (code c) then lower_of c h else c) (λ _. c)

upper_of : (c : Char) → code c < 123 → Char
upper_of c h = char (code c - 32) (below_surrogates (code c - 32) (omega arith))

-- one character of `str.upper()`
upper_char : Char → Char
unfolding upper_of
upper_char c =
    dite (dec_lt (code c) 123) (λ h. if leb 97 (code c) then upper_of c h else c) (λ _. c)

unfoldable pub upper : String → String
unfolding upper_char dec_lt
upper String.[] = String.[]
upper (String.◌∷◌ c s) = String.◌∷◌ (upper_char c) (upper s)

unfoldable pub lower : String → String
unfolding lower_char dec_lt
lower String.[] = String.[]
lower (String.◌∷◌ c s) = String.◌∷◌ (lower_char c) (lower s)

-- `text.startswith(prefix)`
unfoldable pub starts_with : String → String → Bool
starts_with String.[] String.[] = true
starts_with String.[] (String.◌∷◌ d t) = false
starts_with (String.◌∷◌ c s) String.[] = true
starts_with (String.◌∷◌ c s) (String.◌∷◌ d t) =
    leb (code c) (code d) && leb (code d) (code c) && starts_with s t

-- `needle in text`
unfoldable pub has_part : String → String → Bool
unfolding starts_with
has_part String.[] t = starts_with String.[] t
has_part (String.◌∷◌ c s) t = starts_with (String.◌∷◌ c s) t || has_part s t

-- `text.endswith(suffix)`
unfoldable pub ends_with : String → String → Bool
ends_with String.[] t = str_eq String.[] t
ends_with (String.◌∷◌ c s) t = str_eq (String.◌∷◌ c s) t || ends_with s t

-- the ASCII characters that `str.strip()` removes
abbrev is_space : ℕ → Bool
is_space n = (leb 9 n && leb n 13) || (leb 28 n && leb n 32)

lstrip_by : (ℕ → Bool) → String → String
lstrip_by test String.[] = String.[]
lstrip_by test (String.◌∷◌ c s) =
    let rest = lstrip_by test s in if test (code c) then rest else String.◌∷◌ c s

-- A character in front of a text, unless both are to go.
abbrev cons_unless : (ℕ → Bool) → Char → String → String
cons_unless test c String.[] = if test (code c) then String.[] else String.◌∷◌ c String.[]
cons_unless test c (String.◌∷◌ d s) = String.◌∷◌ c (String.◌∷◌ d s)

rstrip_by : (ℕ → Bool) → String → String
rstrip_by test String.[] = String.[]
rstrip_by test (String.◌∷◌ c s) = cons_unless test c (rstrip_by test s)

-- `text.strip()`
unfoldable pub strip : String → String
unfolding lstrip_by rstrip_by
strip s = lstrip_by is_space (rstrip_by is_space s)

-- the code is that of a character of the text
abbrev has_code : String → ℕ → Bool
has_code String.[] n = false
has_code (String.◌∷◌ c s) n = code c == n || has_code s n

-- `text.strip(characters)`
unfoldable pub strip_chars : String → String → String
unfolding lstrip_by rstrip_by
strip_chars characters s = lstrip_by (has_code characters) (rstrip_by (has_code characters) s)

-- `text.count(c)` of one character
unfoldable pub count_char : ℕ → String → ℕ
count_char n String.[] = 0
count_char n (String.◌∷◌ c s) = let rest = count_char n s in if code c == n then suc rest else rest

-- `text.split(c, 1)[0]`
unfoldable pub before_char : ℕ → String → String
before_char n String.[] = String.[]
before_char n (String.◌∷◌ c s) =
    let rest = before_char n s in if code c == n then String.[] else String.◌∷◌ c rest

-- `text.split(c, 1)[1]`, where the text has the character
unfoldable pub after_char : ℕ → String → Option String
after_char n String.[] = none
after_char n (String.◌∷◌ c s) = let rest = after_char n s in if code c == n then some s else rest

-- `text.split(c)`: the first part with the parts behind it
unfoldable pub split_char : ℕ → String → String × List String
split_char n String.[] = (String.[], [])
split_char n (String.◌∷◌ c s) =
    let (first, others) = split_char n s in
    if code c == n then (String.[], first ∷ others) else (String.◌∷◌ c first, others)

-- `text[n:]` by characters
unfoldable pub drop_chars : ℕ → String → String
drop_chars zero s = s
drop_chars (suc n) String.[] = String.[]
drop_chars (suc n) (String.◌∷◌ c s) = drop_chars n s

-- `text[:n]` by characters
unfoldable pub take_chars : ℕ → String → String
take_chars zero s = String.[]
take_chars (suc n) String.[] = String.[]
take_chars (suc n) (String.◌∷◌ c s) = String.◌∷◌ c (take_chars n s)

-- `a < b`: the order of the codes of the characters
abbrev pub text_lt : String → String → Bool
text_lt String.[] String.[] = false
text_lt String.[] (String.◌∷◌ d t) = true
text_lt (String.◌∷◌ c s) String.[] = false
text_lt (String.◌∷◌ c s) (String.◌∷◌ d t) =
    ltb (code c) (code d) || (code c == code d && text_lt s t)

-- `xs == ys` of two lists of texts
abbrev pub texts_eq : List String → List String → Bool
texts_eq [] [] = true
texts_eq [] (y ∷ ys) = false
texts_eq (x ∷ xs) [] = false
texts_eq (x ∷ xs) (y ∷ ys) = str_eq x y && texts_eq xs ys

pub texts_eq→eq : (xs ys : List String) → texts_eq xs ys ≡ true → xs ≡ ys
texts_eq→eq [] [] h = refl
texts_eq→eq [] (y ∷ ys) h = cc
texts_eq→eq (x ∷ xs) [] h = cc
texts_eq→eq (x ∷ xs) (y ∷ ys) h = ground (arith, eq_iff x y, texts_eq→eq xs ys)

-- A row of `if test: return message`, and "" behind it.
abbrev pub first_error : List (Bool × String) → String
first_error [] = ""
first_error ((test, message) ∷ rows) = if test then message else first_error rows

-- Where the row returned nothing, no test held.
pub first_error-empty :
    (rows : List (Bool × String))
    → All (λ row. row.0 ≡ true → is_empty row.1 ≡ false) rows
    → is_empty (first_error rows) ≡ true
    → All (λ row. row.0 ≡ false) rows
first_error-empty [] full h = tt
first_error-empty ((true, m) ∷ rows) full h = absurd (false≢true (sym (full.0 refl) ∙ h))
first_error-empty ((false, m) ∷ rows) full h = (refl, first_error-empty rows full.1 h)
