-- ===== src/Prelude/Filter.antt =====
-- A list comprehension whose test may raise.
use mathlib.Core.Path.{◌≡◌, refl, sym, ap}
use mathlib.Core.Logic.{◌⊎◌, inl, inr}
use mathlib.Core.Bool.{Bool, true, false}
use mathlib.Core.Option.{Option, none, some}
use mathlib.Core.List.{List, [], ◌∷◌}
use decode.Prelude.Tests.{if◌then◌else◌, Bool-cases, Option-cases, of_some}
use decode.Prelude.Lists.{All, All-map, Exists}

-- What a test that may raise passes, and nothing where it raises.
abbrev pub passing : {A : Type 0} → (A → Option Bool) → List A → Option (List A)
passing test [] = some []
passing test (x ∷ xs) = elim (test x) [
  | none ↦ none
  | some b ↦ elim (passing test xs) [
    | none ↦ none
    | some rest ↦ some (if b then x ∷ rest else rest)
  ]
]

module _ {A : Type 0} (test : A → Option Bool) where
  passing-cons :
      (x : A) (xs ys : List A)
      → passing test (x ∷ xs) ≡ some ys
      → (rest : List A) × (passing test xs ≡ some rest)
        × (((test x ≡ some true) × (ys ≡ x ∷ rest)) ⊎ ((test x ≡ some false) × (ys ≡ rest)))
  passing-cons x xs ys e = elim (Option-cases (test x)) [
    | inl n ↦ absurd (cc (rw (passing, n) at e))
    | inr (b, t) ↦ elim (Option-cases (passing test xs)) [
      | inl n ↦ absurd (cc (rw (passing, t, n) at e))
      | inr (rest, r) ↦ elim (Bool-cases b) [
        | inl y ↦ (rest, r, inl (rw t (ap some y), sym (of_some (rw (passing, t, r, y) at e))))
        | inr y ↦ (rest, r, inr (rw t (ap some y), sym (of_some (rw (passing, t, r, y) at e))))
      ]
    ]
  ]

  -- What passes is what the test holds of: the others are those that it does not hold of.
  pub passing-All :
      (P : A → Type 0) (xs ys : List A)
      → passing test xs ≡ some ys
      → All P ys
      → All (λ x. (test x ≡ some false) ⊎ P x) xs
  passing-All P [] ys e h = tt
  passing-All P (x ∷ xs) ys e h =
      let (rest, r, side) = passing-cons x xs ys e in
      elim side [
        | inl (t, q) ↦ let h' = rw q at h in (inr h'.0, passing-All P xs rest r h'.1)
        | inr (t, q) ↦ (inl t, passing-All P xs rest r (rw q at h))
      ]

  pub passing-Exists :
      (P : A → Type 0) (xs ys : List A)
      → passing test xs ≡ some ys
      → Exists P ys
      → Exists (λ x. (test x ≡ some true) × P x) xs
  passing-Exists P [] ys e h = absurd (rw (← of_some e) at h)
  passing-Exists P (x ∷ xs) ys e h =
      let (rest, r, side) = passing-cons x xs ys e in
      elim side [
        | inl (t, q) ↦ elim (rw q at h) [
          | inl p ↦ inl (t, p)
          | inr more ↦ inr (passing-Exists P xs rest r more)
        ]
        | inr (t, q) ↦ inr (passing-Exists P xs rest r (rw q at h))
      ]

  -- Each that passes is one of those that were tested.
  pub passing-found :
      (xs ys : List A)
      → passing test xs ≡ some ys
      → All (λ y. Exists (λ x. (x ≡ y) × (test x ≡ some true)) xs) ys
  passing-found [] ys e = rw (← of_some e) tt
  passing-found (x ∷ xs) ys e =
      let (rest, r, side) = passing-cons x xs ys e in
      let found = All-map _ _ rest (λ y h. inr h) (passing-found xs rest r) in
      elim side [ inl (t, q) ↦ rw q (inl (refl, t), found) | inr (t, q) ↦ rw q found ]
