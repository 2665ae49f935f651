-- ===== src/Prelude/Sort.antt =====
-- Sorting by a test, as `sort` does; what is sorted by an order begins with a least element.
use Prim.Native.Nat.{suc}
use mathlib.Core.Path.{◌≡◌, refl}
use mathlib.Core.Logic.{inl, inr}
use mathlib.Core.Bool.{Bool, true, false}
use mathlib.Core.List.{List, [], ◌∷◌}
use native.Mathlib.Omega.{arith}
use decode.Prelude.Tests.{if◌then◌else◌, Bool-cases}
use decode.Prelude.Lists.{All, Exists, length}

pub record IsWeakOrder {A : Type 0} (lt : A → A → Bool) : Type 0 where
  pub asym : (x y : A) → lt x y ≡ true → lt y x ≡ false
  pub not_trans : (x y z : A) → lt x y ≡ false → lt y z ≡ false → lt x z ≡ false

-- Stable: an element goes before the first that is not less.
abbrev pub insert_by : {A : Type 0} → (A → A → Bool) → A → List A → List A
insert_by lt x [] = x ∷ []
insert_by lt x (y ∷ ys) = let rest = insert_by lt x ys in if lt y x then y ∷ rest else x ∷ y ∷ ys

abbrev pub sort_by : {A : Type 0} → (A → A → Bool) → List A → List A
sort_by lt [] = []
sort_by lt (x ∷ xs) = insert_by lt x (sort_by lt xs)

module _ {A : Type 0} (lt : A → A → Bool) where
  -- It is in the list, and nothing there is less.
  abbrev pub IsLeast : A → List A → Type 0
  IsLeast h xs = All (λ x. lt x h ≡ false) xs × Exists (λ x. x ≡ h) xs

  -- The head of what sorting leaves, or nothing where there is nothing to sort.
  abbrev pub IsHead : List A → List A → Type 0
  IsHead xs [] = xs ≡ []
  IsHead xs (h ∷ rest) = IsLeast h xs

module _ {A : Type 0} (lt : A → A → Bool) (w : IsWeakOrder lt) where
  irrefl : (x : A) → lt x x ≡ false
  irrefl x = elim (Bool-cases (lt x x)) [ inl e ↦ w.asym x x e | inr e ↦ e ]

  All-not_lt :
      (xs : List A) (y x : A)
      → All (λ z. lt z y ≡ false) xs
      → lt y x ≡ false
      → All (λ z. lt z x ≡ false) xs
  All-not_lt [] y x h k = tt
  All-not_lt (z ∷ xs) y x h k = (w.not_trans z y x h.0 k, All-not_lt xs y x h.1 k)

  IsHead-insert_by :
      (x : A) (xs ys : List A) → IsHead lt xs ys → IsHead lt (x ∷ xs) (insert_by lt x ys)
  IsHead-insert_by x xs [] h = rw h ((irrefl x, tt), inl refl)
  IsHead-insert_by x xs (y ∷ ys) h = elim (Bool-cases (lt y x)) [
    | inl e ↦ rw e ((w.asym y x e, h.0), inr h.1)
    | inr e ↦ rw e ((irrefl x, All-not_lt xs y x h.0 e), inl refl)
  ]

  pub IsHead-sort_by : (xs : List A) → IsHead lt xs (sort_by lt xs)
  IsHead-sort_by [] = refl
  IsHead-sort_by (x ∷ xs) = IsHead-insert_by x xs (sort_by lt xs) (IsHead-sort_by xs)

All-insert_by :
    {A : Type 0} (P : A → Type 0) (lt : A → A → Bool) (x : A) (xs : List A)
    → P x
    → All P xs
    → All P (insert_by lt x xs)
All-insert_by P lt x [] p h = (p, tt)
All-insert_by P lt x (y ∷ xs) p h = elim (Bool-cases (lt y x)) [
  | inl e ↦ rw e (h.0, All-insert_by P lt x xs p h.1)
  | inr e ↦ rw e (p, h)
]

pub All-sort_by :
    {A : Type 0} (P : A → Type 0) (lt : A → A → Bool) (xs : List A)
    → All P xs
    → All P (sort_by lt xs)
All-sort_by P lt [] h = tt
All-sort_by P lt (x ∷ xs) h = All-insert_by P lt x (sort_by lt xs) h.0 (All-sort_by P lt xs h.1)

length-insert_by :
    {A : Type 0} (lt : A → A → Bool) (x : A) (xs : List A)
    → length (insert_by lt x xs) ≡ suc (length xs)
length-insert_by lt x [] = refl
length-insert_by lt x (y ∷ xs) = ground (arith, length-insert_by lt x xs)

pub length-sort_by :
    {A : Type 0} (lt : A → A → Bool) (xs : List A) → length (sort_by lt xs) ≡ length xs
length-sort_by lt [] = refl
length-sort_by lt (x ∷ xs) =
    omega (arith, length-insert_by lt x (sort_by lt xs), length-sort_by lt xs)
