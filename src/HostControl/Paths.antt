-- ===== src/HostControl/Paths.antt =====
-- hostcontrol/policy.py: `FilesystemScope`. A path is the list of the parts of its resolution.
use decode.Prelude.{
  ◌≡◌, refl, String, Bool, true, false, ◌&&◌, ◌||◌, none, some, List, [], ◌∷◌, ◌++◌, any, str_eq,
  eq_iff, Exists, arith, Bool-cases, Option-cases, ◌⊎◌, inl, inr, if◌then◌else◌,
}
use decode.HostControl.Sudo.{PathOps}

pub record FilesystemScope : Type 0 where
  pub read_roots : List (List String)
  pub write_roots : List (List String)

-- `path.relative_to(root)` does not raise
unfoldable pub is_under : List String → List String → Bool
is_under [] path = true
is_under (r ∷ root) [] = false
is_under (r ∷ root) (p ∷ path) = str_eq r p && is_under root path

module _ (paths : PathOps) where
  -- Roots that do not resolve are left out.
  unfoldable pub resolve_roots : List String → List (List String)
  resolve_roots [] = []
  resolve_roots (root ∷ roots) = elim (paths.resolve root) [
    | none ↦ resolve_roots roots
    | some r ↦ r ∷ resolve_roots roots
  ]

  unfoldable pub filesystem_scope : List String → List String → FilesystemScope
  unfolding resolve_roots
  filesystem_scope read_roots write_roots = record {
    read_roots = resolve_roots read_roots;
    write_roots = resolve_roots write_roots;
  }

  unfoldable pub within : String → List (List String) → Bool
  within path roots = elim (paths.resolve path) [
    | none ↦ false
    | some p ↦ any (λ root. is_under root p) roots
  ]

  unfoldable pub allows : FilesystemScope → String → Bool → Bool
  unfolding within
  allows scope path write =
      if write
      then within path scope.write_roots
      else within path scope.read_roots || within path scope.write_roots

-- A path lies under a root if it is the root with further parts.
is_under→append :
    (root path : List String)
    → is_under root path ≡ true
    → (rest : List String) × (path ≡ root ++ rest)
unfolding is_under
is_under→append [] path h = (path, refl)
is_under→append (r ∷ root) [] h = cc
is_under→append (r ∷ root) (p ∷ path) h =
    let (rest, e) = is_under→append root path (ground arith) in
    (rest, cc (e, same_part r p (ground arith)))
  where
    same_part : (a b : String) → str_eq a b ≡ true → a ≡ b
    same_part a b h = ground (arith, eq_iff a b)

-- The path resolves to one of the roots with further parts.
abbrev pub LiesUnder : PathOps → String → List (List String) → Type 0
LiesUnder paths path roots =
    (p : List String) × (paths.resolve path ≡ some p)
    × Exists (λ root. (rest : List String) × (p ≡ root ++ rest)) roots

any_under :
    (p : List String) (roots : List (List String))
    → any (λ root. is_under root p) roots ≡ true
    → Exists (λ root. (rest : List String) × (p ≡ root ++ rest)) roots
any_under p [] h = cc
any_under p (root ∷ roots) h = elim (Bool-cases (is_under root p)) [
  | inl e ↦ inl (is_under→append root p e)
  | inr e ↦ inr (any_under p roots (rw e at h))
]

within-LiesUnder :
    (paths : PathOps) (path : String) (roots : List (List String))
    → within paths path roots ≡ true
    → LiesUnder paths path roots
unfolding within
within-LiesUnder paths path roots h = elim (Option-cases (paths.resolve path)) [
  | inl e ↦ absurd (cc (rw (within, e) at h))
  | inr (p, e) ↦ (p, e, any_under p roots (rw (within, e) at h))
]

-- A path that may be written lies, once resolved, under a write root, and may be read.
pub allows_write :
    (paths : PathOps) (scope : FilesystemScope) (path : String)
    → allows paths scope path true ≡ true
    → LiesUnder paths path scope.write_roots × (allows paths scope path false ≡ true)
unfolding allows
allows_write paths scope path h = (within-LiesUnder paths path scope.write_roots h, ground arith)

-- A path that may be read lies, once resolved, under a read root or a write root.
pub allows_read :
    (paths : PathOps) (scope : FilesystemScope) (path : String)
    → allows paths scope path false ≡ true
    → LiesUnder paths path scope.read_roots ⊎ LiesUnder paths path scope.write_roots
unfolding allows
allows_read paths scope path h = elim (Bool-cases (within paths path scope.read_roots)) [
  | inl e ↦ inl (within-LiesUnder paths path scope.read_roots e)
  | inr e ↦ inr (within-LiesUnder paths path scope.write_roots (rw (allows, e) at h))
]
