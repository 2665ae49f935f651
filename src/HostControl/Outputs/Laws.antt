-- ===== src/HostControl/Outputs/Laws.antt =====
-- What the rewriting of output paths in hostcontrol/policy.py leaves alone.
use decode.Prelude.{
  ℕ, zero, suc, ◌≡◌, ◌≢◌, refl, ap, ◌∙◌, String, Option, none, some, List, [], ◌∷◌, length, All,
}
use decode.Prelude.Dict.{Dict, lookup}
use decode.HostControl.Sudo.{PathOps}
use decode.HostControl.Outputs.{
  CommandOutputBinding, command_output_bindings, rewrite_bindings, rewrite_at, set_at,
  rewrite_command_output_paths,
}

-- `argv[i]`
abbrev pub get_elem? : List String → ℕ → Option String
get_elem? [] i = none
get_elem? (x ∷ xs) zero = some x
get_elem? (x ∷ xs) (suc i) = get_elem? xs i

module _ (paths : PathOps) (cwd : String) where
  length-set_at :
      (i : ℕ) (t : String) (xs : List String) → length (set_at paths cwd i t xs) ≡ length xs
  length-set_at i t [] = refl
  length-set_at zero t (x ∷ xs) = refl
  length-set_at (suc i) t (x ∷ xs) = ap suc (length-set_at i t xs)

  set_at_other :
      (i j : ℕ) (t : String) (xs : List String)
      → i ≢ j
      → get_elem? (set_at paths cwd i t xs) j ≡ get_elem? xs j
  set_at_other i j t [] h = refl
  set_at_other zero zero t (x ∷ xs) h = absurd (h refl)
  set_at_other zero (suc j) t (x ∷ xs) h = refl
  set_at_other (suc i) zero t (x ∷ xs) h = refl
  set_at_other (suc i) (suc j) t (x ∷ xs) h = set_at_other i j t xs (λ e. h (ap suc e))

  rewrite_at_keeps :
      (at : Option ℕ) (r : Option String) (prefix : String) (xs : List String) (j : ℕ)
      → (length (rewrite_at paths cwd at r prefix xs) ≡ length xs)
        × (at ≢ some j → get_elem? (rewrite_at paths cwd at r prefix xs) j ≡ get_elem? xs j)
  rewrite_at_keeps none r prefix xs j = (refl, λ h. refl)
  rewrite_at_keeps (some i) none prefix xs j = (refl, λ h. refl)
  rewrite_at_keeps (some i) (some path) prefix xs j =
      (length-set_at i _ xs, λ h. set_at_other i j _ xs (λ e. h (ap some e)))

  rewrite_bindings_keeps :
      (replacements : Dict String) (bs : List CommandOutputBinding) (xs : List String) (j : ℕ)
      → (length (rewrite_bindings paths cwd replacements bs xs) ≡ length xs)
        × (All (λ (b : CommandOutputBinding). b.argument_index ≢ some j) bs
            → get_elem? (rewrite_bindings paths cwd replacements bs xs) j ≡ get_elem? xs j)
  unfolding rewrite_bindings
  rewrite_bindings_keeps replacements [] xs j = (refl, λ h. refl)
  rewrite_bindings_keeps replacements (b ∷ bs) xs j =
      let first = rewrite_at_keeps b.argument_index (lookup b.path replacements) b.prefix xs j in
      let rest =
        rewrite_bindings_keeps replacements bs
          (rewrite_at paths cwd b.argument_index (lookup b.path replacements) b.prefix xs) j in
      (rest.0 ∙ first.0, λ h. rest.1 h.1 ∙ first.1 h.0)

  -- Rewriting keeps the number of the arguments.
  pub length-rewrite_command_output_paths :
      (replacements : Dict String) (argv : List String)
      → length (rewrite_command_output_paths paths cwd replacements argv) ≡ length argv
  unfolding rewrite_command_output_paths
  length-rewrite_command_output_paths replacements argv =
      (rewrite_bindings_keeps replacements (command_output_bindings paths cwd argv) argv 0).0

  -- Rewriting keeps each argument that no output binding of the vector stands for.
  pub get_elem?-rewrite_command_output_paths :
      (replacements : Dict String) (argv : List String) (j : ℕ)
      → All
          (λ (b : CommandOutputBinding). b.argument_index ≢ some j)
          (command_output_bindings paths cwd argv)
      → get_elem? (rewrite_command_output_paths paths cwd replacements argv) j ≡ get_elem? argv j
  unfolding rewrite_command_output_paths
  get_elem?-rewrite_command_output_paths replacements argv j h =
      (rewrite_bindings_keeps replacements (command_output_bindings paths cwd argv) argv j).1 h
