-- ===== src/HostControl/Sudo.antt =====
-- hostcontrol/policy.py: `strip_sudo`, and what the file takes from pathlib.
use decode.Prelude.{
  ◌≡◌, refl, String, Bool, true, false, ◌||◌, Option, List, [], ◌∷◌, mem, str_eq, if◌then◌else◌,
  Bool-cases, inl, inr, arith,
}
use decode.Prelude.Text.{starts_with}
use decode.HostControl.Words.{sudo_value_flags}

-- pathlib: `name` is `Path(s).name`, `resolve` the parts of `Path(s).expanduser().resolve()`, `none` where
-- it raises `OSError`, and `locate cwd s` the resolved place of a path that is relative to `cwd`.
pub record PathOps : Type 0 where
  pub name : String → String
  pub resolve : String → Option (List String)
  pub locate : String → String → String

-- Behind `sudo`: its own options are skipped, some of them with a value, up to the command or `--`.
unfoldable pub skip_options : List String → List String
skip_options [] = []
skip_options (tok ∷ []) = if str_eq tok "--" || starts_with tok "-" then [] else tok ∷ []
skip_options (tok ∷ value ∷ rest) = elim (str_eq tok "--") [
  | true ↦ value ∷ rest
  | false ↦ elim (starts_with tok "-") [
    | false ↦ tok ∷ value ∷ rest
    | true ↦ elim (mem tok sudo_value_flags) [
      | true ↦ skip_options rest
      | false ↦ skip_options (value ∷ rest)
    ]
  ]
]

module _ (paths : PathOps) where
  unfoldable pub strip_sudo : List String → Bool × List String
  unfolding skip_options
  strip_sudo [] = (false, [])
  strip_sudo (command ∷ args) =
      if str_eq (paths.name command) "sudo"
      then (true, skip_options args)
      else (false, command ∷ args)

-- What is left of an argument vector is a tail of it.
pub data IsTail (inner : List String) : List String → Type 0 where
  whole : IsTail inner inner
  behind : {tok : String} {argv : List String} → IsTail inner argv → IsTail inner (tok ∷ argv)

skip_options-IsTail : (argv : List String) → IsTail (skip_options argv) argv
unfolding skip_options
skip_options-IsTail [] = whole
skip_options-IsTail (tok ∷ []) = elim (Bool-cases (str_eq tok "--" || starts_with tok "-")) [
  | inl e ↦ rw e (behind whole)
  | inr e ↦ rw e whole
]
skip_options-IsTail (tok ∷ value ∷ rest) = elim (Bool-cases (str_eq tok "--")) [
  | inl e ↦ rw (skip_options, e) (behind whole)
  | inr e ↦ elim (Bool-cases (starts_with tok "-")) [
    | inr f ↦ rw (skip_options, e, f) whole
    | inl f ↦ elim (Bool-cases (mem tok sudo_value_flags)) [
      | inl g ↦ rw (skip_options, e, f, g) (behind (behind (skip_options-IsTail rest)))
      | inr g ↦ rw (skip_options, e, f, g) (behind (skip_options-IsTail (value ∷ rest)))
    ]
  ]
]

-- The command that `strip_sudo` finds is a tail of the argument vector.
pub strip_sudo-IsTail :
    (paths : PathOps) (argv : List String) → IsTail (strip_sudo paths argv).1 argv
unfolding strip_sudo
strip_sudo-IsTail paths [] = whole
strip_sudo-IsTail paths (command ∷ args) = elim (Bool-cases (str_eq (paths.name command) "sudo")) [
  | inl e ↦ rw e (behind (skip_options-IsTail args))
  | inr e ↦ rw e whole
]

-- Without sudo nothing is stripped.
pub strip_sudo_plain :
    (paths : PathOps) (argv : List String)
    → (strip_sudo paths argv).0 ≡ false
    → (strip_sudo paths argv).1 ≡ argv
unfolding strip_sudo
strip_sudo_plain paths [] h = refl
strip_sudo_plain paths (command ∷ args) h = ground arith
