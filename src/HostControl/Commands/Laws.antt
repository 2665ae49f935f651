-- ===== src/HostControl/Commands/Laws.antt =====
-- What the command rules of hostcontrol/policy.py promise.
use decode.Prelude.{
  ◌≡◌, String, Bool, true, false, ◌&&◌, ◌||◌, List, [], ◌∷◌, if◌then◌else◌, any, mem, All,
  is_nonempty,
}
use decode.Prelude.Text.{lower}
use decode.Governance.{RiskLevel, read, write, destructive}
use decode.HostControl.Words.{destructive_binaries, write_binaries, shell_interpreters}
use decode.HostControl.Sudo.{PathOps}
use decode.HostControl.Outputs.{command_output_paths}
use decode.HostControl.Commands.{
  CommandPolicy, is_listed, is_shell_operator, is_string_flag, has_destructive_token,
  has_redirection,
}

-- the tests of the classification, from the binary to sudo
abbrev grade : Bool → Bool → Bool → Bool → Bool → Bool → RiskLevel
grade binary token redirected output writes sudo =
    if binary || token
    then destructive
    else if redirected
    then destructive
    else if output
    then write
    else if writes || sudo
    then write
    else read

module _ (paths : PathOps) where
  -- No word of the command is a shell operator, and no shell gets a command string.
  abbrev pub IsPlain : List String → Type 0
  IsPlain [] = Unit
  IsPlain (command ∷ args) =
      All (λ token. is_shell_operator paths token ≡ false) (command ∷ args)
      × ((mem (lower (paths.name command)) shell_interpreters && any (is_string_flag paths) args)
          ≡ false)

  -- The binary of the vector's first word passes both lists.
  abbrev pub IsAllowed : CommandPolicy → List String → Type 0
  IsAllowed policy [] = ⊥
  IsAllowed policy (command ∷ args) =
      (mem (paths.name command) policy.denied ≡ false)
      × (is_listed paths policy.allowed (paths.name command) ≡ true)

  -- What a command is that changes nothing, as far as its words tell.
  abbrev pub IsHarmless : String → List String → Type 0
  IsHarmless cwd [] = Unit
  IsHarmless cwd (command ∷ args) =
      (mem (paths.name command) destructive_binaries ≡ false)
      × (mem (paths.name command) write_binaries ≡ false)
      × (has_destructive_token paths args ≡ false)
      × (has_redirection paths (command ∷ args) ≡ false)
      × (is_nonempty (command_output_paths paths cwd (command ∷ args)) ≡ false)
