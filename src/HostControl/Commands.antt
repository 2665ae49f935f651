-- ===== src/HostControl/Commands.antt =====
-- hostcontrol/policy.py: `CommandPolicy`, `command_target` and `command_requires_target`.
pub mod Laws
use decode.Prelude.{
  ℕ, String, Bool, true, false, not, ◌&&◌, ◌||◌, Option, none, some, List, [], ◌∷◌, map, any, mem,
  is_empty, str_eq, is_nonempty, if◌then◌else◌,
}
use decode.Prelude.Text.{lower, strip, strip_chars, starts_with, has_part}
use decode.Governance.{RiskLevel, read, write, destructive}
use decode.HostControl.Words.{
  destructive_binaries, write_binaries, destructive_tokens, shell_control_tokens,
  shell_interpreters, network_binaries, diagnostic_flags,
}
use decode.HostControl.Sudo.{PathOps, strip_sudo}
use decode.HostControl.Outputs.{command_output_paths}

-- urllib, ipaddress and re: whether the URL has a host name, whether the text reads as a network, and
-- whether it matches the domain pattern.
pub record TargetOps : Type 0 where
  pub has_hostname : String → Bool
  pub is_network : String → Bool
  pub is_domain : String → Bool

pub record CommandPolicy : Type 0 where
  pub allowed : Option (List String)
  pub denied : List String

-- `check`: it passes, or raises `ValueError` for an empty command, or one of three `ScopeViolation`s.
pub data CommandCheck : Type 0 where
  permitted empty_command not_permitted interpreter_string : CommandCheck
  shell_operator : String → CommandCheck

module _ (targets : TargetOps) where
  -- the target that one argument carries, `none` where it carries none
  unfoldable pub argument_target : String → String → Option String
  argument_target binary raw =
      let value = strip_chars "'\"" (strip raw) in
      let candidate = strip_chars "[](),;" value in
      if is_empty value || starts_with value "-"
      then none
      else if has_part value "://" && targets.has_hostname value
      then some value
      else if targets.is_network candidate
          || (mem binary network_binaries && targets.is_domain candidate)
      then some candidate
      else none

  abbrev pub first_target : String → List String → String
  first_target binary [] = ""
  first_target binary (raw ∷ args) = elim (argument_target binary raw) [
    | some t ↦ t
    | none ↦ first_target binary args
  ]

  abbrev pub inner_target : PathOps → List String → String
  inner_target paths [] = ""
  inner_target paths (command ∷ args) = first_target (lower (paths.name command)) args

  unfoldable pub command_target : PathOps → List String → String
  unfolding argument_target
  command_target paths argv = inner_target paths (strip_sudo paths argv).1

  abbrev pub inner_requires_target : PathOps → List String → Bool
  inner_requires_target paths [] = false
  inner_requires_target paths (command ∷ args) =
      let binary = lower (paths.name command) in
      if mem binary network_binaries && any (λ flag. mem flag diagnostic_flags) args
      then false
      else not (is_empty (command_target paths (command ∷ args))) || mem binary network_binaries

  unfoldable pub command_requires_target : PathOps → List String → Bool
  unfolding command_target
  command_requires_target paths argv = inner_requires_target paths (strip_sudo paths argv).1

module _ (paths : PathOps) where
  -- `None` allows every binary.
  abbrev pub is_listed : Option (List String) → String → Bool
  is_listed none binary = true
  is_listed (some binaries) binary = mem binary binaries

  -- `none`: `ValueError` for an empty command
  unfoldable pub is_allowed : CommandPolicy → List String → Option Bool
  is_allowed policy [] = none
  is_allowed policy (command ∷ args) = some (
      not (mem (paths.name command) policy.denied) && is_listed policy.allowed (paths.name command))

  abbrev pub is_string_flag : String → Bool
  is_string_flag value = mem (lower value) ("-c" ∷ "/c" ∷ "-command" ∷ "-encodedcommand" ∷ [])

  unfoldable pub is_shell_operator : String → Bool
  is_shell_operator token =
      mem token shell_control_tokens
      || any (starts_with token) (">" ∷ "1>" ∷ "2>" ∷ "<(" ∷ ">(" ∷ [])
      || has_part token "$("
      || has_part token "`"

  abbrev pub check_tokens : List String → CommandCheck
  check_tokens [] = permitted
  check_tokens (token ∷ tokens) =
      if is_shell_operator token then shell_operator token else check_tokens tokens

  abbrev pub check_inner : List String → CommandCheck
  check_inner [] = permitted
  check_inner (command ∷ args) =
      if mem (lower (paths.name command)) shell_interpreters && any is_string_flag args
      then interpreter_string
      else check_tokens (command ∷ args)

  unfoldable pub check : CommandPolicy → List String → CommandCheck
  check policy argv = elim (is_allowed policy argv) [
    | none ↦ empty_command
    | some false ↦ not_permitted
    | some true ↦ check_inner (strip_sudo paths argv).1
  ]

  abbrev pub has_destructive_token : List String → Bool
  has_destructive_token args = any (λ arg. mem (lower arg) destructive_tokens) args

  abbrev pub has_redirection : List String → Bool
  has_redirection argv = any (λ arg. starts_with arg ">") argv

  unfoldable pub classify_target : String → Bool → List String → RiskLevel
  classify_target cwd is_sudo [] = if is_sudo then write else read
  classify_target cwd is_sudo (command ∷ args) =
      if mem (paths.name command) destructive_binaries || has_destructive_token args
      then destructive
      else if has_redirection (command ∷ args)
      then destructive
      else if is_nonempty (command_output_paths paths cwd (command ∷ args))
      then write
      else if mem (paths.name command) write_binaries || is_sudo
      then write
      else read

  -- Behind `sudo` the wrapped command is classified, and never below `WRITE`.
  unfoldable pub classify : String → List String → RiskLevel
  unfolding classify_target
  classify cwd argv =
      let (is_sudo, inner) = strip_sudo paths argv in
      classify_target cwd is_sudo (if is_sudo then inner else argv)
