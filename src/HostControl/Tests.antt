-- ===== src/HostControl/Tests.antt =====
-- The rules for commands and paths at concrete inputs.
use decode.Prelude.{
  ℕ, ◌≡◌, ◌≢◌, ◌↔◌, ◌⊎◌, refl, String, Bool, true, false, none, some, List, [], ◌∷◌, ◌&&◌, length,
  mem, any, is_nonempty, str_eq, All,
}
use decode.Governance.{write}
use decode.HostControl.Hooks.{PreHook, HookEvent}
use decode.HostControl.Sudo.{PathOps, strip_sudo}
use decode.HostControl.Outputs.{command_output_bindings, rewrite_command_output_paths}
use decode.HostControl.Commands.{CommandPolicy, permitted, check, classify}
use decode.HostControl.Paths.{FilesystemScope, LiesUnder, allows, allows_write, allows_read}

-- names without folders, and a place for one path
abbrev paths : PathOps
paths = record { name = λ s. s; resolve = λ s. some ("/" ∷ "work" ∷ s ∷ []); locate = λ cwd s. s }

abbrev policy : CommandPolicy
policy = record { allowed = none; denied = "rm" ∷ [] }

abbrev scope : FilesystemScope
scope = record { read_roots = []; write_roots = ("/" ∷ "work" ∷ []) ∷ [] }

may_write : allows paths scope "notes" true ≡ true
unfolding allows decode.HostControl.Paths.within decode.HostControl.Paths.is_under
may_write = refl

may_read : allows paths scope "notes" false ≡ true
unfolding allows decode.HostControl.Paths.within decode.HostControl.Paths.is_under
may_read = refl

allows_write_example :
    LiesUnder paths "notes" scope.write_roots × (allows paths scope "notes" false ≡ true)
allows_write_example = allows_write paths scope "notes" may_write

abbrev no_wipes : PreHook
no_wipes event = some (str_eq event.capability "scan", "only scans")

abbrev event : HookEvent
event = record { capability = "wipe"; risk = write; target = "" }

-- The denial of a binary looks at the first word alone: behind sudo the denied binary is permitted.
sudo_hides_denied : check paths policy ("sudo" ∷ "rm" ∷ "x" ∷ []) ≡ permitted
unfolding check decode.HostControl.Commands.is_allowed decode.HostControl.Commands.is_shell_operator
    decode.Prelude.Text.starts_with decode.Prelude.Text.has_part decode.Prelude.Text.lower
    strip_sudo
sudo_hides_denied = refl

-- The classification looks behind one sudo, and takes a second one for the command.
second_sudo_hides_destructive : classify paths "/" ("sudo" ∷ "sudo" ∷ "rm" ∷ "x" ∷ []) ≡ write
unfolding classify decode.HostControl.Commands.classify_target strip_sudo
    decode.HostControl.Outputs.command_output_paths decode.HostControl.Outputs.distinct_paths
    command_output_bindings decode.HostControl.Outputs.resolve_bindings
    decode.HostControl.Outputs.scan decode.HostControl.Outputs.token_bindings
    decode.Prelude.Text.starts_with decode.Prelude.Text.lower decode.Prelude.Text.take_chars
    decode.Prelude.Text.drop_chars
second_sudo_hides_destructive = refl
