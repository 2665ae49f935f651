-- ===== src/HostControl/Outputs.antt =====
-- hostcontrol/policy.py: the outputs that an argument vector declares, and their rewriting.
pub mod Laws
use decode.Prelude.{
  ℕ, zero, suc, ◌+◌, ◌-◌, String, Bool, true, false, not, ◌&&◌, ◌||◌, Option, none, some, List, [],
  ◌∷◌, ◌++◌, map, any, mem, is_empty, str_eq, str_append, get_last?, length, ◌==◌, if◌then◌else◌,
  any, keep,
}
use decode.Prelude.Text.{lower, starts_with, drop_chars, take_chars}
use decode.Prelude.Dict.{Dict, lookup}
use decode.HostControl.Sudo.{PathOps, strip_sudo}

-- a value, the index of the argument that carries it, and the text in front of it there
abbrev pub RawBinding : Type 0
RawBinding = String × Option ℕ × String

pub record CommandOutputBinding : Type 0 where
  pub path : String
  pub argument_index : Option ℕ
  pub prefix : String

abbrev pub value_flags : String → List String
value_flags binary =
    if str_eq binary "curl"
    then "--output" ∷ "--output-file" ∷ "-o" ∷ "--output-dir" ∷ []
    else if str_eq binary "wget"
    then "--output" ∷ "--output-file" ∷ "-O" ∷ "--output-document" ∷ "-P" ∷ "--directory-prefix"
      ∷ []
    else "--output" ∷ "--output-file" ∷ "-o" ∷ []

abbrev pub prefix_flags : String → List String
prefix_flags binary =
    if str_eq binary "curl"
    then "--output=" ∷ "--output-file=" ∷ "--output-dir=" ∷ []
    else if str_eq binary "wget"
    then "--output=" ∷ "--output-file=" ∷ "--output-document=" ∷ "--directory-prefix=" ∷ []
    else "--output=" ∷ "--output-file=" ∷ []

-- `token[len(prefix):]`
abbrev pub without_prefix : String → String → String
without_prefix String.[] token = token
without_prefix (String.◌∷◌ c prefix) String.[] = String.[]
without_prefix (String.◌∷◌ c prefix) (String.◌∷◌ d token) = without_prefix prefix token

abbrev pub first_prefix : List String → String → Option String
first_prefix [] token = none
first_prefix (p ∷ ps) token = if starts_with token p then some p else first_prefix ps token

abbrev pub prefixed : Option String → String → ℕ → List RawBinding
prefixed none token at = []
prefixed (some p) token at =
    if is_empty (without_prefix p token) then [] else (without_prefix p token, some at, p) ∷ []

abbrev pub is_nmap_flag : String → String → Bool
is_nmap_flag binary token =
    str_eq binary "nmap" && mem (take_chars 3 token) ("-oN" ∷ "-oX" ∷ "-oG" ∷ "-oA" ∷ [])

-- what the token alone declares; `at` is its index in the whole vector
unfoldable pub token_bindings : String → String → String → ℕ → List RawBinding
token_bindings cwd binary token at =
    prefixed (first_prefix (prefix_flags binary) token) token at
    ++ (if str_eq binary "curl" && str_eq token "-O" then (cwd, none, "") ∷ [] else [])
    ++ (if str_eq binary "curl" && starts_with token "-o" && not (str_eq token "-o")
        then (drop_chars 2 token, some at, "-o") ∷ []
        else [])
    ++ (if is_nmap_flag binary token && not (is_empty (drop_chars 3 token))
        then (drop_chars 3 token, some at, take_chars 3 token) ∷ []
        else [])

-- the loop over the arguments; `at` is the index of the first in the whole vector
unfoldable pub scan : String → String → ℕ → List String → List RawBinding
unfolding token_bindings
scan cwd binary at [] = []
scan cwd binary at (token ∷ []) = token_bindings cwd binary token at
scan cwd binary at (token ∷ value ∷ rest) = elim (mem token (value_flags binary)) [
  | true ↦ (value, some (at + 1), "") ∷ scan cwd binary (at + 2) rest
  | false ↦ elim (is_nmap_flag binary token && is_empty (drop_chars 3 token)) [
    | true ↦
        token_bindings cwd binary token at
        ++ (value, some (at + 1), "") ∷ scan cwd binary (at + 2) rest
    | false ↦ token_bindings cwd binary token at ++ scan cwd binary (at + 1) (value ∷ rest)
  ]
]

abbrev pub positional : ℕ → List String → List RawBinding
positional at [] = []
positional at (value ∷ rest) =
    let others = positional (at + 1) rest in
    if not (is_empty value) && not (starts_with value "-")
    then (value, some at, "") ∷ others
    else others

abbrev pub last_alone : Option RawBinding → List RawBinding
last_alone none = []
last_alone (some b) = b ∷ []

abbrev pub positional_bindings : String → ℕ → List String → List RawBinding
positional_bindings binary at args =
    if mem binary ("cp" ∷ "mv" ∷ "install" ∷ [])
    then last_alone (get_last? (positional at args))
    else if mem binary ("touch" ∷ "mkdir" ∷ "tee" ∷ [])
    then positional at args
    else []

abbrev pub same_index : Option ℕ → Option ℕ → Bool
same_index none none = true
same_index (some m) (some n) = m == n
same_index _ _ = false

abbrev pub same_binding : CommandOutputBinding → CommandOutputBinding → Bool
same_binding a b =
    str_eq a.path b.path && same_index a.argument_index b.argument_index && str_eq a.prefix b.prefix

module _ (paths : PathOps) (cwd : String) where
  abbrev pub resolved_binding : RawBinding → CommandOutputBinding
  resolved_binding (value, at, prefix) = record {
    path = paths.locate cwd value;
    argument_index = at;
    prefix = prefix;
  }

  -- `if binding not in resolved: resolved.append(binding)`
  unfoldable pub resolve_bindings :
      List CommandOutputBinding → List RawBinding → List CommandOutputBinding
  resolve_bindings done [] = done
  resolve_bindings done (b ∷ bs) =
      let binding = resolved_binding b in
      resolve_bindings (if any (same_binding binding) done then done else done ++ binding ∷ []) bs

  abbrev pub raw_bindings : ℕ → List String → List RawBinding
  raw_bindings offset [] = []
  raw_bindings offset (command ∷ args) =
      let binary = lower (paths.name command) in
      scan cwd binary (offset + 1) args ++ positional_bindings binary (offset + 1) args

  unfoldable pub command_output_bindings : List String → List CommandOutputBinding
  unfolding resolve_bindings scan
  command_output_bindings argv =
      let inner = (strip_sudo paths argv).1 in
      resolve_bindings [] (raw_bindings (length argv - length inner) inner)

  -- each path once
  unfoldable pub distinct_paths : List String → List CommandOutputBinding → List String
  distinct_paths done [] = done
  distinct_paths done (b ∷ bs) =
      distinct_paths (if mem b.path done then done else done ++ b.path ∷ []) bs

  unfoldable pub command_output_paths : List String → List String
  unfolding distinct_paths command_output_bindings
  command_output_paths argv = distinct_paths [] (command_output_bindings argv)

  -- `rewritten[i] = text`
  abbrev pub set_at : ℕ → String → List String → List String
  set_at i text [] = []
  set_at zero text (x ∷ xs) = text ∷ xs
  set_at (suc i) text (x ∷ xs) = x ∷ set_at i text xs

  abbrev pub rewrite_at : Option ℕ → Option String → String → List String → List String
  rewrite_at none replacement prefix argv = argv
  rewrite_at (some i) none prefix argv = argv
  rewrite_at (some i) (some path) prefix argv = set_at i (str_append prefix path) argv

  unfoldable pub rewrite_bindings :
      Dict String → List CommandOutputBinding → List String → List String
  rewrite_bindings replacements [] argv = argv
  rewrite_bindings replacements (b ∷ bs) argv =
      rewrite_bindings replacements bs
        (rewrite_at b.argument_index (lookup b.path replacements) b.prefix argv)

  -- The replacements are keyed by resolved paths.
  unfoldable pub rewrite_command_output_paths : Dict String → List String → List String
  unfolding rewrite_bindings command_output_bindings
  rewrite_command_output_paths replacements argv =
      rewrite_bindings replacements (command_output_bindings argv) argv
