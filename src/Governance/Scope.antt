-- ===== src/Governance/Scope.antt =====
-- governance/scope.py: the allowlist of targets.
pub mod Laws
use mathlib.Core.Option
use decode.Prelude.{
  ℕ, String, Bool, true, false, not, ◌&&◌, ◌||◌, Option, none, some, List, [], ◌∷◌, leb, ◌==◌, any,
  if◌then◌else◌, is_empty, mem, str_eq, str_append,
}
use decode.Prelude.Text.{
  lower, strip, has_part, starts_with, ends_with, count_char, before_char, drop_chars,
}

pub record IpAddress : Type 0 where
  pub version : ℕ
  pub value : ℕ

-- A network by its version, its network address and its broadcast address.
pub record IpNetwork : Type 0 where
  pub version : ℕ
  pub first : ℕ
  pub last : ℕ

-- `ip in net`
unfoldable pub in_network : IpAddress → IpNetwork → Bool
in_network ip net = ip.version == net.version && leb net.first ip.value && leb ip.value net.last

-- `net.subnet_of(a)` behind the test on the versions
unfoldable pub subnet_of : IpNetwork → IpNetwork → Bool
subnet_of net a = a.version == net.version && leb a.first net.first && leb net.last a.last

-- The text parsers of `ipaddress` and `urllib.parse`; `none` where they raise `ValueError`.
-- `hostname` is `urlparse(target).hostname or ""`, which raises on malformed brackets.
pub record NetParsers : Type 0 where
  pub ip_address : String → Option IpAddress
  pub ip_network : String → Option IpNetwork
  pub hostname : String → Option String

pub record ScopePolicy : Type 0 where
  pub allow_all : Bool
  pub networks : List IpNetwork
  pub hosts : List String
  pub domains : List String

abbrev pub add_name : ScopePolicy → String → ScopePolicy
add_name p entry =
    if starts_with entry "*."
    then record p { domains = lower (drop_chars 2 entry) ∷ p.domains }
    else record p { hosts = lower entry ∷ p.hosts }

abbrev pub name_in_scope : ScopePolicy → String → Bool
name_in_scope p h =
    mem h p.hosts || any (λ d. str_eq h d || ends_with h (str_append "." d)) p.domains

module _ (net : NetParsers) where
  unfoldable pub add : ScopePolicy → String → ScopePolicy
  add p raw =
      let entry = strip raw in
      if is_empty entry then p else elim (net.ip_network entry) [
        | some n ↦ record p { networks = n ∷ p.networks }
        | none ↦ add_name p entry
      ]

  add_entries : ScopePolicy → List String → ScopePolicy
  unfolding add
  add_entries p [] = p
  add_entries p (e ∷ es) = add_entries (add p e) es

  -- the constructor
  unfoldable pub scope_policy : List String → Bool → ScopePolicy
  unfolding add_entries
  scope_policy allowed everything =
      add_entries (record { allow_all = everything; networks = []; hosts = []; domains = [] })
        allowed

  -- `none`: a `ValueError` leaves the method
  unfoldable pub extract_host : String → Option String
  extract_host raw =
      let target = strip raw in
      if has_part target "://"
      then Option.map strip (net.hostname target)
      else if count_char b':' target == 1 && not (has_part target "/")
      then some (before_char b':' target)
      else some target

  abbrev pub host_in_scope : ScopePolicy → String → Bool
  host_in_scope p host = elim (net.ip_address host) [
    | some ip ↦ any (in_network ip) p.networks
    | none ↦ elim (net.ip_network host) [
      | some n ↦ any (subnet_of n) p.networks
      | none ↦ name_in_scope p (lower host)
    ]
  ]

  unfoldable pub is_in_scope : ScopePolicy → String → Option Bool
  is_in_scope p target = if p.allow_all then some true else elim (extract_host target) [
    | none ↦ none
    | some host ↦ some (not (is_empty host) && host_in_scope p host)
  ]
