-- ===== src/Governance/Scope/Laws.antt =====
-- What the allowlist of governance/scope.py promises.
use decode.Prelude.{
  ◌≡◌, ◌≢◌, String, true, false, ◌||◌, ◌⊎◌, ◌≤◌, inl, inr, none, some, List, [], ◌∷◌, arith, any,
  Exists, is_empty, mem, str_eq, str_append, Bool-cases, Option-cases,
}
use decode.Prelude.Text.{lower, ends_with}
use decode.Governance.Scope.{
  IpAddress, IpNetwork, in_network, subnet_of, NetParsers, ScopePolicy, add, scope_policy,
  extract_host, is_in_scope, host_in_scope, name_in_scope,
}

module _ (net : NetParsers) where
  host_in_scope-add :
      (p : ScopePolicy) (entry host : String)
      → host_in_scope net p host ≡ true
      → host_in_scope net (add net p entry) host ≡ true
  unfolding add
  host_in_scope-add p entry host h = ground arith

  allow_all-add : (p : ScopePolicy) (entry : String) → (add net p entry).allow_all ≡ p.allow_all
  unfolding add
  allow_all-add p entry = ground arith

  -- Adding an entry to an allowlist never takes a target out of scope.
  pub is_in_scope-add :
      (p : ScopePolicy) (entry target : String)
      → is_in_scope net p target ≡ some true
      → is_in_scope net (add net p entry) target ≡ some true
  unfolding is_in_scope
  is_in_scope-add p entry target h = elim (Option-cases (extract_host net target)) [
    | inl e ↦ ground (arith, allow_all-add p entry)
    | inr (host, e) ↦ ground (arith, allow_all-add p entry, host_in_scope-add p entry host)
  ]

  -- An allowlist built from no entry refuses every target.
  pub scope_policy-empty :
      (target : String) → is_in_scope net (scope_policy net [] false) target ≢ some true
  unfolding is_in_scope scope_policy
  scope_policy-empty target h = ground arith

-- The address lies between the ends of the network.
abbrev pub Covers : IpAddress → IpNetwork → Type 0
Covers ip n = (ip.version ≡ n.version) × (n.first ≤ ip.value) × (ip.value ≤ n.last)

abbrev pub Encloses : IpNetwork → IpNetwork → Type 0
Encloses m n = (n.version ≡ m.version) × (n.first ≤ m.first) × (m.last ≤ n.last)

any-Covers :
    (ip : IpAddress) (ns : List IpNetwork) → any (in_network ip) ns ≡ true → Exists (Covers ip) ns
unfolding in_network
any-Covers ip [] h = cc
any-Covers ip (n ∷ ns) h = elim (Bool-cases (in_network ip n)) [
  | inl hit ↦ inl (ground arith)
  | inr miss ↦ inr (any-Covers ip ns (rw miss at h))
]

any-Encloses :
    (m : IpNetwork) (ns : List IpNetwork) → any (subnet_of m) ns ≡ true → Exists (Encloses m) ns
unfolding subnet_of
any-Encloses m [] h = cc
any-Encloses m (n ∷ ns) h = elim (Bool-cases (subnet_of m n)) [
  | inl hit ↦ inl (ground arith)
  | inr miss ↦ inr (any-Encloses m ns (rw miss at h))
]

-- A name that equals an allowed domain, or ends in a dot and it.
abbrev pub IsUnder : String → String → Type 0
IsUnder h d = (str_eq h d ≡ true) ⊎ (ends_with h (str_append "." d) ≡ true)

any-IsUnder :
    (h : String) (ds : List String)
    → any (λ d. str_eq h d || ends_with h (str_append "." d)) ds ≡ true
    → Exists (IsUnder h) ds
any-IsUnder h [] e = cc
any-IsUnder h (d ∷ ds) e = elim (Bool-cases (str_eq h d)) [
  | inl same ↦ inl (inl same)
  | inr differs ↦ elim (Bool-cases (ends_with h (str_append "." d))) [
    | inl below ↦ inl (inr below)
    | inr apart ↦ inr (any-IsUnder h ds (ground arith))
  ]
]

module _ (net : NetParsers) (p : ScopePolicy) where
  -- What an allowlist can say for a host: its address, its network or its name is listed.
  pub data Listed (host : String) : Type 0 where
    address :
        (ip : IpAddress)
        → net.ip_address host ≡ some ip
        → Exists (Covers ip) p.networks
        → Listed host
    network :
        (m : IpNetwork)
        → net.ip_address host ≡ none
        → net.ip_network host ≡ some m
        → Exists (Encloses m) p.networks
        → Listed host
    name :
        net.ip_address host ≡ none
        → net.ip_network host ≡ none
        → (mem (lower host) p.hosts ≡ true) ⊎ Exists (IsUnder (lower host)) p.domains
        → Listed host

  name_cases :
      (h : String)
      → name_in_scope p h ≡ true
      → (mem h p.hosts ≡ true) ⊎ Exists (IsUnder h) p.domains
  name_cases h e = elim (Bool-cases (mem h p.hosts)) [
    | inl listed ↦ inl listed
    | inr absent ↦ inr (any-IsUnder h p.domains (rw absent at e))
  ]

  host-Listed : (host : String) → host_in_scope net p host ≡ true → Listed host
  host-Listed host e = elim (Option-cases (net.ip_address host)) [
    | inr (ip, a) ↦ address ip a (any-Covers ip p.networks (ground arith))
    | inl a ↦ elim (Option-cases (net.ip_network host)) [
      | inr (m, b) ↦ network m a b (any-Encloses m p.networks (ground arith))
      | inl b ↦ name a b (name_cases (lower host) (ground arith))
    ]
  ]

  -- A target that is accepted while `allow_all` is off names a nonempty host whose address or
  -- network lies in an allowed network, or whose name is allowed or under an allowed domain.
  pub is_in_scope-Listed :
      (target : String)
      → p.allow_all ≡ false
      → is_in_scope net p target ≡ some true
      → (host : String) × (extract_host net target ≡ some host)
        × (is_empty host ≡ false)
        × Listed host
  unfolding is_in_scope
  is_in_scope-Listed target off h = elim (Option-cases (extract_host net target)) [
    | inl e ↦ absurd (ground arith)
    | inr (host, e) ↦ (host, e, ground arith, host-Listed host (ground arith))
  ]

any-in_network_of_subnet :
    (ip : IpAddress) (m : IpNetwork) (ns : List IpNetwork)
    → in_network ip m ≡ true
    → any (subnet_of m) ns ≡ true
    → any (in_network ip) ns ≡ true
unfolding in_network subnet_of
any-in_network_of_subnet ip m [] i h = h
any-in_network_of_subnet ip m (n ∷ ns) i h = ground (arith, any-in_network_of_subnet ip m ns i)

module _ (net : NetParsers) (p : ScopePolicy) where
  -- When a network target is in scope, so is each address target inside that network.
  pub is_in_scope-subnet :
      (whole part big small : String) (m : IpNetwork) (ip : IpAddress)
      → extract_host net whole ≡ some big
      → net.ip_address big ≡ none
      → net.ip_network big ≡ some m
      → extract_host net part ≡ some small
      → is_empty small ≡ false
      → net.ip_address small ≡ some ip
      → in_network ip m ≡ true
      → is_in_scope net p whole ≡ some true
      → is_in_scope net p part ≡ some true
  unfolding is_in_scope
  is_in_scope-subnet whole part big small m ip ew a b es full c inside h =
      ground (arith, any-in_network_of_subnet ip m p.networks)
