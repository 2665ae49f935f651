-- ===== src/Capabilities/Registry.antt =====
-- capabilities/registry.py: registration, the tool surface of a mode, and the registry of a session. The
-- coding capabilities of capabilities/coding.py are an argument.
use decode.Prelude.{
  ◌≡◌, refl, ap, ◌∙◌, String, Bool, true, false, not, ◌&&◌, Option, none, some, List, [], ◌∷◌, ◌++◌,
  map, keep, str_eq, str_append, eq_iff, mem, arith, if◌then◌else◌,
}
use decode.Prelude.Dict.{Dict, lookup, values}
use decode.Values.{Value}

pub data TaskMode : Type 0 where
  coding security hybrid : TaskMode

pub record Capability : Type 0 where
  pub name : String
  pub source : String
  pub type_ : String
  pub description : String
  pub risk : String
  pub executor : String
  pub available : Bool
  pub server : String
  pub tool : String
  pub category : String
  pub input_schema : Value

abbrev pub CapabilityRegistry : Type 0
CapabilityRegistry = Dict Capability

abbrev pub general_skill_categories : List String
general_skill_categories = "agent_core" ∷ []

-- `setdefault`: the first registration of a name stays
unfoldable pub register : Capability → CapabilityRegistry → CapabilityRegistry
register cap [] = (cap.name, cap) ∷ []
register cap ((name, c) ∷ caps) =
    if str_eq name cap.name then (name, c) ∷ caps else (name, c) ∷ register cap caps

unfoldable pub by_source : String → CapabilityRegistry → List Capability
by_source source caps = keep (λ (c : Capability). str_eq c.source source) (values caps)

abbrev pub has_coding : TaskMode → Bool
has_coding security = false
has_coding _ = true

abbrev pub has_skills : TaskMode → Bool
has_skills coding = false
has_skills _ = true

-- one round of the loop of `resolve`
abbrev pub is_offered : TaskMode → Capability → Bool
is_offered mode c =
    c.available
    && not (str_eq c.type_ "coding" && not (has_coding mode))
    && not (
        str_eq c.source "skill"
        && not (has_skills mode)
        && not (mem c.category general_skill_categories))

pub record Descriptor : Type 0 where
  pub name : String
  pub description : String
  pub risk : String
  pub source : String
  pub input_schema : Value

abbrev pub descriptor : Capability → Descriptor
descriptor c = record {
  name = c.name;
  description = c.description;
  risk = c.risk;
  source = c.source;
  input_schema = c.input_schema;
}

unfoldable pub resolve : TaskMode → CapabilityRegistry → List Descriptor
resolve mode caps = map descriptor (keep (is_offered mode) (values caps))

-- The mapping that describes a tool; what it lacks has its default.
pub record ToolEntry : Type 0 where
  pub name : String
  pub description : String
  pub risk : String
  pub category : String
  pub input_schema : Value

pub record McpDescriptor : Type 0 where
  pub name : String
  pub description : String
  pub risk : String
  pub server : String
  pub tool : String
  pub input_schema : Value

abbrev pub system_gateway : List String
system_gateway =
    "shell_command" ∷ "list_tools" ∷ "host_session" ∷ "session_open" ∷ "session_exec"
    ∷ "session_close" ∷ []

abbrev pub tool_capability : String → String → String → ToolEntry → Capability
tool_capability source type category t = record {
  name = t.name;
  source = source;
  type_ = type;
  description = t.description;
  risk = t.risk;
  executor = "internal";
  available = true;
  server = "";
  tool = "";
  category = category;
  input_schema = t.input_schema;
}

abbrev pub host_capability : ToolEntry → Capability
host_capability t =
    if mem t.name system_gateway
    then tool_capability "system" "system" "" t
    else tool_capability "native" "host" "" t

abbrev pub mcp_capability : McpDescriptor → Capability
mcp_capability d = record {
  name = d.name;
  source = "mcp";
  type_ = "mcp";
  description = d.description;
  risk = d.risk;
  executor = str_append "mcp/" d.server;
  available = true;
  server = d.server;
  tool = d.tool;
  category = "";
  input_schema = d.input_schema;
}

abbrev pub register_all : List Capability → CapabilityRegistry → CapabilityRegistry
register_all [] caps = caps
register_all (c ∷ cs) caps = register_all cs (register c caps)

-- the capabilities of a session in the order of their registration
abbrev pub session_capabilities :
    List ToolEntry → List ToolEntry → List ToolEntry → List McpDescriptor → Bool → List Capability
session_capabilities host_tools coding_tools skill_tools mcp_descriptors include_coding =
    map host_capability host_tools
    ++ (if include_coding then map (tool_capability "native" "coding" "") coding_tools else [])
    ++ map (λ (t : ToolEntry). tool_capability "skill" "playbook" t.category t) skill_tools
    ++ map mcp_capability mcp_descriptors

unfoldable pub build_registry :
    List ToolEntry
    → List ToolEntry
    → List ToolEntry
    → List McpDescriptor
    → Bool
    → CapabilityRegistry
unfolding register
build_registry host_tools coding_tools skill_tools mcp_descriptors include_coding =
    register_all
      (session_capabilities host_tools coding_tools skill_tools mcp_descriptors include_coding) []

abbrev pub first_of : Option Capability → Capability → Capability
first_of none cap = cap
first_of (some c) cap = c

-- Registering a capability leaves each capability that is there as it is, and adds the new one only under a
-- name that was free.
pub lookup-register :
    (cap : Capability) (caps : CapabilityRegistry) (name : String)
    → lookup name (register cap caps)
      ≡ (if str_eq cap.name name then some (first_of (lookup name caps) cap) else lookup name caps)
unfolding register
lookup-register cap [] name = ground arith
lookup-register cap ((n, c) ∷ caps) name =
    ground
      (arith, eq_iff n cap.name, eq_iff n name, eq_iff cap.name name, lookup-register cap caps name)

-- the first capability with the name
abbrev pub find_capability : String → List Capability → Option Capability
find_capability name [] = none
find_capability name (c ∷ cs) = if str_eq c.name name then some c else find_capability name cs

abbrev pub or_else : Option Capability → Option Capability → Option Capability
or_else none o = o
or_else (some c) o = some c

one_more :
    (c : Capability) (b : Bool) (there rest : Option Capability)
    → or_else (if b then some (first_of there c) else there) rest
      ≡ or_else there (if b then some c else rest)
one_more c true none rest = refl
one_more c true (some d) rest = refl
one_more c false none rest = refl
one_more c false (some d) rest = refl

lookup-register_all :
    (cs : List Capability) (caps : CapabilityRegistry) (name : String)
    → lookup name (register_all cs caps) ≡ or_else (lookup name caps) (find_capability name cs)
lookup-register_all [] caps name = or_else_none (lookup name caps)
  where
    or_else_none : (o : Option Capability) → o ≡ or_else o none
    or_else_none none = refl
    or_else_none (some c) = refl
lookup-register_all (c ∷ cs) caps name =
    lookup-register_all cs (register c caps) name
    ∙ ap (λ (o : Option Capability). or_else o (find_capability name cs))
        (lookup-register c caps name)
    ∙ one_more c (str_eq c.name name) (lookup name caps) (find_capability name cs)

-- Under each name the registry of a session holds the first capability of that name, in the order host, coding,
-- playbook, MCP: no later one displaces it.
pub lookup-build_registry :
    (host_tools coding_tools skill_tools : List ToolEntry) (mcp_descriptors : List McpDescriptor)
    (include_coding : Bool) (name : String)
    → lookup name
        (build_registry host_tools coding_tools skill_tools mcp_descriptors include_coding)
      ≡ find_capability name
          (session_capabilities host_tools coding_tools skill_tools mcp_descriptors include_coding)
unfolding build_registry
lookup-build_registry host_tools coding_tools skill_tools mcp_descriptors include_coding name =
    lookup-register_all
      (session_capabilities host_tools coding_tools skill_tools mcp_descriptors include_coding) []
      name
