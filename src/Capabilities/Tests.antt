-- ===== src/Capabilities/Tests.antt =====
-- The registry and the tools of a turn at concrete inputs.
use decode.Prelude.{String, true, none, [], ◌∷◌}
use decode.Values.{null}
use decode.Capabilities.Registry.{Capability, coding, ToolEntry}
use decode.Capabilities.Resolver.{Tool, resolve_tools, Distinct, resolve_tools-Distinct}

abbrev capability : String → Capability
capability source = record {
  name = "read_file";
  source = source;
  type_ = "host";
  description = "";
  risk = "read";
  executor = "internal";
  available = true;
  server = "";
  tool = "";
  category = "";
  input_schema = null;
}

abbrev tool : String → String → Tool
tool name category = record { name = name; category = category; rest = null }

resolve_tools-Distinct_example : Distinct [] (
    resolve_tools coding []
      (tool "read_file" "" ∷ [])
      (tool "read_file" "agent_core" ∷ [])
      none
      none)
resolve_tools-Distinct_example =
    resolve_tools-Distinct coding [] (tool "read_file" "" ∷ []) (tool "read_file" "agent_core" ∷ [])
      none none

abbrev entry : String → ToolEntry
entry description = record {
  name = "read_file";
  description = description;
  risk = "read";
  category = "";
  input_schema = null;
}
