-- ===== src/Tools/Schema.antt =====
-- backend-python/app/ai/tools/schemas.py, and the lookups in a `dict` of JSON values.
use chatbot_react_python_nod.Prelude.{String, ◌==◌, Option, none, some, if◌then◌else◌, Dict}
use chatbot_react_python_nod.Json.{Json, Fields, end, field}
use chatbot_react_python_nod.Agent.Models.{ToolResult}

pub record ToolDefinition : Type 0 where
  pub name : String
  pub description : String
  pub parameters : Fields

-- the kinds of caller
pub data CallerKind : Type 0 where
  user guest : CallerKind

pub record ToolExecutionContext : Type 0 where
  pub caller : CallerKind
  pub request_id : Option String

-- a tool result with its metadata, which the agent runtime does not read
pub record Envelope : Type 0 where
  pub result : ToolResult
  pub metadata : Dict Json

-- `d.get(key)`, where none stands for a key that is missing
unfoldable pub get_field : String → Fields → Option Json
get_field key end = none
get_field key (field k v fs) = if k == key then some v else get_field key fs
