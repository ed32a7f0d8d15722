-- ===== src/Tools/Registry.antt =====
-- `ToolRegistry` of backend-python/app/ai/tools/registry.py: a `dict` of definitions and handlers.
-- The type of handlers is a parameter.
pub mod Exact
use chatbot_react_python_nod.Prelude.{
  String, ◌==◌, Bool, true, false, Option, none, some, List, [], ◌∷◌, map, if◌then◌else◌, Dict,
  lookup, insert,
}
use chatbot_react_python_nod.Json.{Json, str, obj, Fields, end, field}
use chatbot_react_python_nod.Tools.Schema.{ToolDefinition}

pub record Registered (H : Type 0) : Type 0 where
  pub definition : ToolDefinition
  pub handler : H

abbrev pub Registry : Type 0 → Type 0
Registry H = Dict (Registered H)

abbrev pub definition_of : {H : Type 0} → Registered H → ToolDefinition
definition_of t = t.definition

abbrev pub handler_of : {H : Type 0} → Registered H → H
handler_of t = t.handler

-- one entry of the schemas for a model
abbrev pub function_schema : ToolDefinition → Json
function_schema d = obj (
    field "type" (str "function") (
      field "function"
        (obj (
          field "name" (str d.name)
            (field "description" (str d.description) (field "parameters" (obj d.parameters) end))))
        end))

module _ {H : Type 0} where
  -- none is `ToolAlreadyRegisteredError`
  unfoldable pub register : ToolDefinition → H → Registry H → Option (Registry H)
  register tool handler tools = elim (lookup tool.name tools) [
    | some t ↦ none
    | none ↦ some (insert tool.name (record { definition = tool; handler = handler }) tools)
  ]

  unfoldable pub get_definition : String → Registry H → Option ToolDefinition
  get_definition name tools = elim (lookup name tools) [ none ↦ none | some t ↦ some t.definition ]

  unfoldable pub get_handler : String → Registry H → Option H
  get_handler name tools = elim (lookup name tools) [ none ↦ none | some t ↦ some t.handler ]

  unfoldable pub list_tools : Registry H → List ToolDefinition
  list_tools tools = map (λ e. definition_of e.1) tools

  unfoldable pub get_schemas_for_llm : Registry H → List Json
  get_schemas_for_llm tools = map (λ e. function_schema (definition_of e.1)) tools
