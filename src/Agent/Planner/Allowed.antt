-- ===== src/Agent/Planner/Allowed.antt =====
-- Which tools the planner offers.
use chatbot_react_python_nod.Prelude.{
  String, ◌≡◌, refl, true, Option, none, some, List, ◌↔◌, Elem, Elem-select, select, mem_iff,
}
use chatbot_react_python_nod.Agent.Models.{AgentRequest, AgentContext}
use chatbot_react_python_nod.Agent.Env.{Env, ToolSchema}
use chatbot_react_python_nod.Agent.Planner.{admits, resolve_tool_schemas}

-- a filter on names lets this name pass
abbrev pub Allows : Option (List String) → String → Type 0
Allows none name = Unit
Allows (some names) name = Elem name names

admits_iff : (o : Option (List String)) (s : ToolSchema) → (admits o s ≡ true) ↔ Allows o s.name
admits_iff none s = ((λ _. tt), λ _. refl)
admits_iff (some names) s = mem_iff s.name names

-- The planner offers exactly the registered tools that the context allows and the request names, where
-- no list of names allows every tool.
pub resolve_tool_schemas-exact :
    (env : Env) (request : AgentRequest) (context : AgentContext) (s : ToolSchema)
    → Elem s (resolve_tool_schemas env request context) ↔ (
        Elem s env.tool_schemas
        × Allows context.allowed_tool_names s.name
        × Allows request.tool_names s.name)
unfolding resolve_tool_schemas
resolve_tool_schemas-exact env request context s =
    let inner = Elem-select (admits context.allowed_tool_names) s env.tool_schemas in
    let outer =
      Elem-select (admits request.tool_names) s
        (select (admits context.allowed_tool_names) env.tool_schemas) in
    (
      (λ h.
          let (kept, asked) = outer.0 h in
          let (there, allowed) = inner.0 kept in
          (
            there,
            (admits_iff context.allowed_tool_names s).0 allowed,
            (admits_iff request.tool_names s).0 asked,
          )),
      λ (there, allowed, asked). outer.1 (
        inner.1 (there, (admits_iff context.allowed_tool_names s).1 allowed),
        (admits_iff request.tool_names s).1 asked,
      ),
    )
