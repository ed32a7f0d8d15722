-- ===== src/Tools/Registry/Exact.antt =====
-- What registering does to every later question to the registry.
use mathlib.Core.List.{map-append}
use chatbot_react_python_nod.Prelude.{
  String, ◌==◌, ◌≡◌, refl, ap, ◌∙◌, Option, none, some, [], ◌∷◌, ◌++◌, map, if◌then◌else◌, Dict,
  lookup, insert, lookup-insert, Option-cases, Bool-cases, inl, inr,
}
use chatbot_react_python_nod.Tools.Schema.{ToolDefinition}
use chatbot_react_python_nod.Tools.Registry.{
  Registered, Registry, definition_of, register, get_definition, get_handler, list_tools,
}

-- a new key comes last
insert_new :
    {V : Type 0}
    → (k : String) (v : V) (d : Dict V) → lookup k d ≡ none
    → insert k v d ≡ d ++ (k, v) ∷ []
unfolding lookup insert
insert_new k v [] h = refl
insert_new k v ((j, w) ∷ d) h = elim (Bool-cases (j == k)) [
  | inl same ↦ absurd (let e = h in let f = (rw same at e) in cc)
  | inr other ↦
      let e = h in
      let f : lookup k d ≡ none = (rw other at e) in
      rw other (ap (λ r. (j, w) ∷ r) (insert_new k v d f))
]

module _ {H : Type 0} where
  -- The registry with a tool that was added.
  abbrev Added : ToolDefinition → H → Registry H → Registry H → Type 0
  Added tool handler tools tools' =
      ((name : String)
        → (get_definition name tools'
            ≡ (if tool.name == name then some tool else get_definition name tools))
          × (get_handler name tools'
              ≡ (if tool.name == name then some handler else get_handler name tools)))
      × (list_tools tools' ≡ list_tools tools ++ tool ∷ [])

  abbrev pub Registers : ToolDefinition → H → Registry H → Option (Registry H) → Type 0
  Registers tool handler tools none =
      (t : ToolDefinition) × (get_definition tool.name tools ≡ some t)
  Registers tool handler tools (some tools') =
      (get_definition tool.name tools ≡ none) × Added tool handler tools tools'

  abbrev entry : ToolDefinition → H → Registered H
  entry tool handler = record { definition = tool; handler = handler }

  register_taken :
      (tool : ToolDefinition) (handler : H) (tools : Registry H) (t : Registered H)
      → lookup tool.name tools ≡ some t
      → register tool handler tools ≡ none
  unfolding register
  register_taken tool handler tools t e = rw (register, e) refl

  register_new :
      (tool : ToolDefinition) (handler : H) (tools : Registry H)
      → lookup tool.name tools ≡ none
      → register tool handler tools ≡ some (insert tool.name (entry tool handler) tools)
  unfolding register
  register_new tool handler tools e = rw (register, e) refl

  pub get_definition_as :
      (name : String) (tools : Registry H) (t : Registered H)
      → lookup name tools ≡ some t
      → get_definition name tools ≡ some t.definition
  unfolding get_definition
  get_definition_as name tools t e = rw (get_definition, e) refl

  pub get_handler_as :
      (name : String) (tools : Registry H) (t : Registered H)
      → lookup name tools ≡ some t
      → get_handler name tools ≡ some t.handler
  unfolding get_handler
  get_handler_as name tools t e = rw (get_handler, e) refl

  insert-Added :
      (tool : ToolDefinition) (handler : H) (tools : Registry H)
      → lookup tool.name tools ≡ none
      → Added tool handler tools (insert tool.name (entry tool handler) tools)
  unfolding get_definition get_handler list_tools
  insert-Added tool handler tools e = (
    (λ name. elim (Bool-cases (tool.name == name)) [
      | inl same ↦
          rw
            (
              get_definition,
              get_handler,
              lookup-insert tool.name name (entry tool handler) tools,
              same,
            )
            (refl, refl)
      | inr other ↦
          rw
            (
              get_definition,
              get_handler,
              lookup-insert tool.name name (entry tool handler) tools,
              other,
            )
            (refl, refl)
    ]),
    ap (map (λ e. definition_of e.1)) (insert_new tool.name (entry tool handler) tools e)
        ∙ map-append (λ e. definition_of e.1) tools ((tool.name, entry tool handler) ∷ []),
  )

  pub no_definition :
      (name : String) (tools : Registry H)
      → lookup name tools ≡ none
      → get_definition name tools ≡ none
  unfolding get_definition
  no_definition name tools e = rw (get_definition, e) refl

  -- Registering is refused exactly for a name that has a definition already. Otherwise the definition and
  -- the handler are found under the name of the tool, those of all other names are as before, and the tool
  -- is listed last.
  pub register_exact :
      (tool : ToolDefinition) (handler : H) (tools : Registry H)
      → Registers tool handler tools (register tool handler tools)
  register_exact tool handler tools = elim (Option-cases (lookup tool.name tools)) [
    | inr (t, e) ↦
        rw (register_taken tool handler tools t e)
          (t.definition, get_definition_as tool.name tools t e)
    | inl e ↦
        rw (register_new tool handler tools e)
          (no_definition tool.name tools e, insert-Added tool handler tools e)
  ]
