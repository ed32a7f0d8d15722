-- ===== src/Documents/Prompt.antt =====
-- `PromptBuilder` of backend-python/app/ai/rag/prompt_builder.py. `PromptManager.render` is a parameter,
-- and so is Python's `repr` of a text. An exception is a value.
use Prim.Native.String.{◌++◌}
use Prim.Native.Char.{code}
use chatbot_react_python_nod.Prelude.{
  ℕ, String, ◌==◌, ◌&&◌, ◌||◌, Option, none, some, List, [], ◌∷◌, if◌then◌else◌, nat_eq,
}

-- a `ValueError`, a `ChatServiceError`, or an exception of code that is not here
pub data Fault : Type 0 where
  value_error : String → Fault
  chat_service_error : String → String → ℕ → Fault
  foreign : String → Fault

pub data Outcome {ℓ} (A : Type ℓ) : Type ℓ where
  ok : A → Outcome A
  err : Fault → Outcome A

-- `text or otherwise`, where the text may be None
unfoldable pub text_or : Option String → String → String
text_or none otherwise = otherwise
text_or (some s) otherwise = if s == "" then otherwise else s

-- `ref.strip("/")`
lstrip_slashes : String → String
lstrip_slashes String.[] = ""
lstrip_slashes (String.◌∷◌ c s) =
    let rest = lstrip_slashes s in if nat_eq (code c) b'/' then rest else String.◌∷◌ c s

rstrip_slashes : String → String
rstrip_slashes String.[] = ""
rstrip_slashes (String.◌∷◌ c s) =
    let rest = rstrip_slashes s in
    if nat_eq (code c) b'/' && rest == "" then "" else String.◌∷◌ c rest

-- the first word and the others of `ref.split("/")`
split_slash : String → String × List String
split_slash String.[] = ("", [])
split_slash (String.◌∷◌ c s) =
    let (word, words) = split_slash s in
    if nat_eq (code c) b'/' then ("", word ∷ words) else (String.◌∷◌ c word, words)

pub record TemplateRef : Type 0 where
  pub category : String
  pub name : String
  pub version : String

-- without a leading `v`
version_of : String → String
version_of String.[] = ""
version_of (String.◌∷◌ c s) = if nat_eq (code c) b'v' then s else String.◌∷◌ c s

module _ (repr : String → String) where
  invalid_ref : String → Outcome TemplateRef
  invalid_ref ref = err (
      value_error
        ("Invalid template reference " ++ repr ref ++ "; expected category/name/v{version}."))

  unfoldable pub template_of : String → String × List String → Outcome TemplateRef
  unfolding invalid_ref version_of
  template_of ref (category, name ∷ version_part ∷ []) =
      let version = version_of version_part in
      if category == "" || (name == "" || version == "")
      then invalid_ref ref
      else ok (record { category = category; name = name; version = version })
  template_of ref _ = invalid_ref ref

  unfoldable pub parse_template_ref : String → Outcome TemplateRef
  unfolding lstrip_slashes rstrip_slashes split_slash
  parse_template_ref ref = template_of ref (split_slash (rstrip_slashes (lstrip_slashes ref)))

-- the variables of the template
pub record Variables : Type 0 where
  pub question : String
  pub context : String
  pub instructions : String

abbrev pub Render : Type 0
Render = TemplateRef → Variables → Outcome String

pub record BuiltPrompt : Type 0 where
  pub system_prompt : Option String
  pub user_prompt : String

abbrev pub rendered : Outcome String → Outcome BuiltPrompt
rendered (ok s) = ok (record { system_prompt = none; user_prompt = s })
rendered (err e) = err e

module _ (repr : String → String) (render : Render) (rag_default_prompt_template : String) where
  abbrev build_from : Outcome TemplateRef → Variables → Outcome BuiltPrompt
  build_from (ok ref) variables = rendered (render ref variables)
  build_from (err e) variables = err e

  unfoldable pub build_prompt :
      String → String → Option String → Option String → Outcome BuiltPrompt
  build_prompt question context template_ref instructions =
      build_from (parse_template_ref repr (text_or template_ref rag_default_prompt_template))
        (record { question = question; context = context; instructions = text_or instructions "" })
