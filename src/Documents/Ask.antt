-- ===== src/Documents/Ask.antt =====
-- `Retriever` and `RAGService` of backend-python/app/ai/rag (retriever.py, service.py). The embeddings,
-- the vector store, the prompt templates and the language model are parameters that take and leave a
-- world; the measured times and the log lines are not kept.
pub mod Grounded
use Prim.Native.String.{◌++◌}
use chatbot_react_python_nod.Prelude.{
  ℕ, String, ◌==◌, Bool, true, false, Option, none, some, List, [], ◌∷◌, map, if◌then◌else◌,
}
use chatbot_react_python_nod.Agent.Models.{Role}
use chatbot_react_python_nod.Documents.Context.{ScoredChunk, BuiltContext, build}
use chatbot_react_python_nod.Documents.Prompt.{
  Fault, chat_service_error, Outcome, ok, err, text_or, Render, BuiltPrompt, build_prompt,
}

pub data ProviderName : Type 0 where
  openai gemini groq anthropic : ProviderName

abbrev pub ChatMessageSchema : Type 0
ChatMessageSchema = Role × String

pub record Settings : Type 0 where
  pub rag_top_k : ℕ
  pub rag_default_prompt_template : String
  pub rag_context_max_chars : ℕ
  pub default_temperature : String
  pub llm_provider : String
  pub api_key : ProviderName → Option String
  pub default_model : ProviderName → String

-- the services that are called; `embed_texts` gives the first vector, if there is one
pub record Services (W V : Type 0) : Type 0 where
  pub embed_texts : List String → W → Outcome (List V) × W
  pub similarity_search : V → ℕ → String → W → Outcome (List ScoredChunk) × W
  pub render : Render
  pub repr : String → String
  pub complete_chat :
      ProviderName → List ChatMessageSchema → String → String → W → Outcome (Option String) × W

pub record Question : Type 0 where
  pub user_id : String
  pub question : String
  pub prompt_template : Option String
  pub instructions : Option String
  pub top_k : Option ℕ
  pub temperature : Option String
  pub provider : Option String
  pub model : Option String

pub record RetrievedChunkMeta : Type 0 where
  pub chunk_id : String
  pub document_id : String
  pub chunk_index : ℕ
  pub score : String

pub record RagResponse : Type 0 where
  pub answer : String
  pub retrieved_chunks : List RetrievedChunkMeta
  pub truncated : Bool
  pub model : String
  pub provider : ProviderName

abbrev pub empty_corpus_message : String
empty_corpus_message = "I couldn't find any relevant documents to answer your question."

abbrev pub chunk_meta : ScoredChunk → RetrievedChunkMeta
chunk_meta c = record {
  chunk_id = c.chunk_id;
  document_id = c.document_id;
  chunk_index = c.chunk_index;
  score = c.score;
}

abbrev pub value_or {ℓ} : {A : Type ℓ} → Option A → A → A
value_or none a = a
value_or (some x) a = x

unfoldable pub provider_named : String → Option ProviderName
provider_named s =
    if s == "openai"
    then some openai
    else if s == "gemini"
    then some gemini
    else if s == "groq"
    then some groq
    else if s == "anthropic"
    then some anthropic
    else none

abbrev pub name_of : ProviderName → String
name_of openai = "openai"
name_of gemini = "gemini"
name_of groq = "groq"
name_of anthropic = "anthropic"

abbrev key_env_name : ProviderName → String
key_env_name openai = "OPENAI_API_KEY"
key_env_name gemini = "GEMINI_API_KEY"
key_env_name groq = "GROQ_API_KEY"
key_env_name anthropic = "ANTHROPIC_API_KEY"

unfoldable pub rag_messages : BuiltPrompt → List ChatMessageSchema
rag_messages p =
    let asked = (Role.user, p.user_prompt) ∷ [] in
    if text_or p.system_prompt "" == ""
    then asked
    else (Role.system, text_or p.system_prompt "") ∷ asked

module _ (W V : Type 0) (services : Services W V) (settings : Settings) where
  -- the first embedding is looked up
  abbrev search : ℕ → String → Outcome (List V) × W → Outcome (List ScoredChunk) × W
  search top_k user_id (ok [], w) = (ok [], w)
  search top_k user_id (ok (v ∷ vs), w) = services.similarity_search v top_k user_id w
  search top_k user_id (err e, w) = (err e, w)

  unfoldable pub retrieve : String → String → Option ℕ → W → Outcome (List ScoredChunk) × W
  retrieve question user_id top_k w =
      search (value_or top_k settings.rag_top_k) user_id (services.embed_texts (question ∷ []) w)

  unfoldable pub with_key : ProviderName → Option String → Outcome (ProviderName × String)
  with_key name model =
      if text_or (settings.api_key name) "" == ""
      then err (
          chat_service_error "validation_error"
            ("Provider '"
              ++ name_of name
              ++ "' is selected but "
              ++ key_env_name name
              ++ " is not set.")
            422)
      else ok (name, text_or model (settings.default_model name))

  unfoldable pub resolve_provider : Option String → Option String → Outcome (ProviderName × String)
  unfolding with_key
  resolve_provider provider model =
      let raw = text_or provider settings.llm_provider in
      elim (provider_named raw) [
        | none ↦ err (
            chat_service_error "validation_error"
              ("Unsupported provider '" ++ raw
                ++ "'. Supported providers: openai, gemini, groq, anthropic.")
              422)
        | some name ↦ with_key name model
      ]

  abbrev pub reply :
      ProviderName → String → BuiltContext → Outcome (Option String) × W → Outcome RagResponse × W
  reply name model context (ok content, w) = (
    ok (record {
      answer = text_or content "";
      retrieved_chunks = map chunk_meta context.included_chunks;
      truncated = context.truncated;
      model = model;
      provider = name;
    }),
    w,
  )
  reply name model context (err e, w) = (err e, w)

  abbrev pub complete :
      Question
      → ProviderName
      → String
      → BuiltContext
      → Outcome BuiltPrompt
      → W
      → Outcome RagResponse × W
  complete q name model context (ok prompt) w = reply name model context (
      services.complete_chat name (rag_messages prompt) model
        (value_or q.temperature settings.default_temperature) w)
  complete q name model context (err e) w = (err e, w)

  -- once the chunks are there
  unfoldable pub answer_from :
      Question → ProviderName → String → Outcome (List ScoredChunk) × W → Outcome RagResponse × W
  answer_from q name model (err e, w) = (err e, w)
  answer_from q name model (ok [], w) = (
    ok (record {
      answer = empty_corpus_message;
      retrieved_chunks = [];
      truncated = false;
      model = model;
      provider = name;
    }),
    w,
  )
  answer_from q name model (ok (c ∷ cs), w) =
      let context = build settings.rag_context_max_chars (c ∷ cs) none in
      complete q name model context
        (build_prompt services.repr services.render settings.rag_default_prompt_template q.question
          context.text q.prompt_template q.instructions)
        w

  abbrev pub ask_at : Question → Outcome (ProviderName × String) → W → Outcome RagResponse × W
  ask_at q (ok (name, model)) w = answer_from q name model (retrieve q.question q.user_id q.top_k w)
  ask_at q (err e) w = (err e, w)

  unfoldable pub ask : Question → W → Outcome RagResponse × W
  ask q w = ask_at q (resolve_provider q.provider q.model) w
