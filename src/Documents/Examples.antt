-- ===== src/Documents/Examples.antt =====
-- The theorems on documents at small ones.
use chatbot_react_python_nod.Prelude.{
  ℕ, ◌+◌, ◌≡◌, refl, String, true, false, Option, none, some, List, [], ◌∷◌, codes, length, arith,
}
use chatbot_react_python_nod.Json.{Json, str, end, field}
use chatbot_react_python_nod.Documents.Chunker
use chatbot_react_python_nod.Documents.Chunker.{ParsedDocument, chunk}
use chatbot_react_python_nod.Documents.Chunker.Whole.{Chunked, chunk_whole}
use chatbot_react_python_nod.Documents.Context.{ScoredChunk, build}
use chatbot_react_python_nod.Documents.Context.Longest.{IsLongest, build-IsLongest}
use chatbot_react_python_nod.Documents.Prompt.{ok}
use chatbot_react_python_nod.Documents.Ask
use chatbot_react_python_nod.Documents.Ask.{
  Services, Question, RagResponse, ProviderName, chunk_meta, retrieve, ask,
}
use chatbot_react_python_nod.Documents.Ask.Grounded.{Rests, ask_grounded}

abbrev plain : Json → String
plain v = "?"

abbrev note : ParsedDocument
note = record { text = codes "One. Two.\n\nThree."; metadata = field "source" (str "note.txt") end }

abbrev small : Chunker.Settings
small = record { chunk_size = 8; chunk_overlap = 2 }

chunk_whole_example : Chunked plain small note (chunk plain small note)
chunk_whole_example = chunk_whole plain small note (omega arith)

abbrev first : ScoredChunk
first = record {
  chunk_id = "c1";
  document_id = "d1";
  chunk_index = 0;
  score = "0.9";
  content = "Antt is a checker.";
  metadata = field "source" (str "note.txt") end;
}

build-IsLongest_example :
    (n : ℕ) × IsLongest (first ∷ first ∷ []) 60 2 (build 8000 (first ∷ first ∷ []) (some 60)) n
build-IsLongest_example = build-IsLongest 8000 (first ∷ first ∷ []) (some 60)

-- a world that counts the calls of the model
abbrev services : Services ℕ ℕ
services = record {
  embed_texts = λ texts w. (ok (1 ∷ []), w);
  similarity_search = λ v k user w. (ok (first ∷ []), w);
  render = λ ref variables. ok variables.context;
  repr = λ s. s;
  complete_chat = λ name messages model temperature w. (ok (some "A checker."), w + 1);
}

abbrev settings : Ask.Settings
settings = record {
  rag_top_k = 5;
  rag_default_prompt_template = "rag/answer/v1";
  rag_context_max_chars = 8000;
  default_temperature = "0.7";
  llm_provider = "openai";
  api_key = λ name. some "key";
  default_model = λ name. "model-1";
}

abbrev question : Question
question = record {
  user_id = "u1";
  question = "What is antt?";
  prompt_template = none;
  instructions = none;
  top_k = none;
  temperature = none;
  provider = none;
  model = none;
}

abbrev response : RagResponse
response = record {
  answer = "A checker.";
  retrieved_chunks = chunk_meta first ∷ [];
  truncated = false;
  model = "model-1";
  provider = ProviderName.openai;
}

ask_grounded_example :
    Rests ℕ ℕ services settings question
      (retrieve ℕ ℕ services settings "What is antt?" "u1" none 0)
      response
      1
unfolding ask Ask.resolve_provider Ask.provider_named Ask.answer_from Ask.rag_messages Ask.with_key
    retrieve build chatbot_react_python_nod.Documents.Prompt.text_or
    chatbot_react_python_nod.Documents.Prompt.build_prompt
    chatbot_react_python_nod.Documents.Prompt.parse_template_ref
    chatbot_react_python_nod.Documents.Prompt.template_of
    chatbot_react_python_nod.Documents.Context.shrink
    chatbot_react_python_nod.Documents.Context.assemble
    chatbot_react_python_nod.Documents.Context.blocks_from
    chatbot_react_python_nod.Documents.Context.format_block
    chatbot_react_python_nod.Documents.Context.header_of chatbot_react_python_nod.Prelude.join
    chatbot_react_python_nod.Prelude.take chatbot_react_python_nod.Prelude.decimal
    chatbot_react_python_nod.Tools.Schema.get_field
ask_grounded_example = ask_grounded ℕ ℕ services settings question 0 response 1 refl
