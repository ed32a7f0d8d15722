-- ===== src/Documents/Context.antt =====
-- `ContextBuilder` of backend-python/app/ai/rag/context_builder.py. The length of a text is its number of
-- code points. The list that the loop pops is held by how many of the chunks it still has.
pub mod Longest
use Prim.Native.String.{◌++◌}
use chatbot_react_python_nod.Prelude.{
  ℕ, zero, suc, ◌+◌, String, ◌==◌, Bool, true, false, not, ◌||◌, Option, none, some, List, [], ◌∷◌,
  if◌then◌else◌, leb, ltb, length, codes, is_empty, join, decimal, take,
}
use chatbot_react_python_nod.Json.{Json, str, Fields}
use chatbot_react_python_nod.Tools.Schema.{get_field}

-- the score, a float, is carried as its text
pub record ScoredChunk : Type 0 where
  pub chunk_id : String
  pub document_id : String
  pub chunk_index : ℕ
  pub score : String
  pub content : String
  pub metadata : Fields

pub record BuiltContext : Type 0 where
  pub text : String
  pub included_chunks : List ScoredChunk
  pub truncated : Bool

-- the heading of a block, with the source if it is a text that is not empty
unfoldable pub header_of : ℕ → Option Json → String
header_of index (some (str source)) =
    let plain = "[" ++ decimal index ++ "]" in
    if source == "" then plain else plain ++ " (source: " ++ source ++ ")"
header_of index _ = "[" ++ decimal index ++ "]"

unfoldable pub format_block : ℕ → ScoredChunk → String
format_block index c = header_of index (get_field "source" c.metadata) ++ "\n" ++ c.content

unfoldable pub blocks_from : ℕ → List ScoredChunk → List String
blocks_from index [] = []
blocks_from index (c ∷ cs) = format_block index c ∷ blocks_from (suc index) cs

unfoldable pub assemble : List ScoredChunk → String
assemble cs = join "\n\n" (blocks_from 1 cs)

-- `len(text)`
abbrev pub text_length : String → ℕ
text_length s = length (codes s)

-- the loop, with the first `n` of the chunks included
unfoldable pub shrink : List ScoredChunk → ℕ → Bool → ℕ → BuiltContext
shrink chunks budget dropped zero = record { text = ""; included_chunks = []; truncated = true }
shrink chunks budget dropped (suc n) =
    let included = take (suc n) chunks in
    let text = assemble included in
    let rest = shrink chunks budget true n in
    if leb (text_length text) budget
    then record {
      text = text;
      included_chunks = included;
      truncated = dropped || ltb (length included) (length chunks);
    }
    else rest

abbrev pub budget_of : ℕ → Option ℕ → ℕ
budget_of rag_context_max_chars none = rag_context_max_chars
budget_of rag_context_max_chars (some max_chars) = max_chars

unfoldable pub build : ℕ → List ScoredChunk → Option ℕ → BuiltContext
build rag_context_max_chars chunks max_chars =
    if is_empty chunks
    then record { text = ""; included_chunks = []; truncated = false }
    else shrink chunks (budget_of rag_context_max_chars max_chars) false (length chunks)
