-- ===== src/Documents/Chunker.antt =====
-- `RecursiveChunker` of backend-python/app/ai/documents/chunkers/recursive.py. The loop runs on fuel,
-- and ends with none if it runs out; one pass more than the text has characters is enough.
-- `render` is Python's `str` of a value that is no text.
pub mod Pieces
pub mod Whole
use chatbot_react_python_nod.Prelude.{
  ℕ, zero, suc, ◌+◌, ◌-◌, min, max, String, Bool, true, false, Option, none, some, List, [], ◌∷◌,
  if◌then◌else◌, leb, ltb, length, is_empty, all, is_space, slice,
}
use chatbot_react_python_nod.Json.{Json, str, Fields}
use chatbot_react_python_nod.Tools.Schema.{get_field}
use chatbot_react_python_nod.Documents.Segments.{Span, split_segments, find_split_end}
use chatbot_react_python_nod.Documents.Pages.{PageSpan, page_spans, page_for_offset}

pub record ParsedDocument : Type 0 where
  pub text : List ℕ
  pub metadata : Fields

-- the index, the content, and the source and the page of the metadata
pub record DocumentChunk : Type 0 where
  pub chunk_index : ℕ
  pub content : List ℕ
  pub source : String
  pub page : Json

pub record Settings : Type 0 where
  pub chunk_size : ℕ
  pub chunk_overlap : ℕ

-- what the loop reads of the document
pub record Source : Type 0 where
  pub name : String
  pub spans : List PageSpan
  pub segments : List Span
  pub text : List ℕ

-- `not content.strip()`
abbrev pub is_blank_piece : List ℕ → Bool
is_blank_piece content = all is_space content

-- the end of the piece that begins at `start`
unfoldable pub end_from : Settings → Source → ℕ → ℕ
end_from settings d start =
    let end = min (start + settings.chunk_size) (length d.text) in
    if ltb end (length d.text) then find_split_end d.segments start end else end

-- where the piece after it begins
unfoldable pub start_after : Settings → ℕ → ℕ → ℕ
start_after settings start end =
    let next_start = end - settings.chunk_overlap in
    if leb next_start start then end else next_start

abbrev pub new_chunk : Source → ℕ → ℕ → ℕ → DocumentChunk
new_chunk d start end index = record {
  chunk_index = index;
  content = slice start end d.text;
  source = d.name;
  page = page_for_offset d.spans start;
}

-- a chunk in front of those of the rest
abbrev pub before : DocumentChunk → Option (List DocumentChunk) → Option (List DocumentChunk)
before c none = none
before c (some cs) = some (c ∷ cs)

unfoldable pub chunks_from : ℕ → Settings → Source → ℕ → ℕ → Option (List DocumentChunk)
chunks_from zero settings d start index = none
chunks_from (suc fuel) settings d start index =
    let end = end_from settings d start in
    let blank = is_blank_piece (slice start end d.text) in
    let next = if blank then max (start + 1) end else start_after settings start end in
    let rest = chunks_from fuel settings d next (if blank then index else suc index) in
    if ltb start (length d.text)
    then (if blank
        then (if leb (length d.text) end then some [] else rest)
        else (let c = new_chunk d start end index in
            if leb (length d.text) end then some (c ∷ []) else before c rest))
    else some []

abbrev source_of : (Json → String) → Option Json → String
source_of render none = ""
source_of render (some (str s)) = s
source_of render (some v) = render v

unfoldable pub chunk : (Json → String) → Settings → ParsedDocument → Option (List DocumentChunk)
chunk render settings document =
    let d : Source = record {
      name = source_of render (get_field "source" document.metadata);
      spans = page_spans document.metadata;
      segments = split_segments document.text;
      text = document.text;
    } in
    if is_empty document.text
    then some []
    else chunks_from (suc (length document.text)) settings d 0 0
