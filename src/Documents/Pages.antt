-- ===== src/Documents/Pages.antt =====
-- `_page_spans` and `_page_for_offset` of backend-python/app/ai/documents/chunkers/recursive.py. A page
-- number is any `int` of the metadata, so a Boolean too; None is `null`.
use chatbot_react_python_nod.Prelude.{
  ℕ, ◌+◌, Bool, true, false, not, ◌&&◌, Option, none, some, List, [], ◌∷◌, if◌then◌else◌, leb, ltb,
  length, codes, is_empty,
}
use chatbot_react_python_nod.Json.{
  Json, null, bool, int, negative, str, arr, obj, Items, nil, cons, Fields,
}
use chatbot_react_python_nod.Tools.Schema.{get_field}

-- from, to and the number of a page
pub record PageSpan : Type 0 where
  pub from : ℕ
  pub to : ℕ
  pub page : Json

abbrev is_page_number : Json → Bool
is_page_number (int n) = true
is_page_number (negative n) = true
is_page_number (bool b) = true
is_page_number _ = false

-- the number and the text of a page's entry, if both are there and the text is not empty
unfoldable pub page_of : Option Json → Option Json → Option (Json × List ℕ)
page_of (some number) (some (str text)) =
    if is_page_number number && not (is_empty (codes text)) then some (number, codes text) else none
page_of _ _ = none

abbrev pub entry_page : Json → Option (Json × List ℕ)
entry_page (obj entry) = page_of (get_field "page" entry) (get_field "text" entry)
entry_page _ = none

abbrev is_last : Items → Bool
is_last nil = true
is_last (cons x xs) = false

-- two characters join a page with the next one
abbrev join_after : Items → ℕ
join_after rest = if is_last rest then 0 else 2

unfoldable pub spans_from : ℕ → Items → List PageSpan
spans_from offset nil = []
spans_from offset (cons entry rest) = elim (entry_page entry) [
  | none ↦ spans_from offset rest
  | some (number, text) ↦
      let end = offset + length text in
      record { from = offset; to = end; page = number } ∷ spans_from (end + join_after rest) rest
]

abbrev pages_of : Option Json → List PageSpan
pages_of (some (arr pages)) = spans_from 0 pages
pages_of _ = []

unfoldable pub page_spans : Fields → List PageSpan
page_spans metadata = pages_of (get_field "pages" metadata)

unfoldable pub page_for_offset : List PageSpan → ℕ → Json
page_for_offset [] offset = null
page_for_offset (p ∷ ps) offset =
    if leb p.from offset && ltb offset p.to then p.page else page_for_offset ps offset
