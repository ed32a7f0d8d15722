-- ===== src/Tools/WebSearch.antt =====
-- backend-python/app/ai/tools/implementations/web_search.py: the handler of the web search, and how the
-- answer of the search service becomes results. The client that speaks to the service is a parameter;
-- `render` is Python's `str` of a value that is no text.
pub mod Bounded
use chatbot_react_python_nod.Prelude.{
  ℕ, suc, min, String, ◌==◌, Bool, true, false, not, ◌||◌, Option, none, some, List, [], ◌∷◌,
  if◌then◌else◌, leb, strip, nat_eq,
}
use chatbot_react_python_nod.Json.{
  Json, null, bool, int, negative, float, str, arr, obj, Items, nil, cons, Fields, end, field,
}
use chatbot_react_python_nod.Tools.Schema.{ToolExecutionContext, Envelope, get_field}
use chatbot_react_python_nod.Tools.Executor.{Run, returned, cancelled, Handler, failure}

pub record WebSearchResult : Type 0 where
  pub title : String
  pub url : String
  pub snippet : String

-- how a search ends: with results, with `httpx.HTTPStatusError`, with another Exception, or cancelled
pub data Search : Type 0 where
  found : List WebSearchResult → Search
  http_status_error : Search
  failed : Search
  stopped : Search

-- `bool(value)`; the floats that are zero are those that `repr` writes so
unfoldable pub truthy : Json → Bool
truthy null = false
truthy (bool b) = b
truthy (int n) = not (nat_eq n 0)
truthy (negative n) = true
truthy (float s) = not (s == "0.0" || s == "-0.0")
truthy (str s) = not (s == "")
truthy (arr nil) = false
truthy (arr (cons x xs)) = true
truthy (obj end) = false
truthy (obj (field k v fs)) = true

-- `item.get(…) or otherwise`
unfoldable pub get_or : Option Json → Json → Json
get_or none otherwise = otherwise
get_or (some v) otherwise = if truthy v then v else otherwise

module _ (render : Json → String) where
  abbrev pub text_of : Json → String
  text_of (str s) = s
  text_of v = render v

  unfoldable pub result_of : Option Json → Option Json → Json → Option WebSearchResult
  result_of (some (str title)) (some (str url)) snippet =
      some (record { title = title; url = url; snippet = text_of snippet })
  result_of _ _ snippet = none

  -- one item of the results, if it is one
  unfoldable pub normalize_item : Json → Option WebSearchResult
  normalize_item (obj item) =
      result_of (get_field "title" item) (get_field "url" item)
        (get_or (get_field "content" item) (get_or (get_field "snippet" item) (str "")))
  normalize_item _ = none

  unfoldable pub normalize_items : Items → List WebSearchResult
  normalize_items nil = []
  normalize_items (cons item items) =
      let rest = normalize_items items in
      elim (normalize_item item) [ none ↦ rest | some r ↦ r ∷ rest ]

  unfoldable pub normalize_results : Option Json → List WebSearchResult
  normalize_results (some (arr items)) = normalize_items items
  normalize_results _ = []

  unfoldable pub normalize_tavily_results : Json → List WebSearchResult
  normalize_tavily_results (obj answer) = normalize_results (get_field "results" answer)
  normalize_tavily_results _ = []

-- the results in the data of the tool's answer
unfoldable pub results_items : List WebSearchResult → Items
results_items [] = nil
results_items (r ∷ rs) =
    cons
      (obj (
        field "title" (str r.title)
          (field "url" (str r.url) (field "snippet" (str r.snippet) end))))
      (results_items rs)

abbrev pub found_envelope : List WebSearchResult → Envelope
found_envelope rs = record {
  result = record {
    success = true;
    result = obj (field "results" (arr (results_items rs)) end);
    error = none;
    error_code = none;
  };
  metadata = [];
}

-- a number of at least 1 is taken up to the limit; True counts as 1
unfoldable pub results_wanted : ℕ → Option Json → ℕ
results_wanted limit (some (int n)) = if leb 1 n then min n limit else limit
results_wanted limit (some (bool true)) = min 1 limit
results_wanted limit _ = limit

-- the text to search for, if there is one
unfoldable pub query_of : Option Json → Option String
query_of (some (str s)) = if strip s == "" then none else some (strip s)
query_of _ = none

abbrev pub after_search : Search → Run
after_search (found rs) = returned (found_envelope rs)
after_search http_status_error =
    returned (failure "Web search provider returned an error" "provider_error")
after_search failed = returned (failure "Web search is temporarily unavailable" "provider_error")
after_search stopped = cancelled

abbrev pub Client : Type 0 → Type 0
Client W = String → ℕ → W → Search × W

module _ {W : Type 0} (client : Client W) (web_search_max_results : ℕ) where
  abbrev pub searched : Search × W → Run × W
  searched (s, w) = (after_search s, w)

  unfoldable pub web_search : Handler W
  web_search w arguments context = elim (query_of (get_field "query" arguments)) [
    | none ↦ (returned (failure "Search query must be a non-empty string" "validation_error"), w)
    | some query ↦
        searched (
          client query (results_wanted web_search_max_results (get_field "max_results" arguments))
            w)
  ]
