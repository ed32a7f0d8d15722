-- ===== src/Tools/WebSearch/Bounded.antt =====
-- What the web search asks of its client.
use chatbot_react_python_nod.Prelude.{
  ℕ, ◌≤◌, String, ◌==◌, ◌≡◌, ◌≢◌, refl, true, false, Option, none, some, leb, strip, Option-cases,
  Bool-cases, inl, inr, ◌⊎◌, arith, tests, eq_iff,
}
use chatbot_react_python_nod.Json.{Json, null, bool, int, negative, float, str, arr, obj, Fields}
use chatbot_react_python_nod.Tools.Schema.{ToolExecutionContext, get_field}
use chatbot_react_python_nod.Tools.Executor.{Run, returned, failure}
use chatbot_react_python_nod.Tools.WebSearch.{
  Client, searched, results_wanted, query_of, web_search,
}

abbrev Wanted : ℕ → ℕ → Type 0
Wanted limit n = (1 ≤ n) × (n ≤ limit)

results_wanted-Wanted :
    (limit : ℕ) (o : Option Json) → 1 ≤ limit → Wanted limit (results_wanted limit o)
unfolding results_wanted
results_wanted-Wanted limit none h = (h, omega arith)
results_wanted-Wanted limit (some null) h = (h, omega arith)
results_wanted-Wanted limit (some (bool true)) h = (omega arith, omega arith)
results_wanted-Wanted limit (some (bool false)) h = (h, omega arith)
results_wanted-Wanted limit (some (int n)) h = elim (Bool-cases (leb 1 n)) [
  | inl e ↦ rw e (omega (tests, e), omega arith)
  | inr e ↦ rw e (h, omega arith)
]
results_wanted-Wanted limit (some (negative n)) h = (h, omega arith)
results_wanted-Wanted limit (some (float s)) h = (h, omega arith)
results_wanted-Wanted limit (some (str s)) h = (h, omega arith)
results_wanted-Wanted limit (some (arr xs)) h = (h, omega arith)
results_wanted-Wanted limit (some (obj fs)) h = (h, omega arith)

abbrev Query : Option Json → String → Type 0
Query o q = (s : String) × (o ≡ some (str s)) × (q ≡ strip s) × (q ≢ "")

query_of-Query : (o : Option Json) (q : String) → query_of o ≡ some q → Query o q
unfolding query_of
query_of-Query (some (str s)) q e = elim (Bool-cases (strip s == "")) [
  | inl blank ↦ absurd (let k = e in let l = (rw blank at k) in cc)
  | inr text ↦
      let k = e in
      let l = (rw text at k) in
      let same : q ≡ strip s = cc in
      (s, refl, same, λ empty. absurd (let t = (eq_iff (strip s) "").1 (cc) in cc))
]
query_of-Query none q e = absurd cc
query_of-Query (some null) q e = absurd cc
query_of-Query (some (bool b)) q e = absurd cc
query_of-Query (some (int n)) q e = absurd cc
query_of-Query (some (negative n)) q e = absurd cc
query_of-Query (some (float s)) q e = absurd cc
query_of-Query (some (arr xs)) q e = absurd cc
query_of-Query (some (obj fs)) q e = absurd cc

module _ {W : Type 0} (client : Client W) (limit : ℕ) where
  -- the one search that a run makes
  abbrev pub Searches : W → Fields → Run × W → Type 0
  Searches w arguments r =
      (q : String) × (n : ℕ) × Query (get_field "query" arguments) q
      × Wanted limit n
      × (r ≡ searched client limit (client q n w))

  abbrev pub Declines : W → Run × W → Type 0
  Declines w r =
      r ≡ (returned (failure "Search query must be a non-empty string" "validation_error"), w)

  -- With a limit of at least 1, whatever the arguments: the handler either asks the client once, for the
  -- given query without the blanks around it, which is not empty, and for at least 1 and at most the limit
  -- of results, or refuses the query and asks nothing.
  pub web_search_bounded :
      (w : W) (arguments : Fields) (context : ToolExecutionContext)
      → 1 ≤ limit
      → Searches w arguments (web_search client limit w arguments context)
        ⊎ Declines w (web_search client limit w arguments context)
  unfolding web_search
  web_search_bounded w arguments context h =
      elim (Option-cases (query_of (get_field "query" arguments))) [
        | inl e ↦ inr (rw (web_search, e) refl)
        | inr (q, e) ↦ inl (
          q,
          results_wanted limit (get_field "max_results" arguments),
          query_of-Query (get_field "query" arguments) q e,
          results_wanted-Wanted limit (get_field "max_results" arguments) h,
          rw (web_search, e) refl,
        )
      ]
