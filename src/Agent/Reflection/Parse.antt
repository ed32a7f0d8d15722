-- ===== src/Agent/Reflection/Parse.antt =====
-- Reading the model's reflection: `parse_reflection_response` of
-- backend-python/app/ai/agent/reflection/engine.py. `\b` and the letters' case are those of ASCII.
use Prim.Native.Char.{code}
use Prim.Native.String.{◌++◌}
use chatbot_react_python_nod.Prelude.{
  ℕ, String, ◌==◌, Bool, true, false, not, ◌&&◌, ◌||◌, Option, none, some, List, [], ◌∷◌,
  if◌then◌else◌, leb, nat_eq, codes, strip, lower,
}
use chatbot_react_python_nod.Agent.Models.{
  ReflectionDecision, replan, retry_step, continue_, finish,
}

-- a character at which `splitlines` splits
is_line_break : ℕ → Bool
is_line_break c =
    (leb 10 c && leb c 13)
    || (leb 28 c && leb c 30)
    || nat_eq c 0x85
    || (leb 0x2028 c && leb c 0x2029)

add_line : String → List String → List String
add_line s rest = if strip s == "" then rest else strip s ∷ rest

-- the lines of a text, stripped, and without the empty ones
lines_from : String → String → List String
unfolding is_line_break add_line
lines_from line String.[] = add_line line []
lines_from line (String.◌∷◌ c s) =
    if is_line_break (code c)
    then add_line line (lines_from "" s)
    else lines_from (line ++ String.◌∷◌ c "") s

unfoldable pub filled_lines : String → List String
unfolding lines_from strip
filled_lines s = lines_from "" (strip s)

is_word : ℕ → Bool
is_word c =
    (leb b'a' c && leb c b'z')
    || (leb b'A' c && leb c b'Z')
    || (leb b'0' c && leb c b'9')
    || nat_eq c b'_'

-- the rest of a text behind a word and a word boundary
word_at : List ℕ → List ℕ → Bool
unfolding is_word
word_at [] [] = true
word_at [] (c ∷ s) = not (is_word c)
word_at (w ∷ ws) [] = false
word_at (w ∷ ws) (c ∷ s) = nat_eq w c && word_at ws s

-- the decision whose word stands at the start of a text in lower case
decision_at : List ℕ → Option ReflectionDecision
unfolding word_at
decision_at s =
    if word_at (codes "replan") s
    then some replan
    else if word_at (codes "retry_step") s
    then some retry_step
    else if word_at (codes "continue") s
    then some continue_
    else if word_at (codes "finish") s
    then some finish
    else none

-- the first match, where `before` says whether a word character stands before the text
search_decision : Bool → List ℕ → Option ReflectionDecision
unfolding decision_at is_word
search_decision before [] = none
search_decision before (c ∷ s) =
    let rest = search_decision (is_word c) s in
    if before then rest else elim (decision_at (c ∷ s)) [ some d ↦ some d | none ↦ rest ]

decide_on : List String → ReflectionDecision × Option String
unfolding search_decision lower
decide_on [] = (continue_, none)
decide_on (first ∷ rest) = elim (search_decision false (lower first)) [
  | none ↦ (continue_, some first)
  | some d ↦ (d, some (elim rest [ [] ↦ first | second ∷ more ↦ second ]))
]

unfoldable pub parse_reflection_response : String → ReflectionDecision × Option String
unfolding decide_on filled_lines strip
parse_reflection_response content =
    if strip content == ""
    then (continue_, some "Empty reflection response.")
    else decide_on (filled_lines content)
