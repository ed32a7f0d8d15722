-- ===== src/Documents/Segments.antt =====
-- `_split_segments` and `_find_split_end` of backend-python/app/ai/documents/chunkers/recursive.py. A
-- text is the list of its code points. The scanner matches the pattern `\n\n+|\n|(?<=[.!?])\s+`: at a
-- line feed it takes the run of line feeds, and at white space after `.`, `!` or `?` the run of white
-- space.
use chatbot_react_python_nod.Prelude.{
  ℕ, suc, ◌≤◌, ◌<◌, Bool, true, false, not, ◌&&◌, ◌||◌, List, [], ◌∷◌, if◌then◌else◌, leb, ltb,
  nat_eq, is_space, arith,
}

-- from and to: the text between two matches
abbrev pub Span : Type 0
Span = ℕ × ℕ

unfoldable pub ends_sentence : ℕ → Bool
ends_sentence c = nat_eq c b'.' || nat_eq c b'!' || nat_eq c b'?'

-- where the scanner is: between matches, after the character before, or in a run of one of the kinds
pub data Mode : Type 0 where
  outside : ℕ → Mode
  in_lines : Mode
  in_spaces : Mode

-- does the character go on with the match?
unfoldable pub goes_on : Mode → ℕ → Bool
goes_on (outside p) c = false
goes_on in_lines c = nat_eq c 10
goes_on in_spaces c = is_space c

-- the match that begins at the character, if one does
unfoldable pub begins_match : Mode → ℕ → Mode
begins_match (outside p) c =
    if nat_eq c 10 then in_lines else if ends_sentence p && is_space c then in_spaces else outside c
begins_match _ c = outside c

abbrev pub in_match : Mode → Bool
in_match (outside p) = false
in_match _ = true

-- the segments from the position on, where the one under way begins at the cursor
unfoldable pub scan : Mode → ℕ → ℕ → List ℕ → List Span
scan mode cursor position [] = (if in_match mode then position else cursor, position) ∷ []
scan mode cursor position (c ∷ text) =
    let on = goes_on mode c in
    let from = if not on && in_match mode then position else cursor in
    let next = if on then mode else begins_match mode c in
    let rest = scan next from (suc position) text in
    if not on && in_match next then (from, position) ∷ rest else rest

unfoldable pub split_segments : List ℕ → List Span
split_segments text = scan (outside 0) 0 0 text

-- the loop over the segments, with the best end so far
unfoldable pub best_end : ℕ → ℕ → ℕ → List Span → ℕ
best_end best start budget_end [] = best
best_end best start budget_end ((seg_start, seg_end) ∷ segments) =
    let fits = not (leb seg_end start) && (ltb start seg_start && leb seg_end budget_end) in
    let rest = best_end (if fits then seg_end else best) start budget_end segments in
    if not (leb seg_end start) && leb budget_end seg_start then best else rest

unfoldable pub find_split_end : List Span → ℕ → ℕ → ℕ
find_split_end segments start budget_end = best_end budget_end start budget_end segments

best_end-between :
    (best start budget_end : ℕ) (segments : List Span)
    → start < best
    → best ≤ budget_end
    → (start < best_end best start budget_end segments)
      × (best_end best start budget_end segments ≤ budget_end)
unfolding best_end
best_end-between best start budget_end [] h k = (h, k)
best_end-between best start budget_end ((s, e) ∷ segments) h k =
    let fits = not (leb e start) && (ltb start s && leb e budget_end) in
    let (low, high) : (start < (if fits then e else best))
        × ((if fits then e else best) ≤ budget_end) =
      ground (arith, h, k) in
    let rest = best_end-between (if fits then e else best) start budget_end segments low high in
    ground (arith, h, k, rest)

-- a split end lies after the start, and not after the budget
pub find_split_end-between :
    (segments : List Span) (start budget_end : ℕ)
    → start < budget_end
    → (start < find_split_end segments start budget_end)
      × (find_split_end segments start budget_end ≤ budget_end)
unfolding find_split_end
find_split_end-between segments start budget_end h =
    best_end-between budget_end start budget_end segments h (omega arith)
