-- ===== src/Prelude/Texts/Words.antt =====
-- Splitting a text at its spaces and putting it together again.
use Prim.Native.Char.{Char, code}
use Prim.Native.String.{String, ◌++◌}
use Prim.Native.String.append
use text.Mathlib.TextLemmas.{append_assoc}
use mathlib.Core.Path.{◌≡◌, refl, sym, ap, ◌∙◌}
use mathlib.Core.Logic.{inl, inr}
use mathlib.Core.Bool.{true, false}
use mathlib.Core.List.{List, [], ◌∷◌}
use text.Mathlib.TextEquality.{Char-path}
use native.Mathlib.Omega.{arith}
use chatbot_react_python_nod.Prelude.Tests.{nat_eq, Bool-cases}
use chatbot_react_python_nod.Prelude.Lists.{All}
use chatbot_react_python_nod.Prelude.Texts.{concat, split_from, split_space, empty_append}

-- the words with a space after each but the last
abbrev pub spaced : List String → List String
spaced [] = []
spaced (w ∷ []) = w ∷ []
spaced (w ∷ v ∷ ws) = (w ++ " ") ∷ spaced (v ∷ ws)

front : (c : Char) (s : String) → String.◌∷◌ c "" ++ s ≡ String.◌∷◌ c s
front c s = append.cons c "" s ∙ ap (λ t. String.◌∷◌ c t) (append.nil s)

split-some : (w s : String) → (v : String) × (vs : List String) × (split_from w s ≡ v ∷ vs)
unfolding split_from
split-some w String.[] = (w, [], refl)
split-some w (String.◌∷◌ c s) = elim (Bool-cases (nat_eq (code c) 32)) [
  | inl space ↦ (w, split_from "" s, rw space refl)
  | inr letter ↦ let (v, vs, e) = split-some (w ++ String.◌∷◌ c "") s in (v, vs, rw letter e)
]

spaced-more :
    (w : String) (ws : List String)
    → ((v : String) × (vs : List String) × (ws ≡ v ∷ vs))
    → concat (spaced (w ∷ ws)) ≡ (w ++ " ") ++ concat (spaced ws)
unfolding concat
spaced-more w ws (v, vs, e) = rw e refl

abbrev first_char : Char → String → Char
first_char d String.[] = d
first_char d (String.◌∷◌ c s) = c

is_space_char : (c : Char) → nat_eq (code c) 32 ≡ true → " " ≡ String.◌∷◌ c ""
is_space_char c h =
    ap (λ d. String.◌∷◌ d "")
      (Char-path (first_char c " ") c (let e : code c ≡ 32 = ground (arith, h) in sym e))

-- a space between two texts, as a character of the second
space_front :
    (c : Char) (w s : String)
    → nat_eq (code c) 32 ≡ true
    → (w ++ " ") ++ ("" ++ s) ≡ w ++ String.◌∷◌ c s
space_front c w s h =
    append_assoc w " " ("" ++ s)
    ∙ ap (λ t. w ++ (" " ++ t)) (empty_append s)
    ∙ ap (λ t. w ++ (t ++ s)) (is_space_char c h)
    ∙ ap (λ t. w ++ t) (front c s)

letter_front : (c : Char) (w s : String) → (w ++ String.◌∷◌ c "") ++ s ≡ w ++ String.◌∷◌ c s
letter_front c w s = append_assoc w (String.◌∷◌ c "") s ∙ ap (λ t. w ++ t) (front c s)

spaced-split : (w s : String) → concat (spaced (split_from w s)) ≡ w ++ s
unfolding split_from concat
spaced-split w String.[] = refl
spaced-split w (String.◌∷◌ c s) = elim (Bool-cases (nat_eq (code c) 32)) [
  | inl space ↦ rw space (
      spaced-more w (split_from "" s) (split-some "" s)
      ∙ ap (λ t. (w ++ " ") ++ t) (spaced-split "" s)
      ∙ space_front c w s space)
  | inr letter ↦ rw letter (spaced-split (w ++ String.◌∷◌ c "") s ∙ letter_front c w s)
]

-- A text is its words, with a space after each but the last.
pub spaced-split_space : (s : String) → concat (spaced (split_space s)) ≡ s
unfolding split_space
spaced-split_space s = spaced-split "" s ∙ empty_append s

-- a text without a space
abbrev pub Unspaced : String → Type 0
Unspaced String.[] = Unit
Unspaced (String.◌∷◌ c s) = (nat_eq (code c) 32 ≡ false) × Unspaced s

-- Texts each of which but the last is a word and a space, and the last of which is a word.
abbrev pub Worded : List String → Type 0
Worded [] = Unit
Worded (t ∷ []) = Unspaced t
Worded (t ∷ u ∷ ts) = ((v : String) × (t ≡ v ++ " ") × Unspaced v) × Worded (u ∷ ts)

letter-Unspaced :
    (w : String) (c : Char)
    → Unspaced w
    → nat_eq (code c) 32 ≡ false
    → Unspaced (w ++ String.◌∷◌ c "")
letter-Unspaced String.[] c h k = rw (append.nil (String.◌∷◌ c "")) (k, tt)
letter-Unspaced (String.◌∷◌ d w) c (g, h) k =
    rw (append.cons d w (String.◌∷◌ c "")) (g, letter-Unspaced w c h k)

split-Unspaced : (w s : String) → Unspaced w → All Unspaced (split_from w s)
unfolding split_from
split-Unspaced w String.[] h = (h, tt)
split-Unspaced w (String.◌∷◌ c s) h = elim (Bool-cases (nat_eq (code c) 32)) [
  | inl space ↦ rw space (h, split-Unspaced "" s tt)
  | inr letter ↦ rw letter (split-Unspaced (w ++ String.◌∷◌ c "") s (letter-Unspaced w c h letter))
]

spaced-Worded : (ws : List String) → All Unspaced ws → Worded (spaced ws)
spaced-Worded [] h = tt
spaced-Worded (w ∷ []) (h, k) = h
spaced-Worded (w ∷ v ∷ []) (h, (k, l)) = ((w, refl, h), k)
spaced-Worded (w ∷ v ∷ u ∷ ws) (h, k) = ((w, refl, h), spaced-Worded (v ∷ u ∷ ws) k)

pub split_space-Worded : (s : String) → Worded (spaced (split_space s))
unfolding split_space
split_space-Worded s = spaced-Worded (split_from "" s) (split-Unspaced "" s tt)
