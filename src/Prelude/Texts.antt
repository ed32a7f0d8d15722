-- ===== src/Prelude/Texts.antt =====
-- Texts as the source's `str`: membership in lists of texts, and Python's `strip`, `lower`, `in`,
-- `split(" ")`, `"".join` and the decimal form of a number. `lower` gives code points; it is
-- Python's on ASCII.
pub mod Words
pub mod Within
use text.Mathlib.TextBridge.{to_list, of_list-to_list, of_list-++}
use mathlib.Core.Path.{◌≡◌, sym, ap, ◌∙◌}
use Prim.Native.Nat.{ℕ, zero, suc, ◌+◌, ◌/◌, ◌%◌}
use Prim.Native.Char.{code}
use Prim.Native.String.{String, ◌++◌}
use text.Mathlib.Text.{◌==◌}
use text.Mathlib.TextEquality.{eq_iff}
use mathlib.Core.Path.{◌≡◌, refl}
use mathlib.Core.Logic.{inl, inr, ◌↔◌}
use mathlib.Core.Bool.{Bool, true, false, ◌||◌, ◌&&◌}
use mathlib.Core.List.{List, [], ◌∷◌}
use native.Mathlib.Omega.{arith}
use chatbot_react_python_nod.Prelude.Tests.{ltb, leb, nat_eq, if◌then◌else◌, Bool-cases}
use chatbot_react_python_nod.Prelude.Lists.{Elem}

-- `x in xs` on a list or set of texts
unfoldable pub mem : String → List String → Bool
mem k [] = false
mem k (x ∷ xs) = k == x || mem k xs

-- The code points of a text.
abbrev pub codes : String → List ℕ
codes String.[] = []
codes (String.◌∷◌ c s) = code c ∷ codes s

-- `str.isspace` of one character, as `strip` uses it
unfoldable pub is_space : ℕ → Bool
is_space c =
    (leb 9 c && leb c 13)
    || (leb 28 c && leb c 32)
    || nat_eq c 0x85
    || nat_eq c 0xa0
    || nat_eq c 0x1680
    || (leb 0x2000 c && leb c 0x200a)
    || (leb 0x2028 c && leb c 0x2029)
    || nat_eq c 0x202f
    || nat_eq c 0x205f
    || nat_eq c 0x3000

strip_left : String → String
strip_left String.[] = ""
strip_left (String.◌∷◌ c s) =
    let rest = strip_left s in if is_space (code c) then rest else String.◌∷◌ c s

strip_right : String → String
strip_right String.[] = ""
strip_right (String.◌∷◌ c s) =
    let rest = strip_right s in if is_space (code c) && rest == "" then "" else String.◌∷◌ c rest

unfoldable pub strip : String → String
unfolding strip_left strip_right is_space
strip s = strip_right (strip_left s)

lower_code : ℕ → ℕ
lower_code c = if leb b'A' c && leb c b'Z' then c + 32 else c

unfoldable pub lower : String → List ℕ
unfolding lower_code
lower String.[] = []
lower (String.◌∷◌ c s) = lower_code (code c) ∷ lower s

begins : List ℕ → List ℕ → Bool
begins [] s = true
begins (c ∷ p) [] = false
begins (c ∷ p) (d ∷ s) = nat_eq c d && begins p s

-- `p in s`
unfoldable pub occurs : List ℕ → List ℕ → Bool
unfolding begins
occurs p [] = begins p []
occurs p (c ∷ s) = begins p (c ∷ s) || occurs p s

split_from : String → String → List String
split_from word String.[] = word ∷ []
split_from word (String.◌∷◌ c s) =
    if nat_eq (code c) 32 then word ∷ split_from "" s else split_from (word ++ String.◌∷◌ c "") s

-- `s.split(" ")`
unfoldable pub split_space : String → List String
unfolding split_from
split_space s = split_from "" s

-- `"".join(parts)`
unfoldable pub concat : List String → String
concat [] = ""
concat (s ∷ r) = s ++ concat r

-- `sep.join(parts)`
unfoldable pub join : String → List String → String
join sep [] = ""
join sep (s ∷ []) = s
join sep (s ∷ t ∷ r) = s ++ sep ++ join sep (t ∷ r)

digit : ℕ → String
digit zero = "0"
digit (suc zero) = "1"
digit (suc (suc zero)) = "2"
digit (suc (suc (suc zero))) = "3"
digit (suc (suc (suc (suc zero)))) = "4"
digit (suc (suc (suc (suc (suc zero))))) = "5"
digit (suc (suc (suc (suc (suc (suc zero)))))) = "6"
digit (suc (suc (suc (suc (suc (suc (suc zero))))))) = "7"
digit (suc (suc (suc (suc (suc (suc (suc (suc zero)))))))) = "8"
digit _ = "9"

digits_of : ℕ → ℕ → String → String
digits_of zero n acc = acc
digits_of (suc f) n acc =
    let rest = digits_of f (n / 10) (digit (n % 10) ++ acc) in
    if ltb n 10 then digit n ++ acc else rest

-- `str(n)`; a number has at most `n + 1` digits
unfoldable pub decimal : ℕ → String
unfolding digits_of digit
decimal n = digits_of (suc n) n ""

-- the empty text in front
pub empty_append : (s : String) → "" ++ s ≡ s
empty_append s =
    ap (λ t. "" ++ t) (sym (of_list-to_list s))
    ∙ sym (of_list-++ [] (to_list s))
    ∙ of_list-to_list s

mem-in : (k : String) (ks : List String) → mem k ks ≡ true → Elem k ks
unfolding mem
mem-in k [] h = absurd cc
mem-in k (x ∷ ks) h = elim (Bool-cases (k == x)) [
  | inl same ↦ inl ((eq_iff k x).0 same)
  | inr other ↦ inr (mem-in k ks (ground (arith, h, other)))
]

in-mem : (k : String) (ks : List String) → Elem k ks → mem k ks ≡ true
unfolding mem
in-mem k [] h = elim h [ ]
in-mem k (x ∷ ks) (inl e) = rw ((eq_iff k x).1 e) refl
in-mem k (x ∷ ks) (inr h) = ground (arith, in-mem k ks h)

-- `mem` is membership
pub mem_iff : (k : String) (ks : List String) → (mem k ks ≡ true) ↔ Elem k ks
mem_iff k ks = (mem-in k ks, in-mem k ks)
