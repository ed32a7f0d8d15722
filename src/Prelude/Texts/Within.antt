-- ===== src/Prelude/Texts/Within.antt =====
-- `p in s` as a text that stands between two others.
use mathlib.Core.Path.{◌≡◌, refl, ap}
use mathlib.Core.Logic.{inl, inr}
use mathlib.Core.Bool.{true}
use mathlib.Core.List.{List, [], ◌∷◌, ◌++◌}
use Prim.Native.Nat.{ℕ}
use native.Mathlib.Omega.{arith}
use chatbot_react_python_nod.Prelude.Tests.{Bool-cases}
use chatbot_react_python_nod.Prelude.Texts.{begins, occurs}

-- a text and one that stands in it
abbrev pub Within : List ℕ → List ℕ → Type 0
Within p s = (before : List ℕ) × (after : List ℕ) × (s ≡ before ++ (p ++ after))

begins_front : (p s : List ℕ) → begins p s ≡ true → (after : List ℕ) × (s ≡ p ++ after)
unfolding begins
begins_front [] s h = (s, refl)
begins_front (c ∷ p) [] h = absurd cc
begins_front (c ∷ p) (d ∷ s) h =
    let (after, e) = begins_front p s (ground (arith, h)) in
    let same : d ≡ c = ground (arith, h) in (after, rw (same, ← e) refl)

begins-append : (p after : List ℕ) → begins p (p ++ after) ≡ true
unfolding begins
begins-append [] after = refl
begins-append (c ∷ p) after = ground (arith, begins-append p after)

begins-occurs : (p s : List ℕ) → begins p s ≡ true → occurs p s ≡ true
unfolding occurs
begins-occurs p [] h = h
begins-occurs p (c ∷ s) h = rw h refl

pub occurs-Within : (p s : List ℕ) → occurs p s ≡ true → Within p s
unfolding occurs
occurs-Within p [] h = let (after, f) = begins_front p [] h in ([], after, f)
occurs-Within p (c ∷ s) h = elim (Bool-cases (begins p (c ∷ s))) [
  | inl e ↦ let (after, f) = begins_front p (c ∷ s) e in ([], after, f)
  | inr e ↦
      let k = h in
      let (before, after, f) = occurs-Within p s (rw e at k) in
      (c ∷ before, after, ap (λ t. c ∷ t) f)
]

pub Within-occurs : (p before after : List ℕ) → occurs p (before ++ (p ++ after)) ≡ true
unfolding occurs
Within-occurs p [] after = begins-occurs p (p ++ after) (begins-append p after)
Within-occurs p (c ∷ before) after = ground (arith, Within-occurs p before after)
