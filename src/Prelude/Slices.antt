-- ===== src/Prelude/Slices.antt =====
-- `xs[i]` and `xs[s:e]` of Python's sequences, for indices that are not negative.
use Prim.Native.Nat.{ℕ, zero, suc, ◌+◌, ◌-◌, ◌≤◌, ◌<◌}
use mathlib.Core.Path.{◌≡◌, refl, ap, ◌∙◌}
use mathlib.Core.Bool.{Bool, true}
use mathlib.Core.Option.{Option, none, some}
use mathlib.Core.List.{List, [], ◌∷◌}
use native.Mathlib.Omega.{arith}
use chatbot_react_python_nod.Prelude.Lists.{length, all}

module _ {ℓ} {A : Type ℓ} where
  unfoldable pub take : ℕ → List A → List A
  take zero xs = []
  take (suc n) [] = []
  take (suc n) (x ∷ xs) = x ∷ take n xs

  unfoldable pub drop : ℕ → List A → List A
  drop zero xs = xs
  drop (suc n) [] = []
  drop (suc n) (x ∷ xs) = drop n xs

  -- `xs[s:e]`
  unfoldable pub slice : ℕ → ℕ → List A → List A
  slice s e xs = take (e - s) (drop s xs)

  -- `xs[i]`, where none is an IndexError
  unfoldable pub get_elem? : List A → ℕ → Option A
  get_elem? [] i = none
  get_elem? (x ∷ xs) zero = some x
  get_elem? (x ∷ xs) (suc i) = get_elem? xs i

  length-drop : (s : ℕ) (xs : List A) → length (drop s xs) ≡ length xs - s
  unfolding drop
  length-drop zero xs = omega arith
  length-drop (suc n) [] = omega arith
  length-drop (suc n) (x ∷ xs) = omega (arith, length-drop n xs)

  pub length-take : (n : ℕ) (xs : List A) → n ≤ length xs → length (take n xs) ≡ n
  unfolding take
  length-take zero xs h = refl
  length-take (suc n) [] h = omega arith
  length-take (suc n) (x ∷ xs) h = omega (arith, length-take n xs (omega arith))

  pub length-slice : (s e : ℕ) (xs : List A) → e ≤ length xs → length (slice s e xs) ≡ e - s
  unfolding slice
  length-slice s e xs h = length-take (e - s) (drop s xs) (omega (arith, length-drop s xs))

  get_elem?-drop : (s i : ℕ) (xs : List A) → get_elem? (drop s xs) i ≡ get_elem? xs (s + i)
  unfolding get_elem? drop
  get_elem?-drop zero i xs = let e : i ≡ 0 + i = omega arith in ap (get_elem? xs) e
  get_elem?-drop (suc s) i [] = refl
  get_elem?-drop (suc s) i (x ∷ xs) =
      let e : suc (s + i) ≡ suc s + i = omega arith in
      get_elem?-drop s i xs ∙ ap (get_elem? (x ∷ xs)) e

  get_elem?-take : (n i : ℕ) (xs : List A) → i < n → get_elem? (take n xs) i ≡ get_elem? xs i
  unfolding get_elem? take
  get_elem?-take zero i xs h = absurd (omega (arith, h))
  get_elem?-take (suc n) i [] h = refl
  get_elem?-take (suc n) zero (x ∷ xs) h = refl
  get_elem?-take (suc n) (suc i) (x ∷ xs) h = get_elem?-take n i xs (omega arith)

  pub get_elem?-slice :
      (s e i : ℕ) (xs : List A) → i < e - s → get_elem? (slice s e xs) i ≡ get_elem? xs (s + i)
  unfolding slice
  get_elem?-slice s e i xs h = get_elem?-take (e - s) i (drop s xs) h ∙ get_elem?-drop s i xs

  pub get_elem?-all :
      (p : A → Bool) (xs : List A) (i : ℕ) (x : A)
      → all p xs ≡ true
      → get_elem? xs i ≡ some x
      → p x ≡ true
  unfolding get_elem? all
  get_elem?-all p [] i x h e = absurd cc
  get_elem?-all p (y ∷ xs) zero x h e = let same : y ≡ x = cc in rw (← same) (ground (arith, h))
  get_elem?-all p (y ∷ xs) (suc i) x h e = get_elem?-all p xs i x (ground (arith, h)) e
