-- ===== src/Prelude/Lists.antt =====
-- Lists over the native numbers, and predicates on lists by recursion.
use Prim.Native.Nat.{ℕ, suc, ◌+◌}
use mathlib.Core.Path.{◌≡◌, refl, ap}
use mathlib.Core.Logic.{◌⊎◌, inl, inr, ◌↔◌}
use mathlib.Core.Bool.{Bool, true, false, ◌||◌, ◌&&◌}
use mathlib.Core.List.{List, [], ◌∷◌, ◌++◌}
use native.Mathlib.Omega.{arith}

module _ {ℓ} {A : Type ℓ} where
  abbrev pub length : List A → ℕ
  length [] = 0
  length (x ∷ xs) = suc (length xs)

  pub length-append : (xs ys : List A) → length (xs ++ ys) ≡ length xs + length ys
  length-append [] ys = omega arith
  length-append (x ∷ xs) ys = omega (arith, length-append xs ys)

  -- `not xs`
  abbrev pub is_empty : List A → Bool
  is_empty [] = true
  is_empty (x ∷ xs) = false

  -- `[x for x in xs if p(x)]`
  unfoldable pub select : (A → Bool) → List A → List A
  select p [] = []
  select p (x ∷ xs) = let rest = select p xs in elim (p x) [ true ↦ x ∷ rest | false ↦ rest ]

  -- `all(...)` and `any(...)`
  unfoldable pub all : (A → Bool) → List A → Bool
  all p [] = true
  all p (x ∷ xs) = p x && all p xs

  unfoldable pub any : (A → Bool) → List A → Bool
  any p [] = false
  any p (x ∷ xs) = p x || any p xs

module _ {ℓ κ} {A : Type ℓ} (P : A → Type κ) where
  abbrev pub All : List A → Type κ
  All [] = Unit
  All (x ∷ xs) = P x × All xs

module _ {ℓ κ} {A : Type ℓ} (P : A → Type κ) where
  pub All-append : (xs ys : List A) → All P xs → All P ys → All P (xs ++ ys)
  All-append [] ys h k = k
  All-append (x ∷ xs) ys h k = (h.0, All-append xs ys h.1 k)

-- membership, by recursion
module _ {A : Type 0} where
  abbrev pub Elem : A → List A → Type 0
  Elem a [] = ⊥
  Elem a (x ∷ xs) = (a ≡ x) ⊎ Elem a xs

  pub Elem-append_left : (a : A) (xs ys : List A) → Elem a xs → Elem a (xs ++ ys)
  Elem-append_left a [] ys h = elim h [ ]
  Elem-append_left a (x ∷ xs) ys (inl e) = inl e
  Elem-append_left a (x ∷ xs) ys (inr h) = inr (Elem-append_left a xs ys h)

  pub Elem-append_right : (a : A) (xs ys : List A) → Elem a ys → Elem a (xs ++ ys)
  Elem-append_right a [] ys h = h
  Elem-append_right a (x ∷ xs) ys h = inr (Elem-append_right a xs ys h)

  pub Elem-append : (a : A) (xs ys : List A) → Elem a (xs ++ ys) → Elem a xs ⊎ Elem a ys
  Elem-append a [] ys h = inr h
  Elem-append a (x ∷ xs) ys (inl e) = inl (inl e)
  Elem-append a (x ∷ xs) ys (inr h) = elim (Elem-append a xs ys h) [
    | inl l ↦ inl (inr l)
    | inr r ↦ inr r
  ]

  Elem-select_in : (p : A → Bool) (a : A) (xs : List A) → Elem a (select p xs) → Elem a xs
  unfolding select
  Elem-select_in p a [] h = elim h [ ]
  Elem-select_in p a (x ∷ xs) h = ground (arith, Elem-select_in p a xs)

  Elem-select_test : (p : A → Bool) (a : A) (xs : List A) → Elem a (select p xs) → p a ≡ true
  unfolding select
  Elem-select_test p a [] h = elim h [ ]
  Elem-select_test p a (x ∷ xs) h = ground (arith, Elem-select_test p a xs)

  Elem-select_keep :
      (p : A → Bool) (a : A) (xs : List A) → Elem a xs → p a ≡ true → Elem a (select p xs)
  unfolding select
  Elem-select_keep p a [] h t = elim h [ ]
  Elem-select_keep p a (x ∷ xs) h t = ground (arith, Elem-select_keep p a xs)

  -- `select` keeps exactly the elements that pass the test
  pub Elem-select :
      (p : A → Bool) (a : A) (xs : List A) → Elem a (select p xs) ↔ (Elem a xs × (p a ≡ true))
  Elem-select p a xs = (
    (λ h. (Elem-select_in p a xs h, Elem-select_test p a xs h)),
    λ h. Elem-select_keep p a xs h.0 h.1,
  )

module _ {A : Type 0} where
  pub select-append :
      (p : A → Bool) (xs ys : List A) → select p (xs ++ ys) ≡ select p xs ++ select p ys
  unfolding select
  select-append p [] ys = refl
  select-append p (x ∷ xs) ys = step (p x) (select-append p xs ys)
    where
      step :
          (b : Bool)
          → select p (xs ++ ys) ≡ select p xs ++ select p ys
          → (elim b [ true ↦ x ∷ select p (xs ++ ys) | false ↦ select p (xs ++ ys) ])
            ≡ (elim b [ true ↦ x ∷ select p xs | false ↦ select p xs ]) ++ select p ys
      step true ih = ap (λ r. x ∷ r) ih
      step false ih = ih
