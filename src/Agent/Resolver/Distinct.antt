-- ===== src/Agent/Resolver/Distinct.antt =====
-- Nothing stands twice in the sets and the lists of ids that the resolver keeps.
use chatbot_react_python_nod.Prelude.{
  ◌≡◌, ◌⊎◌, refl, sym, inl, inr, String, ◌==◌, true, none, List, [], ◌∷◌, ◌++◌, Elem, Elem-append,
  is_empty, mem, mem_iff, Dict, lookup, insert, eq_iff, Bool-cases,
}
use chatbot_react_python_nod.Agent.Models.{PlannedStep}
use chatbot_react_python_nod.Agent.Resolver.{
  add, at_key, pending_from, no_dependents, add_dependents, dependents_from, ready_ids,
  insert_sorted, sorted, text_le,
}
use chatbot_react_python_nod.Agent.Resolver.Sets.{
  at_key-insert, Elem-insert_sorted, Elem-sorted, IsDistinct, pending_from-IsDistinct,
}

abbrev pub IsNodup : List String → Type 0
IsNodup [] = Unit
IsNodup (x ∷ xs) = (Elem x xs → ⊥) × IsNodup xs

IsNodup-insert_sorted :
    (a : String) (bs : List String) → (Elem a bs → ⊥) → IsNodup bs → IsNodup (insert_sorted a bs)
unfolding insert_sorted
IsNodup-insert_sorted a [] fresh h = ((λ k. k), tt)
IsNodup-insert_sorted a (b ∷ bs) fresh (out, h) =
    let rest = IsNodup-insert_sorted a bs (λ k. fresh (inr k)) h in
    elim (Bool-cases (text_le a b)) [
      | inl e ↦ rw e (fresh, (out, h))
      | inr e ↦ rw e (
        (λ k. elim (Elem-insert_sorted b a bs k) [
          | inl same ↦ fresh (inl (sym same))
          | inr old ↦ out old
        ]),
        rest,
      )
    ]

pub IsNodup-sorted : (as_ : List String) → IsNodup as_ → IsNodup (sorted as_)
unfolding sorted
IsNodup-sorted [] h = tt
IsNodup-sorted (a ∷ as_) (out, h) =
    IsNodup-insert_sorted a (sorted as_) (λ k. out (Elem-sorted a as_ k)) (IsNodup-sorted as_ h)

pub IsNodup-snoc :
    (xs : List String) (x : String) → IsNodup xs → (Elem x xs → ⊥) → IsNodup (xs ++ x ∷ [])
IsNodup-snoc [] x h fresh = ((λ k. k), tt)
IsNodup-snoc (y ∷ xs) x (out, h) fresh = (
  (λ k. elim (Elem-append y xs (x ∷ []) k) [
    | inl old ↦ out old
    | inr new ↦ elim new [ inl same ↦ fresh (inl (sym same)) | inr no_more ↦ no_more ]
  ]),
  IsNodup-snoc xs x h (λ k. fresh (inr k)),
)

-- the keys with an empty set
not_ready : (k : String) (d : Dict (List String)) → lookup k d ≡ none → Elem k (ready_ids d) → ⊥
unfolding lookup ready_ids
not_ready k [] h m = m
not_ready k ((j, s) ∷ d) h m = elim (Bool-cases (j == k)) [
  | inl e ↦ absurd (let g = h in let l = (rw (lookup, e) at g) in cc)
  | inr e ↦
      let later : Elem k (ready_ids d) → ⊥ = not_ready k d (let g = h in (rw (lookup, e) at g)) in
      elim (Bool-cases (is_empty s)) [
        | inl f ↦ elim (rest_of f m) [
          | inl same ↦ absurd (let g = (eq_iff j k).1 (sym same) in cc)
          | inr more ↦ later more
        ]
        | inr f ↦ later (let g = m in (rw (ready_ids, f) at g))
      ]
]
  where
    rest_of : is_empty s ≡ true → Elem k (ready_ids ((j, s) ∷ d)) → Elem k (j ∷ ready_ids d)
    rest_of f n = let g = n in (rw (ready_ids, f) at g)

IsNodup-ready_ids : (d : Dict (List String)) → IsDistinct d → IsNodup (ready_ids d)
unfolding ready_ids
IsNodup-ready_ids [] h = tt
IsNodup-ready_ids ((k, s) ∷ d) (fresh, h) =
    let rest = IsNodup-ready_ids d h in
    elim (Bool-cases (is_empty s)) [
      | inl e ↦ rw (ready_ids, e) ((not_ready k d fresh), rest)
      | inr e ↦ rw (ready_ids, e) rest
    ]

pub first_ready-IsNodup :
    (ss : List PlannedStep) → IsNodup (sorted (ready_ids (pending_from [] ss)))
first_ready-IsNodup ss =
    IsNodup-sorted (ready_ids (pending_from [] ss))
      (IsNodup-ready_ids (pending_from [] ss) (pending_from-IsDistinct [] ss tt))

IsNodup-add : (k : String) (s : List String) → IsNodup s → IsNodup (add k s)
unfolding add
IsNodup-add k s h = elim (Bool-cases (mem k s)) [
  | inl e ↦ rw e h
  | inr e ↦ rw e ((λ m. let f = (mem_iff k s).1 m in absurd cc), h)
]

Elem-add_inv : (x k : String) (s : List String) → Elem x (add k s) → (x ≡ k) ⊎ Elem x s
unfolding add
Elem-add_inv x k s h = elim (Bool-cases (mem k s)) [
  | inl e ↦ inr (let g = h in (rw (add, e) at g))
  | inr e ↦ let g : Elem x (add k s) = h in let l : Elem x (k ∷ s) = (rw (add, e) at g) in l
]

-- what the sets of dependents hold
abbrev pub Named : List PlannedStep → Dict (List String) → Type 0
Named ss d =
    (id x : String)
    → Elem x (at_key id d)
    → (s : PlannedStep) × Elem s ss × (s.step_id ≡ x) × Elem id s.depends_on

abbrev pub Sets : Dict (List String) → Type 0
Sets d = (id : String) → IsNodup (at_key id d)

module _ (s : PlannedStep) (all : List PlannedStep) (ours : Elem s all) where
  add_dependents-Named :
      (xs : List String) (d : Dict (List String))
      → ((x : String) → Elem x xs → Elem x s.depends_on)
      → Named all d
      → Named all (add_dependents s.step_id xs d)
  unfolding add_dependents
  add_dependents-Named [] d sub h = h
  add_dependents-Named (x ∷ xs) d sub h =
      add_dependents-Named xs (insert x (add s.step_id (at_key x d)) d) (λ y k. sub y (inr k))
        λ id y k. elim (Bool-cases (x == id)) [
          | inl e ↦
              let same : x ≡ id = (eq_iff x id).0 e in
              let g : Elem y (at_key id (insert x (add s.step_id (at_key x d)) d)) = k in
              let l : Elem y (add s.step_id (at_key x d)) =
                (rw (at_key-insert x id (add s.step_id (at_key x d)) d, e) at g) in
              elim (Elem-add_inv y s.step_id (at_key x d) l) [
                | inl name ↦ (s, ours, sym name, (rw (← same) (sub x (inl refl))))
                | inr old ↦ h id y (rw (← same) old)
              ]
          | inr e ↦
              let g : Elem y (at_key id (insert x (add s.step_id (at_key x d)) d)) = k in
              h id y (rw (at_key-insert x id (add s.step_id (at_key x d)) d, e) at g)
        ]

  add_dependents-Sets :
      (xs : List String) (d : Dict (List String)) → Sets d → Sets (add_dependents s.step_id xs d)
  unfolding add_dependents
  add_dependents-Sets [] d h = h
  add_dependents-Sets (x ∷ xs) d h =
      add_dependents-Sets xs (insert x (add s.step_id (at_key x d)) d) λ id.
        elim (Bool-cases (x == id)) [
          | inl e ↦
              rw (at_key-insert x id (add s.step_id (at_key x d)) d, e)
                (IsNodup-add s.step_id (at_key x d) (h x))
          | inr e ↦ rw (at_key-insert x id (add s.step_id (at_key x d)) d, e) (h id)
        ]

dependents_from-Named :
    (all ss : List PlannedStep) (d : Dict (List String))
    → ((s : PlannedStep) → Elem s ss → Elem s all)
    → Named all d
    → Named all (dependents_from ss d)
unfolding dependents_from
dependents_from-Named all [] d sub h = h
dependents_from-Named all (s ∷ ss) d sub h =
    dependents_from-Named all ss (add_dependents s.step_id s.depends_on d) (λ t k. sub t (inr k))
      (add_dependents-Named s all (sub s (inl refl)) s.depends_on d (λ x k. k) h)

dependents_from-Sets :
    (ss : List PlannedStep) (d : Dict (List String)) → Sets d → Sets (dependents_from ss d)
unfolding dependents_from
dependents_from-Sets [] d h = h
dependents_from-Sets (s ∷ ss) d h =
    dependents_from-Sets ss (add_dependents s.step_id s.depends_on d)
      (add_dependents-Sets s (s ∷ []) (inl refl) s.depends_on d h)

no_dependents-empty :
    (ss : List PlannedStep) (d : Dict (List String))
    → ((id : String) → at_key id d ≡ [])
    → (id : String) → at_key id (no_dependents d ss) ≡ []
unfolding no_dependents
no_dependents-empty [] d h id = h id
no_dependents-empty (s ∷ ss) d h id =
    no_dependents-empty ss (insert s.step_id [] d)
      (λ j. elim (Bool-cases (s.step_id == j)) [
        | inl e ↦ rw (at_key-insert s.step_id j [] d, e) refl
        | inr e ↦ rw (at_key-insert s.step_id j [] d, e) (h j)
      ])
      id

nothing_at : (id : String) → at_key id [] ≡ []
unfolding at_key lookup
nothing_at id = refl

-- the dependents of a plan's steps
pub all_dependents-Named :
    (ss : List PlannedStep) → Named ss (dependents_from ss (no_dependents [] ss))
all_dependents-Named ss =
    dependents_from-Named ss ss (no_dependents [] ss) (λ s k. k)
      λ id x k. absurd (
        let g : Elem x (at_key id (no_dependents [] ss)) = k in
        let l : Elem x [] = (rw (no_dependents-empty ss [] nothing_at id) at g) in l)

pub all_dependents-Sets : (ss : List PlannedStep) → Sets (dependents_from ss (no_dependents [] ss))
all_dependents-Sets ss =
    dependents_from-Sets ss (no_dependents [] ss)
      λ id. rw (no_dependents-empty ss [] nothing_at id) tt
