-- ===== src/Agent/Resolver/Sets.antt =====
-- The sets of step ids and the dictionaries that the resolver keeps.
use chatbot_react_python_nod.Prelude.{
  ◌≡◌, ◌⊎◌, refl, sym, ap, ◌∙◌, inl, inr, String, ◌==◌, true, false, not, none, some, List, [], ◌∷◌,
  if◌then◌else◌, Elem, Elem-select, is_empty, mem, mem_iff, select, Dict, lookup, insert,
  lookup-insert, eq_iff, Bool-cases, arith,
}
use chatbot_react_python_nod.Agent.Models.{PlannedStep}
use chatbot_react_python_nod.Agent.Resolver.{
  add, discard, to_set, at_key, index_from, pending_from, ready_ids, insert_sorted, sorted,
}

pub at_key-insert :
    (k j : String) (v : List String) (d : Dict (List String))
    → at_key j (insert k v d) ≡ (if k == j then v else at_key j d)
unfolding at_key
at_key-insert k j v d = elim (Bool-cases (k == j)) [
  | inl e ↦ rw (at_key, lookup-insert k j v d, e) refl
  | inr e ↦ rw (at_key, lookup-insert k j v d, e) refl
]

Elem-add : (x k : String) (s : List String) → (x ≡ k) ⊎ Elem x s → Elem x (add k s)
unfolding add
Elem-add x k s h = elim (Bool-cases (mem k s)) [
  | inl e ↦ rw e (elim h [ inl same ↦ rw same ((mem_iff k s).0 e) | inr old ↦ old ])
  | inr e ↦ rw e h
]

pub Elem-to_set : (x : String) (xs : List String) → Elem x xs → Elem x (to_set xs)
unfolding to_set
Elem-to_set x [] h = elim h [ ]
Elem-to_set x (y ∷ xs) (inl e) = Elem-add x y (to_set xs) (inl e)
Elem-to_set x (y ∷ xs) (inr h) = Elem-add x y (to_set xs) (inr (Elem-to_set x xs h))

pub Elem-discard : (x k : String) (s : List String) → Elem x s → (x ≡ k) ⊎ Elem x (discard k s)
unfolding discard
Elem-discard x k s h = elim (Bool-cases (x == k)) [
  | inl e ↦ inl ((eq_iff x k).0 e)
  | inr e ↦ inr ((Elem-select (λ y. not (y == k)) x s).1 (h, ap not e))
]

pub is_empty-discard :
    (k : String) (s : List String) → is_empty s ≡ true → is_empty (discard k s) ≡ true
unfolding discard select
is_empty-discard k [] h = refl
is_empty-discard k (x ∷ s) h = absurd cc

-- the steps by their ids, and what they wait for at first
pub record Indexed (all : List PlannedStep) (steps : Dict PlannedStep)
    (pending : Dict (List String)) : Type 0 where
  pub named : (id : String) (s : PlannedStep) → lookup id steps ≡ some s → s.step_id ≡ id
  pub given : (id : String) (s : PlannedStep) → lookup id steps ≡ some s → Elem s all
  pub waits :
      (id : String) (s : PlannedStep)
      → lookup id steps ≡ some s
      → (x : String) → Elem x s.depends_on
      → Elem x (at_key id pending)

module _ (all : List PlannedStep) where
  put-Indexed :
      (s : PlannedStep) (steps : Dict PlannedStep) (pending : Dict (List String))
      → Elem s all
      → Indexed all steps pending
      → Indexed all (insert s.step_id s steps) (insert s.step_id (to_set s.depends_on) pending)
  put-Indexed s steps pending here old = record {
    named = λ id t h. elim (cases id t h) [
      | inl (name, same) ↦ rw same name
      | inr (other, k) ↦ old.named id t k
    ];
    given = λ id t h. elim (cases id t h) [
      | inl (name, same) ↦ rw same here
      | inr (other, k) ↦ old.given id t k
    ];
    waits = λ id t h x dep. elim (cases id t h) [
      | inl (name, same) ↦
          let e : (s.step_id == id) ≡ true = (eq_iff s.step_id id).1 name in
          rw (at_key-insert s.step_id id (to_set s.depends_on) pending, e)
            (Elem-to_set x s.depends_on (let d : Elem x t.depends_on = dep in (rw same at d)))
      | inr (other, k) ↦
          rw (at_key-insert s.step_id id (to_set s.depends_on) pending, other)
            (old.waits id t k x dep)
    ];
  }
    where
      cases :
          (id : String) (t : PlannedStep)
          → lookup id (insert s.step_id s steps) ≡ some t
          → ((s.step_id ≡ id) × (t ≡ s))
            ⊎ (((s.step_id == id) ≡ false) × (lookup id steps ≡ some t))
      cases id t h = elim (Bool-cases (s.step_id == id)) [
        | inl e ↦
            let k = sym (lookup-insert s.step_id id s steps) ∙ h in
            let l : some s ≡ some t = (rw e at k) in inl ((eq_iff s.step_id id).0 e, cc)
        | inr e ↦ let k = sym (lookup-insert s.step_id id s steps) ∙ h in inr (e, (rw e at k))
      ]

  pub index-Indexed :
      (ss : List PlannedStep) (steps : Dict PlannedStep) (pending : Dict (List String))
      → ((s : PlannedStep) → Elem s ss → Elem s all)
      → Indexed all steps pending
      → Indexed all (index_from steps ss) (pending_from pending ss)
  unfolding index_from pending_from
  index-Indexed [] steps pending sub old = old
  index-Indexed (s ∷ ss) steps pending sub old =
      index-Indexed ss (insert s.step_id s steps) (insert s.step_id (to_set s.depends_on) pending)
        (λ t h. sub t (inr h)) (put-Indexed s steps pending (sub s (inl refl)) old)

  pub nothing-Indexed : Indexed all [] []
  unfolding lookup
  nothing-Indexed = record {
    named = λ id s h. absurd cc;
    given = λ id s h. absurd cc;
    waits = λ id s h. absurd cc;
  }

-- no key stands twice
abbrev pub IsDistinct : Dict (List String) → Type 0
IsDistinct [] = Unit
IsDistinct ((k, v) ∷ d) = (lookup k d ≡ none) × IsDistinct d

IsDistinct-insert :
    (k : String) (v : List String) (d : Dict (List String))
    → IsDistinct d
    → IsDistinct (insert k v d)
unfolding insert lookup
IsDistinct-insert k v [] h = (refl, tt)
IsDistinct-insert k v ((j, w) ∷ d) (fresh, rest) = elim (Bool-cases (j == k)) [
  | inl e ↦ rw e (fresh, rest)
  | inr e ↦
      let other : (k == j) ≡ false = ground (arith, eq_iff k j, eq_iff j k, e) in
      rw e ((rw (lookup-insert k j v d, other) fresh), IsDistinct-insert k v d rest)
]

pub pending_from-IsDistinct :
    (d : Dict (List String)) (ss : List PlannedStep) → IsDistinct d → IsDistinct (pending_from d ss)
unfolding pending_from
pending_from-IsDistinct d [] h = h
pending_from-IsDistinct d (s ∷ ss) h =
    pending_from-IsDistinct (insert s.step_id (to_set s.depends_on) d) ss
      (IsDistinct-insert s.step_id (to_set s.depends_on) d h)

-- a key that is ready has nothing pending
ready_ids-free :
    (d : Dict (List String)) (k : String)
    → IsDistinct d
    → Elem k (ready_ids d)
    → (s : List String) × (lookup k d ≡ some s) × (is_empty s ≡ true)
unfolding ready_ids lookup
ready_ids-free [] k h m = elim m [ ]
ready_ids-free ((j, s) ∷ d) k (fresh, rest) m = elim (Bool-cases (is_empty s)) [
  | inl e ↦
      elim (let g : Elem k (ready_ids ((j, s) ∷ d)) = m in
        let l : Elem k (j ∷ ready_ids d) = (rw (ready_ids, e) at g) in l) [
          | inl same ↦ (s, (rw ((eq_iff j k).1 (sym same)) refl), e)
          | inr more ↦ later (ready_ids-free d k rest more)
        ]
  | inr e ↦ later (
      ready_ids-free d k rest
        (let g : Elem k (ready_ids ((j, s) ∷ d)) = m in (rw (ready_ids, e) at g)))
]
  where
    later :
        ((t : List String) × (lookup k d ≡ some t) × (is_empty t ≡ true))
        → (t : List String) × (lookup k ((j, s) ∷ d) ≡ some t) × (is_empty t ≡ true)
    later (t, found, empty) = elim (Bool-cases (j == k)) [
      | inl e ↦
          let same : j ≡ k = (eq_iff j k).0 e in
          let gone : lookup k d ≡ none = (let g = fresh in (rw same at g)) in absurd cc
      | inr e ↦ (t, (rw e found), empty)
    ]

pub Elem-insert_sorted :
    (x a : String) (bs : List String) → Elem x (insert_sorted a bs) → (x ≡ a) ⊎ Elem x bs
unfolding insert_sorted
Elem-insert_sorted x a [] h = h
Elem-insert_sorted x a (b ∷ bs) h = ground (arith, Elem-insert_sorted x a bs)

pub Elem-sorted : (x : String) (as_ : List String) → Elem x (sorted as_) → Elem x as_
unfolding sorted
Elem-sorted x [] h = h
Elem-sorted x (a ∷ as_) h = elim (Elem-insert_sorted x a (sorted as_) h) [
  | inl e ↦ inl e
  | inr k ↦ inr (Elem-sorted x as_ k)
]

-- what is ready at first has nothing pending
pub pending-free :
    (ss : List PlannedStep) (k : String)
    → let pending = pending_from [] ss in
      Elem k (sorted (ready_ids pending)) → is_empty (at_key k pending) ≡ true
unfolding at_key
pending-free ss k h =
    let pending = pending_from [] ss in
    let (s, e, empty) =
      ready_ids-free pending k (pending_from-IsDistinct [] ss tt)
        (Elem-sorted k (ready_ids pending) h) in
    rw (at_key, e) empty
