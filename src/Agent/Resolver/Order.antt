-- ===== src/Agent/Resolver/Order.antt =====
-- The order of the batches, and how the resolver ends.
use mathlib.Core.Path.{subst}
use chatbot_react_python_nod.Prelude.{
  ℕ, zero, suc, ◌≡◌, refl, inl, inr, ◌⊎◌, String, true, none, some, List, [], ◌∷◌, ◌++◌, map, All,
  Elem, Elem-append, Elem-append_left, Elem-append_right, is_empty, select, length, nat_eq, Dict,
  lookup, Bool-cases, Option-cases, arith,
}
use chatbot_react_python_nod.Agent.Models.{PlannedStep}
use chatbot_react_python_nod.Agent.Exn.{ok, err, agent_error}
use chatbot_react_python_nod.Agent.Resolver.{
  is_tool_step, at_key, index_from, pending_from, unknown_in, first_unknown, unknown_message,
  ready_ids, sorted, visit, pick, levels, visited, run_levels, resolve_step_batches,
  dependents_from, no_dependents,
}
use chatbot_react_python_nod.Agent.Resolver.Ends.{run_levels-ends}
use chatbot_react_python_nod.Agent.Resolver.Rounds.{Waits, Freed, visit-Invariant}
use chatbot_react_python_nod.Agent.Resolver.Sets.{index-Indexed, nothing-Indexed, pending-free}

abbrev pub id_of : PlannedStep → String
id_of s = s.step_id

-- Each step is one of the plan's, and each of its dependencies names a step of an earlier batch.
abbrev pub IsOrdered : List PlannedStep → List String → List (List PlannedStep) → Type 0
IsOrdered all seen [] = Unit
IsOrdered all seen (b ∷ bs) =
    All (λ (s : PlannedStep). Elem s all × All (λ (x : String). Elem x seen) s.depends_on) b
    × IsOrdered all (seen ++ map id_of b) bs

All-of {ℓ} : {A : Type 0} (P : A → Type ℓ) (xs : List A) → ((x : A) → Elem x xs → P x) → All P xs
All-of P [] h = tt
All-of P (x ∷ xs) h = (h x (inl refl), All-of P xs (λ y k. h y (inr k)))

All-at {ℓ} : {A : Type 0} (P : A → Type ℓ) (x : A) (xs : List A) → All P xs → Elem x xs → P x
All-at P x [] h k = elim k [ ]
All-at P x (y ∷ xs) h (inl e) = rw e h.0
All-at P x (y ∷ xs) h (inr k) = All-at P x xs h.1 k

no-Elem : (x : String) (s : List String) → is_empty s ≡ true → Elem x s → ⊥
no-Elem x [] e h = h
no-Elem x (y ∷ s) e h = let k = e in absurd cc

-- with no unknown dependency, each one is found
known_in :
    (d : Dict PlannedStep) (xs : List String)
    → unknown_in d xs ≡ none
    → (x : String) → Elem x xs
    → (s : PlannedStep) × (lookup x d ≡ some s)
unfolding unknown_in
known_in d [] h x k = elim k [ ]
known_in d (y ∷ xs) h x k = elim (Option-cases (lookup y d)) [
  | inl e ↦ absurd (let g = h in let l = (rw (unknown_in, e) at g) in cc)
  | inr (s, e) ↦ elim k [
    | inl same ↦ (s, (rw same e))
    | inr rest ↦ known_in d xs (let g = h in (rw (unknown_in, e) at g)) x rest
  ]
]

known :
    (d : Dict PlannedStep) (ss : List PlannedStep)
    → first_unknown d ss ≡ none
    → (t : PlannedStep) → Elem t ss
    → (x : String) → Elem x t.depends_on
    → (s : PlannedStep) × (lookup x d ≡ some s)
unfolding first_unknown
known d [] h t k x dep = elim k [ ]
known d (y ∷ ss) h t k x dep = elim (Option-cases (unknown_in d y.depends_on)) [
  | inr (u, e) ↦ absurd (let g = h in let l = (rw (first_unknown, e) at g) in cc)
  | inl e ↦ elim k [
    | inl same ↦ known_in d y.depends_on e x (let g : Elem x t.depends_on = dep in (rw same at g))
    | inr rest ↦ known d ss (let g = h in (rw (first_unknown, e) at g)) t rest x dep
  ]
]

module _ (all : List PlannedStep) (steps : Dict PlannedStep) where
  pick-All {ℓ} :
      (P : PlannedStep → Type ℓ) (ids : List String)
      → ((id : String) → Elem id ids → (s : PlannedStep) → lookup id steps ≡ some s → P s)
      → All P (pick steps ids)
  unfolding pick
  pick-All P [] h = tt
  pick-All P (id ∷ ids) h =
      let rest = pick-All P ids (λ j k. h j (inr k)) in
      elim (Option-cases (lookup id steps)) [
        | inl e ↦ rw (pick, e) rest
        | inr (s, e) ↦ rw (pick, e) (h id (inl refl) s e, rest)
      ]

  picked :
      (ids : List String) (x : String) (s : PlannedStep)
      → Elem x ids
      → lookup x steps ≡ some s
      → Elem s.step_id (map id_of (pick steps ids))
  unfolding pick
  picked [] x s h e = elim h [ ]
  picked (id ∷ ids) x s (inl same) e =
      let f : lookup id steps ≡ some s = (let g = e in (rw same at g)) in rw (pick, f) (inl refl)
  picked (id ∷ ids) x s (inr h) e =
      let rest = picked ids x s h e in
      elim (Option-cases (lookup id steps)) [
        | inl f ↦ rw (pick, f) rest
        | inr (t, f) ↦ rw (pick, f) (inr rest)
      ]

  -- the ids that were visited are those of the batches
  abbrev Covers : List String → List String → Type 0
  Covers seen out =
      (x : String) (s : PlannedStep) → lookup x steps ≡ some s → Elem x seen → Elem x out

  module _ (named : (id : String) (s : PlannedStep) → lookup id steps ≡ some s → s.step_id ≡ id)
      (given : (id : String) (s : PlannedStep) → lookup id steps ≡ some s → Elem s all)
      (found : (t : PlannedStep)
        → Elem t all
        → (x : String) → Elem x t.depends_on
        → (s : PlannedStep) × (lookup x steps ≡ some s))
      (dependents : Dict (List String)) where
    batch-IsOrdered :
        (seen out ready : List String) (pending : Dict (List String))
        → Waits steps seen pending
        → Freed steps pending ready
        → Covers seen out
        → All
            (λ (s : PlannedStep). Elem s all × All (λ (x : String). Elem x out) s.depends_on)
            (pick steps ready)
    batch-IsOrdered seen out ready pending waits freed covers = pick-All _ ready λ id h s e.
        let ours = given id s e in
        let empty =
          All-at (λ (id : String). is_empty (at_key id pending) ≡ true) id ready freed h in
        (
          ours,
          All-of (λ (x : String). Elem x out) s.depends_on
              λ x dep. elim (waits id s e x dep) [
                | inl still ↦ absurd (no-Elem x (at_key id pending) empty still)
                | inr old ↦ let (t, f) = found s ours x dep in covers x t f old
              ],
        )

    next-Covers :
        (seen out ids : List String)
        → Covers seen out
        → Covers (seen ++ ids) (out ++ map id_of (pick steps ids))
    next-Covers seen out ids covers x s e h = elim (Elem-append x seen ids h) [
      | inl old ↦ Elem-append_left x out (map id_of (pick steps ids)) (covers x s e old)
      | inr now ↦ Elem-append_right x out (map id_of (pick steps ids)) (
          subst (λ (y : String). Elem y (map id_of (pick steps ids))) (named x s e)
            (picked ids x s now e))
    ]

    levels-IsOrdered :
        (fuel : ℕ) (seen out : List String) (pending : Dict (List String)) (ready : List String)
        (batches : List (List PlannedStep))
        → Waits steps seen pending
        → Freed steps pending ready
        → Covers seen out
        → levels fuel steps dependents pending ready ≡ some batches
        → IsOrdered all out batches
    unfolding levels
    levels-IsOrdered zero seen out pending ready batches waits freed covers h = absurd cc
    levels-IsOrdered (suc fuel) seen out pending [] batches waits freed covers h =
        let none_left : [] ≡ batches = cc in rw (← none_left) tt
    levels-IsOrdered (suc fuel) seen out pending (id ∷ ids) batches waits freed covers h =
        let after = visit dependents (id ∷ ids) (pending, []) in
        let seen' = seen ++ id ∷ ids in
        let (waits', freed') =
          visit-Invariant steps seen' dependents (id ∷ ids) (pending, [])
            (λ j k. Elem-append_right j seen (id ∷ ids) k)
            (
              (λ j s e x dep. elim (waits j s e x dep) [
                | inl still ↦ inl still
                | inr old ↦ inr (Elem-append_left x seen (id ∷ ids) old)
              ]),
              tt,
            ) in
        elim (Option-cases (levels fuel steps dependents after.0 after.1)) [
          | inl e ↦ absurd (let g = h in let l = (rw (levels, e) at g) in cc)
          | inr (rest, e) ↦
              let g = h in
              let l : some (pick steps (id ∷ ids) ∷ rest) ≡ some batches = (rw (levels, e) at g) in
              let same : pick steps (id ∷ ids) ∷ rest ≡ batches = cc in
              rw (← same) (
                batch-IsOrdered seen out (id ∷ ids) pending waits freed covers,
                levels-IsOrdered fuel seen' (out ++ map id_of (pick steps (id ∷ ids))) after.0
                    after.1 rest waits' freed' (next-Covers seen out (id ∷ ids) covers) e,
              )
        ]

no_steps : (ss : List PlannedStep) → is_empty ss ≡ true → 0 ≡ length ss
no_steps [] h = refl
no_steps (s ∷ ss) h = absurd cc

-- The resolver always ends, in one of two ways. It raises an AgentError; or it gives batches in which there
-- are as many steps as the plan has tool steps, each of them is one of these, and each of its dependencies
-- names a step of an earlier batch.
pub resolve_step_batches-IsOrdered :
    (steps : List PlannedStep)
    → ((batches : List (List PlannedStep)) × (resolve_step_batches steps ≡ ok batches)
        × (visited batches ≡ length (select is_tool_step steps))
        × IsOrdered (select is_tool_step steps) [] batches)
      ⊎ ((message : String) × (resolve_step_batches steps ≡ err (agent_error message)))
unfolding resolve_step_batches run_levels
resolve_step_batches-IsOrdered steps =
    let tools = select is_tool_step steps in
    let by_id = index_from [] tools in
    let pending = pending_from [] tools in
    let indexed = index-Indexed tools tools [] [] (λ t k. k) (nothing-Indexed tools) in
    elim (Bool-cases (is_empty tools)) [
      | inl e ↦ inl ([], (rw (resolve_step_batches, e) refl), no_steps tools e, tt)
      | inr e ↦ elim (Bool-cases (nat_eq (length by_id) (length tools))) [
        | inr f ↦ inr (
          "Planned tool steps must have unique step_id values",
          (rw (resolve_step_batches, e, f) refl),
        )
        | inl f ↦ elim (Option-cases (first_unknown by_id tools)) [
          | inr ((x, y), u) ↦ inr (unknown_message x y, (rw (resolve_step_batches, e, f, u) refl))
          | inl u ↦
              let (found, v) = run_levels-ends tools f in
              elim (Bool-cases (nat_eq (visited found) (length tools))) [
                | inr w ↦ inr (
                  "Circular dependency detected among planned tool steps",
                  (rw (resolve_step_batches, e, f, u, v, w) refl),
                )
                | inl w ↦ inl (
                  found,
                  (rw (resolve_step_batches, e, f, u, v, w) refl),
                  ground (arith, w),
                  levels-IsOrdered tools by_id indexed.named indexed.given (known by_id tools u)
                      (dependents_from tools (no_dependents [] tools)) (suc (suc (length tools))) []
                      [] pending (sorted (ready_ids pending)) found
                      (λ id s k x dep. inl (indexed.waits id s k x dep))
                      (All-of (λ (k : String). is_empty (at_key k pending) ≡ true)
                        (sorted (ready_ids pending)) (pending-free tools))
                      (λ x s k m. m) v,
                )
              ]
        ]
      ]
    ]
