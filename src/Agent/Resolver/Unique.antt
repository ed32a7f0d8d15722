-- ===== src/Agent/Resolver/Unique.antt =====
-- Step ids that stand once each, and the number of steps that wait.
use chatbot_react_python_nod.Prelude.{
  ℕ, suc, ◌+◌, ◌≤◌, ◌≡◌, refl, sym, ◌∙◌, inl, inr, String, ◌==◌, none, some, List, [], ◌∷◌,
  if◌then◌else◌, Elem, length, is_empty, Dict, lookup, insert, lookup-insert, eq_iff, eq_refl,
  Bool-cases, Option-cases, arith,
}
use chatbot_react_python_nod.Agent.Models.{PlannedStep}
use chatbot_react_python_nod.Agent.Resolver.{to_set, index_from, pending_from}

module _ {V : Type 0} where
  length-insert : (k : String) (v : V) (d : Dict V) → length (insert k v d) ≤ length d + 1
  unfolding insert
  length-insert k v [] = omega arith
  length-insert k v ((j, w) ∷ d) = ground (arith, length-insert k v d)

  length-insert_old :
      (k : String) (v w : V) (d : Dict V) → lookup k d ≡ some w → length (insert k v d) ≡ length d
  unfolding insert lookup
  length-insert_old k v w [] h = absurd cc
  length-insert_old k v w ((j, u) ∷ d) h = ground (arith, length-insert_old k v w d)

index-length :
    (d : Dict PlannedStep) (ss : List PlannedStep) → length (index_from d ss) ≤ length d + length ss
unfolding index_from
index-length d [] = omega arith
index-length d (s ∷ ss) =
    omega (arith, index-length (insert s.step_id s d) ss, length-insert s.step_id s d)

pending-length :
    (d : Dict (List String)) (ss : List PlannedStep)
    → length (pending_from d ss) ≤ length d + length ss
unfolding pending_from
pending-length d [] = omega arith
pending-length d (s ∷ ss) =
    let d' = insert s.step_id (to_set s.depends_on) d in
    omega (arith, pending-length d' ss, length-insert s.step_id (to_set s.depends_on) d)

-- if no id stands twice, every step is found under its own
pub index_unique :
    (d : Dict PlannedStep) (ss : List PlannedStep)
    → length (index_from d ss) ≡ length d + length ss
    → ((k : String) (s : PlannedStep) → lookup k d ≡ some s → lookup k (index_from d ss) ≡ some s)
      × ((s : PlannedStep) → Elem s ss → lookup s.step_id (index_from d ss) ≡ some s)
unfolding index_from
index_unique d [] h = ((λ k s e. e), λ s k. absurd k)
index_unique d (s ∷ ss) h =
    let d' = insert s.step_id s d in
    let (kept, found) =
      index_unique d' ss (omega (arith, h, index-length d' ss, length-insert s.step_id s d)) in
    let fresh : lookup s.step_id d ≡ none = elim (Option-cases (lookup s.step_id d)) [
      | inl e ↦ e
      | inr (w, e) ↦
          absurd (omega (arith, h, index-length d' ss, length-insert_old s.step_id s w d e))
    ] in
    let here : lookup s.step_id d' ≡ some s =
      rw (lookup-insert s.step_id s.step_id s d, eq_refl s.step_id) refl in
    (
      (λ k t e. elim (Bool-cases (s.step_id == k)) [
        | inl same ↦ absurd (
            let name : s.step_id ≡ k = (eq_iff s.step_id k).0 same in
            let gone : lookup k d ≡ none = (let g = fresh in (rw name at g)) in
            let bad : none ≡ some t = sym gone ∙ e in cc)
        | inr other ↦ kept k t (rw (lookup-insert s.step_id k s d, other) e)
      ]),
      λ t m. elim m [ inl same ↦ rw same (kept s.step_id s here) | inr more ↦ found t more ],
    )

-- how many ids wait
pub waiting : Dict (List String) → ℕ
waiting [] = 0
waiting ((k, s) ∷ d) = let rest = waiting d in if is_empty s then rest else suc rest

abbrev pub one_if_some : List String → ℕ
one_if_some s = if is_empty s then 0 else 1

pub waiting-insert :
    (k : String) (v s : List String) (d : Dict (List String))
    → lookup k d ≡ some s
    → waiting (insert k v d) + one_if_some s ≡ waiting d + one_if_some v
unfolding waiting insert lookup
waiting-insert k v s [] h = absurd cc
waiting-insert k v s ((j, w) ∷ d) h = ground (arith, waiting-insert k v s d)

waiting-le-length : (d : Dict (List String)) → waiting d ≤ length d
unfolding waiting
waiting-le-length [] = omega arith
waiting-le-length ((k, s) ∷ d) = ground (arith, waiting-le-length d)

pub waiting-pending : (ss : List PlannedStep) → waiting (pending_from [] ss) ≤ length ss
waiting-pending ss = omega (arith, waiting-le-length (pending_from [] ss), pending-length [] ss)
