-- ===== src/Agent/Resolver/Rounds.antt =====
-- What a round of the resolver keeps: a dependency that was not visited is still waited for, and what is ready
-- waits for nothing.
use chatbot_react_python_nod.Prelude.{
  ◌≡◌, ◌⊎◌, refl, inl, inr, String, ◌==◌, true, some, List, [], ◌∷◌, ◌++◌, if◌then◌else◌, All,
  All-append, Elem, is_empty, Dict, lookup, insert, eq_iff, eq_refl, Bool-cases,
}
use chatbot_react_python_nod.Agent.Models.{PlannedStep}
use chatbot_react_python_nod.Agent.Resolver.{discard, at_key, sorted, Round, release, visit}
use chatbot_react_python_nod.Agent.Resolver.Sets.{at_key-insert, Elem-discard, is_empty-discard}

module _ (steps : Dict PlannedStep) where
  -- a dependency that is not seen is still waited for
  abbrev pub Waits : List String → Dict (List String) → Type 0
  Waits seen pending =
      (id : String) (s : PlannedStep)
      → lookup id steps ≡ some s
      → (x : String) → Elem x s.depends_on
      → Elem x (at_key id pending) ⊎ Elem x seen

  abbrev pub Freed : Dict (List String) → List String → Type 0
  Freed pending = All (λ (id : String). is_empty (at_key id pending) ≡ true)

  abbrev pub Invariant : List String → Round → Type 0
  Invariant seen (pending, ready) = Waits seen pending × Freed pending ready

  Freed-insert :
      (d k : String) (pending : Dict (List String)) (ready : List String)
      → Freed pending ready
      → Freed (insert d (discard k (at_key d pending)) pending) ready
  Freed-insert d k pending [] h = tt
  Freed-insert d k pending (r ∷ ready) (here, rest) =
      let left = discard k (at_key d pending) in
      let after = Freed-insert d k pending ready rest in
      elim (Bool-cases (d == r)) [
        | inl e ↦
            let same : d ≡ r = (eq_iff d r).0 e in
            let gone : is_empty left ≡ true =
              is_empty-discard k (at_key d pending) (rw same here) in
            ((rw (at_key-insert d r left pending, e) gone), after)
        | inr e ↦ ((rw (at_key-insert d r left pending, e) here), after)
      ]

  Waits-insert :
      (seen : List String) (d k : String) (pending : Dict (List String))
      → Elem k seen
      → Waits seen pending
      → Waits seen (insert d (discard k (at_key d pending)) pending)
  Waits-insert seen d k pending in_seen h id s e x dep =
      let left = discard k (at_key d pending) in
      elim (Bool-cases (d == id)) [
        | inl f ↦
            rw (at_key-insert d id left pending, f)
              (elim (h id s e x dep) [
                | inr old ↦ inr old
                | inl waits ↦
                    elim (Elem-discard x k (at_key d pending) (rw ((eq_iff d id).0 f) waits)) [
                      | inl same ↦ inr (rw same in_seen)
                      | inr still ↦ inl still
                    ]
              ])
        | inr f ↦ rw (at_key-insert d id left pending, f) (h id s e x dep)
      ]

  release-Invariant :
      (seen : List String) (k : String) (ds : List String) (r : Round)
      → Elem k seen
      → Invariant seen r
      → Invariant seen (release k ds r)
  unfolding release
  release-Invariant seen k [] r in_seen inv = inv
  release-Invariant seen k (d ∷ ds) (pending, ready) in_seen (waits, freed) =
      let left = discard k (at_key d pending) in
      let pending' = insert d left pending in
      let waits' = Waits-insert seen d k pending in_seen waits in
      let freed' = Freed-insert d k pending ready freed in
      let next = if is_empty left then ready ++ d ∷ [] else ready in
      let freed_next : Freed pending' next = elim (Bool-cases (is_empty left)) [
        | inl e ↦
            let here : is_empty (at_key d pending') ≡ true =
              rw (at_key-insert d d left pending, eq_refl d) e in
            rw e (
              All-append (λ (id : String). is_empty (at_key id pending') ≡ true) ready (d ∷ [])
                freed' (here, tt))
        | inr e ↦ rw e freed'
      ] in
      release-Invariant seen k ds (pending', next) in_seen (waits', freed_next)

  pub visit-Invariant :
      (seen : List String) (dependents : Dict (List String)) (ids : List String) (r : Round)
      → ((id : String) → Elem id ids → Elem id seen)
      → Invariant seen r
      → Invariant seen (visit dependents ids r)
  unfolding visit
  visit-Invariant seen dependents [] r sub inv = inv
  visit-Invariant seen dependents (id ∷ ids) r sub inv =
      let ds = sorted (at_key id dependents) in
      visit-Invariant seen dependents ids (release id ds r) (λ j h. sub j (inr h))
        (release-Invariant seen id ds r (sub id (inl refl)) inv)
