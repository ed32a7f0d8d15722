-- ===== src/Agent/Resolver/Fuel.antt =====
-- The resolver's rounds end: every step is ready once at most.
use mathlib.Core.Path.{subst}
use chatbot_react_python_nod.Prelude.{
  ℕ, ◌+◌, ◌≡◌, refl, inl, inr, String, ◌==◌, true, false, some, List, [], ◌∷◌, ◌++◌, if◌then◌else◌,
  Elem, Elem-append, length, length-append, is_empty, Dict, lookup, insert, eq_iff, eq_refl,
  Bool-cases, Option-cases, arith,
}
use chatbot_react_python_nod.Agent.Resolver.{discard, at_key, Round}
use chatbot_react_python_nod.Agent.Resolver.Sets.{at_key-insert, Elem-discard, is_empty-discard}
use chatbot_react_python_nod.Agent.Resolver.Distinct.{IsNodup, IsNodup-snoc}
use chatbot_react_python_nod.Agent.Resolver.Unique.{waiting, waiting-insert}

abbrev pub Free : Dict (List String) → List String → Type 0
Free pending ids = (x : String) → Elem x ids → is_empty (at_key x pending) ≡ true

-- what was visited and what is ready waits for nothing, and nothing is ready twice or after its visit
pub record Once (past : List String) (r : Round) : Type 0 where
  pub past_free : Free r.0 past
  pub next_free : Free r.0 r.1
  pub nodup : IsNodup r.1
  pub apart : (x : String) → Elem x r.1 → Elem x past → ⊥

-- the ids that wait or are ready
abbrev pub total : Round → ℕ
total r = waiting r.0 + length r.1

not_empty : (x : String) (s : List String) → Elem x s → is_empty s ≡ false
not_empty x [] h = absurd h
not_empty x (y ∷ s) h = refl

found_at :
    (x k : String) (d : Dict (List String)) → Elem x (at_key k d) → lookup k d ≡ some (at_key k d)
unfolding at_key
found_at x k d h = elim (Option-cases (lookup k d)) [
  | inl e ↦
      absurd (let g : Elem x (at_key k d) = h in let l : Elem x [] = (rw (at_key, e) at g) in l)
  | inr (s, e) ↦ rw (at_key, e) refl
]

-- what still waits for `x`, another id than `k`
abbrev pub Others : (String → Type 0) → Dict (List String) → Dict (List String) → Type 0
Others P pending pending' =
    (x d : String) → P x → Elem x (at_key d pending) → Elem x (at_key d pending')

module _ (past : List String) (k : String) where
  module _ (d : String) (pending : Dict (List String)) where
    abbrev pub left : List String
    left = discard k (at_key d pending)

    abbrev pub after : Dict (List String)
    after = insert d left pending

    still_free :
        (x : String) → is_empty (at_key x pending) ≡ true → is_empty (at_key x after) ≡ true
    still_free x h = elim (Bool-cases (d == x)) [
      | inl e ↦
          let same : d ≡ x = (eq_iff d x).0 e in
          let gone : is_empty left ≡ true = is_empty-discard k (at_key d pending) (rw same h) in
          rw (at_key-insert d x left pending, e) gone
      | inr e ↦ rw (at_key-insert d x left pending, e) h
    ]

    pub still_waits :
        (x j : String) → (x == k) ≡ false → Elem x (at_key j pending) → Elem x (at_key j after)
    still_waits x j other h = elim (Bool-cases (d == j)) [
      | inl e ↦
          let same : d ≡ j = (eq_iff d j).0 e in
          rw (at_key-insert d j left pending, e)
            (elim (Elem-discard x k (at_key d pending) (rw same h)) [
              | inl name ↦ absurd (let g = (eq_iff x k).1 name in cc)
              | inr more ↦ more
            ])
      | inr e ↦ rw (at_key-insert d j left pending, e) h
    ]

    -- one step of `release`
    unfoldable pub stepped : (ready : List String) → Round
    stepped ready = (after, if is_empty left then ready ++ d ∷ [] else ready)

    pub stepped-Once :
        (ready : List String)
        → Elem k (at_key d pending)
        → Once past (pending, ready)
        → Once past (stepped ready) × (total (stepped ready) ≡ total (pending, ready))
    unfolding stepped
    stepped-Once ready waits once =
        let full : is_empty (at_key d pending) ≡ false = not_empty k (at_key d pending) waits in
        let counted =
          waiting-insert d left (at_key d pending) pending (found_at k d pending waits) in
        let past_free : Free after past = λ x m. still_free x (once.past_free x m) in
        let next_free : Free after ready = λ x m. still_free x (once.next_free x m) in
        elim (Bool-cases (is_empty left)) [
          | inr e ↦ rw e (
            (record {
              past_free = past_free;
              next_free = next_free;
              nodup = once.nodup;
              apart = once.apart;
            }),
            (let c = counted in let n = (rw (e, full) at c) in omega (arith, n)),
          )
          | inl e ↦
              let here : is_empty (at_key d after) ≡ true =
                rw (at_key-insert d d left pending, eq_refl d) e in
              rw e (
                (record {
                  past_free = past_free;
                  next_free = λ x m. elim (Elem-append x ready (d ∷ []) m) [
                    | inl old ↦ next_free x old
                    | inr new ↦ elim new [ inl same ↦ rw same here | inr no_more ↦ absurd no_more ]
                  ];
                  nodup =
                      IsNodup-snoc ready d once.nodup
                        (λ m. let f = once.next_free d m in absurd cc);
                  apart = λ x m p. elim (Elem-append x ready (d ∷ []) m) [
                    | inl old ↦ once.apart x old p
                    | inr new ↦ elim new [
                      | inl same ↦
                          let f = once.past_free d (subst (λ y. Elem y past) same p) in absurd cc
                      | inr no_more ↦ no_more
                    ]
                  ];
                }),
                (let c = counted in
                    let n = (rw (e, full) at c) in
                    omega (arith, n, length-append {0} ready (d ∷ []))),
              )
        ]
