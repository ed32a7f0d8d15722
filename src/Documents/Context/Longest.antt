-- ===== src/Documents/Context/Longest.antt =====
-- The context holds as many of the ranked chunks as fit.
use chatbot_react_python_nod.Prelude.{
  ℕ, zero, suc, ◌≤◌, ◌<◌, ◌≡◌, refl, Bool, true, false, Option, List, [], ◌∷◌, leb, ltb, length,
  length-take, join, take, Bool-cases, inl, inr, arith, tests,
}
use chatbot_react_python_nod.Documents.Context.{
  ScoredChunk, BuiltContext, text_length, assemble, blocks_from, shrink, budget_of, build,
}

-- The first `n` chunks, with their text: no longer prefix up to `top` fits.
abbrev pub IsLongest : List ScoredChunk → ℕ → ℕ → BuiltContext → ℕ → Type 0
IsLongest chunks budget top b n =
    (n ≤ length chunks)
    × (b.included_chunks ≡ take n chunks)
    × (b.text ≡ assemble (take n chunks))
    × (text_length b.text ≤ budget)
    × (b.truncated ≡ ltb n (length chunks))
    × ((m : ℕ) → n < m → m ≤ top → budget < text_length (assemble (take m chunks)))

shrink-IsLongest :
    (chunks : List ScoredChunk) (budget : ℕ) (dropped : Bool) (n : ℕ)
    → n ≤ length chunks
    → 1 ≤ length chunks
    → dropped ≡ ltb n (length chunks)
    → (k : ℕ) × IsLongest chunks budget n (shrink chunks budget dropped n) k
unfolding shrink assemble blocks_from join take
shrink-IsLongest chunks budget dropped zero h pos e = (
  0,
  (
    omega arith,
    refl,
    refl,
    omega arith,
    ground (arith, pos),
    λ m low high. absurd (omega (arith, low, high)),
  ),
)
shrink-IsLongest chunks budget dropped (suc n) h pos e =
    elim (Bool-cases (leb (text_length (assemble (take (suc n) chunks))) budget)) [
      | inl fits ↦
          rw (shrink, fits)
            (
              suc n,
              (
                h,
                refl,
                refl,
                omega (tests, fits),
                ground (arith, e, length-take (suc n) chunks h),
                λ m low high. absurd (omega (arith, low, high)),
              ),
            )
      | inr long ↦
          let (k, (bound, same, text, fits, cut, longest)) =
            shrink-IsLongest chunks budget true n (omega (arith, h)) pos (ground (arith, h)) in
          rw (shrink, long)
            (
              k,
              (
                bound,
                same,
                text,
                fits,
                cut,
                λ m low high. elim (Bool-cases (leb m n)) [
                  | inl less ↦ longest m low (omega (tests, less))
                  | inr top ↦
                      let last : suc n ≡ m = omega (tests, top, high) in
                      rw (← last) (omega (tests, long))
                ],
              ),
            )
    ]

-- The context is the text of the first chunks in their order, at most as long as the budget, and no
-- longer beginning of the chunks fits in it; it is marked as truncated exactly if a chunk is left out.
pub build-IsLongest :
    (rag_context_max_chars : ℕ) (chunks : List ScoredChunk) (max_chars : Option ℕ)
    → (n : ℕ) × IsLongest chunks
        (budget_of rag_context_max_chars max_chars)
        (length chunks)
        (build rag_context_max_chars chunks max_chars)
        n
unfolding build assemble blocks_from join take
build-IsLongest limit [] max_chars = (
  0,
  (omega arith, refl, refl, omega arith, refl, λ m low high. absurd (omega (arith, low, high))),
)
build-IsLongest limit (c ∷ cs) max_chars =
    shrink-IsLongest (c ∷ cs) (budget_of limit max_chars) false (length (c ∷ cs)) (omega arith)
      (omega arith) (ground arith)
