-- ===== src/Limits/Window/Refines.antt =====
-- The limiter against its specification.
use chatbot_react_python_nod.Prelude.{
  ℕ, ◌≤◌, ◌≡◌, refl, ap, ◌∙◌, String, ◌==◌, Bool, true, false, List, [], ◌∷◌, ◌++◌, leb, ltb,
  length, All, All-append, Bool-cases, inl, inr, arith, insert, eq_iff,
}
use chatbot_react_python_nod.Limits.Window
use chatbot_react_python_nod.Limits.Window.{
  window, Events, Verdict, allowed, retry_after, index_error, times_of, prune, refusal, check,
}
use chatbot_react_python_nod.Limits.Window.Log.{
  Request, Log, of_key, recent, admit, Ascending, Tracks, length-prune, prune-prune, Tracks-append,
  times_of-insert, of_key-append, Ascending-append, All-later,
}

-- The limiter at time `n` stands for the log.
record Linked (n : ℕ) (d : Events) (log : Log) : Type 0 where
  tracks : (key : String) → Tracks n (times_of key d) (of_key key log)
  ordered : (key : String) → Ascending (of_key key log)
  past : (key : String) → All (λ t. t ≤ n) (of_key key log)

-- a verdict that says the same as the specification, and waits of 1 to 60 seconds
abbrev pub Answers : Verdict → Bool → Type 0
Answers allowed true = Unit
Answers (retry_after s) false = (1 ≤ s) × (s ≤ 60)
Answers _ _ = ⊥

refusal-Answers :
    (now limit : ℕ) (ts : List ℕ)
    → 1 ≤ limit
    → leb limit (length ts) ≡ true
    → Answers (refusal now ts) false
unfolding refusal Window.seconds_left
refusal-Answers now limit [] h full = absurd (ground arith)
refusal-Answers now limit (t ∷ ts) h full = (omega arith, omega arith)

module _ (n : ℕ) (d : Events) (log : Log) (r : Request) (le : n ≤ r.now)
    (linked : Linked n d log) where
  abbrev kept : List ℕ
  kept = prune r.now (times_of r.key d)

  length-kept : length kept ≡ recent r.now (of_key r.key log)
  length-kept =
      ap length (linked.tracks r.key r.now le)
      ∙ length-prune r.now (of_key r.key log) (linked.ordered r.key)

  refused-Linked : Linked r.now (insert r.key kept d) log
  refused-Linked = record {
    tracks = λ j m k. elim (Bool-cases (r.key == j)) [
      | inl same ↦
          rw (times_of-insert r.key j kept d, same)
            (prune-prune m r.now (times_of r.key d) k
              ∙ (rw ((eq_iff r.key j).0 same) (linked.tracks j m (omega (arith, le, k)))))
      | inr other ↦
          rw (times_of-insert r.key j kept d, other) (linked.tracks j m (omega (arith, le, k)))
    ];
    ordered = linked.ordered;
    past = λ j. All-later (of_key j log) n r.now le (linked.past j);
  }

  accepted-Linked : Linked r.now (insert r.key (kept ++ r.now ∷ []) d) (log ++ (r.key, r.now) ∷ [])
  accepted-Linked = record {
    tracks = λ j m k. elim (Bool-cases (r.key == j)) [
      | inl same ↦
          rw (times_of-insert r.key j (kept ++ r.now ∷ []) d, of_key-append r.key j r.now log, same)
            (Tracks-append n r.now (times_of r.key d) (of_key r.key log) le (linked.tracks r.key) m
                k
              ∙ ap (λ i. prune m (of_key i log ++ r.now ∷ [])) ((eq_iff r.key j).0 same))
      | inr other ↦
          rw
            (times_of-insert r.key j (kept ++ r.now ∷ []) d, of_key-append r.key j r.now log, other)
            (linked.tracks j m (omega (arith, le, k)))
    ];
    ordered = λ j. elim (Bool-cases (r.key == j)) [
      | inl same ↦
          rw (of_key-append r.key j r.now log, same)
            (Ascending-append (of_key j log) r.now (linked.ordered j)
              (All-later (of_key j log) n r.now le (linked.past j)))
      | inr other ↦ rw (of_key-append r.key j r.now log, other) (linked.ordered j)
    ];
    past = λ j. elim (Bool-cases (r.key == j)) [
      | inl same ↦
          rw (of_key-append r.key j r.now log, same)
            (All-append (λ t. t ≤ r.now) (of_key j log) (r.now ∷ [])
              (All-later (of_key j log) n r.now le (linked.past j)) (omega arith, tt))
      | inr other ↦
          rw (of_key-append r.key j r.now log, other)
            (All-later (of_key j log) n r.now le (linked.past j))
    ];
  }

-- one request at the limiter and at the specification
abbrev Agree : ℕ → Verdict × Events → Bool × Log → Type 0
Agree now (v, d) (b, log) = Answers v b × Linked now d log

check-Agree :
    (n : ℕ) (d : Events) (log : Log) (r : Request)
    → n ≤ r.now
    → 1 ≤ r.limit
    → Linked n d log
    → Agree r.now (check r.key r.limit r.now d) (admit r log)
unfolding check admit
check-Agree n d log r le pos linked =
    let same = length-kept n d log r le linked in
    elim (Bool-cases (leb r.limit (length (prune r.now (times_of r.key d))))) [
      | inl full ↦
          let no : ltb (recent r.now (of_key r.key log)) r.limit ≡ false =
            ground (arith, same, full) in
          rw (full, no)
            (
              refusal-Answers r.now r.limit (prune r.now (times_of r.key d)) pos full,
              refused-Linked n d log r le linked,
            )
      | inr free ↦
          let fits : ltb (recent r.now (of_key r.key log)) r.limit ≡ true =
            ground (arith, same, free) in
          rw (free, fits) (tt, accepted-Linked n d log r le linked)
    ]

-- the answers to requests in turn
unfoldable pub serve : List Request → Events → List Verdict
serve [] d = []
serve (r ∷ rs) d = let (v, d') = check r.key r.limit r.now d in v ∷ serve rs d'

unfoldable pub admit_all : List Request → Log → List Bool
admit_all [] log = []
admit_all (r ∷ rs) log = let (b, log') = admit r log in b ∷ admit_all rs log'

-- requests in the order of the clock from `n` on, each with a limit of at least 1
abbrev pub Chronological : ℕ → List Request → Type 0
Chronological n [] = Unit
Chronological n (r ∷ rs) = (n ≤ r.now) × (1 ≤ r.limit) × Chronological r.now rs

abbrev pub AnswerAll : List Verdict → List Bool → Type 0
AnswerAll [] [] = Unit
AnswerAll (v ∷ vs) (b ∷ bs) = Answers v b × AnswerAll vs bs
AnswerAll _ _ = ⊥

serve-refines :
    (n : ℕ) (rs : List Request) (d : Events) (log : Log)
    → Chronological n rs
    → Linked n d log
    → AnswerAll (serve rs d) (admit_all rs log)
unfolding serve admit_all
serve-refines n [] d log c linked = tt
serve-refines n (r ∷ rs) d log (le, pos, c) linked =
    let (now_agrees, next) = check-Agree n d log r le pos linked in
    (now_agrees, serve-refines r.now rs (check r.key r.limit r.now d).1 (admit r log).1 c next)

-- For requests in the order of the clock, each with a limit of at least 1 and in any buckets, the limiter
-- that starts empty answers as the specification does: a request is allowed exactly if fewer than its
-- limit of the requests ever allowed to its bucket lie in the 60 seconds before it, and any other is told to
-- wait 1 to 60 seconds.
pub serve_refines_log :
    (rs : List Request) → Chronological 0 rs → AnswerAll (serve rs []) (admit_all rs [])
unfolding of_key times_of
serve_refines_log rs c =
    serve-refines 0 rs [] [] c
      (record { tracks = λ key m h. refl; ordered = λ key. tt; past = λ key. tt })
