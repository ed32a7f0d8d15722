-- ===== src/Limits/Window/Waiting.antt =====
-- A refused client that waits as long as it is told is served.
use chatbot_react_python_nod.Prelude.{
  ℕ, ◌+◌, ◌*◌, ◌≤◌, ◌≡◌, refl, ap, ◌∙◌, String, ◌==◌, true, false, List, [], ◌∷◌, ◌++◌,
  if◌then◌else◌, leb, length, length-append, All, All-append, Bool-cases, inl, inr, arith, tests,
  insert, eq_iff, eq_refl,
}
use chatbot_react_python_nod.Limits.Window.{
  window, Events, Verdict, allowed, retry_after, times_of, prune, refusal, check, seconds_left,
}
use chatbot_react_python_nod.Limits.Window.Log.{Request, times_of-insert, All-later}

-- the limiter after requests in turn
unfoldable pub after : List Request → Events → Events
after [] d = d
after (r ∷ rs) d = after rs (check r.key r.limit r.now d).1

-- requests in the order of the clock from `n` to `m`, each with its bucket's limit
abbrev pub Steady : (String → ℕ) → ℕ → List Request → ℕ → Type 0
Steady f n [] m = n ≤ m
Steady f n (r ∷ rs) m = (n ≤ r.now) × (r.limit ≡ f r.key) × Steady f r.now rs m

-- no bucket holds more than its limit, or a time after `n`
abbrev Within : (String → ℕ) → ℕ → Events → Type 0
Within f n d =
    (key : String) → (length (times_of key d) ≤ f key) × All (λ t. t ≤ n) (times_of key d)

length-prune-le : (n : ℕ) (ts : List ℕ) → length (prune n ts) ≤ length ts
unfolding prune
length-prune-le n [] = omega arith
length-prune-le n (t ∷ ts) = let ih = length-prune-le n ts in ground arith

prune-All : (P : ℕ → Type 0) (n : ℕ) (ts : List ℕ) → All P ts → All P (prune n ts)
unfolding prune
prune-All P n [] h = tt
prune-All P n (t ∷ ts) (h, k) = elim (Bool-cases (leb (t + window) n)) [
  | inl old ↦ rw old (prune-All P n ts k)
  | inr new ↦ rw new (h, k)
]

insert-Within :
    (f : String → ℕ) (n m : ℕ) (d : Events) (k : String) (ts : List ℕ)
    → n ≤ m
    → Within f n d
    → length ts ≤ f k
    → All (λ t. t ≤ m) ts
    → Within f m (insert k ts d)
insert-Within f n m d k ts h w few past j = elim (Bool-cases (k == j)) [
  | inl same ↦
      rw (times_of-insert k j ts d, same)
        ((let e : k ≡ j = (eq_iff k j).0 same in rw (← e) few), past)
  | inr other ↦
      rw (times_of-insert k j ts d, other) ((w j).0, All-later (times_of j d) n m h (w j).1)
]

check-Within :
    (f : String → ℕ) (n : ℕ) (r : Request) (d : Events)
    → n ≤ r.now
    → r.limit ≡ f r.key
    → Within f n d
    → Within f r.now (check r.key r.limit r.now d).1
unfolding check
check-Within f n r d h e w =
    let ts = prune r.now (times_of r.key d) in
    let past : All (λ t. t ≤ r.now) ts =
      prune-All (λ t. t ≤ r.now) r.now (times_of r.key d)
        (All-later (times_of r.key d) n r.now h (w r.key).1) in
    elim (Bool-cases (leb r.limit (length ts))) [
      | inl full ↦ rw full (
          insert-Within f n r.now d r.key ts h w
            (omega (arith, length-prune-le r.now (times_of r.key d), (w r.key).0)) past)
      | inr free ↦ rw free (
          insert-Within f n r.now d r.key (ts ++ r.now ∷ []) h w
            (omega (tests, length-append {0} ts (r.now ∷ []), e, free))
            (All-append (λ t. t ≤ r.now) ts (r.now ∷ []) past (omega arith, tt)))
    ]

after-Within :
    (f : String → ℕ) (n m : ℕ) (rs : List Request) (d : Events)
    → Steady f n rs m
    → Within f n d
    → Within f m (after rs d)
unfolding after
after-Within f n m [] d h w = λ j. ((w j).0, All-later (times_of j d) n m h (w j).1)
after-Within f n m (r ∷ rs) d (h, e, s) w =
    after-Within f r.now m rs (check r.key r.limit r.now d).1 s (check-Within f n r d h e w)

abbrev Told : Verdict → ℕ → Type 0
Told v s = v ≡ retry_after s

freed :
    (limit now later s : ℕ) (ts : List ℕ)
    → All (λ t. t ≤ now) ts
    → length ts ≤ limit
    → Told (refusal now ts) s
    → now + 1000 * s ≤ later
    → leb limit (length (prune later ts)) ≡ false
unfolding refusal seconds_left prune
freed limit now later s [] past few told h = absurd cc
freed limit now later s (t ∷ ts) (le, past) few told h =
    let shrunk = length-prune-le later ts in
    let due : seconds_left now t ≡ s = cc in
    let old : leb (t + window) later ≡ true = ground (arith, due, le, h) in
    rw old (ground (arith, shrunk, few))

full_refusal :
    (key : String) (limit now s : ℕ) (d : Events)
    → Told (check key limit now d).0 s
    → (leb limit (length (prune now (times_of key d))) ≡ true)
      × Told (refusal now (prune now (times_of key d))) s
unfolding check
full_refusal key limit now s d told =
    elim (Bool-cases (leb limit (length (prune now (times_of key d))))) [
      | inl full ↦ (full, (let t = told in rw full at t))
      | inr free ↦ absurd (let t = told in let u = (rw free at t) in cc)
    ]

-- a check at one bucket leaves the others alone
check-elsewhere :
    (key : String) (q : Request) (d : Events)
    → (q.key == key) ≡ false
    → times_of key (check q.key q.limit q.now d).1 ≡ times_of key d
unfolding check
check-elsewhere key q d other =
    let ts = prune q.now (times_of q.key d) in
    elim (Bool-cases (leb q.limit (length ts))) [
      | inl full ↦ rw full (times_of-insert q.key key ts d ∙ rw other refl)
      | inr free ↦ rw free (times_of-insert q.key key (ts ++ q.now ∷ []) d ∙ rw other refl)
    ]

-- what a refused check leaves in its bucket
refused-times :
    (key : String) (limit now : ℕ) (d : Events)
    → leb limit (length (prune now (times_of key d))) ≡ true
    → times_of key (check key limit now d).1 ≡ prune now (times_of key d)
unfolding check
refused-times key limit now d full = rw full (
    times_of-insert key key (prune now (times_of key d)) d
    ∙ ap (λ b. if b then prune now (times_of key d) else times_of key d) (eq_refl key))

-- a bucket with room lets a request pass
room-allowed :
    (key : String) (limit now : ℕ) (d : Events)
    → leb limit (length (prune now (times_of key d))) ≡ false
    → (check key limit now d).0 ≡ allowed
unfolding check
room-allowed key limit now d free = rw free refl

-- requests to other buckets
elsewhere :
    (key : String) (qs : List Request) (d : Events)
    → All (λ q. (q.key == key) ≡ false) qs
    → times_of key (after qs d) ≡ times_of key d
unfolding after
elsewhere key [] d h = refl
elsewhere key (q ∷ qs) d (other, h) = elsewhere key qs (check q.key q.limit q.now d).1 h ∙ untouched
  where
    untouched : times_of key (check q.key q.limit q.now d).1 ≡ times_of key d
    untouched = check-elsewhere key q d other

-- After any requests in the order of the clock, each bucket with a fixed limit: a request that is told to
-- wait is allowed when it is made again, to the same bucket, after as many seconds or more, whatever
-- requests to other buckets come between.
pub retry_after_suffices :
    (f : String → ℕ) (rs qs : List Request) (key : String) (now s later : ℕ)
    → Steady f 0 rs now
    → All (λ q. (q.key == key) ≡ false) qs
    → let (v, d) = check key (f key) now (after rs []) in
      v ≡ retry_after s
      → now + 1000 * s ≤ later
      → (check key (f key) later (after qs d)).0 ≡ allowed
unfolding times_of
retry_after_suffices f rs qs key now s later steady others told h =
    let d = after rs [] in
    let d' = (check key (f key) now d).1 in
    let (few, past) = after-Within f 0 now rs [] steady (λ j. (omega arith, tt)) key in
    let (full, refusing) = full_refusal key (f key) now s d told in
    let ts = prune now (times_of key d) in
    let left : times_of key (after qs d') ≡ ts =
      elsewhere key qs d' others ∙ refused-times key (f key) now d full in
    room-allowed key (f key) later (after qs d') (
      rw left (
        freed (f key) now later s ts (prune-All (λ t. t ≤ now) now (times_of key d) past)
          (omega (arith, length-prune-le now (times_of key d), few)) refusing h))
