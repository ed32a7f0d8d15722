-- ===== src/Limits/Window/Log.antt =====
-- The specification of the limiter: a log of all requests that were ever accepted, and a request is
-- accepted if fewer than its limit of the same bucket lie in the window before it.
use chatbot_react_python_nod.Prelude.{
  ℕ, suc, ◌+◌, ◌≤◌, ◌<◌, ◌≡◌, refl, sym, ap, ◌∙◌, String, ◌==◌, Bool, true, false, List, [], ◌∷◌,
  ◌++◌, if◌then◌else◌, leb, ltb, length, All, All-append, Bool-cases, inl, inr, arith, tests,
  lookup-insert, insert,
}
use chatbot_react_python_nod.Limits.Window.{window, Events, times_of, prune}

-- a request: its bucket, its limit, its time
pub record Request : Type 0 where
  pub key : String
  pub limit : ℕ
  pub now : ℕ

-- the accepted requests, bucket and time, oldest first
abbrev pub Log : Type 0
Log = List (String × ℕ)

-- the times of one bucket
unfoldable pub of_key : String → Log → List ℕ
of_key key [] = []
of_key key ((k, t) ∷ log) = if k == key then t ∷ of_key key log else of_key key log

-- how many of these times are in the window before `now`
unfoldable pub recent : ℕ → List ℕ → ℕ
recent now [] = 0
recent now (t ∷ ts) = if ltb now (t + window) then suc (recent now ts) else recent now ts

-- the specification of one request
unfoldable pub admit : Request → Log → Bool × Log
admit r log =
    if ltb (recent r.now (of_key r.key log)) r.limit
    then (true, log ++ (r.key, r.now) ∷ [])
    else (false, log)

abbrev pub Ascending : List ℕ → Type 0
Ascending [] = Unit
Ascending (t ∷ ts) = All (λ u. t ≤ u) ts × Ascending ts

All-recent :
    (now t : ℕ) (ts : List ℕ) → now < t + window → All (λ u. t ≤ u) ts → recent now ts ≡ length ts
unfolding recent
All-recent now t [] h all = refl
All-recent now t (u ∷ ts) h (le, all) = let ih = All-recent now t ts h all in ground arith

-- of ascending times, pruning leaves those in the window
pub length-prune : (now : ℕ) (ts : List ℕ) → Ascending ts → length (prune now ts) ≡ recent now ts
unfolding prune recent
length-prune now [] a = refl
length-prune now (t ∷ ts) (all, a) = elim (Bool-cases (leb (t + window) now)) [
  | inl old ↦ let ih = length-prune now ts a in ground (arith, old, ih)
  | inr new ↦
      let later : now < t + window = omega (tests, new) in
      ground (arith, new, All-recent now t ts later all)
]

pub prune-prune : (m n : ℕ) (ts : List ℕ) → n ≤ m → prune m (prune n ts) ≡ prune m ts
unfolding prune
prune-prune m n [] h = refl
prune-prune m n (t ∷ ts) h = let ih = prune-prune m n ts h in ground arith

-- pruning one list after another
glue : List ℕ → List ℕ → List ℕ → List ℕ
glue [] p ys = p
glue (x ∷ xs) p ys = (x ∷ xs) ++ ys

prune-append : (m : ℕ) (xs ys : List ℕ) → prune m (xs ++ ys) ≡ glue (prune m xs) (prune m ys) ys
unfolding prune glue
prune-append m [] ys = refl
prune-append m (x ∷ xs) ys = let ih = prune-append m xs ys in ground arith

-- From `n` on, the bucket's times cannot be told from those of the log.
abbrev pub Tracks : ℕ → List ℕ → List ℕ → Type 0
Tracks n ts all = (m : ℕ) → n ≤ m → prune m ts ≡ prune m all

pub Tracks-append :
    (n now : ℕ) (ts all : List ℕ)
    → n ≤ now
    → Tracks n ts all
    → Tracks now (prune now ts ++ now ∷ []) (all ++ now ∷ [])
Tracks-append n now ts all le h m k =
    prune-append m (prune now ts) (now ∷ [])
    ∙ ap (λ l. glue l (prune m (now ∷ [])) (now ∷ [])) (prune-prune m now ts k ∙ h m (omega arith))
    ∙ sym (prune-append m all (now ∷ []))

pub times_of-insert :
    (k j : String) (ts : List ℕ) (d : Events)
    → times_of j (insert k ts d) ≡ (if k == j then ts else times_of j d)
unfolding times_of
times_of-insert k j ts d = elim (Bool-cases (k == j)) [
  | inl same ↦ rw (lookup-insert k j ts d, times_of, same) refl
  | inr other ↦ rw (lookup-insert k j ts d, times_of, other) refl
]

pub of_key-append :
    (k j : String) (t : ℕ) (log : Log)
    → of_key j (log ++ (k, t) ∷ []) ≡ (if k == j then of_key j log ++ t ∷ [] else of_key j log)
unfolding of_key
of_key-append k j t [] = ground arith
of_key-append k j t ((i, u) ∷ log) = let ih = of_key-append k j t log in ground arith

pub Ascending-append :
    (ts : List ℕ) (n : ℕ) → Ascending ts → All (λ t. t ≤ n) ts → Ascending (ts ++ n ∷ [])
Ascending-append [] n a p = (tt, tt)
Ascending-append (t ∷ ts) n (all, a) (le, p) =
    (All-append (λ u. t ≤ u) ts (n ∷ []) all (le, tt), Ascending-append ts n a p)

pub All-later : (ts : List ℕ) (n m : ℕ) → n ≤ m → All (λ t. t ≤ n) ts → All (λ t. t ≤ m) ts
All-later [] n m h p = tt
All-later (t ∷ ts) n m h (le, p) = (omega arith, All-later ts n m h p)
