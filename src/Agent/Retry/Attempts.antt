-- ===== src/Agent/Retry/Attempts.antt =====
-- How often an operation is tried again, and the pauses between the attempts.
use Prim.Native.Nat.{◌^◌}
use mathlib.Core.Path.{subst}
use chatbot_react_python_nod.Prelude.{
  ◌⊎◌, ℕ, zero, suc, ◌+◌, ◌*◌, ◌/◌, ◌≤◌, ◌<◌, max, ◌≡◌, refl, sym, ◌∙◌, ap, Bool, true, not, ◌||◌,
  List, [], ◌∷◌, ◌++◌, arith, length, nat_eq, if◌then◌else◌, Bool-cases, inl, inr, append-nil,
  append_assoc, ◌-◌, false,
}
use chatbot_react_python_nod.Agent.Exn.{Exn, Result, ok, err}
use chatbot_react_python_nod.Agent.World.{World, Action}
use chatbot_react_python_nod.Agent.Env.{Env}
use chatbot_react_python_nod.Agent.Retry.{
  RetryPolicy, backoff_delay, sleep, retry_from, retry_async, retry_operation,
}

-- Pauses from the one after attempt `k` on: each is the base delay doubled `k` times and at most a
-- quarter more.
abbrev pub Backoffs : ℕ → ℕ → List ℕ → Type 0
Backoffs base k [] = Unit
Backoffs base k (d ∷ ds) =
    (base * 2 ^ k ≤ d) × (d ≤ base * 2 ^ k + base * 2 ^ k / 4) × Backoffs base (k + 1) ds

-- what a run of at most `left` pauses has added to the pauses of `w`
abbrev pub Paused : ℕ → ℕ → ℕ → World → World → Type 0
Paused base k left w v =
    (ds : List ℕ) × Backoffs base k ds × (length ds ≤ left) × (v.slept ≡ w.slept ++ ds)

jittered : (d u : ℕ) → u ≤ d / 4 → (d ≤ d + u) × (d + u ≤ d + d / 4)
jittered d u h = (omega arith, omega arith)

module _ (env : Env) (jitter : (n bound : ℕ) → env.uniform n bound ≤ bound) {A : Type 0}
    (operation : Action A) (quiet : (w : World) → (operation w).1.slept ≡ w.slept) (base : ℕ)
    (retryable : Exn → Bool) where
  delay-bounds :
      (draw attempt : ℕ)
      → (base * 2 ^ attempt ≤ backoff_delay env draw attempt base)
        × (backoff_delay env draw attempt base ≤ base * 2 ^ attempt + base * 2 ^ attempt / 4)
  unfolding backoff_delay
  delay-bounds draw attempt = jittered (base * 2 ^ attempt) _ (jitter draw (base * 2 ^ attempt / 4))

  no_pause : (k left : ℕ) (w : World) → Paused base k left w (operation w).1
  no_pause k left w = ([], tt, omega arith, quiet w ∙ sym (append-nil w.slept))

  pause :
      (k left : ℕ) (w v : World)
      → Paused base (k + 1) left (sleep env k base (operation w).1) v
      → Paused base k (suc left) w v
  unfolding sleep
  pause k left w v (ds, h, few, e) = (
    backoff_delay env (operation w).1.calls k base ∷ ds,
    ((delay-bounds (operation w).1.calls k).0, (delay-bounds (operation w).1.calls k).1, h),
    omega (arith, few),
    e
        ∙ ap (λ l. (l ++ backoff_delay env (operation w).1.calls k base ∷ []) ++ ds) (quiet w)
        ∙ append_assoc w.slept (backoff_delay env (operation w).1.calls k base ∷ []) ds,
  )

  stopped :
      (k : ℕ) (w v : World) (r : Result A) (stop : Exn → Bool) (again : Result A × World)
      → ((e : Exn) → stop e ≡ true)
      → Paused base k 0 w v
      → Paused base k 0 w
          (elim r as (λ _. Result A × World) [
            | ok a ↦ (ok a, v)
            | err e ↦ if stop e then (err e, v) else again
          ]).1
  stopped k w v (ok a) stop again always h = h
  stopped k w v (err e) stop again always h = rw (always e) h

  attempted :
      (k left : ℕ) (w v : World) (r : Result A) (stop : Exn → Bool) (again : Result A × World)
      → Paused base k left w v
      → Paused base k left w again.1
      → Paused base k left w
          (elim r as (λ _. Result A × World) [
            | ok a ↦ (ok a, v)
            | err e ↦ if stop e then (err e, v) else again
          ]).1
  attempted k left w v (ok a) stop again h g = h
  attempted k left w v (err e) stop again h g = elim (Bool-cases (stop e)) [
    | inl last ↦ rw last h
    | inr more ↦ rw more g
  ]

  retry_from-Paused :
      (left k : ℕ) (w : World)
      → Paused base k left w (retry_from env operation base retryable (suc left) k w).1
  unfolding retry_from
  retry_from-Paused zero k w =
      stopped k w (operation w).1 (operation w).0 (λ e. nat_eq 0 0 || not (retryable e))
        (retry_from env operation base retryable 0 (k + 1) (sleep env k base (operation w).1))
        (λ e. refl) (no_pause k 0 w)
  retry_from-Paused (suc left) k w =
      attempted k (suc left) w (operation w).1 (operation w).0
        (λ e. nat_eq (suc left) 0 || not (retryable e))
        (retry_from env operation base retryable (suc left) (k + 1)
          (sleep env k base (operation w).1))
        (no_pause k (suc left) w)
        (pause k left w
          (retry_from env operation base retryable (suc left) (k + 1)
            (sleep env k base (operation w).1)).1
          (retry_from-Paused left (k + 1) (sleep env k base (operation w).1)))

some_attempt : (n : ℕ) → (k : ℕ) × (max 1 n ≡ suc k)
some_attempt n = (max 1 n - 1, omega arith)

-- Retrying an operation that does not itself pause adds at most `max_retries` - 1 pauses (none for
-- `max_retries` 0), however it ends. The pause after attempt `k` is between the base delay times `2 ^ k`
-- and a quarter more, if the random draw stays within its bound.
pub retry_operation-pauses :
    (env : Env) (jitter : (n bound : ℕ) → env.uniform n bound ≤ bound) (A : Type 0)
    (operation : Action A) (quiet : (w : World) → (operation w).1.slept ≡ w.slept)
    (policy : RetryPolicy) (retryable : Exn → Bool) (w : World)
    → (ds : List ℕ) × Backoffs policy.base_delay 0 ds
      × (length ds < max 1 policy.max_retries)
      × ((retry_operation env operation policy retryable w).1.slept ≡ w.slept ++ ds)
unfolding retry_operation retry_async
retry_operation-pauses env jitter A operation quiet policy retryable w =
    let (k, e) = some_attempt policy.max_retries in
    let (ds, h, few, pauses) =
      retry_from-Paused env jitter operation quiet policy.base_delay retryable k 0 w in
    rw e (ds, h, omega (arith, few), pauses)

module _ (env : Env) {A : Type 0} (operation : Action A) (base : ℕ) (retryable : Exn → Bool)
    (start : World) where
  -- The worlds in which attempts begin: the first in `start`, and the next one after a pause, in the world
  -- that an attempt left which ended with an exception to retry.
  pub data Begins : ℕ → World → Type 0 where
    first : Begins zero start
    next :
        {n : ℕ} {v : World} (e : Exn)
        → Begins n v
        → (operation v).0 ≡ err e
        → retryable e ≡ true
        → Begins (n + 1) (sleep env n base (operation v).1)

  -- The outcome is that of an attempt that began, one of the first `total`. If it ended with an exception,
  -- there is none left, or the exception is not one to retry.
  abbrev pub LastOf : ℕ → Result A × World → Type 0
  LastOf total p =
      (n : ℕ) × (v : World) × Begins n v
      × (n < total)
      × (p ≡ operation v)
      × ((e : Exn) → (operation v).0 ≡ err e → (n + 1 ≡ total) ⊎ (retryable e ≡ false))

  attempt-LastOf :
      (n total : ℕ) (v v' : World) (r : Result A) (stop : Exn → Bool) (again : Result A × World)
      → operation v ≡ (r, v')
      → Begins n v
      → n < total
      → ((e : Exn) → stop e ≡ true → (n + 1 ≡ total) ⊎ (retryable e ≡ false))
      → ((e : Exn) → r ≡ err e → stop e ≡ false → LastOf total again)
      → LastOf total (elim r as (λ _. Result A × World) [
        | ok a ↦ (ok a, v')
        | err e ↦ if stop e then (err e, v') else again
      ])
  attempt-LastOf n total v v' (ok a) stop again h b few s g =
      let got : (operation v).0 ≡ ok a = ap (λ (p : Result A × World). p.0) h in
      (n, v, b, few, sym h, λ e f. absurd (let p : ok a ≡ err e = sym got ∙ f in cc))
  attempt-LastOf n total v v' (err e) stop again h b few s g = elim (Bool-cases (stop e)) [
    | inl last ↦
        let got : (operation v).0 ≡ err e = ap (λ (p : Result A × World). p.0) h in
        rw last (
          n,
          v,
          b,
          few,
          sym h,
          λ x f.
              let p : err e ≡ err x = sym got ∙ f in
              let same : e ≡ x = cc in
              subst (λ y. (n + 1 ≡ total) ⊎ (retryable y ≡ false)) same (s e last),
        )
    | inr more ↦ rw more (g e refl more)
  ]

  not_final : (m : ℕ) (b : Bool) → (nat_eq (suc m) 0 || not b) ≡ true → b ≡ false
  not_final m b h = ground (arith, h)

  to_retry : (m : ℕ) (b : Bool) → (nat_eq (suc m) 0 || not b) ≡ false → b ≡ true
  to_retry m b h = ground (arith, h)

  retry_from-LastOf :
      (left n total : ℕ) (v : World)
      → Begins n v
      → n + suc left ≡ total
      → LastOf total (retry_from env operation base retryable (suc left) n v)
  unfolding retry_from
  retry_from-LastOf zero n total v b sum =
      attempt-LastOf n total v (operation v).1 (operation v).0
        (λ e. nat_eq 0 0 || not (retryable e))
        (retry_from env operation base retryable 0 (n + 1) (sleep env n base (operation v).1)) refl
        b (omega (arith, sum)) (λ e h. inl (omega (arith, sum))) (λ e f h. absurd cc)
  retry_from-LastOf (suc left) n total v b sum =
      attempt-LastOf n total v (operation v).1 (operation v).0
        (λ e. nat_eq (suc left) 0 || not (retryable e))
        (retry_from env operation base retryable (suc left) (n + 1)
          (sleep env n base (operation v).1))
        refl b (omega (arith, sum)) (λ e h. inr (not_final left (retryable e) h))
        (λ e f h.
          retry_from-LastOf left (n + 1) total (sleep env n base (operation v).1)
            (next e b f (to_retry left (retryable e) h)) (omega (arith, sum)))

-- What retrying ends with, value or exception and the world left, is what its last attempt ended with.
-- Every attempt before that one ended with an exception that is to be retried, and there are at most
-- `max_retries` attempts (one for 0). If the last one ended with an exception, it was the last that is
-- allowed, or the exception is not to be retried.
pub retry_operation-attempt :
    (env : Env) (A : Type 0) (operation : Action A) (policy : RetryPolicy) (retryable : Exn → Bool)
    (w : World)
    → LastOf env operation policy.base_delay retryable w
        (max 1 policy.max_retries)
        (retry_operation env operation policy retryable w)
unfolding retry_operation retry_async
retry_operation-attempt env A operation policy retryable w =
    let (k, e) = some_attempt policy.max_retries in
    rw e (
      retry_from-LastOf env operation policy.base_delay retryable w k 0 (suc k) w first
        (omega arith))
