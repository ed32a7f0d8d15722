-- ===== src/Limits/Window.antt =====
-- `SlidingWindowRateLimiter` of backend-python/app/middleware/rate_limit.py. Times are whole
-- milliseconds of the monotonic clock, so the window of 60 seconds has 60000; `now - 60 >= t` is
-- written `t + 60000 <= now`.
pub mod Log
pub mod Refines
pub mod Waiting
use chatbot_react_python_nod.Prelude.{
  ℕ, ◌+◌, ◌-◌, ◌/◌, max, String, Option, none, some, List, [], ◌∷◌, ◌++◌, if◌then◌else◌, leb,
  length, Dict, lookup, insert,
}

abbrev pub window : ℕ
window = 60000

-- the accepted requests of each bucket, oldest first
abbrev pub Events : Type 0
Events = Dict (List ℕ)

-- the answer to a request: `None`, the seconds to wait, or the `IndexError` of an empty bucket
pub data Verdict : Type 0 where
  allowed : Verdict
  retry_after : ℕ → Verdict
  index_error : Verdict

-- `self._events[bucket_key]` of a `defaultdict`
unfoldable pub times_of : String → Events → List ℕ
unfolding lookup
times_of key d = elim (lookup key d) [ none ↦ [] | some ts ↦ ts ]

-- the `while` loop that drops what has left the window
unfoldable pub prune : ℕ → List ℕ → List ℕ
prune now [] = []
prune now (t ∷ ts) = let rest = prune now ts in if leb (t + window) now then rest else t ∷ ts

-- `max(1, math.ceil(WINDOW_SECONDS - (now - oldest)))`
unfoldable pub seconds_left : ℕ → ℕ → ℕ
seconds_left now oldest = max 1 ((window - (now - oldest) + 999) / 1000)

-- what a full bucket answers
unfoldable pub refusal : ℕ → List ℕ → Verdict
unfolding seconds_left
refusal now [] = index_error
refusal now (oldest ∷ ts) = retry_after (seconds_left now oldest)

unfoldable pub check : String → ℕ → ℕ → Events → Verdict × Events
unfolding refusal
check key limit now d =
    let ts = prune now (times_of key d) in
    if leb limit (length ts)
    then (refusal now ts, insert key ts d)
    else (allowed, insert key (ts ++ now ∷ []) d)

unfoldable pub reset : Events → Events
reset d = []
