-- ===== src/Publish/RateLimiter/Fixed.antt =====
-- The limiter with one maximum for every bucket, of publish/src/rate_limiter.rs.
use janitor.Base.{
  String, ℕ, ◌+◌, ◌≤◌, ◌<◌, ◌≡◌, List, arith, true, if◌then◌else◌, min, max, str_eq, eq_iff,
  usize_add_lem, usize_mod, is_some, Option-cases, inl, inr,
}
use janitor.Publish.RateLimiter.{
  FixedRateLimiter, is_allowed, fixed_check_allowed, fixed_inc, inc_open,
}
use janitor.Publish.RateLimiter.Counts.{count_of, count_in, count_of-count_one}
use janitor.Publish.RateLimiter.Gate.{CountingGate, try_all, calls_for, count-try_all}

-- `check_allowed`, then `inc` when it allows.
pub fixed_try_open : FixedRateLimiter → String → FixedRateLimiter
fixed_try_open l bucket =
    if is_allowed (fixed_check_allowed l bucket) then fixed_inc l bucket else l

pub fixed_count : FixedRateLimiter → String → ℕ
fixed_count l bucket = count_in bucket l.open_mps_per_bucket

-- The counts have been set, and the maximum is a positive `usize`.
pub record IsReady (l : FixedRateLimiter) : Type 0 where
  pub known : is_some l.open_mps_per_bucket ≡ true
  pub positive : 1 ≤ l.max_mps_per_bucket
  pub fits : l.max_mps_per_bucket < usize_mod

fixed_try_open-IsReady :
    (l : FixedRateLimiter) (b : String) → IsReady l → IsReady (fixed_try_open l b)
unfolding fixed_try_open fixed_inc inc_open
fixed_try_open-IsReady l b r = ground arith

max-fixed_try_open :
    (l : FixedRateLimiter) (b j : String)
    → (fixed_try_open l b).max_mps_per_bucket ≡ l.max_mps_per_bucket
unfolding fixed_try_open fixed_inc
max-fixed_try_open l b j = ground arith

count-fixed_try_open :
    (l : FixedRateLimiter) (b j : String)
    → IsReady l
    → fixed_count (fixed_try_open l b) j ≡ (
        if str_eq b j
        then max (fixed_count l j) (min (fixed_count l j + 1) l.max_mps_per_bucket)
        else fixed_count l j)
unfolding fixed_count fixed_try_open fixed_inc inc_open fixed_check_allowed is_allowed
count-fixed_try_open l b j r = elim (Option-cases l.open_mps_per_bucket) [
  | inl e ↦ ground arith
  | inr (m, e) ↦
      ground (arith, count_of-count_one b j m, usize_add_lem (count_of j m) 1, eq_iff b j)
]

abbrev fixed_gate : CountingGate FixedRateLimiter
fixed_gate = record {
  IsReady = IsReady;
  try_open = fixed_try_open;
  count = fixed_count;
  cap = λ l b. l.max_mps_per_bucket;
  try_open-IsReady = fixed_try_open-IsReady;
  count-try_open = count-fixed_try_open;
  cap-try_open = max-fixed_try_open;
}

pub fixed_try_all : FixedRateLimiter → List String → FixedRateLimiter
fixed_try_all = try_all fixed_gate

-- Starting from known counts and a maximum of at least 1, after any sequence of guarded openings
-- the count of each bucket is its old count plus the number of tries for that bucket, cut off at
-- the maximum; a count that already stood above the maximum stays what it was.
pub fixed_count-try_all :
    (l : FixedRateLimiter) (bs : List String) (j : String)
    → IsReady l
    → fixed_count (fixed_try_all l bs) j
      ≡ max (fixed_count l j) (min (fixed_count l j + calls_for j bs) l.max_mps_per_bucket)
unfolding fixed_try_all
fixed_count-try_all l bs j r = count-try_all fixed_gate l bs j r
