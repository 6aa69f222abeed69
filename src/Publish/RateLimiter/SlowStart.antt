-- ===== src/Publish/RateLimiter/SlowStart.antt =====
-- The limiter whose maximum grows with the absorbed proposals, of publish/src/rate_limiter.rs.
use janitor.Base.{
  String, ℕ, ◌+◌, ◌<◌, ◌≡◌, Option, none, some, List, [], ◌∷◌, arith, true, ltb, false,
  if◌then◌else◌, min, max, str_eq, eq_iff, usize_add_lem, usize_mod, usize_add-lt, is_some,
  unwrap_or, Option-cases, inl, inr,
}
use janitor.Publish.RateLimiter.{
  SlowStartRateLimiter, is_allowed, get_limit, positive, min_or, check_limits,
  slow_start_check_allowed, slow_start_get_max_open, slow_start_inc, inc_open,
}
use janitor.Publish.RateLimiter.Counts.{count_of, count_in, count_of-count_one}
use janitor.Publish.RateLimiter.Gate.{CountingGate, try_all, calls_for, count-try_all}

-- `check_allowed`, then `inc` when it allows.
pub slow_start_try_open : SlowStartRateLimiter → String → SlowStartRateLimiter
slow_start_try_open l bucket =
    if is_allowed (slow_start_check_allowed l bucket) then slow_start_inc l bucket else l

pub slow_start_count : SlowStartRateLimiter → String → ℕ
slow_start_count l bucket = count_in bucket l.open_mps_per_bucket

-- `get_max_open`, or 0 where nothing is known.
pub slow_start_cap : SlowStartRateLimiter → String → ℕ
slow_start_cap l bucket = unwrap_or (slow_start_get_max_open l bucket) 0

-- The counts have been set.
pub record IsReady (l : SlowStartRateLimiter) : Type 0 where
  pub open_known : is_some l.open_mps_per_bucket ≡ true
  pub absorbed_known : is_some l.absorbed_mps_per_bucket ≡ true

-- The two loops over the limits and `get_max_open` describe the same cap.
pub check_limits-min_or :
    (bucket : String) (current limit : ℕ) (m : Option ℕ)
    → is_allowed (check_limits bucket current (m ∷ some limit ∷ [])) ≡ ltb current (min_or limit m)
unfolding check_limits min_or is_allowed
check_limits-min_or bucket current limit none = ground arith
check_limits-min_or bucket current limit (some x) = ground arith

-- `check_allowed` allows a bucket exactly when the counts are known and the bucket's count is below
-- `get_max_open`; while either count is unknown it allows nothing.
slow_start_check_allowed-get_max_open :
    (l : SlowStartRateLimiter) (bucket : String)
    → is_allowed (slow_start_check_allowed l bucket) ≡ (
        if is_some l.open_mps_per_bucket
        then ltb (slow_start_count l bucket) (slow_start_cap l bucket)
        else false)
unfolding slow_start_check_allowed slow_start_get_max_open slow_start_count slow_start_cap
    is_allowed
slow_start_check_allowed-get_max_open l bucket = elim (Option-cases (get_limit l bucket)) [
  | inl e ↦ ground arith
  | inr (limit, e) ↦ elim (Option-cases l.open_mps_per_bucket) [
    | inl e' ↦ ground arith
    | inr (m, e') ↦ ground (
      arith,
      check_limits-min_or bucket (count_of bucket m) limit (positive l.max_mps_per_bucket),
    )
  ]
]

limit-lt : (l : SlowStartRateLimiter) (b : String) → slow_start_cap l b < usize_mod
unfolding slow_start_cap slow_start_get_max_open get_limit min_or
limit-lt l b = elim (Option-cases l.absorbed_mps_per_bucket) [
  | inl e ↦ ground arith
  | inr (m, e) ↦ ground (arith, usize_add-lt (count_of b m) 1)
]

slow_start_try_open-IsReady :
    (l : SlowStartRateLimiter) (b : String) → IsReady l → IsReady (slow_start_try_open l b)
unfolding slow_start_try_open slow_start_inc inc_open
slow_start_try_open-IsReady l b r = ground arith

cap-slow_start_try_open :
    (l : SlowStartRateLimiter) (b j : String)
    → slow_start_cap (slow_start_try_open l b) j ≡ slow_start_cap l j
unfolding slow_start_cap slow_start_get_max_open get_limit slow_start_try_open slow_start_inc
cap-slow_start_try_open l b j = ground arith

count-slow_start_try_open :
    (l : SlowStartRateLimiter) (b j : String)
    → IsReady l
    → slow_start_count (slow_start_try_open l b) j ≡ (
        if str_eq b j
        then max (slow_start_count l j) (min (slow_start_count l j + 1) (slow_start_cap l j))
        else slow_start_count l j)
unfolding slow_start_try_open slow_start_count slow_start_inc inc_open
count-slow_start_try_open l b j r = elim (Option-cases l.open_mps_per_bucket) [
  | inl e ↦ ground (arith, r.open_known)
  | inr (m, e) ↦ ground (
    arith,
    slow_start_check_allowed-get_max_open l b,
    count_of-count_one b j m,
    usize_add_lem (count_of j m) 1,
    limit-lt l j,
    eq_iff b j,
  )
]

abbrev slow_start_gate : CountingGate SlowStartRateLimiter
slow_start_gate = record {
  IsReady = IsReady;
  try_open = slow_start_try_open;
  count = slow_start_count;
  cap = slow_start_cap;
  try_open-IsReady = slow_start_try_open-IsReady;
  count-try_open = count-slow_start_try_open;
  cap-try_open = cap-slow_start_try_open;
}

pub slow_start_try_all : SlowStartRateLimiter → List String → SlowStartRateLimiter
slow_start_try_all = try_all slow_start_gate

-- Starting from known counts, after any sequence of guarded openings the count of each bucket is
-- its old count plus the number of tries for that bucket, cut off at `get_max_open`; a count that
-- already stood above that stays what it was.
pub slow_start_count-try_all :
    (l : SlowStartRateLimiter) (bs : List String) (j : String)
    → IsReady l
    → slow_start_count (slow_start_try_all l bs) j
      ≡ max
          (slow_start_count l j)
          (min (slow_start_count l j + calls_for j bs) (slow_start_cap l j))
unfolding slow_start_try_all
slow_start_count-try_all l bs j r = count-try_all slow_start_gate l bs j r
