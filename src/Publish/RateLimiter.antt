-- ===== src/Publish/RateLimiter.antt =====
-- publish/src/rate_limiter.rs: limits on the open merge proposals of a bucket.
pub mod Gate
pub mod Counts
pub mod Absorbed
pub mod SlowStart
pub mod Fixed
mod Examples
use janitor.Base.{
  String, ℕ, ◌+◌, ◌<◌, ◌≤◌, ◌≡◌, refl, Option, none, some, Bool, true, false, List, [], ◌∷◌, arith,
  leb, ltb, if◌then◌else◌, min, usize_add, unwrap_or, Dict, lookup, insert,
}
use mathlib.Core.Option
use janitor.Publish.Mode.{MergeProposalStatus, open_, merged, applied}

pub data RateLimitStatus : Type 0 where
  allowed rate_limited : RateLimitStatus
  bucket_rate_limited : String → ℕ → ℕ → RateLimitStatus

unfoldable pub is_allowed : RateLimitStatus → Bool
is_allowed allowed = true
is_allowed rate_limited = false
is_allowed (bucket_rate_limited bucket open_mps max_open_mps) = false

-- `HashMap<MergeProposalStatus, HashMap<String, usize>>`: `none` is a status that is not a key.
abbrev pub MpsPerBucket : Type 0
MpsPerBucket = MergeProposalStatus → Option (Dict ℕ)

pub record FixedRateLimiter : Type 0 where
  pub max_mps_per_bucket : ℕ
  pub open_mps_per_bucket : Option (Dict ℕ)

pub record SlowStartRateLimiter : Type 0 where
  pub max_mps_per_bucket : Option ℕ
  pub open_mps_per_bucket : Option (Dict ℕ)
  pub absorbed_mps_per_bucket : Option (Dict ℕ)

-- `*entry(bucket).or_insert(0) += 1`
unfoldable pub count_one : String → Dict ℕ → Dict ℕ
count_one bucket m = insert bucket (usize_add (unwrap_or (lookup bucket m) 0) 1) m

unfoldable pub inc_open : Option (Dict ℕ) → String → Option (Dict ℕ)
inc_open none bucket = none
inc_open (some m) bucket = some (count_one bucket m)

-- `RateLimitStats` has the one field `per_bucket`.
pub open_stats : Option (Dict ℕ) → Option (Dict ℕ)
open_stats m = m

pub fixed_new : ℕ → FixedRateLimiter
fixed_new max = record { max_mps_per_bucket = max; open_mps_per_bucket = none }

pub fixed_set_mps_per_bucket : FixedRateLimiter → MpsPerBucket → FixedRateLimiter
fixed_set_mps_per_bucket l mps = record l { open_mps_per_bucket = mps open_ }

unfoldable pub fixed_check_allowed : FixedRateLimiter → String → RateLimitStatus
fixed_check_allowed l bucket = elim l.open_mps_per_bucket [
  | none ↦ rate_limited
  | some counts ↦ elim (lookup bucket counts) [
    | none ↦ allowed
    | some current ↦
        if leb l.max_mps_per_bucket current
        then bucket_rate_limited bucket current l.max_mps_per_bucket
        else allowed
  ]
]

unfoldable pub fixed_inc : FixedRateLimiter → String → FixedRateLimiter
fixed_inc l bucket = record l { open_mps_per_bucket = inc_open l.open_mps_per_bucket bucket }

pub slow_start_new : Option ℕ → SlowStartRateLimiter
slow_start_new max = record {
  max_mps_per_bucket = max;
  open_mps_per_bucket = none;
  absorbed_mps_per_bucket = none;
}

pub get_limit : SlowStartRateLimiter → String → Option ℕ
get_limit l bucket =
    Option.map (λ absorbed. usize_add (unwrap_or (lookup bucket absorbed) 0) 1)
      l.absorbed_mps_per_bucket

-- `filter(|max| *max > 0)`: a maximum of 0 means no maximum.
pub positive : Option ℕ → Option ℕ
positive none = none
positive (some max) = if ltb 0 max then some max else none

-- `for max_open_mps in [max, Some(limit)].into_iter().flatten()`
pub check_limits : String → ℕ → List (Option ℕ) → RateLimitStatus
check_limits bucket current [] = allowed
check_limits bucket current (none ∷ rest) = check_limits bucket current rest
check_limits bucket current (some max_open_mps ∷ rest) =
    let later = check_limits bucket current rest in
    if leb max_open_mps current then bucket_rate_limited bucket current max_open_mps else later

pub slow_start_check_allowed : SlowStartRateLimiter → String → RateLimitStatus
slow_start_check_allowed l bucket = elim l.open_mps_per_bucket [
  | none ↦ rate_limited
  | some counts ↦ elim (get_limit l bucket) [
    | none ↦ rate_limited
    | some limit ↦
        check_limits bucket (unwrap_or (lookup bucket counts) 0)
          (positive l.max_mps_per_bucket ∷ some limit ∷ [])
  ]
]

-- `max.map_or(limit, |max| max.min(limit))`
pub min_or : ℕ → Option ℕ → ℕ
min_or limit none = limit
min_or limit (some max) = min max limit

pub slow_start_get_max_open : SlowStartRateLimiter → String → Option ℕ
slow_start_get_max_open l bucket =
    Option.map (λ limit. min_or limit (positive l.max_mps_per_bucket)) (get_limit l bucket)

pub slow_start_inc : SlowStartRateLimiter → String → SlowStartRateLimiter
slow_start_inc l bucket = record l { open_mps_per_bucket = inc_open l.open_mps_per_bucket bucket }

-- `entry(bucket).and_modify(|e| *e += count).or_insert(*count)`
pub absorb : String → ℕ → Dict ℕ → Dict ℕ
absorb bucket count m = elim (lookup bucket m) [
  | none ↦ insert bucket count m
  | some e ↦ insert bucket (usize_add e count) m
]

-- The inner loop of `set_mps_per_bucket`: the counts of one status.
pub absorb_all : Dict ℕ → Dict ℕ → Dict ℕ
absorb_all [] m = m
absorb_all ((bucket, count) ∷ rest) m = absorb_all rest (absorb bucket count m)

pub slow_start_set_mps_per_bucket : SlowStartRateLimiter → MpsPerBucket → SlowStartRateLimiter
slow_start_set_mps_per_bucket l mps = record l {
  open_mps_per_bucket = some (unwrap_or (mps open_) []);
  absorbed_mps_per_bucket =
      some (absorb_all (unwrap_or (mps applied) []) (absorb_all (unwrap_or (mps merged) []) []));
}

-- `Box<dyn RateLimiter>`
pub data RateLimiter : Type 0 where
  non : RateLimiter
  fixed : FixedRateLimiter → RateLimiter
  slow_start : SlowStartRateLimiter → RateLimiter

pub set_mps_per_bucket : RateLimiter → MpsPerBucket → RateLimiter
set_mps_per_bucket non mps = non
set_mps_per_bucket (fixed l) mps = fixed (fixed_set_mps_per_bucket l mps)
set_mps_per_bucket (slow_start l) mps = slow_start (slow_start_set_mps_per_bucket l mps)

unfoldable pub check_allowed : RateLimiter → String → RateLimitStatus
check_allowed non bucket = allowed
check_allowed (fixed l) bucket = fixed_check_allowed l bucket
check_allowed (slow_start l) bucket = slow_start_check_allowed l bucket

unfoldable pub inc : RateLimiter → String → RateLimiter
inc non bucket = non
inc (fixed l) bucket = fixed (fixed_inc l bucket)
inc (slow_start l) bucket = slow_start (slow_start_inc l bucket)

pub get_stats : RateLimiter → Option (Dict ℕ)
get_stats non = none
get_stats (fixed l) = open_stats l.open_mps_per_bucket
get_stats (slow_start l) = open_stats l.open_mps_per_bucket

pub get_max_open : RateLimiter → String → Option ℕ
get_max_open non bucket = none
get_max_open (fixed l) bucket = none
get_max_open (slow_start l) bucket = slow_start_get_max_open l bucket
