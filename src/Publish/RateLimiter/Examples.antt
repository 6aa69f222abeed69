-- ===== src/Publish/RateLimiter/Examples.antt =====
-- The limiters of publish/src/rate_limiter.rs at sample counts.
use janitor.Base.{
  String, ◌+◌, ◌≡◌, ◌<◌, refl, some, none, List, [], ◌∷◌, arith, max, min, usize_mod, lookup,
}
use janitor.Publish.Mode.{open_, merged, applied}
use janitor.Publish.RateLimiter.{FixedRateLimiter, SlowStartRateLimiter, MpsPerBucket}
use janitor.Publish.RateLimiter.Counts.{count_in}
use janitor.Publish.RateLimiter.Gate.{calls_for}
use janitor.Publish.RateLimiter.Fixed
use janitor.Publish.RateLimiter.SlowStart

-- At most two proposals, one of them open.
abbrev two : FixedRateLimiter
two = record { max_mps_per_bucket = 2; open_mps_per_bucket = some (("a", 1) ∷ []) }

two-IsReady : Fixed.IsReady two
two-IsReady = record { known = refl; positive = omega arith; fits = omega arith }

-- Three tries, of which two are for the bucket.
abbrev tries : List String
tries = "a" ∷ "b" ∷ "a" ∷ []

fixed_count-try_all_example :
    Fixed.fixed_count (Fixed.fixed_try_all two tries) "a"
    ≡ max (Fixed.fixed_count two "a") (min (Fixed.fixed_count two "a" + calls_for "a" tries) 2)
fixed_count-try_all_example = Fixed.fixed_count-try_all two tries "a" two-IsReady

-- One absorbed proposal, one open one, and a maximum of five.
abbrev slow : SlowStartRateLimiter
slow = record {
  max_mps_per_bucket = some 5;
  open_mps_per_bucket = some (("a", 1) ∷ []);
  absorbed_mps_per_bucket = some (("a", 1) ∷ []);
}

slow-IsReady : SlowStart.IsReady slow
slow-IsReady = record { open_known = refl; absorbed_known = refl }

slow_start_count-try_all_example :
    SlowStart.slow_start_count (SlowStart.slow_start_try_all slow tries) "a"
    ≡ max (SlowStart.slow_start_count slow "a") (
        min
          (SlowStart.slow_start_count slow "a" + calls_for "a" tries)
          (SlowStart.slow_start_cap slow "a"))
slow_start_count-try_all_example = SlowStart.slow_start_count-try_all slow tries "a" slow-IsReady

abbrev mps : MpsPerBucket
mps open_ = some (("a", 4) ∷ [])
mps merged = some (("a", 1) ∷ ("b", 2) ∷ [])
mps applied = some (("a", 3) ∷ [])
mps _ = none

mps_fit : (b : String) → count_in b (mps merged) + count_in b (mps applied) + 1 < usize_mod
unfolding lookup
mps_fit b = ground arith
