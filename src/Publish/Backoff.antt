-- ===== src/Publish/Backoff.antt =====
-- publish/src/lib.rs and publish/src/queue.rs: when a run may be tried again, and whether the last
-- scan of the merge proposals is recent. Times and durations are microseconds.
use native.Mathlib.Nat.{pow-le-pow_right}
use janitor.Base.{
  ℕ, ◌+◌, ◌-◌, ◌*◌, ◌^◌, ◌≤◌, ◌≡◌, Bool, false, Option, none, some, arith, leb, leb→le, Bool-cases,
  inl, inr, ◌==◌, if◌then◌else◌, min,
}
use janitor.Base.Int.{ℤ, leb_ℤ}

abbrev pub hour : ℕ
hour = 3600000000

abbrev pub day : ℕ
day = 86400000000

unfoldable pub backoff_hours : ℕ → ℕ
backoff_hours attempt_count =
    if leb 8 attempt_count then 7 * 24 else min (2 ^ attempt_count) (7 * 24)

unfoldable pub calculate_next_try_time : ℕ → ℕ → ℕ
calculate_next_try_time finish_time attempt_count =
    if attempt_count == 0 then finish_time else finish_time + backoff_hours attempt_count * hour

pub max_full_scan_age_days : ℕ
max_full_scan_age_days = 7

-- `Utc::now()` is an argument. A time in the future counts as recent, as in the source, where the
-- difference is then negative.
pub scan_ts_is_recent : ℕ → Option ℕ → Bool
unfolding max_full_scan_age_days
scan_ts_is_recent now none = false
scan_ts_is_recent now (some t) = leb (now - t) (max_full_scan_age_days * day)

-- The campaign's `merge_proposal.value_threshold` is the first argument.
unfoldable pub run_sufficient_for_proposal : Option ℤ → Option ℤ → Bool
run_sufficient_for_proposal (some threshold) (some run_value) = leb_ℤ threshold run_value
run_sufficient_for_proposal none _ = Bool.true
run_sufficient_for_proposal _ none = Bool.true

-- The delay after `n` attempts is nothing for none, and otherwise 2^n hours but at most a week: the
-- cut-off at eight attempts loses nothing.
calculate_next_try_time-exact :
    (finish n : ℕ)
    → calculate_next_try_time finish n ≡ finish + (if n == 0 then 0 else min (2 ^ n) 168) * hour
unfolding calculate_next_try_time backoff_hours
calculate_next_try_time-exact finish n = elim (Bool-cases (leb 8 n)) [
  | inl late ↦
      ground (arith, pow-le-pow_right {n = 2} (omega arith) {i = 8} {j = n} (leb→le 8 n late))
  | inr early ↦ ground arith
]

-- More attempts never bring the next try forward, and it lies within a week of the run's end.
calculate_next_try_time_mono :
    (finish m n : ℕ)
    → m ≤ n
    → (calculate_next_try_time finish m ≤ calculate_next_try_time finish n)
      × (calculate_next_try_time finish n ≤ finish + 7 * day)
calculate_next_try_time_mono finish m n h =
    rw (calculate_next_try_time-exact finish m, calculate_next_try_time-exact finish n)
      (ground (arith, pow-le-pow_right {n = 2} (omega arith) h))
