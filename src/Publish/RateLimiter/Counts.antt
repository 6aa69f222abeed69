-- ===== src/Publish/RateLimiter/Counts.antt =====
-- The open counts that both limiters of publish/src/rate_limiter.rs keep.
use janitor.Base.{
  String, ℕ, ◌≡◌, Option, none, some, arith, if◌then◌else◌, str_eq, eq_iff, usize_add, unwrap_or,
  Dict, lookup, lookup-insert,
}
use janitor.Publish.RateLimiter.{count_one}

abbrev pub count_of : String → Dict ℕ → ℕ
count_of bucket counts = unwrap_or (lookup bucket counts) 0

-- The known number of open proposals of a bucket; 0 where nothing is known.
abbrev pub count_in : String → Option (Dict ℕ) → ℕ
count_in bucket none = 0
count_in bucket (some counts) = count_of bucket counts

pub count_of-count_one :
    (b j : String) (m : Dict ℕ)
    → count_of j (count_one b m) ≡ (if str_eq b j then usize_add (count_of j m) 1 else count_of j m)
unfolding count_one
count_of-count_one b j m =
    ground (arith, lookup-insert b j (usize_add (count_of b m) 1) m, eq_iff b j)
