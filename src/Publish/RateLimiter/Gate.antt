-- ===== src/Publish/RateLimiter/Gate.antt =====
-- What a limiter of publish/src/rate_limiter.rs promises to a caller that asks before it opens a
-- merge proposal and counts each one that it opens, as publish_from_policy does.
use janitor.Base.{
  String, ℕ, ◌+◌, ◌≡◌, inl, inr, List, [], ◌∷◌, arith, if◌then◌else◌, min, max, str_eq, Bool-cases,
}

-- The calls for `bucket` among the calls for all buckets.
abbrev pub calls_for : String → List String → ℕ
calls_for bucket [] = 0
calls_for bucket (b ∷ bs) = (if str_eq b bucket then 1 else 0) + calls_for bucket bs

-- A limiter as its callers see it: each bucket has a count and a cap; a guarded opening raises the
-- count by one below the cap, and otherwise changes nothing.
pub record CountingGate (L : Type 0) : Type 1 where
  pub IsReady : L → Type 0
  pub try_open : L → String → L
  pub count : L → String → ℕ
  pub cap : L → String → ℕ
  pub try_open-IsReady : (l : L) (b : String) → IsReady l → IsReady (try_open l b)
  pub count-try_open :
      (l : L) (b j : String)
      → IsReady l
      → count (try_open l b) j
        ≡ (if str_eq b j then max (count l j) (min (count l j + 1) (cap l j)) else count l j)
  pub cap-try_open : (l : L) (b j : String) → cap (try_open l b) j ≡ cap l j

module _ {L : Type 0} (g : CountingGate L) where
  open g use {IsReady, try_open, count, cap, try_open-IsReady, count-try_open, cap-try_open}

  pub try_all : L → List String → L
  try_all l [] = l
  try_all l (b ∷ bs) = try_all (try_open l b) bs

  pub count-try_all :
      (l : L) (bs : List String) (j : String)
      → IsReady l
      → count (try_all l bs) j ≡ max (count l j) (min (count l j + calls_for j bs) (cap l j))
  unfolding try_all
  count-try_all l [] j r = omega arith
  count-try_all l (b ∷ bs) j r =
      rw
        (
          count-try_all (try_open l b) bs j (try_open-IsReady l b r),
          cap-try_open l b j,
          count-try_open l b j r,
        )
        (elim (Bool-cases (str_eq b j)) [
          | inl same ↦ rw same (omega arith)
          | inr other ↦ rw other (omega arith)
        ])
