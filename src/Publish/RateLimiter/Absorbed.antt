-- ===== src/Publish/RateLimiter/Absorbed.antt =====
-- What set_mps_per_bucket of publish/src/rate_limiter.rs makes of the counts of two statuses.
use janitor.Base.{
  String, ℕ, ◌+◌, ◌<◌, ◌≡◌, refl, ap, ◌∙◌, Option, none, some, [], ◌∷◌, arith, if◌then◌else◌,
  str_eq, eq_iff, usize_add, usize_add_lem, usize_mod, unwrap_or, Option-cases, inl, inr, Dict,
  lookup, lookup-insert, HasUniqueKeys,
}
use janitor.Publish.Mode.{open_, merged, applied}
use janitor.Publish.RateLimiter.{
  SlowStartRateLimiter, MpsPerBucket, absorb, absorb_all, get_limit, slow_start_set_mps_per_bucket,
}
use janitor.Publish.RateLimiter.Counts.{count_of, count_in}

count_of-absorb :
    (b j : String) (n : ℕ) (m : Dict ℕ)
    → n + count_of b m < usize_mod
    → count_of j (absorb b n m) ≡ (if str_eq b j then n + count_of j m else count_of j m)
unfolding absorb
count_of-absorb b j n m h = elim (Option-cases (lookup b m)) [
  | inl e ↦ ground (arith, lookup-insert b j n m, eq_iff b j)
  | inr (c, e) ↦ ground (arith, lookup-insert b j (usize_add c n) m, usize_add_lem c n, eq_iff b j)
]

count_of-absorb_all :
    (xs m : Dict ℕ) (j : String)
    → HasUniqueKeys xs
    → ((b : String) → count_of b xs + count_of b m < usize_mod)
    → count_of j (absorb_all xs m) ≡ count_of j xs + count_of j m
unfolding absorb_all lookup
count_of-absorb_all [] m j u h = omega arith
count_of-absorb_all ((b, n) ∷ xs) m j u h =
    rw (count_of-absorb_all xs (absorb b n m) j u.1 fits)
      (ground (arith, count_of-absorb b j n m head_fits, u.0, eq_iff b j))
  where
    head_fits : n + count_of b m < usize_mod
    head_fits = ground (arith, h b, eq_iff b b)

    fits : (i : String) → count_of i xs + count_of i (absorb b n m) < usize_mod
    fits i = ground (arith, count_of-absorb b i n m head_fits, h i, u.0, eq_iff b i)

-- The keys of a status's map, where it has one, are distinct.
abbrev pub IsMap : Option (Dict ℕ) → Type 0
IsMap none = Unit
IsMap (some m) = HasUniqueKeys m

count_of-unwrap_or : (j : String) (o : Option (Dict ℕ)) → count_of j (unwrap_or o []) ≡ count_in j o
unfolding lookup
count_of-unwrap_or j none = refl
count_of-unwrap_or j (some m) = refl

unwrap_or-HasUniqueKeys : (o : Option (Dict ℕ)) → IsMap o → HasUniqueKeys (unwrap_or o [])
unwrap_or-HasUniqueKeys none u = u
unwrap_or-HasUniqueKeys (some m) u = u

count_of-absorb_both :
    (xs ys : Dict ℕ) (j : String)
    → HasUniqueKeys xs
    → HasUniqueKeys ys
    → ((b : String) → count_of b xs + count_of b ys + 1 < usize_mod)
    → count_of j (absorb_all ys (absorb_all xs [])) ≡ count_of j xs + count_of j ys
unfolding lookup
count_of-absorb_both xs ys j ux uy h =
    rw (count_of-absorb_all ys (absorb_all xs []) j uy (λ b. ground (arith, first b, h b)), first j)
      (omega arith)
  where
    first : (b : String) → count_of b (absorb_all xs []) ≡ count_of b xs
    first b = count_of-absorb_all xs [] b ux (λ i. omega (arith, h i)) ∙ omega arith

module _ (l : SlowStartRateLimiter) (mps : MpsPerBucket) where
  -- After `set_mps_per_bucket`, where no sum leaves `usize`, a bucket's limit is one more than the
  -- number of its merged and applied proposals together, and its open count is the one given.
  get_limit-set_mps_per_bucket :
      (j : String)
      → IsMap (mps merged)
      → IsMap (mps applied)
      → ((b : String) → count_in b (mps merged) + count_in b (mps applied) + 1 < usize_mod)
      → (get_limit (slow_start_set_mps_per_bucket l mps) j
          ≡ some (count_in j (mps merged) + count_in j (mps applied) + 1))
        × (count_in j (slow_start_set_mps_per_bucket l mps).open_mps_per_bucket
            ≡ count_in j (mps open_))
  unfolding slow_start_set_mps_per_bucket get_limit
  get_limit-set_mps_per_bucket j um ua h = (
    ap some (
        ground (
          arith,
          absorbed j,
          fits j,
          usize_add_lem (count_in j (mps merged) + count_in j (mps applied)) 1,
        )),
    count_of-unwrap_or j (mps open_),
  )
    where
      fits :
          (b : String)
          → count_of b (unwrap_or (mps merged) []) + count_of b (unwrap_or (mps applied) []) + 1
            < usize_mod
      fits b = rw (count_of-unwrap_or b (mps merged), count_of-unwrap_or b (mps applied)) (h b)

      absorbed :
          (b : String)
          → count_of b
              (absorb_all (unwrap_or (mps applied) []) (absorb_all (unwrap_or (mps merged) []) []))
            ≡ count_in b (mps merged) + count_in b (mps applied)
      absorbed b =
          count_of-absorb_both (unwrap_or (mps merged) []) (unwrap_or (mps applied) []) b
            (unwrap_or-HasUniqueKeys (mps merged) um) (unwrap_or-HasUniqueKeys (mps applied) ua)
            fits
          ∙ rw (count_of-unwrap_or b (mps merged), count_of-unwrap_or b (mps applied))
