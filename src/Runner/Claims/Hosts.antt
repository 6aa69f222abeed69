-- ===== src/Runner/Claims/Hosts.antt =====
-- The hosts that limit their rate (runner/src/database.rs).
use janitor.Base.{
  ℕ, ◌≡◌, ◌≤◌, refl, Option, none, some, [], ◌∷◌, Bool, true, false, arith, Bool-cases, inl, inr,
  Dict, ltb, leb,
}
use janitor.Runner.Claims.{
  Redis, still_limited, get_rate_limited_hosts, is_past, without_past, maintenance_cleanup,
}

still_limited-without_past :
    (now later : ℕ)
    → now ≤ later
    → (hosts : Dict (Option ℕ))
    → still_limited later (without_past now hosts) ≡ still_limited later hosts
unfolding still_limited without_past is_past
still_limited-without_past now later h [] = refl
still_limited-without_past now later h ((host, none) ∷ rest) =
    still_limited-without_past now later h rest
still_limited-without_past now later h ((host, some retry_time) ∷ rest) =
    elim (Bool-cases (leb retry_time now)) [
      | inl e ↦ elim (Bool-cases (ltb later retry_time)) [
        | inl f ↦ absurd (ground (arith, e, f, h))
        | inr f ↦ rw (e, f) (still_limited-without_past now later h rest)
      ]
      | inr e ↦ rw (e, still_limited-without_past now later h rest) refl
    ]

-- The maintenance of the limited hosts is never seen: from its time on, the hosts that still limit
-- their rate are the same as without it.
pub get_rate_limited_hosts-maintenance_cleanup :
    (reads cleans : Bool) (now later : ℕ) (redis : Option Redis)
    → now ≤ later
    → get_rate_limited_hosts reads later (maintenance_cleanup cleans now redis)
      ≡ get_rate_limited_hosts reads later redis
unfolding get_rate_limited_hosts maintenance_cleanup
get_rate_limited_hosts-maintenance_cleanup reads cleans now later none h = refl
get_rate_limited_hosts-maintenance_cleanup reads true now later (some r) h =
    rw (still_limited-without_past now later h r.rate_limit_hosts) refl
get_rate_limited_hosts-maintenance_cleanup reads false now later (some r) h = refl
