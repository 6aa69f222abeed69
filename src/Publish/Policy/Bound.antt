-- ===== src/Publish/Policy/Bound.antt =====
-- How `publish_from_policy` (publish/src/lib.rs) uses the rate limiter.
use janitor.Base.{
  String, ◌≡◌, refl, Option, none, some, true, false, ◌&&◌, Outcome, ok, err, panic, arith,
  Bool-cases, inl, inr, ◌⊎◌, is_some, unwrap_or,
}
use janitor.Publish.Mode.{Mode}
use janitor.Publish.Failure.{PublishError, failure}
use janitor.Publish.RateLimiter.{RateLimiter, is_allowed, check_allowed, inc}
use janitor.Publish.Policy.Types.{Campaign, Environment, World, PolicyArgs, PublishOneResult}
use janitor.Publish.Policy.Gates.{Target}
use janitor.Publish.Policy.Worker.{Folded, bump}
use janitor.Publish.Policy.{record_outcome, after_worker, run_worker, publish_from_policy}
use janitor.Publish.Policy.Frame.{announce_frame, record_outcome_cases, run_worker_cases}
use janitor.Publish.Policy.Guards.{publish_from_policy_cases, opens_proposal, bucket_allows_lem}

-- The limiter is as before, or has counted one proposal for the bucket of the call.
abbrev pub CountsOne : Option String → RateLimiter → RateLimiter → Type 0
CountsOne bucket before after =
    (after ≡ before) ⊎ ((b : String) × (bucket ≡ some b) × (after ≡ inc before b))

bump-CountsOne :
    (bucket : Option String) (r : Option PublishOneResult) (limiter : RateLimiter)
    → CountsOne bucket limiter (bump bucket r limiter)
unfolding bump
bump-CountsOne none none limiter = inl refl
bump-CountsOne (some b) none limiter = inl refl
bump-CountsOne none (some r) limiter = inl refl
bump-CountsOne (some b) (some r) limiter =
    elim (Bool-cases (unwrap_or r.is_new false && is_some r.proposal_url)) [
      | inl e ↦ inr (b, refl, rw e)
      | inr e ↦ inl (rw e)
    ]

module _ (env : Environment) (campaign : Campaign) (a : PolicyArgs) where
  record_outcome-CountsOne :
      (mode : Mode) (t : Target) (f : Folded) (w : World)
      → CountsOne a.rate_limit_bucket w.limiter (record_outcome env campaign a mode t f w).1.limiter
  record_outcome-CountsOne mode t f w = elim (record_outcome_cases env a campaign mode t f w) [
    | inl (e, same) ↦ inl (rw same)
    | inr (db', e, same) ↦
        rw (same, (announce_frame env a _ _).2)
          (bump-CountsOne a.rate_limit_bucket f.result w.limiter)
  ]

  after_worker-CountsOne :
      (mode : Mode) (t : Target) (o : Outcome PublishError PublishOneResult) (w : World)
      → CountsOne a.rate_limit_bucket w.limiter (after_worker env campaign a mode t o w).1.limiter
  unfolding after_worker
  after_worker-CountsOne mode t (ok r) w = record_outcome-CountsOne mode t _ w
  after_worker-CountsOne mode t (err (failure c d)) w =
      record_outcome-CountsOne mode t _ (record w { scheduled = _ })
  after_worker-CountsOne mode t (err _) w = inl refl
  after_worker-CountsOne mode t panic w = inl refl

  run_worker-CountsOne :
      (mode : Mode) (t : Target) (w : World)
      → CountsOne a.rate_limit_bucket w.limiter (run_worker env campaign a mode t w).1.limiter
  run_worker-CountsOne mode t w = elim (run_worker_cases env a campaign mode t w) [
    | inl nothing ↦ inl (rw nothing)
    | inr worked ↦ rw worked (after_worker-CountsOne mode t _ (record w { requests = _ }))
  ]

  -- A call of `publish_from_policy` leaves the limiter as it was, or counts exactly one proposal,
  -- in the bucket of the call.
  pub publish_from_policy-CountsOne :
      (w : World)
      → CountsOne a.rate_limit_bucket w.limiter (publish_from_policy env campaign a w).1.limiter
  publish_from_policy-CountsOne w = elim (publish_from_policy_cases env campaign a w) [
    | inl (w', same, k, d, l) ↦ inl (rw same l)
    | inr (t, e, cleared, same) ↦ rw same (run_worker-CountsOne a.mode t w)
  ]

  -- If the mode may open a proposal where none is open, and the limiter does not allow the bucket,
  -- then the worker is not asked, the limiter counts nothing and nothing is recorded.
  pub publish_from_policy_limited :
      (w : World) (b : String)
      → opens_proposal env campaign a w ≡ true
      → a.rate_limit_bucket ≡ some b
      → is_allowed (check_allowed w.limiter b) ≡ false
      → ((publish_from_policy env campaign a w).0 ≡ ok none)
        × ((publish_from_policy env campaign a w).1.requests ≡ w.requests)
        × ((publish_from_policy env campaign a w).1.limiter ≡ w.limiter)
        × ((publish_from_policy env campaign a w).1.db ≡ w.db)
  publish_from_policy_limited w b o e no_room = elim (publish_from_policy_cases env campaign a w) [
    | inl (w', same, k, d, l) ↦ (rw same, rw same k, rw same l, rw same d)
    | inr (t, e', cleared, same) ↦
        absurd (ground (arith, cleared.within_limit, bucket_allows_lem w.limiter b))
  ]
