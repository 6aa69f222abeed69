-- ===== src/Publish/Policy/Guards.antt =====
-- When `publish_from_policy` (publish/src/lib.rs) asks the worker to publish.
use janitor.Base.{
  String, ℕ, ◌≡◌, ◌≢◌, refl, Option, none, some, [], ◌∷◌, ◌++◌, Bool, true, false, ◌&&◌, ◌||◌, not,
  arith, Option-cases, Bool-cases, inl, inr, ◌⊎◌, ok, eq_iff, is_some, unwrap_or,
}
use janitor.Base.Int.{ℤ, ltb_ℤ}
use janitor.Publish.Mode.{Mode}
use janitor.Publish.RateLimiter.{RateLimiter, is_allowed, check_allowed}
use janitor.Publish.Database.{already_published, get_open_merge_proposal, check_last_published}
use janitor.Publish.Policy.Types.{Campaign, Environment, World, PolicyArgs}
use janitor.Publish.Policy.Gates.{
  Target, command_guard, select_target, is_gated, is_proposing, modes_to_check, is_done_before,
  bucket_gate, age_days, frequency_gate, policy_mode,
}
use janitor.Publish.Policy.Worker.{make_request}
use janitor.Publish.Policy.{run_worker, publish_target, publish_from_policy}
use janitor.Publish.Policy.Frame.{requests-run_worker}

-- The mode may open a proposal, and none is open for this codebase and branch name.
unfoldable pub opens_proposal : Environment → Campaign → PolicyArgs → World → Bool
opens_proposal env campaign a w =
    is_proposing a.mode
    && not (
        is_some (
          get_open_merge_proposal env.parses_url w.db a.run.codebase
            (unwrap_or campaign.branch_name "")))

pub bucket_allows : RateLimiter → Option String → Bool
bucket_allows limiter none = true
bucket_allows limiter (some bucket) = is_allowed (check_allowed limiter bucket)

pub bucket_allows_lem :
    (limiter : RateLimiter) (bucket : String)
    → bucket_allows limiter (some bucket) ≡ is_allowed (check_allowed limiter bucket)
unfolding bucket_allows
bucket_allows_lem limiter bucket = refl

pub is_too_recent : ℕ → Option ℤ → Option ℕ → Bool
is_too_recent now none last = false
is_too_recent now (some max_days) none = false
is_too_recent now (some max_days) (some last) = ltb_ℤ (age_days now last) max_days

-- Everything that the policy asks for.
pub record IsCleared (env : Environment) (campaign : Campaign) (a : PolicyArgs) (w : World)
    (t : Target) : Type 0 where
  pub same_command : a.command ≡ a.run.command
  pub has_command : a.command ≢ ""
  pub publishes : is_gated a.mode ≡ false
  pub not_done :
      a.force
        || not (
            already_published w.db t.url
              (unwrap_or campaign.branch_name "")
              t.revision
              (modes_to_check a.mode))
      ≡ true
  pub within_limit :
      not (opens_proposal env campaign a w) || bucket_allows w.limiter a.rate_limit_bucket ≡ true
  pub within_frequency :
      not (opens_proposal env campaign a w)
        || not (
            is_too_recent env.now a.max_frequency_days
              (check_last_published w.db a.run.suite a.run.codebase))
      ≡ true

-- What remains of a mode after the two gates.
gates_keep :
    (limiter : RateLimiter) (bucket : Option String) (now : ℕ) (max_days : Option ℤ)
    (last : Option ℕ) (mode : Mode)
    → is_gated (frequency_gate now max_days last (bucket_gate limiter bucket mode)) ≡ false
    → frequency_gate now max_days last (bucket_gate limiter bucket mode) ≡ mode
unfolding frequency_gate bucket_gate is_gated
gates_keep limiter none now none last mode h = refl
gates_keep limiter none now (some d) none mode h = refl
gates_keep limiter none now (some d) (some l) mode h = ground arith
gates_keep limiter (some b) now none last mode h = ground arith
gates_keep limiter (some b) now (some d) none mode h = ground arith
gates_keep limiter (some b) now (some d) (some l) mode h = ground arith

gates_pass :
    (limiter : RateLimiter) (bucket : Option String) (now : ℕ) (max_days : Option ℤ)
    (last : Option ℕ) (mode : Mode)
    → is_gated (frequency_gate now max_days last (bucket_gate limiter bucket mode)) ≡ false
    → (bucket_allows limiter bucket ≡ true) × (is_too_recent now max_days last ≡ false)
unfolding frequency_gate bucket_gate is_gated bucket_allows is_too_recent
gates_pass limiter none now none last mode h = (refl, refl)
gates_pass limiter none now (some d) none mode h = (refl, refl)
gates_pass limiter none now (some d) (some l) mode h = ground arith
gates_pass limiter (some b) now none last mode h = ground arith
gates_pass limiter (some b) now (some d) none mode h = ground arith
gates_pass limiter (some b) now (some d) (some l) mode h = ground arith

module _ (env : Environment) (campaign : Campaign) (a : PolicyArgs) (w : World) where
  pub policy_mode-keeps :
      is_gated (policy_mode env campaign a w) ≡ false → policy_mode env campaign a w ≡ a.mode
  unfolding policy_mode opens_proposal
  policy_mode-keeps h = elim (Bool-cases (opens_proposal env campaign a w)) [
    | inl e ↦ rw e (gates_keep _ _ _ _ _ _ (rw (e, policy_mode) at h))
    | inr e ↦ rw e refl
  ]

  opening_gates :
      is_gated (policy_mode env campaign a w) ≡ false
      → opens_proposal env campaign a w ≡ true
      → (bucket_allows w.limiter a.rate_limit_bucket ≡ true)
        × (is_too_recent env.now a.max_frequency_days
              (check_last_published w.db a.run.suite a.run.codebase)
            ≡ false)
  unfolding policy_mode opens_proposal
  opening_gates h e = gates_pass _ _ _ _ _ _ (rw (e, policy_mode) at h)

  -- What `publish_target` has checked by the time that it calls the worker.
  IsCleared-intro :
      (t : Target)
      → command_guard env a ≡ none
      → select_target env a ≡ some t
      → is_done_before campaign a w.db t ≡ false
      → is_gated (policy_mode env campaign a w) ≡ false
      → IsCleared env campaign a w t
  unfolding command_guard select_target is_done_before
  IsCleared-intro t hc ht hd hm = record {
    same_command = ground (arith, eq_iff a.command a.run.command);
    has_command = ground (arith, eq_iff a.command "");
    publishes = ground arith;
    not_done = ground arith;
    within_limit = ground (arith, opening_gates hm);
    within_frequency = ground (arith, opening_gates hm);
  }

  -- The call ends before the worker with nothing recorded, or goes on with the mode asked for.
  pub publish_from_policy_cases :
      ((w' : World) × (publish_from_policy env campaign a w ≡ (ok none, w'))
        × (w'.requests ≡ w.requests)
        × (w'.db ≡ w.db)
        × (w'.limiter ≡ w.limiter))
      ⊎ ((t : Target) × (select_target env a ≡ some t)
          × IsCleared env campaign a w t
          × (publish_from_policy env campaign a w ≡ run_worker env campaign a a.mode t w))
  unfolding publish_from_policy publish_target
  publish_from_policy_cases = elim (Option-cases (command_guard env a)) [
    | inr (calls, e) ↦ inl (
      record w { scheduled = w.scheduled ++ calls },
      rw (e, publish_from_policy),
      refl,
      refl,
      refl,
    )
    | inl e ↦ elim (Option-cases (select_target env a)) [
      | inl e' ↦ inl (w, rw (e, e', publish_from_policy), refl, refl, refl)
      | inr (t, e') ↦ elim (Bool-cases (is_done_before campaign a w.db t)) [
        | inl d ↦
            inl (w, rw (e, e', publish_from_policy) (rw (d, publish_target)), refl, refl, refl)
        | inr d ↦ elim (Bool-cases (is_gated (policy_mode env campaign a w))) [
          | inl g ↦
              inl (w, rw (e, e', publish_from_policy) (rw (d, g, publish_target)), refl, refl, refl)
          | inr g ↦ inr (
            t,
            e',
            IsCleared-intro t e e' d g,
            rw (e, e', publish_from_policy) (rw (d, g, publish_target, policy_mode-keeps g)),
          )
        ]
      ]
    ]
  ]

  -- A call of `publish_from_policy` makes no request to the worker, or exactly one. In the second
  -- case the run was built with the command now asked for, which is not empty; the mode is not
  -- `build-only` or `skip`, and is the mode of the request; unless forced, no attempt at this
  -- revision, target and branch name is recorded; and if the mode may open a proposal where none is
  -- open, the limiter allows the bucket and the last success is old enough.
  pub publish_from_policy_asks :
      ((publish_from_policy env campaign a w).1.requests ≡ w.requests)
      ⊎ ((t : Target) × (select_target env a ≡ some t)
          × IsCleared env campaign a w t
          × ((publish_from_policy env campaign a w).1.requests
              ≡ w.requests ++ make_request env campaign a w a.mode t ∷ []))
  publish_from_policy_asks = elim publish_from_policy_cases [
    | inl (w', same, kept, d, l) ↦ inl (rw same kept)
    | inr (t, e, cleared, same) ↦ rw same (elim (requests-run_worker env a campaign a.mode t w) [
      | inl none_made ↦ inl none_made
      | inr made ↦ inr (t, e, cleared, made)
    ])
  ]
