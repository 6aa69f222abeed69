-- ===== src/Publish/Policy/Retry.antt =====
-- A failed attempt of `publish_from_policy` (publish/src/lib.rs) and the next attempt at the run.
use janitor.Base.{
  String, ℕ, ◌≡◌, ◌≢◌, refl, Option, none, some, true, false, Outcome, err, arith, inl, inr, eq_iff,
  any,
}
use janitor.Publish.Mode.{Mode, mode_eq}
use janitor.Publish.Failure.{PublishError, failure, code, handle_publish_failure}
use janitor.Publish.Failure.Recovery.{failure_reschedules_own}
use janitor.Publish.Database.{already_published}
use janitor.Publish.Store.{store_publish}
use janitor.Publish.Store.Cases.{store_publish-failed}
use janitor.Publish.Store.Attempts.{store_publish-already_published}
use janitor.Publish.Policy.Types.{
  Campaign, Environment, World, PolicyArgs, PublishOneResult, Request,
}
use janitor.Publish.Policy.Gates.{Target, select_target, modes_to_check}
use janitor.Publish.Policy.Worker.{make_request, publish_row, effective_mode, proposal_of}
use janitor.Publish.Policy.{record_outcome, after_worker, run_worker, publish_from_policy}
use janitor.Publish.Policy.Frame.{announce_frame, record_outcome_cases, run_worker_cases}
use janitor.Publish.Policy.Guards.{publish_from_policy_cases}

-- The mode under which a failure is recorded is among those that the next attempt looks for.
effective-mem-modes_to_check :
    (m : Mode) → any (mode_eq (effective_mode m none)) (modes_to_check m) ≡ true
unfolding effective_mode modes_to_check mode_eq
effective-mem-modes_to_check Mode.skip = refl
effective-mem-modes_to_check _ = refl

module _ (env : Environment) (campaign : Campaign) (a : PolicyArgs) (branch : String)
    (named : campaign.branch_name ≡ some branch) where
  -- A record without a result marks the target as done.
  record_outcome-already_published :
      (mode : Mode) (t : Target) (c : String) (d : Option String) (w : World)
      → store_publish
          (publish_row env campaign a mode t (record { code = c; description = d; result = none }))
          w.db
        ≢ none
      → already_published
          (record_outcome env campaign a mode t
            (record { code = c; description = d; result = none })
            w).1.db
          t.url
          branch
          t.revision
          (modes_to_check mode)
        ≡ true
  unfolding publish_row proposal_of
  record_outcome-already_published mode t c d w h =
      elim (record_outcome_cases env a campaign mode t
        (record { code = c; description = d; result = none }) w) [
          | inl (e, same) ↦ absurd (h e)
          | inr (db', e, same) ↦ rw same (
              rw ((announce_frame env a _ _).1) (
                store_publish-already_published _ w.db db' t.url branch t.revision
                  (modes_to_check mode) e refl named refl (effective-mem-modes_to_check mode)))
        ]

  after_worker-already_published :
      (mode : Mode) (t : Target) (c d : String) (w : World)
      → c ≢ "success"
      → already_published
          (after_worker env campaign a mode t (err (failure c d)) w).1.db
          t.url
          branch
          t.revision
          (modes_to_check mode)
        ≡ true
  unfolding after_worker publish_row code
  after_worker-already_published mode t c d w h = record_outcome-already_published mode t _ _ _ (
      store_publish-failed _ w.db (
        ground (
          arith,
          eq_iff (handle_publish_failure (failure c d) w.db.last_runs a.run "update-new-mp").0.0
              "success",
          (failure_reschedules_own (failure c d) w.db.last_runs a.run "update-new-mp").0,
          h,
        )))

-- The same environment at another time and with another answer from the worker.
abbrev pub later : Environment → ℕ → (Request → Outcome PublishError PublishOneResult) → Environment
later env now answers = record env { now = now; publish_one = answers }

select_target-later :
    (env : Environment) (now : ℕ) (answers : Request → Outcome PublishError PublishOneResult)
    (a : PolicyArgs)
    → select_target (later env now answers) a ≡ select_target env a
unfolding select_target
select_target-later env now answers a = refl

failed_attempt_is_stored :
    (env : Environment) (campaign : Campaign) (a : PolicyArgs) (branch : String) (w : World)
    (t : Target) (c d : String)
    → campaign.branch_name ≡ some branch
    → c ≢ "success"
    → select_target env a ≡ some t
    → env.publish_one (make_request env campaign a w a.mode t) ≡ err (failure c d)
    → (publish_from_policy env campaign a w).1.requests ≢ w.requests
    → already_published
        (publish_from_policy env campaign a w).1.db
        t.url
        branch
        t.revision
        (modes_to_check a.mode)
      ≡ true
failed_attempt_is_stored env campaign a branch w t c d named failed et answer asked =
    elim (publish_from_policy_cases env campaign a w) [
      | inl (w', same, kept, db, l) ↦ absurd (asked (rw same kept))
      | inr (t', et', cleared, same) ↦
          let this : publish_from_policy env campaign a w ≡ run_worker env campaign a a.mode t w =
            rw (target_unique et' et) at same in
          elim (run_worker_cases env a campaign a.mode t w) [
            | inl nothing ↦ absurd (asked (rw (this, nothing)))
            | inr worked ↦
                rw (this, worked, answer)
                  (after_worker-already_published env campaign a branch named a.mode t c d _ failed)
          ]
    ]
  where
    target_unique : {o : Option Target} {x y : Target} → o ≡ some x → o ≡ some y → x ≡ y
    target_unique p q = cc

-- Once the worker has answered a request for a run and role with a failure whose code is not
-- `success`, the same call without `force`, at any later time and whatever the worker would then
-- answer, makes no request: the failed attempt's own row counts as already published. (The campaign
-- has a branch name.)
pub failed_attempt_blocks_retry :
    (env : Environment) (campaign : Campaign) (a : PolicyArgs) (branch : String) (w : World)
    (t : Target) (c d : String)
    → campaign.branch_name ≡ some branch
    → a.force ≡ false
    → c ≢ "success"
    → select_target env a ≡ some t
    → env.publish_one (make_request env campaign a w a.mode t) ≡ err (failure c d)
    → (publish_from_policy env campaign a w).1.requests ≢ w.requests
    → (now : ℕ) (answers : Request → Outcome PublishError PublishOneResult)
    → (publish_from_policy
        (later env now answers)
        campaign
        a
        (publish_from_policy env campaign a w).1).1.requests
      ≡ (publish_from_policy env campaign a w).1.requests
failed_attempt_blocks_retry env campaign a branch w t c d named unforced failed et answer asked now
      answers =
    elim (publish_from_policy_cases (later env now answers) campaign a
      (publish_from_policy env campaign a w).1) [
        | inl (w', same, kept, db, l) ↦ rw same kept
        | inr (t', et', cleared, same) ↦ absurd (
            ground (
              arith,
              failed_attempt_is_stored env campaign a branch w t c d named failed et answer asked,
              cleared.not_done,
              unforced,
              select_target-later env now answers a,
              et,
              et',
              named,
            ))
      ]
