-- ===== src/Publish/Policy/Examples.antt =====
-- `publish_from_policy` (publish/src/lib.rs) on sample runs.
use janitor.Base.{
  String, ◌≡◌, ◌≢◌, refl, none, some, [], ◌∷◌, true, false, ok, err, Outcome, ◌⊎◌, eq_iff, arith,
  lookup, insert,
}
use janitor.Publish.Mode.{push, propose, mode_eq}
use janitor.Publish.Run.{get_result_branch}
use janitor.Publish.RateLimiter.{
  non, is_allowed, check_allowed, fixed_check_allowed, inc, fixed_inc, inc_open, count_one,
}
use janitor.Publish.Failure.{
  PublishError, failure, handle_publish_failure, apply_action, classify_publish_failure_action,
  code, description, unchanged_run,
}
use janitor.Publish.Database.{already_published, get_open_merge_proposal, check_last_published}
use janitor.Publish.ChangeSets.{
  refresh_change_set_state, refresh_change_set, refreshed_state, leave_created, leave_working,
  leave_ready, leave_publishing, change_set_of, new_result_branch_trigger,
}
use janitor.Publish.Store.{
  store_publish, insert_publish, store_success, advance_change_set, remaining_unpublished,
}
use janitor.Publish.Samples.{campaign, env, world, args, target, answer, full, db}
use janitor.Publish.Policy.Types.{vcs_type_from_str, PublishOneResult}
use janitor.Publish.Policy.Gates.{
  Target, command_guard, is_gated, is_proposing, select_target, modes_to_check, is_done_before,
  bucket_gate, age_days, frequency_gate, policy_mode,
}
use janitor.Publish.Policy.Worker.{
  unchanged_at_base, needs_binary_diff, derived_branch_name, make_request, effective_mode,
  proposal_of, publish_row, bump, event_of, announce,
}
use janitor.Publish.Policy.{
  publish_from_policy, run_worker, publish_target, after_worker, record_outcome,
}
use janitor.Publish.Policy.Guards.{publish_from_policy_asks, opens_proposal, IsCleared}
use janitor.Publish.Policy.Retry.{failed_attempt_blocks_retry, later}
use janitor.Publish.Policy.Record.{publish_from_policy-IsRecorded, IsRecorded}
use janitor.Publish.Policy.Bound.{
  publish_from_policy_limited, publish_from_policy-CountsOne, CountsOne,
}

abbrev moved : Outcome PublishError PublishOneResult
moved = err (failure "diverged-branches" "moved")

abbrev opened : Outcome PublishError PublishOneResult
opened = ok answer

-- The worker is asked to push.
moved_requests :
    (publish_from_policy (env moved) campaign (args push) (world non)).1.requests
    ≡ make_request (env moved) campaign (args push) (world non) push target ∷ []
unfolding publish_from_policy command_guard select_target is_gated get_result_branch publish_target
    is_done_before already_published policy_mode is_proposing run_worker vcs_type_from_str
    after_worker record_outcome store_publish publish_row handle_publish_failure apply_action
    check_last_published get_open_merge_proposal classify_publish_failure_action code description
    unchanged_run mode_eq age_days bucket_gate frequency_gate modes_to_check announce bump
    derived_branch_name effective_mode event_of make_request needs_binary_diff proposal_of
    unchanged_at_base check_allowed count_one fixed_check_allowed fixed_inc inc inc_open is_allowed
    advance_change_set refresh_change_set_state refresh_change_set refreshed_state leave_created
    leave_working leave_ready leave_publishing change_set_of new_result_branch_trigger
    insert_publish remaining_unpublished store_success lookup insert
moved_requests = refl

moved_not_success : ◌≢◌ {A = String} "diverged-branches" "success"
moved_not_success e = ground (arith, eq_iff "diverged-branches" "success")

asked : (publish_from_policy (env moved) campaign (args push) (world non)).1.requests ≢ []
asked e = absurd (cc (e, moved_requests))

selected : select_target (env moved) (args push) ≡ some target
unfolding select_target is_gated get_result_branch
selected = refl

failed_attempt_blocks_retry_example :
    (publish_from_policy
      (later (env moved) 9000 (λ r. opened))
      campaign
      (args push)
      (publish_from_policy (env moved) campaign (args push) (world non)).1).1.requests
    ≡ (publish_from_policy (env moved) campaign (args push) (world non)).1.requests
failed_attempt_blocks_retry_example =
    failed_attempt_blocks_retry (env moved) campaign (args push) "lintian-fixes" (world non) target
      "diverged-branches" "moved" refl refl moved_not_success selected refl asked 9000 (λ r. opened)

proposed :
    (publish_from_policy (env opened) campaign (args propose) (world non)).0 ≡ ok (some propose)
unfolding publish_from_policy command_guard select_target is_gated get_result_branch publish_target
    is_done_before already_published policy_mode is_proposing run_worker vcs_type_from_str
    after_worker record_outcome store_publish publish_row handle_publish_failure apply_action
    check_last_published get_open_merge_proposal classify_publish_failure_action code description
    unchanged_run mode_eq age_days bucket_gate frequency_gate modes_to_check announce bump
    derived_branch_name effective_mode event_of make_request needs_binary_diff proposal_of
    unchanged_at_base check_allowed count_one fixed_check_allowed fixed_inc inc inc_open is_allowed
    advance_change_set refresh_change_set_state refresh_change_set refreshed_state leave_created
    leave_working leave_ready leave_publishing change_set_of new_result_branch_trigger
    insert_publish remaining_unpublished store_success lookup insert
proposed = refl

publish_from_policy-IsRecorded_example :
    IsRecorded
      (args propose)
      propose
      []
      (publish_from_policy (env opened) campaign (args propose) (world non)).1.db.publishes
publish_from_policy-IsRecorded_example =
    publish_from_policy-IsRecorded (env opened) campaign (args propose) (world non) propose proposed

publish_from_policy-CountsOne_example :
    CountsOne
      (some "bucket")
      (world non).limiter
      (publish_from_policy (env opened) campaign (args propose) (world non)).1.limiter
publish_from_policy-CountsOne_example =
    publish_from_policy-CountsOne (env opened) campaign (args propose) (world non)

opens : opens_proposal (env opened) campaign (args propose) (world full) ≡ true
unfolding publish_from_policy command_guard select_target is_gated get_result_branch publish_target
    is_done_before already_published policy_mode is_proposing run_worker vcs_type_from_str
    after_worker record_outcome store_publish publish_row handle_publish_failure apply_action
    check_last_published get_open_merge_proposal classify_publish_failure_action code description
    unchanged_run mode_eq age_days bucket_gate frequency_gate modes_to_check announce bump
    derived_branch_name effective_mode event_of make_request needs_binary_diff proposal_of
    unchanged_at_base check_allowed count_one fixed_check_allowed fixed_inc inc inc_open is_allowed
    advance_change_set refresh_change_set_state refresh_change_set refreshed_state leave_created
    leave_working leave_ready leave_publishing change_set_of new_result_branch_trigger
    insert_publish remaining_unpublished store_success lookup insert opens_proposal
opens = refl

no_room : is_allowed (check_allowed full "bucket") ≡ false
unfolding publish_from_policy command_guard select_target is_gated get_result_branch publish_target
    is_done_before already_published policy_mode is_proposing run_worker vcs_type_from_str
    after_worker record_outcome store_publish publish_row handle_publish_failure apply_action
    check_last_published get_open_merge_proposal classify_publish_failure_action code description
    unchanged_run mode_eq age_days bucket_gate frequency_gate modes_to_check announce bump
    derived_branch_name effective_mode event_of make_request needs_binary_diff proposal_of
    unchanged_at_base check_allowed count_one fixed_check_allowed fixed_inc inc inc_open is_allowed
    advance_change_set refresh_change_set_state refresh_change_set refreshed_state leave_created
    leave_working leave_ready leave_publishing change_set_of new_result_branch_trigger
    insert_publish remaining_unpublished store_success lookup insert
no_room = refl

publish_from_policy_limited_example :
    ((publish_from_policy (env opened) campaign (args propose) (world full)).0 ≡ ok none)
    × ((publish_from_policy (env opened) campaign (args propose) (world full)).1.requests ≡ [])
    × ((publish_from_policy (env opened) campaign (args propose) (world full)).1.limiter ≡ full)
    × ((publish_from_policy (env opened) campaign (args propose) (world full)).1.db ≡ db)
publish_from_policy_limited_example =
    publish_from_policy_limited (env opened) campaign (args propose) (world full) "bucket" opens
      refl no_room

publish_from_policy_asks_example :
    ((publish_from_policy (env opened) campaign (args propose) (world non)).1.requests ≡ [])
    ⊎ ((t : Target) × (select_target (env opened) (args propose) ≡ some t)
        × IsCleared (env opened) campaign (args propose) (world non) t
        × ((publish_from_policy (env opened) campaign (args propose) (world non)).1.requests
            ≡ make_request (env opened) campaign (args propose) (world non) propose t ∷ []))
publish_from_policy_asks_example =
    publish_from_policy_asks (env opened) campaign (args propose) (world non)
