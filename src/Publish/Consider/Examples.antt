-- ===== src/Publish/Consider/Examples.antt =====
-- `consider_publish_run` (publish/src/lib.rs) on a run with a branch besides `main`.
use janitor.Base.{◌≡◌, ◌≢◌, refl, none, some, [], ◌∷◌, false, ok, lookup, insert}
use janitor.Publish.Mode.{mode_eq, mode_from_str, mode_to_string}
use janitor.Publish.Run.{get_result_branch}
use janitor.Publish.RateLimiter.{
  non, is_allowed, check_allowed, fixed_check_allowed, inc, fixed_inc, inc_open, count_one,
}
use janitor.Publish.Failure.{
  handle_publish_failure, apply_action, classify_publish_failure_action, code, description,
  unchanged_run,
}
use janitor.Publish.Backoff.{calculate_next_try_time, backoff_hours}
use janitor.Publish.Database.{
  already_published, get_open_merge_proposal, check_last_published, get_publish_attempt_count,
  get_previous_mp_status,
}
use janitor.Publish.ChangeSets.{
  refresh_change_set_state, refresh_change_set, refreshed_state, leave_created, leave_working,
  leave_ready, leave_publishing, change_set_of, new_result_branch_trigger,
}
use janitor.Publish.Store.{
  store_publish, insert_publish, store_success, advance_change_set, remaining_unpublished,
}
use janitor.Publish.Samples.{campaign, env, world, run, answer}
use janitor.Publish.Policy.Types.{vcs_type_from_str}
use janitor.Publish.Policy.Gates.{
  command_guard, is_gated, is_proposing, select_target, modes_to_check, is_done_before, bucket_gate,
  age_days, frequency_gate, policy_mode,
}
use janitor.Publish.Policy.Worker.{
  unchanged_at_base, needs_binary_diff, derived_branch_name, make_request, effective_mode,
  proposal_of, publish_row, bump, event_of, announce,
}
use janitor.Publish.Policy.{
  publish_from_policy, run_worker, publish_target, after_worker, record_outcome,
}
use janitor.Publish.Consider.{
  Modes, ReadyRun, UnpublishedBranch, consider_publish_run, after_preflight, preflight,
  preflight_run, backs_off, find_campaign, should_skip_for_push_limit, wants_push_mode,
  previous_mp_blocks_publish, resolve_target_branch_url, consider_branches, consider_branch,
  non_empty, should_skip_main_after_aux_failure, note_outcome, branch_args, and_then,
}
use janitor.Publish.Consider.Main.{main_waits_for_others}

abbrev debian_branch : UnpublishedBranch
debian_branch = record { role = "debian"; publish_mode = some "propose"; max_frequency_days = none }

abbrev main_branch : UnpublishedBranch
main_branch = record { role = "main"; publish_mode = some "propose"; max_frequency_days = none }

abbrev ready_run : ReadyRun
ready_run = record {
  run = record run {
    result_branches = some (
        record {
          role = "debian";
          remote_name = "debian";
          base_revision = some "base";
          revision = some "debian-rev";
        }
        ∷ record {
          role = "main";
          remote_name = "";
          base_revision = some "base";
          revision = some "rev";
        }
        ∷ []);
  };
  rate_limit_bucket = "bucket";
  policy_command = "lintian-brush";
  unpublished_branches = debian_branch ∷ main_branch ∷ [];
}

abbrev both : Modes
both = ("debian", some "propose") ∷ ("main", some "propose") ∷ []

considered :
    (consider_publish_run (env (ok answer)) (campaign ∷ []) ready_run none false (world non)).0
    ≡ ok both
unfolding publish_from_policy command_guard select_target is_gated get_result_branch publish_target
    is_done_before already_published policy_mode is_proposing run_worker vcs_type_from_str
    after_worker record_outcome store_publish publish_row handle_publish_failure apply_action
    check_last_published get_open_merge_proposal classify_publish_failure_action code description
    unchanged_run mode_eq age_days bucket_gate frequency_gate modes_to_check announce bump
    derived_branch_name effective_mode event_of make_request needs_binary_diff proposal_of
    unchanged_at_base check_allowed count_one fixed_check_allowed fixed_inc inc inc_open is_allowed
    advance_change_set refresh_change_set_state refresh_change_set refreshed_state leave_created
    leave_working leave_ready leave_publishing change_set_of new_result_branch_trigger
    insert_publish remaining_unpublished store_success lookup insert consider_publish_run
    after_preflight preflight preflight_run backs_off find_campaign should_skip_for_push_limit
    wants_push_mode previous_mp_blocks_publish resolve_target_branch_url consider_branches
    consider_branch non_empty should_skip_main_after_aux_failure note_outcome branch_args and_then
    calculate_next_try_time backoff_hours get_publish_attempt_count get_previous_mp_status
    mode_from_str mode_to_string
considered = refl

main_waits_for_others_example : lookup "debian" both ≢ some none
unfolding lookup
main_waits_for_others_example =
    main_waits_for_others (env (ok answer)) (campaign ∷ []) ready_run none false (world non)
      (debian_branch ∷ []) main_branch both refl refl (refl, tt) considered refl "debian" refl
