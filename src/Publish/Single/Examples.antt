-- ===== src/Publish/Single/Examples.antt =====
-- `publish_and_store` (publish/src/lib.rs) on a sample run.
use janitor.Base.{◌≡◌, refl, none, some, [], true, false, ok, lookup, insert}
use janitor.Publish.Mode.{attempt_push, mode_eq}
use janitor.Publish.RateLimiter.{RateLimiter, fixed, inc}
use janitor.Publish.Samples.{campaign, env, world, answer, run}
use janitor.Publish.Policy.Types.{vcs_type_from_str}
use janitor.Publish.Run.{get_result_branch}
use janitor.Publish.ChangeSets.{
  refresh_change_set_state, refresh_change_set, refreshed_state, leave_created, leave_working,
  leave_ready, leave_publishing, change_set_of, new_result_branch_trigger,
}
use janitor.Publish.Store.{
  store_publish, insert_publish, store_success, advance_change_set, remaining_unpublished,
}
use janitor.Publish.Policy.Worker.{derived_branch_name, effective_mode, bump}
use janitor.Publish.Single.{
  SingleArgs, publish_and_store, publish_branch, store_answer, send_event, single_request,
  success_row, unchanged_run_id, last_success,
}
use janitor.Publish.Single.Once.{publish_and_store-IsSingle, IsSingle}

abbrev told : SingleArgs
told = record {
  publish_id = "p9";
  run = run;
  mode = attempt_push;
  role = "main";
  rate_limit_bucket = some "bucket";
  allow_create_proposal = none;
  require_binary_diff = false;
  requester = none;
}

-- No open proposal, of at most one.
abbrev none_open : RateLimiter
none_open = fixed (record { max_mps_per_bucket = 1; open_mps_per_bucket = some [] })

publish_and_store-IsSingle_example :
    IsSingle told
      (world none_open)
      (publish_and_store (env (ok answer)) campaign (λ e. true) told (world none_open))
publish_and_store-IsSingle_example =
    publish_and_store-IsSingle (env (ok answer)) campaign (λ e. true) told (world none_open)

-- The proposal that the worker opened is counted.
counted :
    (publish_and_store (env (ok answer)) campaign (λ e. true) told (world none_open)).1.limiter
    ≡ inc none_open "bucket"
unfolding publish_and_store publish_branch store_answer send_event get_result_branch single_request
    success_row vcs_type_from_str derived_branch_name effective_mode store_publish bump
    unchanged_run_id last_success mode_eq advance_change_set refresh_change_set_state
    refresh_change_set refreshed_state leave_created leave_working leave_ready leave_publishing
    change_set_of new_result_branch_trigger insert_publish remaining_unpublished store_success
    lookup insert
counted = refl
