-- ===== src/Publish/Existing/Examples.antt =====
-- Checks and scans of existing proposals (publish/src/lib.rs) on samples.
use janitor.Base.{String, ◌≤◌, ◌≡◌, refl, none, some, List, [], ◌∷◌, true, false, ok, err, panic}
use janitor.Base.Int.{pos}
use janitor.Publish.Mode.{open_, abandoned}
use janitor.Publish.Database.{MergeProposal}
use janitor.Identifiers.{is_valid_name, is_ascii_lowercase, is_ascii_digit, is_name_char}
use janitor.Publish.Existing.Proposals.{get_proposal_info}
use janitor.Publish.Existing.Runs.{get_merge_proposal_run, get_last_effective_run}
use janitor.Publish.RateLimiter.{non}
use janitor.Publish.Run.{Run}
use janitor.Publish.Samples.{campaign, env, world, answer, run}
use janitor.Publish.Existing.Types.{
  forge_status_eq, forge_open, forge_closed, MergeProposalHandle, ForgeEnvironment, scheduled,
  missing, Tables, ScanWorld, Gathered,
}
use janitor.Publish.Existing.Close.{as_abandoned, close_proposal, trivial_comment}
use janitor.Publish.Existing.Gather.{effective_status}
use janitor.Publish.Existing.Check.{
  Setting, check_existing_mp, act_on_run, find_run, find_campaign_by_branch_name, get_campaign,
}
use janitor.Publish.Existing.Scan.{
  Limits, Forge, check_existing, iter_all_mps, all_statuses, start_scan,
}
use janitor.Publish.Existing.Effects.{IsActed}
use janitor.Publish.Existing.Actions.{IsQuiet}
use janitor.Publish.Existing.Once.{check_existing_mp-IsActed, check_existing_mp_passive}
use janitor.Publish.Existing.Pass.{rows}
use janitor.Publish.Existing.Limit.{
  check_existing_within, check_existing-IsCounted, IsCounted, ReachesAll,
}
use janitor.Publish.Existing.Status.{check_existing_mp-FollowsForge, FollowsForge}
use janitor.Publish.Existing.Orphans.{orphan_abandoned, IsOrphan}
use janitor.Publish.Existing.Check.{
  check_known, check_url, fetch_and_record, record_gathered, act, recover_orphan, recover_campaign,
  gathered_row,
}
use janitor.Publish.Existing.Gather.{
  fetch_fails, needs_update, gather, answered, answered_bool, panicked, guess_info, opened_source,
  source_revision, source_name, or_option, guess_target, guess_revision, from_forge, old_bucket,
  old_codebase, opt_bool_eq,
}
use janitor.Publish.Existing.Proposals.{
  count_proposal, update_proposal_info, put_proposal, absorb_revision, set_absorbed,
}
use janitor.Publish.Existing.Guess.{
  guess_codebase_from_branch_url, build_guess_codebase_query, push_scheme_variants, push_new,
  trim_trailing_slash, guess_rate_limit_bucket, guess_proposal_info_from_revision,
  proposal_info_rows, opt_eq,
}
use janitor.Publish.Existing.Runs.{run_of_revision}
use janitor.Publish.Existing.Refresh.{
  refresh_run, refresh_successful, follow_rename, after_rename, refresh_branch, branches_match,
  parsed,
}
use janitor.Publish.Existing.Republish.{
  republish, send, refreshed, refresh_request, refresh_row, store_refresh, set_db,
}
use janitor.Publish.Backoff.{run_sufficient_for_proposal}
use janitor.Publish.Run.{get_result_branch}
use janitor.Publish.Mode.{mode_eq}
use janitor.Publish.Policy.Types.{vcs_type_from_str}
use janitor.Publish.Policy.Worker.{derived_branch_name}
use janitor.Publish.Single.{unchanged_run_id, last_success}
use janitor.Publish.ChangeSets.{
  refresh_change_set_state, refresh_change_set, refreshed_state, leave_created, leave_working,
  leave_ready, leave_publishing, change_set_of, new_result_branch_trigger,
}
use janitor.Publish.Store.{
  store_publish, insert_publish, store_success, advance_change_set, remaining_unpublished,
}

abbrev mp_url : String
mp_url = "https://example.com/repo/1"

-- A newer run of the sample, with another tip.
abbrev newer : Run
newer = record run {
  id = "run-2";
  result_branches = some (
      record {
        role = "main";
        remote_name = "";
        base_revision = some "base";
        revision = some "rev2";
      }
      ∷ []);
}

abbrev tables : Tables
tables = record {
  runs = run ∷ [];
  effective_runs = record { run = newer; failure_transient = none } ∷ [];
  codebase_urls = ("hello", "https://example.com/repo") ∷ [];
  candidates = [];
  policies = [];
}

abbrev forge : ForgeEnvironment
forge = record {
  open_branch = λ url. err missing;
  parse_url = λ url. none;
  repository_url = λ url. url;
  branch_parameter = λ url. some "lintian-fixes";
  resolve_redirects = λ url. url;
  do_schedule = λ call. scheduled;
}

abbrev setting : Setting
setting = record { env = env (ok answer); forge = forge; config = campaign ∷ []; tables = tables }

-- The proposal of the first run.
abbrev proposal : String → MergeProposalHandle
proposal revision = record {
  url = ok mp_url;
  source_revision = ok (some revision);
  source_branch_url = ok (some "https://example.com/fork");
  can_be_merged = ok true;
  target_branch_url = ok (some "https://example.com/repo");
  set_target_branch_name = λ name. ok tt;
  post_comment = λ comment. ok tt;
  close = ok tt;
}

abbrev scan : ScanWorld
scan = record { world = world non; calls = []; rescheduled = []; mps_per_bucket = none }

check_existing_mp-IsActed_example :
    IsActed mp_url scan (check_existing_mp setting (proposal "rev") forge_open false scan)
check_existing_mp-IsActed_example =
    check_existing_mp-IsActed setting (proposal "rev") forge_open false mp_url scan refl

check_existing_mp_passive_example :
    IsQuiet scan (check_existing_mp setting (proposal "rev") forge_open true scan).1
unfolding forge_status_eq
check_existing_mp_passive_example =
    check_existing_mp_passive setting (proposal "rev") forge_open true scan refl

abbrev limits : Limits
limits = record { modify_limit = some (pos 0); unexpected_limit = none }

abbrev forges : List Forge
forges =
    record { base_url = "https://example.com"; proposals = λ status. ok (ok (proposal "rev") ∷ []) }
    ∷ []

check_existing_within_example :
    rows (check_existing (λ n. setting) limits forges (world non) []).1 ≤ 1
check_existing_within_example =
    check_existing_within (λ n. setting) limits 0 forges (world non) [] refl

check_existing-IsCounted_example :
    IsCounted non
      (ReachesAll
        (λ n. setting)
        limits
        0
        (iter_all_mps forges all_statuses)
        (start_scan (world non) []))
      (check_existing (λ n. setting) limits forges (world non) [])
check_existing-IsCounted_example =
    check_existing-IsCounted (λ n. setting) limits forges (world non) []

-- The persisted row of a proposal that the publisher has abandoned.
abbrev row : MergeProposal
row = record {
  url = mp_url;
  status = abandoned;
  revision = some "rev";
  last_scanned = none;
  target_branch_url = some "https://example.com/repo";
  codebase = some "hello";
  can_be_merged = none;
  rate_limit_bucket = none;
}

-- The same proposal, while the forge answers nothing about it.
abbrev unreachable : MergeProposalHandle
unreachable = record (proposal "rev") { source_revision = panic; target_branch_url = panic }

abbrev knowing : ScanWorld
knowing = record scan {
  world = record (world non) { db = record (world non).db { merge_proposals = row ∷ [] } };
}

row-known : get_proposal_info mp_url knowing.world.db.merge_proposals ≡ some row
unfolding get_proposal_info
row-known = refl

check_existing_mp-FollowsForge_example :
    FollowsForge setting unreachable mp_url forge_closed row knowing
      (check_existing_mp setting unreachable forge_closed true knowing)
check_existing_mp-FollowsForge_example =
    check_existing_mp-FollowsForge setting unreachable mp_url forge_closed row knowing refl
      row-known (λ e. cc e)

abbrev gathered : Gathered
gathered = record {
  revision = some "other";
  source_branch_name = some "lintian-fixes";
  target_branch_url = some "https://example.com/repo";
  can_be_merged = some true;
  codebase = some "hello";
  rate_limit_bucket = none;
  status = open_;
}

orphaned :
    IsOrphan setting mp_url gathered scan "hello" "lintian-fixes" "lintian-fixes" "other"
      "https://example.com/repo" campaign
      (record { run = newer; failure_transient = none })
unfolding get_merge_proposal_run get_proposal_info find_campaign_by_branch_name get_campaign
    get_last_effective_run is_valid_name is_ascii_lowercase is_ascii_digit is_name_char
orphaned = record {
  no_run = refl;
  has_codebase = refl;
  has_branch = refl;
  named = refl;
  valid = refl;
  configured = refl;
  has_last = refl;
  has_revision = refl;
  has_target = refl;
  success = refl;
}

orphan_abandoned_example :
    act_on_run setting
      (proposal "other")
      mp_url
      gathered
      (find_run setting mp_url gathered none scan)
    ≡ close_proposal setting.env
        (proposal "other")
        mp_url
        as_abandoned
        gathered
        "hello"
        (some "https://example.com/repo")
        trivial_comment
        scan
orphan_abandoned_example =
    orphan_abandoned setting (proposal "other") mp_url gathered scan "hello" "lintian-fixes"
      "lintian-fixes" "other" "https://example.com/repo" campaign
      (record { run = newer; failure_transient = none }) orphaned 9 refl

-- The first scan stores the row of the proposal and asks the worker about the newer run.
refreshed_answer : (check_existing_mp setting (proposal "rev") forge_open false scan).0 ≡ ok true
unfolding check_existing_mp effective_status get_proposal_info get_merge_proposal_run
    forge_status_eq act_on_run find_run get_campaign get_last_effective_run check_known check_url
    fetch_and_record record_gathered act recover_orphan recover_campaign gathered_row fetch_fails
    needs_update gather answered answered_bool panicked guess_info opened_source source_revision
    source_name or_option guess_target guess_revision from_forge old_bucket old_codebase opt_bool_eq
    count_proposal update_proposal_info put_proposal absorb_revision set_absorbed
    guess_codebase_from_branch_url build_guess_codebase_query push_scheme_variants push_new
    trim_trailing_slash guess_rate_limit_bucket guess_proposal_info_from_revision proposal_info_rows
    opt_eq run_of_revision refresh_run refresh_successful follow_rename after_rename refresh_branch
    branches_match parsed republish send refreshed refresh_request refresh_row store_refresh set_db
    run_sufficient_for_proposal get_result_branch mode_eq vcs_type_from_str derived_branch_name
    unchanged_run_id last_success store_publish insert_publish store_success advance_change_set
    refresh_change_set_state refresh_change_set refreshed_state leave_created leave_working
    leave_ready leave_publishing change_set_of new_result_branch_trigger remaining_unpublished
refreshed_answer = refl
