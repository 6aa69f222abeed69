-- ===== src/Publish/Existing/Republish.antt =====
-- publish/src/lib.rs, `check_existing_mp`: publishing a proposal again for a newer run.
use janitor.Base.{
  String, Option, none, some, List, [], ◌∷◌, ◌++◌, true, false, not, str_eq, if◌then◌else◌,
  unwrap_or, Outcome, ok, err, panic,
}
use janitor.Publish.Mode.{propose}
use janitor.Publish.Run.{Run, ResultBranch}
use janitor.Publish.Failure.{PublishError, ScheduleCall, branch_busy, handle_publish_failure}
use janitor.Publish.Database.{Database, Publish, opt_is}
use janitor.Publish.Store.{store_publish}
use janitor.Publish.Policy.Types.{
  Campaign, Environment, Request, PublishOneResult, vcs_type_from_str,
}
use janitor.Publish.Policy.Worker.{derived_branch_name}
use janitor.Publish.Single.{unchanged_run_id}
use janitor.Publish.Existing.Types.{
  BrzError, permission_denied, MergeProposalHandle, ScanWorld, Checked, MergeProposalRun, Gathered,
}
use janitor.Publish.Existing.Close.{as_applied, abandon_or_close, applied_comment}

unfoldable pub refresh_request :
    Environment
    → Campaign
    → Database
    → String
    → MergeProposalRun
    → Gathered
    → Run
    → String
    → String
    → Request
refresh_request env campaign db url mp_run g run target revision = record {
  campaign = run.suite;
  codebase = run.codebase;
  command = run.command;
  target_branch_url = target;
  mode = propose;
  role = mp_run.role;
  revision = revision;
  log_id = run.id;
  unchanged_id = unchanged_run_id db run;
  derived_branch_name =
      unwrap_or g.source_branch_name (derived_branch_name env campaign db run mp_run.role);
  rate_limit_bucket = g.rate_limit_bucket;
  require_binary_diff = false;
  allow_create_proposal = true;
  existing_mp_url = some url;
}

-- The row of an attempt to refresh; what differs is the branch name, the target URLs, the code, the
-- description and the proposal.
unfoldable pub refresh_row :
    Environment
    → MergeProposalRun
    → Run
    → ResultBranch
    → Option String
    → String
    → Option String
    → String
    → String
    → Option String
    → Publish
refresh_row env mp_run run branch branch_name target target_web code description proposal_url =
    record {
      branch_name = branch_name;
      main_branch_revision = branch.base_revision;
      revision = branch.revision;
      role = mp_run.role;
      mode = propose;
      result_code = code;
      description = some description;
      merge_proposal_url = proposal_url;
      id = some env.new_publish_id;
      requester = some "publisher (regular refresh)";
      change_set = run.change_set;
      run_id = some run.id;
      target_branch_url = some target;
      target_branch_web_url = target_web;
      codebase = run.codebase;
      timestamp = env.now;
    }

unfoldable pub set_db : Database → ScanWorld → ScanWorld
set_db db w = record w { world = record w.world { db = db } }

-- A failed assertion in `store_publish` is a panic.
unfoldable pub store_refresh : Publish → ScanWorld → Checked
store_refresh row w = elim (store_publish row w.world.db) [
  | none ↦ (panic, w)
  | some db ↦ (ok true, set_db db w)
]

-- An empty proposal is closed as applied: what is then recorded. The text of the forge's refusal is
-- left out.
unfoldable pub close_empty :
    Environment
    → MergeProposalHandle
    → String
    → Gathered
    → String
    → String × String
    → ScanWorld
    → (String × String) × ScanWorld
close_empty env mp url g target (code, description) w =
    if str_eq code "empty-merge-proposal"
    then elim g.revision [
      | none ↦ ((code, description), w)
      | some revision ↦
          let done : Option BrzError × ScanWorld =
            abandon_or_close env mp url as_applied g g.codebase revision target applied_comment w in
          elim done.0 [
            | none ↦ (
              ("success", "Closing merge request for which changes were applied independently"),
              done.1,
            )
            | some e ↦ elim e [
              | permission_denied ↦
                  (("empty-failed-to-close", "Permission denied closing merge request: "), done.1)
              | _ ↦ ((code, description), done.1)
            ]
          ]
    ]
    else ((code, description), w)

-- A failed attempt: what it reschedules, and its row.
unfoldable pub record_failure :
    Environment
    → Campaign
    → MergeProposalHandle
    → String
    → MergeProposalRun
    → Gathered
    → Run
    → ResultBranch
    → String
    → PublishError
    → ScanWorld
    → Checked
record_failure env campaign mp url mp_run g run branch target e w =
    let failure : (String × String) × List ScheduleCall =
      handle_publish_failure e w.world.db.last_runs run "update-existing-mp" in
    let called : ScanWorld = record w {
      world = record w.world { scheduled = w.world.scheduled ++ failure.1 };
    } in
    let closed : (String × String) × ScanWorld = close_empty env mp url g target failure.0 called in
    store_refresh
      (refresh_row env mp_run run branch campaign.branch_name target none closed.0.0 closed.0.1
        (some url))
      closed.1

unfoldable pub refreshed :
    Environment
    → Campaign
    → MergeProposalHandle
    → String
    → MergeProposalRun
    → Gathered
    → Run
    → ResultBranch
    → String
    → Outcome PublishError PublishOneResult
    → ScanWorld
    → Checked
refreshed env campaign mp url mp_run g run branch target (ok r) w =
    store_refresh
      (refresh_row env mp_run run branch (some r.branch_name) r.target_branch_url
        r.target_branch_web_url "success" "Successfully updated" r.proposal_url)
      w
refreshed env campaign mp url mp_run g run branch target (err (branch_busy busy)) w = (ok false, w)
refreshed env campaign mp url mp_run g run branch target (err e) w =
    record_failure env campaign mp url mp_run g run branch target e w
refreshed env campaign mp url mp_run g run branch target panic w = (panic, w)

-- The worker is asked.
unfoldable pub send :
    Environment
    → Campaign
    → MergeProposalHandle
    → String
    → MergeProposalRun
    → Gathered
    → Run
    → ResultBranch
    → String
    → String
    → ScanWorld
    → Checked
send env campaign mp url mp_run g run branch target revision w =
    let request : Request =
      refresh_request env campaign w.world.db url mp_run g run target revision in
    refreshed env campaign mp url mp_run g run branch target (env.publish_one request)
      (record w { world = record w.world { requests = w.world.requests ++ request ∷ [] } })

-- A newer run: the proposal is published again, unless nothing has changed or something is missing.
unfoldable pub republish :
    Environment
    → Campaign
    → MergeProposalHandle
    → String
    → MergeProposalRun
    → Gathered
    → Run
    → ResultBranch
    → Option String
    → ScanWorld
    → Checked
republish env campaign mp url mp_run g run branch target w =
    if opt_is branch.revision mp_run.revision then (ok false, w) else elim target [
      | none ↦ (ok false, w)
      | some t ↦ elim branch.revision [
        | none ↦ (ok false, w)
        | some revision ↦ elim (vcs_type_from_str run.vcs_type) [
          | none ↦ (ok false, w)
          | some vcs_type ↦
              if not (env.has_manager vcs_type)
              then (ok false, w)
              else send env campaign mp url mp_run g run branch t revision w
        ]
      ]
    ]
