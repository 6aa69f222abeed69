-- ===== src/Publish/Single.antt =====
-- publish/src/lib.rs: `publish_and_store`, which publishes one role of a run as it is told, without
-- the policy's gates. Templates, tags, metrics and the codemod's result are left out.
pub mod Once
mod Examples
use janitor.Base.{
  String, ℕ, Option, none, some, unwrap_or, List, [], ◌∷◌, ◌++◌, Bool, true, false, not, ◌&&◌,
  str_eq, ltb, if◌then◌else◌, Outcome, ok, err, panic,
}
use janitor.Publish.Mode.{Mode}
use janitor.Publish.RateLimiter.{RateLimiter}
use janitor.Publish.Run.{Run, ResultBranch, get_result_branch}
use janitor.Publish.Failure.{PublishError, failure, branch_busy}
use janitor.Publish.Backoff.{run_sufficient_for_proposal}
use janitor.Publish.Database.{Database, Publish, RunRow, opt_is}
use janitor.Publish.Store.{store_publish}
use janitor.Publish.Policy.Types.{
  Campaign, VcsType, vcs_type_from_str, Request, PublishOneResult, Environment, World,
}
use janitor.Publish.Policy.Worker.{derived_branch_name, effective_mode, bump}

-- What `publish_and_store` is given.
pub record SingleArgs : Type 0 where
  pub publish_id : String
  pub run : Run
  pub mode : Mode
  pub role : String
  pub rate_limit_bucket : Option String
  pub allow_create_proposal : Option Bool
  pub require_binary_diff : Bool
  pub requester : Option String

-- The message on the `publish` channel, but for the codemod's result and the delay. That of a
-- failure names neither the role nor the run, and only it has a description.
pub record SingleEvent : Type 0 where
  pub id : String
  pub mode : Mode
  pub result_code : String
  pub campaign : String
  pub codebase : String
  pub main_branch_url : String
  pub main_branch_browse_url : Option String
  pub branch_name : Option String
  pub description : Option String
  pub proposal_url : Option String
  pub role : Option String
  pub run_id : Option String

-- What is returned; the errors' texts are left out.
pub data SingleAnswer : Type 0 where
  finished failed panicked : SingleAnswer

abbrev pub SingleOutcome : Type 0
SingleOutcome = SingleAnswer × World × Option SingleEvent

-- The later of two rows by `finish_time`.
unfoldable pub later_row : RunRow → Option RunRow → Option RunRow
later_row row none = some row
later_row row (some other) = if ltb row.finish_time other.finish_time then some other else some row

-- `WHERE codebase = $1 AND revision = $2 AND result_code = 'success' ORDER BY finish_time DESC
-- LIMIT 1`
unfoldable pub last_success : List RunRow → String → String → Option RunRow
last_success [] codebase revision = none
last_success (row ∷ rest) codebase revision =
    let others : Option RunRow = last_success rest codebase revision in
    if str_eq row.codebase codebase
      && opt_is row.revision revision
      && str_eq row.result_code "success"
    then later_row row others
    else others

unfoldable pub unchanged_run_id : Database → Run → Option String
unchanged_run_id db run = elim run.main_branch_revision [
  | none ↦ none
  | some revision ↦ elim (last_success db.runs run.codebase revision) [
    | none ↦ none
    | some row ↦ some row.id
  ]
]

unfoldable pub single_request :
    Environment → Campaign → SingleArgs → Database → String → String → Request
single_request env campaign a db url revision = record {
  campaign = a.run.suite;
  codebase = a.run.codebase;
  command = a.run.command;
  target_branch_url = url;
  mode = a.mode;
  role = a.role;
  revision = revision;
  log_id = a.run.id;
  unchanged_id = unchanged_run_id db a.run;
  derived_branch_name = derived_branch_name env campaign db a.run a.role;
  rate_limit_bucket = a.rate_limit_bucket;
  require_binary_diff = a.require_binary_diff;
  allow_create_proposal =
      unwrap_or a.allow_create_proposal
        (run_sufficient_for_proposal campaign.value_threshold a.run.value);
  existing_mp_url = none;
}

-- The row of a success: its revisions are those of the run, not of the role's branch.
unfoldable pub success_row : Environment → SingleArgs → PublishOneResult → Publish
success_row env a r = record {
  branch_name = some r.branch_name;
  main_branch_revision = a.run.main_branch_revision;
  revision = a.run.revision;
  role = a.role;
  mode = effective_mode a.mode r.proposal_url;
  result_code = "success";
  description = none;
  merge_proposal_url = r.proposal_url;
  id = some a.publish_id;
  requester = a.requester;
  change_set = a.run.change_set;
  run_id = some a.run.id;
  target_branch_url = some r.target_branch_url;
  target_branch_web_url = r.target_branch_web_url;
  codebase = a.run.codebase;
  timestamp = env.now;
}

unfoldable pub failure_row :
    Environment → Campaign → SingleArgs → String → String → String → Publish
failure_row env campaign a url code description = record {
  branch_name = campaign.branch_name;
  main_branch_revision = a.run.main_branch_revision;
  revision = a.run.revision;
  role = a.role;
  mode = a.mode;
  result_code = code;
  description = some description;
  merge_proposal_url = none;
  id = some a.publish_id;
  requester = a.requester;
  change_set = a.run.change_set;
  run_id = some a.run.id;
  target_branch_url = some url;
  target_branch_web_url = none;
  codebase = a.run.codebase;
  timestamp = env.now;
}

module _ (env : Environment) (campaign : Campaign) (event_sent : SingleEvent → Bool) where
  -- The message, once the row is stored.
  unfoldable pub send_event : SingleEvent → World → SingleOutcome
  send_event event w =
      if not env.has_redis
      then (finished, w, none)
      else if event_sent event
      then (finished, w, some event)
      else (failed, w, none)

  -- A failed assertion in `store_publish` is a panic.
  unfoldable pub store_answer :
      SingleArgs → String → Outcome PublishError PublishOneResult → World → SingleOutcome
  store_answer a url (ok r) w = elim (store_publish (success_row env a r) w.db) [
    | none ↦ (panicked, w, none)
    | some db ↦
        send_event
          (record {
            id = a.publish_id;
            mode = effective_mode a.mode r.proposal_url;
            result_code = "success";
            campaign = a.run.suite;
            codebase = a.run.codebase;
            main_branch_url = r.target_branch_url;
            main_branch_browse_url = r.target_branch_web_url;
            branch_name = some r.branch_name;
            description = none;
            proposal_url = r.proposal_url;
            role = some a.role;
            run_id = some a.run.id;
          })
          (record w { db = db; limiter = bump a.rate_limit_bucket (some r) w.limiter })
  ]
  store_answer a url (err (branch_busy other)) w = (finished, w, none)
  store_answer a url (err (failure code description)) w =
      elim (store_publish (failure_row env campaign a url code description) w.db) [
        | none ↦ (panicked, w, none)
        | some db ↦
            send_event
              (record {
                id = a.publish_id;
                mode = a.mode;
                result_code = code;
                campaign = a.run.suite;
                codebase = a.run.codebase;
                main_branch_url = url;
                main_branch_browse_url = none;
                branch_name = none;
                description = some description;
                proposal_url = none;
                role = none;
                run_id = none;
              })
              (record w { db = db })
      ]
  store_answer a url (err other) w = (failed, w, none)
  store_answer a url panic w = (panicked, w, none)

  -- With the role's branch: the URL, the VCS type and its manager, and the request.
  unfoldable pub publish_branch : SingleArgs → String → String → World → SingleOutcome
  publish_branch a remote_name revision w =
      let base : String = unwrap_or a.run.target_branch_url a.run.branch_url in
      let url : String = env.role_branch_url base remote_name in
      let request : Request = single_request env campaign a w.db url revision in
      if not (env.parses_url base)
      then (failed, w, none)
      else elim (vcs_type_from_str a.run.vcs_type) [
        | none ↦ (failed, w, none)
        | some vcs_type ↦
            if env.has_manager vcs_type
            then store_answer a url (env.publish_one request)
                (record w { requests = w.requests ++ request ∷ [] })
            else (failed, w, none)
      ]

  unfoldable pub publish_and_store : SingleArgs → World → SingleOutcome
  publish_and_store a w = elim (get_result_branch a.run a.role) [
    | none ↦ (failed, w, none)
    | some branch ↦ elim branch.revision [
      | none ↦ (failed, w, none)
      | some revision ↦ publish_branch a branch.remote_name revision w
    ]
  ]
