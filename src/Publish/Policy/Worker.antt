-- ===== src/Publish/Policy/Worker.antt =====
-- publish/src/lib.rs, `publish_from_policy`: the request to the worker and the row that records
-- its answer.
use Prim.Native.String.{◌++◌ as str_append}
use janitor.Base.{
  String, ℕ, Option, none, some, List, [], ◌∷◌, ◌++◌, Bool, true, false, ◌&&◌, ◌||◌, not, str_eq,
  filterb, find, length, ◌==◌, if◌then◌else◌, is_some, unwrap_or, Outcome, ok, err,
}
use janitor.Publish.Mode.{Mode, mode_eq, push, propose, attempt_push}
use janitor.Publish.RateLimiter.{RateLimiter, inc}
use janitor.Publish.Run.{Run, LastRun}
use janitor.Publish.Backoff.{run_sufficient_for_proposal}
use janitor.Publish.Database.{Database, Publish}
use janitor.Publish.Policy.Types.{
  Campaign, Request, PublishOneResult, Event, Environment, World, PolicyArgs, Answer,
}
use janitor.Publish.Policy.Gates.{Target}

-- `SELECT id, result_code FROM last_runs WHERE codebase = $1 AND revision = $2 AND
-- result_code = 'success'`, by `fetch_optional`.
unfoldable pub unchanged_at_base : List LastRun → String → Option String → Option LastRun
unchanged_at_base last_runs codebase none = none
unchanged_at_base last_runs codebase (some base) =
    find
      (λ r. str_eq r.codebase codebase && str_eq r.revision base && str_eq r.result_code "success")
      last_runs

-- The exemption for a control run that failed with invalid metadata.
unfoldable pub needs_binary_diff : PolicyArgs → Option LastRun → Bool
needs_binary_diff a none = a.require_binary_diff
needs_binary_diff a (some r) =
    if str_eq r.result_code "debian-upstream-metadata-invalid" && str_eq a.run.suite "lintian-fixes"
    then false
    else a.require_binary_diff

-- `has_cotenants(...) == Some(true)`
has_cotenants : Environment → Database → Run → Bool
has_cotenants env db run =
    elim (filterb
      (λ c.
        str_eq c.branch_url (env.tenant_url run.branch_url)
        || str_eq c.url (env.tenant_url run.branch_url))
      db.codebases) [
        | [] ↦ false
        | c ∷ rest ↦ elim rest [ [] ↦ not (str_eq c.name run.codebase) | _ ∷ _ ↦ true ]
      ]

result_branch_count : Run → ℕ
result_branch_count run = elim run.result_branches [ none ↦ 0 | some bs ↦ length bs ]

-- `branch_name.or(name).unwrap_or_default()`
campaign_branch : Campaign → String
campaign_branch campaign = elim campaign.branch_name [
  | some b ↦ b
  | none ↦ unwrap_or campaign.name ""
]

unfoldable pub derived_branch_name : Environment → Campaign → Database → Run → String → String
unfolding has_cotenants result_branch_count campaign_branch
derived_branch_name env campaign db run role =
    let base : String =
      if result_branch_count run == 1
      then campaign_branch campaign
      else str_append (campaign_branch campaign) (str_append "/" role) in
    if has_cotenants env db run then str_append base (str_append "/" run.codebase) else base

unfoldable pub make_request : Environment → Campaign → PolicyArgs → World → Mode → Target → Request
make_request env campaign a w mode t =
    let unchanged : Option LastRun =
      unchanged_at_base w.db.last_runs a.run.codebase t.base_revision in
    record {
      campaign = a.run.suite;
      codebase = a.run.codebase;
      command = a.run.command;
      target_branch_url = t.url;
      mode = mode;
      role = a.role;
      revision = t.revision;
      log_id = a.run.id;
      unchanged_id = elim unchanged [ none ↦ none | some r ↦ some r.id ];
      derived_branch_name = derived_branch_name env campaign w.db a.run a.role;
      rate_limit_bucket = a.rate_limit_bucket;
      require_binary_diff = needs_binary_diff a unchanged;
      allow_create_proposal = run_sufficient_for_proposal campaign.value_threshold a.run.value;
      existing_mp_url = none;
    }

-- `MODE_ATTEMPT_PUSH` collapses to what was done.
unfoldable pub effective_mode : Mode → Option String → Mode
effective_mode mode proposal_url =
    if mode_eq mode attempt_push then (if is_some proposal_url then propose else push) else mode

-- A worker's answer as it is recorded.
pub record Folded : Type 0 where
  pub code : String
  pub description : Option String
  pub result : Option PublishOneResult

unfoldable pub proposal_of : Option PublishOneResult → Option String
proposal_of none = none
proposal_of (some r) = r.proposal_url

-- The row that `store_publish` inserts.
unfoldable pub publish_row : Environment → Campaign → PolicyArgs → Mode → Target → Folded → Publish
publish_row env campaign a mode t f = record {
  branch_name = elim f.result [ none ↦ campaign.branch_name | some r ↦ some r.branch_name ];
  main_branch_revision = t.base_revision;
  revision = some t.revision;
  role = a.role;
  mode = effective_mode mode (proposal_of f.result);
  result_code = f.code;
  description = f.description;
  merge_proposal_url = proposal_of f.result;
  id = some env.new_publish_id;
  requester = a.requester;
  change_set = a.run.change_set;
  run_id = some a.run.id;
  target_branch_url = elim f.result [ none ↦ some t.url | some r ↦ some r.target_branch_url ];
  target_branch_web_url = elim f.result [ none ↦ none | some r ↦ r.target_branch_web_url ];
  codebase = a.run.codebase;
  timestamp = env.now;
}

-- The bucket count is raised for a new proposal.
unfoldable pub bump : Option String → Option PublishOneResult → RateLimiter → RateLimiter
bump bucket none limiter = limiter
bump none (some r) limiter = limiter
bump (some bucket) (some r) limiter =
    if unwrap_or r.is_new false && is_some r.proposal_url then inc limiter bucket else limiter

unfoldable pub event_of : PolicyArgs → Publish → Event
event_of a p = record {
  run_id = a.run.id;
  mode = p.mode;
  role = a.role;
  result_code = p.result_code;
  proposal_url = p.merge_proposal_url;
}

-- The message on the channel, and the value returned.
unfoldable pub announce : Environment → PolicyArgs → Publish → World → Answer
announce env a p w =
    let result : Outcome String (Option Mode) =
      ok (if str_eq p.result_code "success" then some p.mode else none) in
    if env.has_redis
    then (if env.event_sent (event_of a p)
        then (result, record w { events = w.events ++ event_of a p ∷ [] })
        else (err "redis", w))
    else (result, w)
