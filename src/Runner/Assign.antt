-- ===== src/Runner/Assign.antt =====
-- The loop of `assign_work_internal` (runner/src/web.rs), which looks for an item to hand out.
-- `campaigns` is the configuration: `default_empty` under each campaign's name. Times are
-- microseconds.
pub mod Answering
pub mod Loop
pub mod Handed
pub mod RateLimited
mod Examples
use janitor.Base.{
  String, ℕ, suc, zero, ◌+◌, ◌*◌, ◌≡◌, Option, none, some, unwrap_or, List, [], ◌∷◌, ◌++◌, map,
  Bool, true, false, not, ◌&&◌, ◌||◌, str_eq, any, find, filterb, ltb, leb, ◌==◌, is_some,
  if◌then◌else◌, ◌⊎◌, inl, inr, Outcome, ok, err, panic, Dict, lookup, ◌/◌, max,
}
use Prim.Native.String.{◌++◌ as str_append}
use janitor.Base.Int.{ℤ, pos, negsuc, pos_part, neg_part, sub_ℕ, ltb_ℤ, ◌+ℤ◌}
use janitor.Base.Order.{first, sort_by, then_by}
use janitor.Queue.Buckets.{bucket_rank}
use janitor.Queue.Rows.{QueueItem, VcsInfo, Tables}
use janitor.Queue.Listing.{vcs_info, host_is_kept, is_wanted, is_empty_list}
use janitor.Runner.ActiveRuns.{ActiveRun, ActiveRuns, store}
use janitor.Runner.Results.{JanitorResult, RunTables}
use janitor.Runner.Database.{finish_run}
use janitor.Runner.Claims.{
  AssignmentInfo, Redis, ClaimError, already_assigned, unavailable, get_rate_limited_hosts,
  get_assigned_queue_items, assign_queue_item, rate_limit_host,
}
use janitor.Runner.Offer.{
  Candidate, RunnerWorld, QueueAssignment, times, computed_score, scored_before, is_available,
  next_queue_item_with_scoring, or_empty, next_queue_item_with_rate_limiting,
}

pub data AssignmentValidation : Type 0 where
  valid unknown_campaign not_in_vcs : AssignmentValidation

unfoldable pub assignment_validation_outcome :
    (campaign_known default_empty has_branch_url : Bool) → AssignmentValidation
assignment_validation_outcome campaign_known default_empty has_branch_url =
    if not campaign_known
    then unknown_campaign
    else if not default_empty && not has_branch_url
    then not_in_vcs
    else valid

-- The result that records a refused item.
unfoldable pub aborted_result : QueueAssignment → String → String → String → ℕ → JanitorResult
aborted_result a code description log_id now = record {
  log_id = log_id;
  branch_url = unwrap_or a.vcs.branch_url "";
  subpath = a.vcs.subpath;
  code = code;
  transient = some false;
  codebase = a.queue_item.codebase;
  campaign = a.queue_item.campaign;
  description = some description;
  value = none;
  start_time = now;
  finish_time = now;
  revision = none;
  main_branch_revision = none;
  change_set = a.queue_item.change_set;
  branches = none;
  resume = none;
  worker_name = none;
  vcs_type = a.vcs.vcs_type;
  target_branch_url = none;
  builder_result = none;
}

-- An error, of a database that does not answer (`up`) or of the statement, is only logged.
unfoldable pub abort_assignment :
    Bool → QueueAssignment → String → String → String → ℕ → RunnerWorld → RunnerWorld
abort_assignment up a code description log_id now w =
    if up
    then record w {
      tables =
          (finish_run (aborted_result a code description log_id now)
            (unwrap_or a.queue_item.command "") a.queue_item.id w.tables).2;
    }
    else w

-- `max_validation_retries`
abbrev pub max_validation_retries : ℕ
max_validation_retries = 20

-- What a worker asks for.
pub record AssignRequest : Type 0 where
  pub codebase : Option String
  pub campaign : Option String
  pub exclude_hosts : Option (List String)

-- The hosts that the runner avoids, and those of the request that are not among them.
unfoldable pub merge_hosts : List String → List String → List String
merge_hosts hosts [] = hosts
merge_hosts hosts (host ∷ rest) =
    merge_hosts (if any (str_eq host) hosts then hosts else hosts ++ host ∷ []) rest

-- What one round of the loop meets: the time, which calls are answered, the fresh ids, and what
-- other requests and tasks do between the query and the rest of the round.
pub record Round : Type 0 where
  pub now : ℕ
  pub hosts_up : Bool
  pub assigned_up : Bool
  pub query_up : Bool
  pub finish_up : Bool
  pub claims : Bool
  pub adds : Bool
  pub log_id : String
  pub aborted_id : String
  pub others : RunnerWorld → RunnerWorld

-- How the loop ends.
pub data LoopEnd : Type 0 where
  gave_up queue_empty database_error : LoopEnd
  assigned : (assignment : QueueAssignment) (log_id : String) → LoopEnd

-- The claim of a valid item: it is handed out too when Redis fails, but not when another worker
-- holds it.
unfoldable pub claim_item :
    String → QueueAssignment → Round → RunnerWorld → (LoopEnd × RunnerWorld) ⊎ RunnerWorld
claim_item worker a round w =
    let answer : Option ClaimError × Option Redis =
      assign_queue_item round.claims round.adds a.queue_item.id
        (record { worker_name = worker; log_id = round.log_id; assigned_at = round.now }) w.redis in
    let after : RunnerWorld = record w { redis = answer.1 } in
    elim answer.0 [
      | none ↦ inl (assigned a round.log_id, after)
      | some e ↦ elim e [
        | already_assigned ↦ inr after
        | unavailable ↦ inl (assigned a round.log_id, after)
      ]
    ]

module _ (campaigns : Dict Bool) where
  unfoldable pub validate : QueueAssignment → AssignmentValidation
  validate a =
      assignment_validation_outcome (is_some (lookup a.queue_item.campaign campaigns))
        (unwrap_or (lookup a.queue_item.campaign campaigns) false) (is_some a.vcs.branch_url)

  -- A round for an item that was picked: it ends the loop, or another one follows.
  unfoldable pub try_item :
      String → QueueAssignment → Round → RunnerWorld → (LoopEnd × RunnerWorld) ⊎ RunnerWorld
  try_item worker a round w = elim (validate a) [
    | valid ↦ claim_item worker a round w
    | unknown_campaign ↦ inr (
        abort_assignment round.finish_up a "unknown-campaign"
          (str_append "Campaign " (str_append a.queue_item.campaign " unknown")) round.aborted_id
          round.now w)
    | not_in_vcs ↦ inr (
        abort_assignment round.finish_up a "not-in-vcs" "No VCS URL known for codebase."
          round.aborted_id round.now w)
  ]

module _ (unit : ℕ) (host_of : String → Option String) (campaigns : Dict Bool) where
  unfoldable pub assign_round :
      String
      → AssignRequest
      → List String
      → Round
      → RunnerWorld
      → (LoopEnd × RunnerWorld) ⊎ RunnerWorld
  assign_round worker request hosts round w =
      if not round.query_up
      then inl (database_error, w)
      else elim (next_queue_item_with_rate_limiting unit host_of round.hosts_up round.assigned_up
          round.now request.codebase request.campaign hosts w) [
            | none ↦ inl (queue_empty, w)
            | some a ↦ try_item campaigns worker a round (round.others w)
          ]

  -- The loop, on fuel; `rounds` tells what each round meets.
  unfoldable pub assign_loop :
      ℕ
      → String
      → AssignRequest
      → List String
      → (ℕ → Round)
      → ℕ
      → RunnerWorld
      → Option (LoopEnd × RunnerWorld)
  assign_loop zero worker request hosts rounds retries w = none
  assign_loop (suc fuel) worker request hosts rounds retries w =
      if leb max_validation_retries retries
      then some (gave_up, w)
      else elim (assign_round worker request hosts (rounds retries) w) [
        | inl end ↦ some end
        | inr next ↦ assign_loop fuel worker request hosts rounds (suc retries) next
      ]
