-- ===== src/Publish/Existing/Types.antt =====
-- publish/src/lib.rs: what `check_existing_mp` is given and what it works on. The texts of errors are
-- left out.
use janitor.Base.{String, ℕ, Option, List, Bool, true, false, Outcome}
use janitor.Base.Int.{ℤ}
use janitor.Publish.RateLimiter.{MpsPerBucket}
use janitor.Publish.Mode.{MergeProposalStatus, open_, merged, applied, closed, abandoned, rejected}
use janitor.Publish.Run.{Run}
use janitor.Publish.Policy.Types.{World}

-- Errors of the forges' library, as far as they are told apart.
pub data BrzError : Type 0 where
  http_status login_required permission_denied other : BrzError

pub data CheckMpError : Type 0 where
  no_run_for_merge_proposal : String → CheckMpError
  branch_rate_limited : Option ℕ → CheckMpError
  unexpected_http_status forge_login_required database brz invalid_identifier : CheckMpError

-- `From<BrzError> for CheckMpError`
unfoldable pub from_brz : BrzError → CheckMpError
from_brz http_status = unexpected_http_status
from_brz login_required = forge_login_required
from_brz permission_denied = brz
from_brz other = brz

-- A forge's status of a proposal.
pub data ForgeStatus : Type 0 where
  forge_open forge_merged forge_closed forge_all : ForgeStatus

unfoldable pub forge_status_eq : ForgeStatus → ForgeStatus → Bool
forge_status_eq forge_open forge_open = true
forge_status_eq forge_merged forge_merged = true
forge_status_eq forge_closed forge_closed = true
forge_status_eq forge_all forge_all = true
forge_status_eq _ _ = false

unfoldable pub status_eq : MergeProposalStatus → MergeProposalStatus → Bool
status_eq open_ open_ = true
status_eq merged merged = true
status_eq applied applied = true
status_eq closed closed = true
status_eq abandoned abandoned = true
status_eq rejected rejected = true
status_eq _ _ = false

pub data OpenError : Type 0 where
  missing unavailable temporarily_unavailable other_open_error : OpenError

pub record Branch : Type 0 where
  pub name : Option String
  pub last_revision : String
  pub user_url : String

-- A proposal, by what the forge answers about it. A call that panics fails the task it runs in.
pub record MergeProposalHandle : Type 0 where
  pub url : Outcome BrzError String
  pub source_revision : Outcome BrzError (Option String)
  pub source_branch_url : Outcome BrzError (Option String)
  pub can_be_merged : Outcome BrzError Bool
  pub target_branch_url : Outcome BrzError (Option String)
  pub set_target_branch_name : String → Outcome BrzError (Unit {0})
  pub post_comment : String → Outcome BrzError (Unit {0})
  pub close : Outcome BrzError (Unit {0})

-- The parts of a URL that are read.
pub record UrlParts : Type 0 where
  pub scheme : String
  pub host : Option String
  pub path : String
  pub query : Option String
  pub fragment : Option String

-- What `do_schedule` answers.
pub data ScheduleAnswer : Type 0 where
  scheduled candidate_unavailable schedule_failed : ScheduleAnswer

-- A call of `do_schedule` with the bucket `update-existing-mp`.
pub record Reschedule : Type 0 where
  pub campaign : String
  pub codebase : String
  pub change_set : Option String
  pub refresh : Bool
  pub requester : String

-- The libraries for branches and URLs, and the scheduler.
pub record ForgeEnvironment : Type 0 where
  pub open_branch : String → Outcome OpenError Branch
  pub parse_url : String → Option UrlParts
  -- `split_segment_parameters`: the URL without its parameters, and the `branch` parameter
  -- unescaped.
  pub repository_url : String → String
  pub branch_parameter : String → Option String
  -- Where a HEAD request ends up, if it is answered.
  pub resolve_redirects : String → String
  pub do_schedule : Reschedule → ScheduleAnswer

-- A row of `last_effective_runs`.
pub record EffectiveRun : Type 0 where
  pub run : Run
  pub failure_transient : Option Bool

pub record PolicyCandidate : Type 0 where
  pub codebase : String
  pub suite : String
  pub publish_policy : Option String

pub record PolicyRow : Type 0 where
  pub name : String
  pub rate_limit_bucket : Option String

-- The tables that are only read here: runs with their result branches, the view of effective runs,
-- codebases (names with URLs), candidates and named policies.
pub record Tables : Type 0 where
  pub runs : List Run
  pub effective_runs : List EffectiveRun
  pub codebase_urls : List (String × String)
  pub candidates : List PolicyCandidate
  pub policies : List PolicyRow

-- A call that changes a proposal on its forge.
pub data ForgeCall : Type 0 where
  commented : String → String → ForgeCall
  closed_on_forge : String → ForgeCall
  retargeted : String → String → ForgeCall

-- `mps_per_bucket` is none where the caller does not count.
pub record ScanWorld : Type 0 where
  pub world : World
  pub calls : List ForgeCall
  pub rescheduled : List Reschedule
  pub mps_per_bucket : Option MpsPerBucket

-- What `check_existing_mp` returns, with the world it leaves.
abbrev pub Checked : Type 0
Checked = Outcome CheckMpError Bool × ScanWorld

-- `get_merge_proposal_run`, or the placeholder for an orphaned proposal.
pub record MergeProposalRun : Type 0 where
  pub id : Option String
  pub campaign : String
  pub branch_url : String
  pub command : String
  pub value : ℤ
  pub role : String
  pub remote_branch_name : String
  pub revision : String
  pub codebase : String
  pub change_set : Option String

-- What a check has found out about a proposal.
pub record Gathered : Type 0 where
  pub revision : Option String
  pub source_branch_name : Option String
  pub target_branch_url : Option String
  pub can_be_merged : Option Bool
  pub codebase : Option String
  pub rate_limit_bucket : Option String
  pub status : MergeProposalStatus
