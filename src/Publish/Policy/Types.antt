-- ===== src/Publish/Policy/Types.antt =====
-- publish/src/lib.rs: what `publish_from_policy` is given and what it works on.
use janitor.Base.{String, ℕ, Option, none, some, List, Bool, str_eq, if◌then◌else◌, Outcome}
use janitor.Base.Int.{ℤ}
use janitor.Publish.Mode.{Mode}
use janitor.Publish.RateLimiter.{RateLimiter}
use janitor.Publish.Run.{Run}
use janitor.Publish.Failure.{PublishError, ScheduleCall}
use janitor.Publish.Database.{Database}

-- The fields of a campaign's configuration that are read here.
pub record Campaign : Type 0 where
  pub name : Option String
  pub branch_name : Option String
  pub value_threshold : Option ℤ

pub data VcsType : Type 0 where
  bzr git : VcsType

unfoldable pub vcs_type_from_str : String → Option VcsType
vcs_type_from_str s = if str_eq s "bzr" then some bzr else if str_eq s "git" then some git else none

-- What the worker process is asked; templates, tags and the codemod's result are left out.
pub record Request : Type 0 where
  pub campaign : String
  pub codebase : String
  pub command : String
  pub target_branch_url : String
  pub mode : Mode
  pub role : String
  pub revision : String
  pub log_id : String
  pub unchanged_id : Option String
  pub derived_branch_name : String
  pub rate_limit_bucket : Option String
  pub require_binary_diff : Bool
  pub allow_create_proposal : Bool
  pub existing_mp_url : Option String

pub record PublishOneResult : Type 0 where
  pub proposal_url : Option String
  pub is_new : Option Bool
  pub branch_name : String
  pub target_branch_url : String
  pub target_branch_web_url : Option String

-- The message on the `publish` channel.
pub record Event : Type 0 where
  pub run_id : String
  pub mode : Mode
  pub role : String
  pub result_code : String
  pub proposal_url : Option String

-- What the function uses and this repository does not implement, or reads from the world: the
-- clock, fresh ids, URL handling, text formatting, the worker process, the registered VCS managers
-- and the Redis channel.
pub record Environment : Type 0 where
  pub now : ℕ
  pub new_publish_id : String
  pub parses_url : String → Bool
  pub role_branch_url : String → String → String
  -- The `branch_url` without its segment parameters and trailing slashes.
  pub tenant_url : String → String
  -- `{:?}` of a text.
  pub debug : String → String
  pub publish_one : Request → Outcome PublishError PublishOneResult
  pub has_manager : VcsType → Bool
  pub has_redis : Bool
  pub event_sent : Event → Bool

pub record World : Type 0 where
  pub db : Database
  pub limiter : RateLimiter
  pub scheduled : List ScheduleCall
  pub requests : List Request
  pub events : List Event

pub record PolicyArgs : Type 0 where
  pub run : Run
  pub role : String
  pub rate_limit_bucket : Option String
  pub target_branch_url : String
  pub mode : Mode
  pub max_frequency_days : Option ℤ
  pub command : String
  pub require_binary_diff : Bool
  pub force : Bool
  pub requester : Option String

abbrev pub Answer : Type 0
Answer = Outcome String (Option Mode) × World
