-- ===== src/Runner/Results.antt =====
-- The results of runs (runner/src/lib.rs) and the rows that store them (schema/state.sql). The columns
-- that hold JSON or lists (contexts, the codemod's result, log names, tags, failure details and
-- stage) are left out. Times are microseconds.
use janitor.Base.{String, ℕ, Option, List, Bool}
use janitor.Base.Int.{ℤ}
use janitor.Queue.Rows.{Tables}

pub data BuilderResult : Type 0 where
  generic : BuilderResult
  debian : (source build_version build_distribution : Option String) → BuilderResult

-- A branch of a result: (role, remote name, base revision, revision).
pub record BranchTuple : Type 0 where
  pub role : Option String
  pub remote_name : Option String
  pub base_revision : Option String
  pub revision : Option String

pub record JanitorResult : Type 0 where
  pub log_id : String
  pub branch_url : String
  pub subpath : Option String
  pub code : String
  pub transient : Option Bool
  pub codebase : String
  pub campaign : String
  pub description : Option String
  -- A `u64`.
  pub value : Option ℕ
  pub start_time : ℕ
  pub finish_time : ℕ
  pub revision : Option String
  pub main_branch_revision : Option String
  pub change_set : Option String
  pub branches : Option (List BranchTuple)
  pub resume : Option String
  pub worker_name : Option String
  pub vcs_type : Option String
  pub target_branch_url : Option String
  pub builder_result : Option BuilderResult

-- A row of `run`.
pub record StoredRun : Type 0 where
  pub id : String
  pub command : String
  pub description : Option String
  pub result_code : String
  pub start_time : ℕ
  pub finish_time : ℕ
  pub main_branch_revision : Option String
  pub revision : Option String
  pub suite : String
  pub vcs_type : Option String
  pub branch_url : String
  pub subpath : Option String
  pub value : Option ℤ
  pub worker : Option String
  pub resume_from : Option String
  pub target_branch_url : Option String
  pub change_set : Option String
  pub failure_transient : Option Bool
  pub codebase : String

-- A row of `new_result_branch`.
pub record BranchRow : Type 0 where
  pub run_id : String
  pub role : String
  pub remote_name : Option String
  pub base_revision : Option String
  pub revision : Option String

-- A row of `debian_build`.
pub record DebianBuild : Type 0 where
  pub run_id : String
  pub source : String
  pub version : String
  pub distribution : String

pub record RunTables : Type 0 where
  pub queue : Tables
  pub runs : List StoredRun
  pub branches : List BranchRow
  pub builds : List DebianBuild
  pub workers : List String

pub data FinishError : Type 0 where
  unknown_vcs_type check_violation missing_codebase missing_change_set missing_worker
        missing_resumed_run null_role duplicate_role :
      FinishError

pub data FinishOutcome : Type 0 where
  stored already_stored : FinishOutcome
