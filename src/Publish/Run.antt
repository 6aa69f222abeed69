-- ===== src/Publish/Run.antt =====
-- src/state.rs: the fields of a run that the publisher reads, and its result branches.
-- Times are microseconds since 1970; a revision id is its text.
use janitor.Base.{String, ℕ, Option, none, some, List, [], ◌∷◌, str_eq, if◌then◌else◌}
use janitor.Base.Int.{ℤ}

-- `(role, remote_name, base_revision, revision)`
pub record ResultBranch : Type 0 where
  pub role : String
  pub remote_name : String
  pub base_revision : Option String
  pub revision : Option String

pub record Run : Type 0 where
  pub id : String
  pub command : String
  pub result_code : String
  pub main_branch_revision : Option String
  pub revision : Option String
  pub suite : String
  pub vcs_type : String
  pub branch_url : String
  pub result_branches : Option (List ResultBranch)
  pub target_branch_url : Option String
  pub change_set : String
  pub codebase : String
  pub finish_time : ℕ
  pub value : Option ℤ

find_role : String → List ResultBranch → Option ResultBranch
find_role role [] = none
find_role role (b ∷ bs) = if str_eq b.role role then some b else find_role role bs

-- The entry that `role` names; the source drops its first field.
unfoldable pub get_result_branch : Run → String → Option ResultBranch
unfolding find_role
get_result_branch run role = elim run.result_branches [
  | none ↦ none
  | some branches ↦ find_role role branches
]

-- A row of the `last_runs` view.
pub record LastRun : Type 0 where
  pub id : String
  pub codebase : String
  pub revision : String
  pub result_code : String
