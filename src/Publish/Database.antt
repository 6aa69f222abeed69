-- ===== src/Publish/Database.antt =====
-- The tables of schema/state.sql that the publisher reads and writes, and the queries of
-- publish/src/state.rs over them. Rows stand in the order of their insertion; a missing value is
-- NULL. Connection and constraint errors are not modelled.
use janitor.Base.{
  String, ℕ, Option, none, some, List, [], ◌∷◌, ◌++◌, map, Bool, true, false, ◌&&◌, not, str_eq,
  any, filterb, ltb, if◌then◌else◌, length,
}
use janitor.Publish.Mode.{Mode, mode_eq, MergeProposalStatus, open_, abandoned}
use janitor.Publish.Run.{LastRun}

pub record MergeProposal : Type 0 where
  pub url : String
  pub status : MergeProposalStatus
  pub revision : Option String
  pub last_scanned : Option ℕ
  pub target_branch_url : Option String
  pub codebase : Option String
  pub can_be_merged : Option Bool
  pub rate_limit_bucket : Option String

pub record Publish : Type 0 where
  pub branch_name : Option String
  pub main_branch_revision : Option String
  pub revision : Option String
  pub role : String
  pub mode : Mode
  pub result_code : String
  pub description : Option String
  pub merge_proposal_url : Option String
  pub id : Option String
  pub requester : Option String
  pub change_set : String
  pub run_id : Option String
  pub target_branch_url : Option String
  pub target_branch_web_url : Option String
  pub codebase : String
  pub timestamp : ℕ

pub record NewResultBranch : Type 0 where
  pub run_id : String
  pub role : String
  pub revision : Option String
  pub absorbed : Bool

-- The columns of `run` that the queries below read.
pub record RunRow : Type 0 where
  pub id : String
  pub change_set : String
  pub codebase : String
  pub suite : String
  pub revision : Option String
  pub result_code : String
  pub finish_time : ℕ

pub data ChangeSetState : Type 0 where
  created working ready publishing done : ChangeSetState

pub record ChangeSet : Type 0 where
  pub id : String
  pub state : ChangeSetState

pub record CodebaseRow : Type 0 where
  pub name : String
  pub branch_url : String
  pub url : String

-- `todo` and `unpublished` are the change sets that the views `change_set_todo` and
-- `change_set_unpublished` list: these read tables that are not here (`candidate`, `last_run`), and
-- what they list is given by the branches and the attempts that there are when they are read.
pub record Database : Type 0 where
  pub merge_proposals : List MergeProposal
  pub publishes : List Publish
  pub new_result_branches : List NewResultBranch
  pub runs : List RunRow
  pub change_sets : List ChangeSet
  pub last_runs : List LastRun
  pub codebases : List CodebaseRow
  pub todo : List NewResultBranch → List Publish → List String
  pub unpublished : List NewResultBranch → List Publish → List String

-- `column = value`, which NULL never satisfies.
abbrev pub opt_is : Option String → String → Bool
opt_is none s = false
opt_is (some t) s = str_eq t s

matches_publish : String → String → String → List Mode → Publish → Bool
matches_publish target_branch_url branch_name revision modes p =
    any (mode_eq p.mode) modes
    && opt_is p.revision revision
    && opt_is p.target_branch_url target_branch_url
    && opt_is p.branch_name branch_name

unfoldable pub already_published : Database → String → String → String → List Mode → Bool
unfolding matches_publish
already_published db target_branch_url branch_name revision modes =
    any (matches_publish target_branch_url branch_name revision modes) db.publishes

is_open : MergeProposal → Bool
is_open mp = elim mp.status [ open_ ↦ true | _ ↦ false ]

-- The inner join with `publish`, for one proposal: the timestamps of the rows that match.
join_publishes : String → MergeProposal → List Publish → List (ℕ × MergeProposal)
join_publishes branch_name mp [] = []
join_publishes branch_name mp (p ∷ ps) =
    if opt_is p.merge_proposal_url mp.url && opt_is p.branch_name branch_name
    then (p.timestamp, mp) ∷ join_publishes branch_name mp ps
    else join_publishes branch_name mp ps

open_rows : String → String → List Publish → List MergeProposal → List (ℕ × MergeProposal)
unfolding is_open join_publishes
open_rows codebase branch_name ps [] = []
open_rows codebase branch_name ps (mp ∷ mps) =
    if is_open mp && opt_is mp.codebase codebase
    then join_publishes branch_name mp ps ++ open_rows codebase branch_name ps mps
    else open_rows codebase branch_name ps mps

-- `ORDER BY timestamp DESC`, first row.
newest : List (ℕ × MergeProposal) → Option (ℕ × MergeProposal)
newest [] = none
newest ((t, mp) ∷ rows) = elim (newest rows) [
  | none ↦ some (t, mp)
  | some (t', mp') ↦ if ltb t t' then some (t', mp') else some (t, mp)
]

-- `parses` is `Url::parse` succeeding: a row whose URL does not parse counts as no proposal.
unfoldable pub get_open_merge_proposal :
    (String → Bool) → Database → String → String → Option MergeProposal
unfolding open_rows newest
get_open_merge_proposal parses db codebase branch_name =
    elim (newest (open_rows codebase branch_name db.publishes db.merge_proposals)) [
      | none ↦ none
      | some (t, mp) ↦ if parses mp.url then some mp else none
    ]

run_of_publish : Database → String → String → Publish → Bool
run_of_publish db campaign codebase p = elim p.revision [
  | none ↦ false
  | some r ↦
      any
        (λ run. opt_is run.revision r && str_eq run.suite campaign && str_eq run.codebase codebase)
        db.runs
]

latest : List Publish → Option ℕ
latest [] = none
latest (p ∷ ps) = elim (latest ps) [
  | none ↦ some p.timestamp
  | some t ↦ if ltb p.timestamp t then some t else some p.timestamp
]

-- The timestamp of the last successful publish of this campaign and codebase.
unfoldable pub check_last_published : Database → String → String → Option ℕ
unfolding latest run_of_publish
check_last_published db campaign codebase = latest (
    filterb (λ p. run_of_publish db campaign codebase p && str_eq p.result_code "success")
      db.publishes)

is_settled : MergeProposal → Bool
is_settled mp = elim mp.status [ open_ ↦ false | abandoned ↦ false | _ ↦ true ]

-- The rows of `per_run_mps` for one run.
join_proposals : RunRow → List MergeProposal → List (RunRow × MergeProposal)
join_proposals run [] = []
join_proposals run (mp ∷ mps) = elim run.revision [
  | none ↦ []
  | some r ↦
      if opt_is mp.revision r && is_settled mp
      then (run, mp) ∷ join_proposals run mps
      else join_proposals run mps
]

per_run_mps : String → String → List RunRow → List MergeProposal → List (RunRow × MergeProposal)
per_run_mps codebase campaign [] mps = []
per_run_mps codebase campaign (run ∷ runs) mps =
    if str_eq run.codebase codebase && str_eq run.suite campaign && str_eq run.result_code "success"
    then join_proposals run mps ++ per_run_mps codebase campaign runs mps
    else per_run_mps codebase campaign runs mps

-- `ORDER BY finish_time DESC LIMIT 1`
last_finished : List (RunRow × MergeProposal) → Option RunRow
last_finished [] = none
last_finished ((run, mp) ∷ rows) = elim (last_finished rows) [
  | none ↦ some run
  | some run' ↦ if ltb run.finish_time run'.finish_time then some run' else some run
]

-- The proposals, neither open nor abandoned, of the last successful run that has any.
unfoldable pub get_previous_mp_status :
    Database → String → String → List (String × MergeProposalStatus)
unfolding per_run_mps last_finished join_proposals is_settled
get_previous_mp_status db codebase campaign =
    let rows : List (RunRow × MergeProposal) =
      per_run_mps codebase campaign db.runs db.merge_proposals in
    elim (last_finished rows) [
      | none ↦ []
      | some run ↦
          map (λ row. (row.1.url, row.1.status)) (filterb (λ row. str_eq row.0.id run.id) rows)
    ]

-- The attempts at a revision whose code is not excluded. (`result_code` is never NULL.)
unfoldable pub get_publish_attempt_count : Database → String → List String → ℕ
get_publish_attempt_count db revision exclude_codes = length (
    filterb (λ p. opt_is p.revision revision && not (any (str_eq p.result_code) exclude_codes))
      db.publishes)
