-- ===== src/Runner/Database.antt =====
-- runner/src/database.rs: how a completed run is stored. The queue and the change sets are those of
-- src/queue.rs. Names are those that their columns take, and the database answers.
pub mod Finish
use janitor.Base.{
  String, ℕ, ◌%◌, ◌-◌, Option, none, some, List, [], ◌∷◌, ◌++◌, map, Bool, true, false, not, ◌&&◌,
  ◌||◌, str_eq, any, is_some, leb, ltb, if◌then◌else◌, ◌⊎◌, inl, inr, lookup,
}
use janitor.Base.Int.{ℤ, pos, negsuc}
use janitor.Queue.Rows.{Tables, delete_item}
use janitor.Runner.Results.{
  BuilderResult, BranchTuple, JanitorResult, StoredRun, BranchRow, DebianBuild, RunTables,
  FinishError, FinishOutcome, generic, debian, stored, already_stored, unknown_vcs_type,
  check_violation, missing_codebase, missing_change_set, missing_worker, missing_resumed_run,
  null_role, duplicate_role,
}

-- `v as i32`
unfoldable pub as_i32 : ℕ → ℤ
as_i32 v =
    let low : ℕ = v % 4294967296 in
    if ltb low 2147483648 then pos low else negsuc (4294967295 - low)

unfoldable pub has_run : String → List StoredRun → Bool
has_run id runs = any (λ row. str_eq row.id id) runs

-- `vcs_type` of schema/state.sql.
unfoldable pub is_vcs_type : Option String → Bool
is_vcs_type none = true
is_vcs_type (some name) =
    any (str_eq name) ("bzr" ∷ "git" ∷ "svn" ∷ "hg" ∷ "cvs" ∷ "arch" ∷ "mtn" ∷ "darcs" ∷ [])

-- A nullable foreign key.
unfoldable pub refers : Option String → List String → Bool
refers none names = true
refers (some name) names = any (str_eq name) names

-- The CHECK constraints of `run`: `publish_status` starts as 'unknown'.
unfoldable pub passes_checks : JanitorResult → Bool
passes_checks result =
    leb result.start_time result.finish_time
    && (not (str_eq result.code "nothing-new-to-do") || is_some result.resume)

unfoldable pub run_row : JanitorResult → String → StoredRun
run_row result command = record {
  id = result.log_id;
  command = command;
  description = result.description;
  result_code = result.code;
  start_time = result.start_time;
  finish_time = result.finish_time;
  main_branch_revision = result.main_branch_revision;
  revision = result.revision;
  suite = result.campaign;
  vcs_type = result.vcs_type;
  branch_url = result.branch_url;
  subpath = result.subpath;
  value = elim result.value [ none ↦ none | some v ↦ some (as_i32 v) ];
  worker = result.worker_name;
  resume_from = result.resume;
  target_branch_url = result.target_branch_url;
  change_set = result.change_set;
  failure_transient = result.transient;
  codebase = result.codebase;
}

-- The rows of the branches, each checked as it is inserted: a role may not be missing, nor stand
-- twice in a run. The warning that the code logs on a repeated role does not stop it.
unfoldable pub insert_branches :
    String → List BranchTuple → List BranchRow → FinishError ⊎ List BranchRow
insert_branches run_id [] rows = inr rows
insert_branches run_id (branch ∷ rest) rows = elim branch.role [
  | none ↦ inl null_role
  | some role ↦
      if any (λ row. str_eq row.run_id run_id && str_eq row.role role) rows
      then inl duplicate_role
      else insert_branches run_id rest (
          rows
          ++ (record {
            run_id = run_id;
            role = role;
            remote_name = branch.remote_name;
            base_revision = branch.base_revision;
            revision = branch.revision;
          })
            ∷ [])
]

unfoldable pub branch_tuples : JanitorResult → List BranchTuple
branch_tuples result = elim result.branches [ none ↦ [] | some branches ↦ branches ]

-- Why the row of `run` is refused, if it is.
unfoldable pub refusal : JanitorResult → RunTables → Option FinishError
refusal result t =
    if not (is_vcs_type result.vcs_type)
    then some unknown_vcs_type
    else if not (passes_checks result)
    then some check_violation
    else if not (is_some (lookup result.codebase t.queue.codebases))
    then some missing_codebase
    else if not (is_some result.change_set && refers result.change_set t.queue.change_sets)
    then some missing_change_set
    else if not (refers result.worker_name t.workers)
    then some missing_worker
    else if not (refers result.resume (map (λ row. row.id) t.runs))
    then some missing_resumed_run
    else none

unfoldable pub store_run : JanitorResult → String → RunTables → FinishError ⊎ RunTables
store_run result command t = elim (refusal result t) [
  | some e ↦ inl e
  | none ↦ elim (insert_branches result.log_id (branch_tuples result) t.branches) [
    | inl e ↦ inl e
    | inr rows ↦ inr (record t { runs = t.runs ++ run_row result command ∷ []; branches = rows })
  ]
]

-- `ON CONFLICT DO NOTHING`
unfoldable pub store_change_set : String → Tables → Tables
store_change_set name t =
    if any (str_eq name) t.change_sets
    then t
    else record t { change_sets = t.change_sets ++ name ∷ [] }

unfoldable pub store_builder_result_tx : String → Option BuilderResult → RunTables → RunTables
store_builder_result_tx run_id (some (debian (some source) (some version) (some distribution))) t =
    record t {
      builds =
          t.builds
          ++ (record {
            run_id = run_id;
            source = source;
            version = version;
            distribution = distribution;
          })
            ∷ [];
    }
store_builder_result_tx run_id _ t = t

-- The result's own change set, or a new one under the id of the run, which is stored first.
unfoldable pub with_change_set : JanitorResult → RunTables → JanitorResult × RunTables
with_change_set result t =
    if elim result.change_set [ none ↦ true | some name ↦ str_eq name "" ]
    then (
      record result { change_set = some result.log_id },
      record t { queue = store_change_set result.log_id t.queue },
    )
    else (result, t)

unfoldable pub delete_from_queue : ℕ → RunTables → RunTables
delete_from_queue queue_id t = record t {
  queue = record t.queue { rows = delete_item queue_id t.queue.rows };
}

-- What `finish_run` answers, the result as it leaves it, and the tables: what an error leaves is
-- rolled back.
unfoldable pub finish_run :
    JanitorResult
    → String
    → ℕ
    → RunTables
    → (FinishError ⊎ FinishOutcome) × JanitorResult × RunTables
finish_run result command queue_id t =
    if has_run result.log_id t.runs
    then (inr already_stored, result, delete_from_queue queue_id t)
    else let (filled, begun) = with_change_set result t in
      elim (store_run filled command begun) [
        | inl e ↦ (inl e, filled, t)
        | inr done ↦ (
          inr stored,
          filled,
          delete_from_queue queue_id
              (store_builder_result_tx filled.log_id filled.builder_result done),
        )
      ]
