-- ===== src/Publish/ChangeSets.antt =====
-- schema/state.sql: how the triggers on `new_result_branch` and `publish` refresh the state of a
-- change set. A run or a change set that a foreign key names is there.
use janitor.Base.{String, Option, none, some, map, ◌&&◌, not, str_eq, any, find, if◌then◌else◌}
use janitor.Publish.Database.{
  Database, ChangeSet, ChangeSetState, created, working, ready, publishing, done, opt_is,
}

-- The four steps of `refresh_change_set_state`, each from one state to the next.
unfoldable pub leave_created : Database → String → ChangeSetState → ChangeSetState
leave_created db id created =
    if any (λ run. str_eq run.change_set id) db.runs then working else created
leave_created db id state = state

unfoldable pub leave_working : Database → String → ChangeSetState → ChangeSetState
leave_working db id working =
    if any (λ run. str_eq run.change_set id && str_eq run.result_code "success") db.runs
      && not (any (str_eq id) (db.todo db.new_result_branches db.publishes))
    then ready
    else working
leave_working db id state = state

unfoldable pub leave_ready : Database → String → ChangeSetState → ChangeSetState
leave_ready db id ready =
    if any (λ p. str_eq p.result_code "success" && str_eq p.change_set id) db.publishes
    then publishing
    else ready
leave_ready db id state = state

unfoldable pub leave_publishing : Database → String → ChangeSetState → ChangeSetState
leave_publishing db id publishing =
    if any (str_eq id) (db.unpublished db.new_result_branches db.publishes)
    then publishing
    else done
leave_publishing db id state = state

unfoldable pub refreshed_state : Database → String → ChangeSetState → ChangeSetState
refreshed_state db id state =
    leave_publishing db id (leave_ready db id (leave_working db id (leave_created db id state)))

unfoldable pub refresh_change_set : Database → String → ChangeSet → ChangeSet
refresh_change_set db id c =
    if str_eq c.id id then record c { state = refreshed_state db id c.state } else c

unfoldable pub refresh_change_set_state : String → Database → Database
refresh_change_set_state id db = record db {
  change_sets = map (refresh_change_set db id) db.change_sets;
}

-- The change set of a run.
unfoldable pub change_set_of : Option String → Database → Option String
change_set_of run_id db = elim (find (λ run. opt_is run_id run.id) db.runs) [
  | none ↦ none
  | some run ↦ some run.change_set
]

-- The trigger on `new_result_branch`, for a branch that `before` did not have as absorbed.
unfoldable pub new_result_branch_trigger : Option String → String → Database → Database → Database
new_result_branch_trigger run_id role before db =
    if any (λ b. opt_is run_id b.run_id && str_eq b.role role && not b.absorbed)
      before.new_result_branches
    then (elim (change_set_of run_id db) [ none ↦ db | some id ↦ refresh_change_set_state id db ])
    else db
