-- ===== src/Publish/Failure.antt =====
-- publish/src/lib.rs: publish errors, and what a failed attempt reschedules.
pub mod Recovery
mod Examples
use Prim.Native.String.{◌++◌ as str_append}
use janitor.Base.{
  String, Option, none, some, Bool, true, false, List, [], ◌∷◌, ◌&&◌, str_eq, if◌then◌else◌,
}
use janitor.Publish.Run.{Run, LastRun}

pub data PublishError : Type 0 where
  failure : String → String → PublishError
  nothing_to_do branch_busy network_error service_unavailable : String → PublishError
  authentication_failed database_error : PublishError

unfoldable pub code : PublishError → String
code (failure c description) = c
code (nothing_to_do reason) = "nothing-to-do"
code (branch_busy url) = "branch-busy"
code authentication_failed = "authentication-failed"
code (network_error msg) = "network-error"
code database_error = "database-error"
code (service_unavailable msg) = "service-unavailable"

unfoldable pub description : PublishError → String
description (failure c d) = d
description (nothing_to_do reason) = reason
description (branch_busy url) = "Branch is busy"
description authentication_failed = "Authentication failed"
description (network_error msg) = msg
description database_error = "Database error"
description (service_unavailable msg) = msg

pub data PublishFailureAction : Type 0 where
  -- description, requester, refresh
  reschedule_regular : Option String → String → Bool → PublishFailureAction
  -- description, refresh, requester, explicit revision
  reschedule_control : String → Bool → String → Option String → PublishFailureAction
  rewrite_description : String → PublishFailureAction
  no_action : PublishFailureAction

-- The branch for `missing-build-diff-control`; the pair is a control run's code and revision.
classify_control : Option (String × String) → PublishFailureAction
classify_control none =
    reschedule_control "Missing binary diff; requesting control run." false
      "publisher (missing control run for diff)" none
classify_control (some (unchanged_code, unchanged_revision)) =
    if str_eq unchanged_code "success"
    then reschedule_control
        "Missing build diff due to control run, but successful control run exists. Rescheduling."
        true "publisher (missing build artifacts - control)" (some unchanged_revision)
    else rewrite_description (
        str_append "Missing build diff; last control run failed (" (str_append unchanged_code ")."))

unfoldable pub classify_publish_failure_action :
    String → String → Option (String × String) → PublishFailureAction
unfolding classify_control
classify_publish_failure_action c run_result_code unchanged_run =
    if str_eq c "merge-conflict"
    then reschedule_regular none "publisher (pre-creation merge conflict)" false
    else if str_eq c "diverged-branches"
    then reschedule_regular none "publisher (diverged branches)" false
    else if str_eq c "missing-build-diff-self"
    then (if str_eq run_result_code "success"
        then reschedule_regular (some "Missing build artifacts, rescheduling")
            "publisher (missing build artifacts - self)" true
        else rewrite_description "Missing build diff; run was not actually successful?")
    else if str_eq c "missing-build-diff-control"
    then classify_control unchanged_run
    else no_action

-- A call of `do_schedule` or `do_schedule_control`; its failure is only logged.
pub data ScheduleCall : Type 0 where
  -- campaign, codebase, bucket, change set, refresh, requester, command
  regular : String → String → String → String → Bool → String → Option String → ScheduleCall
  -- codebase, main branch revision, refresh, bucket, requester
  control : String → String → Bool → String → String → ScheduleCall

-- `SELECT result_code, revision FROM last_runs WHERE revision = $2 AND codebase = $1 AND
-- result_code = 'success'`, by `fetch_optional`.
find_unchanged : List LastRun → String → String → Option LastRun
find_unchanged [] codebase revision = none
find_unchanged (r ∷ rs) codebase revision =
    if str_eq r.revision revision && str_eq r.codebase codebase && str_eq r.result_code "success"
    then some r
    else find_unchanged rs codebase revision

unfoldable pub unchanged_run : List LastRun → Run → Option (String × String)
unfolding find_unchanged
unchanged_run last_runs run = elim run.main_branch_revision [
  | none ↦ none
  | some rev ↦ elim (find_unchanged last_runs run.codebase rev) [
    | none ↦ none
    | some r ↦ some (r.result_code, r.revision)
  ]
]

-- `explicit.or(main)`
or_else : Option String → Option String → Option String
or_else none main = main
or_else (some r) main = some r

control_calls : Run → String → Bool → String → Option String → List ScheduleCall
control_calls run bucket refresh requester none = []
control_calls run bucket refresh requester (some revision) =
    control run.codebase revision refresh bucket requester ∷ []

-- What to record (code and description) and the scheduling calls that are made.
unfoldable pub apply_action :
    Run → String → String → String → PublishFailureAction → (String × String) × List ScheduleCall
unfolding or_else control_calls
apply_action run bucket c d no_action = ((c, d), [])
apply_action run bucket c d (rewrite_description d') = ((c, d'), [])
apply_action run bucket c d (reschedule_regular none requester refresh) =
    ((c, d), regular run.suite run.codebase bucket run.change_set refresh requester none ∷ [])
apply_action run bucket c d (reschedule_regular (some d') requester refresh) =
    ((c, d'), regular run.suite run.codebase bucket run.change_set refresh requester none ∷ [])
apply_action run bucket c d (reschedule_control d' refresh requester explicit) = (
  (c, d'),
  control_calls run bucket refresh requester (or_else explicit run.main_branch_revision),
)

unfoldable pub handle_publish_failure :
    PublishError → List LastRun → Run → String → (String × String) × List ScheduleCall
handle_publish_failure e last_runs run bucket =
    apply_action run bucket (code e) (description e)
      (classify_publish_failure_action (code e) run.result_code (unchanged_run last_runs run))
