-- ===== src/Publish/Failure/Recovery.antt =====
-- Which failures of publish/src/lib.rs are rescheduled, and when a control run is asked for.
use janitor.Base.{
  String, ◌≤◌, ◌≡◌, refl, none, some, true, false, List, [], ◌∷◌, if◌then◌else◌, eq_iff, arith,
  Option-cases, inl, inr, is_some, length, All,
}
use janitor.Publish.Run.{Run, LastRun}
use janitor.Publish.Failure.{
  PublishError, PublishFailureAction, no_action, rewrite_description, reschedule_regular,
  reschedule_control, failure, code, description, classify_publish_failure_action, ScheduleCall,
  regular, control, find_unchanged, unchanged_run, or_else, control_calls, apply_action,
  handle_publish_failure,
}

-- The row found has the revision asked for and a successful result.
find_unchanged-success :
    (rs : List LastRun) (codebase revision : String) (r : LastRun)
    → find_unchanged rs codebase revision ≡ some r
    → (r.result_code ≡ "success") × (r.revision ≡ revision)
unfolding find_unchanged
find_unchanged-success [] codebase revision r h = cc
find_unchanged-success (x ∷ rs) codebase revision r h = ground (
  arith,
  eq_iff x.result_code "success",
  eq_iff x.revision revision,
  find_unchanged-success rs codebase revision r,
)

-- When the failure is a missing diff of the control run and the run has a main branch revision,
-- exactly one control run at that revision is scheduled, refreshing if a successful run at that
-- revision is known and plain otherwise. So no last_runs table leads to the description for a
-- failed control run.
pub missing_control_reschedules :
    (d bucket rev : String) (last_runs : List LastRun) (run : Run)
    → run.main_branch_revision ≡ some rev
    → handle_publish_failure (failure "missing-build-diff-control" d) last_runs run bucket ≡ (
        if is_some (unchanged_run last_runs run)
        then (
          (
            "missing-build-diff-control",
            "Missing build diff due to control run, but successful control run exists. Rescheduling.",
          ),
          control run.codebase rev true bucket "publisher (missing build artifacts - control)" ∷ [],
        )
        else (
          ("missing-build-diff-control", "Missing binary diff; requesting control run."),
          control run.codebase rev false bucket "publisher (missing control run for diff)" ∷ [],
        ))
unfolding handle_publish_failure apply_action classify_publish_failure_action unchanged_run code
    description
missing_control_reschedules d bucket rev last_runs run h =
    elim (Option-cases (find_unchanged last_runs run.codebase rev)) [
      | inl e ↦ ground arith
      | inr (r, e) ↦ ground (
        arith,
        find_unchanged-success last_runs run.codebase rev r e,
        eq_iff r.result_code "success",
      )
    ]

-- A call for the run's own codebase, in the bucket given; a regular one for its campaign and change
-- set too.
abbrev pub IsFor : Run → String → ScheduleCall → Type 0
IsFor run bucket (regular campaign codebase b change_set refresh requester command) =
    (campaign ≡ run.suite)
    × (codebase ≡ run.codebase)
    × (b ≡ bucket)
    × (change_set ≡ run.change_set)
IsFor run bucket (control codebase revision refresh b requester) =
    (codebase ≡ run.codebase) × (b ≡ bucket)

apply_action-IsFor :
    (run : Run) (bucket c d : String) (a : PublishFailureAction)
    → (length (apply_action run bucket c d a).1 ≤ 1)
      × All (IsFor run bucket) (apply_action run bucket c d a).1
unfolding apply_action
apply_action-IsFor run bucket c d no_action = (omega arith, tt)
apply_action-IsFor run bucket c d (rewrite_description d') = (omega arith, tt)
apply_action-IsFor run bucket c d (reschedule_regular none r f) =
    (omega arith, ((refl, refl, refl, refl), tt))
apply_action-IsFor run bucket c d (reschedule_regular (some d') r f) =
    (omega arith, ((refl, refl, refl, refl), tt))
apply_action-IsFor run bucket c d (reschedule_control d' f r (some e)) =
    (omega arith, ((refl, refl), tt))
apply_action-IsFor run bucket c d (reschedule_control d' f r none) =
    elim (Option-cases run.main_branch_revision) [
      | inl e ↦ rw (e, or_else, control_calls) (omega arith, tt)
      | inr (rev, e) ↦ rw (e, or_else, control_calls) (omega arith, ((refl, refl), tt))
    ]

apply_action-code :
    (run : Run) (bucket c d : String) (a : PublishFailureAction)
    → (apply_action run bucket c d a).0.0 ≡ c
unfolding apply_action
apply_action-code run bucket c d (reschedule_regular none r f) = refl
apply_action-code run bucket c d _ = refl

-- A failure keeps its code, and reschedules at most once; what it schedules is for the run's own
-- codebase and in the bucket given, and a regular rerun for its own campaign and change set.
pub failure_reschedules_own :
    (e : PublishError) (last_runs : List LastRun) (run : Run) (bucket : String)
    → ((handle_publish_failure e last_runs run bucket).0.0 ≡ code e)
      × (length (handle_publish_failure e last_runs run bucket).1 ≤ 1)
      × All (IsFor run bucket) (handle_publish_failure e last_runs run bucket).1
unfolding handle_publish_failure
failure_reschedules_own e last_runs run bucket =
    (apply_action-code run bucket (code e) (description e) action, own.0, own.1)
  where
    action : PublishFailureAction
    action = classify_publish_failure_action (code e) run.result_code (unchanged_run last_runs run)

    own :
        (length (apply_action run bucket (code e) (description e) action).1 ≤ 1)
        × All (IsFor run bucket) (apply_action run bucket (code e) (description e) action).1
    own = apply_action-IsFor run bucket (code e) (description e) action
