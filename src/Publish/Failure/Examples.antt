-- ===== src/Publish/Failure/Examples.antt =====
-- `handle_publish_failure` (publish/src/lib.rs) on a sample run.
use janitor.Base.{◌≡◌, refl, [], ◌∷◌, true, false, if◌then◌else◌, is_some}
use janitor.Publish.Samples.{run, db}
use janitor.Publish.Failure.{failure, control, handle_publish_failure, unchanged_run}
use janitor.Publish.Failure.Recovery.{missing_control_reschedules}

missing_control_reschedules_example :
    handle_publish_failure
      (failure "missing-build-diff-control" "no diff")
      db.last_runs
      run
      "bucket"
    ≡ (if is_some (unchanged_run db.last_runs run)
        then (
          (
            "missing-build-diff-control",
            "Missing build diff due to control run, but successful control run exists. Rescheduling.",
          ),
          control "hello" "base" true "bucket" "publisher (missing build artifacts - control)" ∷ [],
        )
        else (
          ("missing-build-diff-control", "Missing binary diff; requesting control run."),
          control "hello" "base" false "bucket" "publisher (missing control run for diff)" ∷ [],
        ))
missing_control_reschedules_example =
    missing_control_reschedules "no diff" "bucket" "base" db.last_runs run refl
