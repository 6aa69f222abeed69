-- ===== src/Archive/Examples.antt =====
-- A job of the archive generator (archive/src/manager.rs) that is cancelled.
use janitor.Base.{◌≡◌, refl, none, [], ◌∷◌, map, lookup, insert}
use janitor.Archive.Jobs.{
  Manager, new_manager, completed, spawned_job, store_active, cancel_job, cleanup_finished_jobs,
  job_new, start, handle_finished, finished_names, retire, retire_all, assume_completed, complete,
  is_running, push_history, values,
}
use janitor.Archive.Jobs.Steps.{Reachable, initial, after, stored, cancelling, handle_done, cleaned}
use janitor.Archive.Jobs.Invariant.{IsConsistent, Reachable-IsConsistent}

-- The job is started and told to stop.
abbrev told : Manager
told = (cancel_job "job" (store_active (spawned_job "job" 1 "stable" none) new_manager)).1

-- Its task stops, and it is cleaned up.
abbrev stopped : Manager
stopped = (cleanup_finished_jobs 9 (record told { finished = "job" ∷ told.finished })).1

stopped-Reachable : Reachable stopped
stopped-Reachable =
    after
      (after (after (after initial (stored "job" "stable" none 1 new_manager)) (cancelling "job" _))
        (handle_done "job" told))
      (cleaned 9 _)

-- The history says that the cancelled job was completed.
cancelled_is_completed : map (λ job. job.status) stopped.job_history ≡ completed ∷ []
unfolding cleanup_finished_jobs cancel_job store_active spawned_job start job_new handle_finished
    finished_names retire retire_all assume_completed complete is_running push_history values lookup
    insert
cancelled_is_completed = refl

Reachable-IsConsistent_example : IsConsistent stopped
Reachable-IsConsistent_example = Reachable-IsConsistent stopped stopped-Reachable
