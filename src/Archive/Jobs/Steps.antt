-- ===== src/Archive/Jobs/Steps.antt =====
-- The steps of callers and tasks (archive/src/manager.rs), in any order that the locks allow.
use janitor.Base.{String, ℕ, Option, ◌∷◌}
use janitor.Archive.Jobs.{
  Manager, new_manager, spawned_job, store_active, finish_task, cancel_job, cleanup_finished_jobs,
  background_cleanup,
}

-- A caller stores the job that it spawned: its check that no job is running was made earlier and
-- without holding the lock, so a step does not ask for it. A task ends. A handle is finished, after
-- the end of its task or after an abort.
pub data Step : Manager → Manager → Type 0 where
  stored :
      (id name : String) (campaign : Option String) (now : ℕ) (m : Manager)
      → Step m (store_active (spawned_job id now name campaign) m)
  ended :
      (now : ℕ) (name : String) (error : Option String) (m : Manager)
      → Step m (finish_task now name error m)
  handle_done : (id : String) (m : Manager) → Step m (record m { finished = id ∷ m.finished })
  cancelling : (id : String) (m : Manager) → Step m (cancel_job id m).1
  cleaned : (now : ℕ) (m : Manager) → Step m (cleanup_finished_jobs now m).1
  cleaned_behind : (m : Manager) → Step m (background_cleanup m)

-- What the manager may come to from its start.
pub data Reachable : Manager → Type 0 where
  initial : Reachable new_manager
  after : {m m' : Manager} → Reachable m → Step m m' → Reachable m'
