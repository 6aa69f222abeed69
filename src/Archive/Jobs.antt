-- ===== src/Archive/Jobs.antt =====
-- archive/src/manager.rs: the bookkeeping of repository generation jobs. A task is known by its
-- job's id; what a task does is a step of its own, so that any interleaving of the callers and the
-- tasks is a sequence of steps (Jobs/Steps). Times are microseconds.
pub mod Steps
pub mod Invariant
use janitor.Base.{
  String, ℕ, ◌+◌, Option, none, some, List, [], ◌∷◌, ◌++◌, map, Bool, true, false, not, ◌&&◌,
  str_eq, any, filterb, find, length, ltb, if◌then◌else◌, Outcome, ok, err, panic, Dict, lookup,
  insert, remove,
}

pub data JobStatus : Type 0 where
  pending running completed failed cancelled : JobStatus

unfoldable pub is_running : JobStatus → Bool
is_running running = true
is_running _ = false

unfoldable pub is_completed : JobStatus → Bool
is_completed completed = true
is_completed _ = false

unfoldable pub is_failed : JobStatus → Bool
is_failed failed = true
is_failed _ = false

pub record JobInfo : Type 0 where
  pub id : String
  pub repository_name : String
  pub campaign : Option String
  pub status : JobStatus
  pub started_at : ℕ
  pub completed_at : Option ℕ
  pub error_message : Option String

-- `id` is the fresh id, and `now` the time.
unfoldable pub job_new : String → ℕ → String → Option String → JobInfo
job_new id now repository_name campaign = record {
  id = id;
  repository_name = repository_name;
  campaign = campaign;
  status = pending;
  started_at = now;
  completed_at = none;
  error_message = none;
}

unfoldable pub start : ℕ → JobInfo → JobInfo
start now job = record job { status = running; started_at = now }

unfoldable pub complete : ℕ → JobInfo → JobInfo
complete now job = record job { status = completed; completed_at = some now }

unfoldable pub fail : ℕ → String → JobInfo → JobInfo
fail now e job = record job { status = failed; completed_at = some now; error_message = some e }

unfoldable pub cancel : ℕ → JobInfo → JobInfo
cancel now job = record job { status = cancelled; completed_at = some now }

-- The manager's state: the jobs under their repository's name, the history, the ids of the tasks
-- that were told to stop and of those whose handle is finished, and the times of the last publish.
pub record Manager : Type 0 where
  pub active_jobs : Dict JobInfo
  pub job_history : List JobInfo
  pub aborting : List String
  pub finished : List String
  pub last_publish : Dict ℕ

abbrev pub new_manager : Manager
new_manager = record {
  active_jobs = [];
  job_history = [];
  aborting = [];
  finished = [];
  last_publish = [];
}

-- `handle.is_finished()`
unfoldable pub handle_finished : Manager → JobInfo → Bool
handle_finished m job = any (str_eq job.id) m.finished

-- `history.remove(0)`
unfoldable pub drop_first : List JobInfo → List JobInfo
drop_first [] = []
drop_first (job ∷ rest) = rest

-- The history keeps the last 100 jobs.
unfoldable pub push_history : List JobInfo → JobInfo → List JobInfo
push_history history job =
    let longer : List JobInfo = history ++ job ∷ [] in
    if ltb 100 (length longer) then drop_first longer else longer

-- The check at the start of `trigger_repository`: the job that is already running.
unfoldable pub running_job : Manager → String → Option JobInfo
running_job m name = elim (lookup name m.active_jobs) [
  | none ↦ none
  | some job ↦ if handle_finished m job then none else some job
]

-- The job that `trigger_repository` spawns.
unfoldable pub spawned_job : String → ℕ → String → Option String → JobInfo
spawned_job id now name campaign = start now (job_new id now name campaign)

-- The end of `trigger_repository`, after the task was spawned.
unfoldable pub store_active : JobInfo → Manager → Manager
store_active job m = record m { active_jobs = insert job.repository_name job m.active_jobs }

-- A job with the error of its task, if any.
unfoldable pub settle : ℕ → Option String → JobInfo → JobInfo
settle now none job = complete now job
settle now (some e) job = fail now e job

-- `record_publish_completion`, where an observer is set.
unfoldable pub note_publish : ℕ → String → Option String → Dict ℕ → Dict ℕ
note_publish now name none times = insert name now times
note_publish now name (some e) times = times

-- The end of a task that was neither aborted nor panicked: it takes the job under its repository's
-- name, if any, to the history.
unfoldable pub finish_task : ℕ → String → Option String → Manager → Manager
finish_task now name error m = elim (lookup name m.active_jobs) [
  | none ↦ m
  | some job ↦ record m {
    active_jobs = remove name m.active_jobs;
    job_history = push_history m.job_history (settle now error job);
    last_publish = note_publish now name error m.last_publish;
  }
]

unfoldable pub values : Dict JobInfo → List JobInfo
values [] = []
values ((name, job) ∷ rest) = job ∷ values rest

-- Whether the job was found, and the state in which its task is told to stop.
unfoldable pub cancel_job : String → Manager → Bool × Manager
cancel_job job_id m = elim (find (λ job. str_eq job.id job_id) (values m.active_jobs)) [
  | none ↦ (false, m)
  | some job ↦ (true, record m { aborting = job.id ∷ m.aborting })
]

-- The names of the active jobs whose handle is finished.
unfoldable pub finished_names : Manager → Dict JobInfo → List String
finished_names m [] = []
finished_names m ((name, job) ∷ rest) =
    let others = finished_names m rest in if handle_finished m job then name ∷ others else others

-- Taking one job to the history, after `update`.
unfoldable pub retire : (JobInfo → JobInfo) → String → Manager → Manager
retire update name m = elim (lookup name m.active_jobs) [
  | none ↦ m
  | some job ↦ record m {
    active_jobs = remove name m.active_jobs;
    job_history = push_history m.job_history (update job);
  }
]

unfoldable pub retire_all : (JobInfo → JobInfo) → List String → Manager → Manager
retire_all update [] m = m
retire_all update (name ∷ rest) m = retire_all update rest (retire update name m)

-- "We'll assume it completed unless we know otherwise": each of these handles is finished.
unfoldable pub assume_completed : ℕ → JobInfo → JobInfo
assume_completed now job = if is_running job.status then complete now job else job

unfoldable pub cleanup_finished_jobs : ℕ → Manager → ℕ × Manager
cleanup_finished_jobs now m =
    let names : List String = finished_names m m.active_jobs in
    (length names, retire_all (assume_completed now) names m)

-- One round of the task of `start_cleanup_task`, which leaves the status as it is.
unfoldable pub background_cleanup : Manager → Manager
background_cleanup m = retire_all (λ job. job) (finished_names m m.active_jobs) m

unfoldable pub get_job_info : String → Manager → Option JobInfo
get_job_info job_id m = elim (find (λ job. str_eq job.id job_id) (values m.active_jobs)) [
  | some job ↦ some job
  | none ↦ find (λ job. str_eq job.id job_id) m.job_history
]

pub record ManagerStatistics : Type 0 where
  pub active : ℕ
  pub running_jobs : ℕ
  pub total_historical_jobs : ℕ
  pub completed_jobs : ℕ
  pub failed_jobs : ℕ

unfoldable pub get_statistics : Manager → ManagerStatistics
get_statistics m = record {
  active = length m.active_jobs;
  running_jobs = length (filterb (λ job. not (handle_finished m job)) (values m.active_jobs));
  total_historical_jobs = length m.job_history;
  completed_jobs = length (filterb (λ job. is_completed job.status) m.job_history);
  failed_jobs = length (filterb (λ job. is_failed job.status) m.job_history);
}
