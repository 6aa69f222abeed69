-- ===== src/Runner/ActiveRuns.antt =====
-- runner/src/active_runs.rs: the Redis hash of active runs, and the concurrency limit of
-- runner/src/auth.rs that counts in it. The hash is the text of each run under its `log_id`; that
-- the JSON text of a run reads back as that run is taken for granted. `up` tells whether Redis
-- answers the call. Times are microseconds.
pub mod Listing
pub mod Limit
use janitor.Base.{
  String, ℕ, ◌+◌, Option, none, some, List, [], ◌∷◌, map, Bool, true, false, not, str_eq, any,
  filterb, length, leb, ltb, ◌==◌, if◌then◌else◌, is_some, Dict, lookup, insert, remove,
}

-- The fields of an active run that are read here.
pub record ActiveRun : Type 0 where
  pub log_id : String
  pub worker_name : String
  pub campaign : String
  pub codebase : String
  pub start_time : ℕ
  -- In seconds.
  pub estimated_duration : Option ℕ

abbrev pub ActiveRuns : Type 0
ActiveRuns = Dict ActiveRun

-- The values of the hash, in the order in which they are stored.
unfoldable pub values : ActiveRuns → List ActiveRun
values [] = []
values ((log_id, run) ∷ rest) = run ∷ values rest

-- `sort_by_key`, which is stable.
unfoldable pub insert_by_start : ActiveRun → List ActiveRun → List ActiveRun
insert_by_start run [] = run ∷ []
insert_by_start run (other ∷ rest) =
    if leb run.start_time other.start_time
    then run ∷ other ∷ rest
    else other ∷ insert_by_start run rest

unfoldable pub sort_by_start : List ActiveRun → List ActiveRun
sort_by_start [] = []
sort_by_start (run ∷ rest) = insert_by_start run (sort_by_start rest)

unfoldable pub store : Bool → ActiveRun → ActiveRuns → ActiveRuns
store up run runs = if up then insert run.log_id run runs else runs

unfoldable pub get : Bool → String → ActiveRuns → Option ActiveRun
get up run_id runs = if up then lookup run_id runs else none

unfoldable pub list : Bool → ActiveRuns → List ActiveRun
list up runs = if up then sort_by_start (values runs) else []

-- Whether a row was removed, and what is left.
unfoldable pub remove_run : Bool → String → ActiveRuns → Bool × ActiveRuns
remove_run up run_id runs =
    if up then (is_some (lookup run_id runs), remove run_id runs) else (false, runs)

unfoldable pub count_for_worker : Bool → String → ActiveRuns → ℕ
count_for_worker up worker_name runs =
    length (filterb (λ run. str_eq run.worker_name worker_name) (list up runs))

unfoldable pub len : Bool → ActiveRuns → ℕ
len up runs = if up then length runs else 0

unfoldable pub is_empty : Bool → ActiveRuns → Bool
is_empty up runs = len up runs == 0

-- The set of worker names that the loop of `distinct_worker_count` collects.
unfoldable pub workers : List ActiveRun → List String
workers [] = []
workers (run ∷ rest) =
    let others = workers rest in
    if any (str_eq run.worker_name) others then others else run.worker_name ∷ others

unfoldable pub distinct_worker_count : Bool → ActiveRuns → ℕ
distinct_worker_count up runs = length (workers (list up runs))

-- `HDEL` for each stale run.
unfoldable pub remove_all : List ActiveRun → ActiveRuns → ActiveRuns
remove_all [] runs = runs
remove_all (run ∷ rest) runs = remove_all rest (remove run.log_id runs)

-- `start_time < now - max_age`
unfoldable pub is_stale : ℕ → ℕ → ActiveRun → Bool
is_stale now max_age run = ltb (run.start_time + max_age) now

unfoldable pub drain_older_than : Bool → ℕ → ℕ → ActiveRuns → List ActiveRun × ActiveRuns
drain_older_than up now max_age runs =
    let stale : List ActiveRun = filterb (is_stale now max_age) (list up runs) in
    (stale, remove_all stale runs)

-- `SecurityService::can_start_run`
unfoldable pub can_start_run : Bool → ℕ → String → ActiveRuns → Bool
can_start_run up max_concurrent_runs_per_worker worker_name runs =
    ltb (count_for_worker up worker_name runs) max_concurrent_runs_per_worker
