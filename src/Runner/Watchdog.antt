-- ===== src/Runner/Watchdog.antt =====
-- runner/src/watchdog.rs: the watchdog, which ends runs that take too long or whose worker is not
-- well. Times are microseconds.
pub mod Ends
pub mod Counters
pub mod Progress
pub mod Idle
use text.Mathlib.Text.{find?}
use janitor.Base.{
  String, ℕ, ◌+◌, ◌*◌, Option, none, some, List, [], ◌∷◌, ◌++◌, Bool, true, false, not, ◌||◌, ◌&&◌,
  str_eq, leb, ltb, length, max, u32_add, if◌then◌else◌, is_some, unwrap_or, Dict, lookup, insert,
  remove,
}
use janitor.Runner.ActiveRuns.{ActiveRun, ActiveRuns, get, list, remove_run, drain_older_than}

pub data TerminationReason : Type 0 where
  timeout health_check_failed manual_kill worker_disappeared : TerminationReason
  system_failure : String → TerminationReason

unfoldable pub result_code : TerminationReason → String
result_code timeout = "worker-timeout"
result_code health_check_failed = "worker-failure"
result_code manual_kill = "killed"
result_code worker_disappeared = "worker-disappeared"
result_code (system_failure msg) = "system-failure"

unfoldable pub is_transient : TerminationReason → Bool
is_transient manual_kill = false
is_transient _ = true

pub record WatchdogConfig : Type 0 where
  pub check_interval : ℕ
  pub default_timeout : ℕ
  pub worker_heartbeat_timeout : ℕ
  pub max_health_failures : ℕ
  pub worker_idle_timeout : ℕ
  pub maintenance_interval : ℕ
  pub max_run_age_hours : ℕ

abbrev pub default_config : WatchdogConfig
default_config = record {
  check_interval = 30;
  default_timeout = 3600;
  worker_heartbeat_timeout = 300;
  max_health_failures = 3;
  worker_idle_timeout = 900;
  maintenance_interval = 300;
  max_run_age_hours = 6;
}

unfoldable pub from_run_timeout_minutes : ℕ → WatchdogConfig
from_run_timeout_minutes run_timeout_minutes = record default_config {
  default_timeout = run_timeout_minutes * 60;
}

abbrev pub second : ℕ
second = 1000000

pub record HealthStatus : Type 0 where
  pub status : String
  pub last_ping : Option ℕ
  pub current_run_id : Option String

-- What the backchannel says: a status, or the text of an error.
pub data Reading : Type 0 where
  healthy : HealthStatus → Reading
  failed : String → Reading

-- A result that `terminate_run` hands to `finish_run`; its description and details are left out.
pub record Submission : Type 0 where
  pub log_id : String
  pub code : String
  pub transient : Bool

-- The watchdog's state, with the store of active runs, whether Redis answers, and the results handed
-- to `finish_run` so far.
pub record Watchdog : Type 0 where
  pub active_runs : ActiveRuns
  pub health_failures : Dict ℕ
  pub idle_since : Dict ℕ
  pub submitted : List Submission
  pub redis_up : Bool

abbrev pub Checked : Type 0
Checked = Option TerminationReason × Watchdog

unfoldable pub compute_run_deadline_secs : WatchdogConfig → ℕ → ℕ
compute_run_deadline_secs config estimate_secs = max estimate_secs config.default_timeout

unfoldable pub check_timeout : WatchdogConfig → ActiveRun → ℕ → Option TerminationReason
check_timeout config run now =
    if ltb
      (run.start_time
        + compute_run_deadline_secs config (unwrap_or run.estimated_duration 0) * second)
      now
    then some timeout
    else none

-- `now - first_seen >= timeout`
unfoldable pub check_idle_timeout : Dict ℕ → String → ℕ → ℕ → Option TerminationReason × Dict ℕ
check_idle_timeout idle_since log_id now timeout_secs =
    let first_seen : ℕ = unwrap_or (lookup log_id idle_since) now in
    if leb (first_seen + timeout_secs * second) now
    then (some health_check_failed, remove log_id idle_since)
    else (none, insert log_id first_seen idle_since)

-- One more failure of a run, which is a reason to end it when it is the last one allowed.
unfoldable pub count_failure : WatchdogConfig → String → TerminationReason → Watchdog → Checked
count_failure config log_id reason w =
    let failures : ℕ = u32_add (unwrap_or (lookup log_id w.health_failures) 0) 1 in
    (
      if leb config.max_health_failures failures then some reason else none,
      record w { health_failures = insert log_id failures w.health_failures },
    )

-- `last_ping < now - heartbeat_timeout`
unfoldable pub heartbeat_lost : WatchdogConfig → HealthStatus → ℕ → Bool
heartbeat_lost config health now = elim health.last_ping [
  | none ↦ false
  | some last_ping ↦ ltb (last_ping + config.worker_heartbeat_timeout * second) now
]

-- What the other run is that a worker reports. An id that does not parse is the id of no run.
unfoldable pub other_run : HealthStatus → Watchdog → Option ActiveRun
other_run health w = elim health.current_run_id [
  | none ↦ none
  | some other ↦ get w.redis_up other w.active_runs
]

unfoldable pub check_different_run :
    WatchdogConfig → ActiveRun → Option ActiveRun → Watchdog → Checked
check_different_run config run none w = (some worker_disappeared, w)
check_different_run config run (some other) w =
    if ltb run.start_time other.start_time
    then (none, record w { active_runs = (remove_run w.redis_up run.log_id w.active_runs).1 })
    else count_failure config run.log_id worker_disappeared w

-- `current_run_id.as_deref() == Some(log_id)`
unfoldable pub reports : HealthStatus → String → Bool
reports health log_id = elim health.current_run_id [
  | none ↦ false
  | some other ↦ str_eq other log_id
]

-- A worker that is alive; it may have completed another run.
unfoldable pub check_alive : ActiveRun → HealthStatus → Watchdog → Checked
check_alive run health w = (
  if str_eq health.status "completed" && not (reports health run.log_id)
      then some worker_disappeared
      else none,
  record w { health_failures = remove run.log_id w.health_failures },
)

-- The match on the status.
unfoldable pub check_status : WatchdogConfig → ActiveRun → HealthStatus → ℕ → Watchdog → Checked
check_status config run health now w =
    if str_eq health.status "idle"
    then (
      (check_idle_timeout w.idle_since run.log_id now config.worker_idle_timeout).0,
      record w {
        idle_since = (check_idle_timeout w.idle_since run.log_id now config.worker_idle_timeout).1;
      },
    )
    else if str_eq health.status "healthy"
        || str_eq health.status "running"
        || str_eq health.status "building"
        || str_eq health.status "completed"
    then check_alive run health w
    else if str_eq health.status "unhealthy"
        || str_eq health.status "failed"
        || str_eq health.status "aborted"
    then count_failure config run.log_id health_check_failed w
    else if str_eq health.status "not-found" || str_eq health.status "unreachable"
    then (some worker_disappeared, w)
    else if str_eq health.status "different-run"
    then check_different_run config run (other_run health w) w
    else count_failure config run.log_id health_check_failed w

unfoldable pub contains : String → String → Bool
contains text part = is_some (find? text part)

-- The error of a backchannel.
unfoldable pub check_error : WatchdogConfig → ActiveRun → String → Watchdog → Checked
check_error config run e w =
    if contains e "Job not found" || contains e "Fatal failure" || contains e "not-found"
    then (some worker_disappeared, w)
    else count_failure config run.log_id
        (if contains e "Worker unreachable" || contains e "timeout" || contains e "connection"
          then worker_disappeared
          else health_check_failed)
        w

unfoldable pub leave_idle : ActiveRun → HealthStatus → Watchdog → Watchdog
leave_idle run health w =
    if str_eq health.status "idle"
    then w
    else record w { idle_since = remove run.log_id w.idle_since }

unfoldable pub check_worker_health : WatchdogConfig → Reading → ActiveRun → ℕ → Watchdog → Checked
check_worker_health config (failed e) run now w = check_error config run e w
check_worker_health config (healthy health) run now w =
    if heartbeat_lost config health now
    then count_failure config run.log_id worker_disappeared w
    else check_status config run health now (leave_idle run health w)

-- The result is handed to `finish_run` whether or not the worker could be told to stop. What
-- `finish_run` answers, an error included, is only logged: the rest is done either way.
unfoldable pub terminate_run : ActiveRun → TerminationReason → Watchdog → Watchdog
terminate_run run reason w = record w {
  active_runs = (remove_run w.redis_up run.log_id w.active_runs).1;
  health_failures = remove run.log_id w.health_failures;
  idle_since = remove run.log_id w.idle_since;
  submitted =
      w.submitted
      ++ record { log_id = run.log_id; code = result_code reason; transient = is_transient reason }
        ∷ [];
}

unfoldable pub terminate_if : ActiveRun → Checked → Watchdog
terminate_if run (none, w) = w
terminate_if run (some reason, w) = terminate_run run reason w

-- `reading` is what the run's backchannel says now.
unfoldable pub check_single_run :
    WatchdogConfig → (ActiveRun → Reading) → ActiveRun → ℕ → Watchdog → Watchdog
check_single_run config reading run now w = elim (check_timeout config run now) [
  | some reason ↦ terminate_run run reason w
  | none ↦ terminate_if run (check_worker_health config (reading run) run now w)
]

unfoldable pub check_runs :
    WatchdogConfig → (ActiveRun → Reading) → List ActiveRun → ℕ → Watchdog → Watchdog
check_runs config reading [] now w = w
check_runs config reading (run ∷ rest) now w =
    check_runs config reading rest now (check_single_run config reading run now w)

unfoldable pub check_active_runs : WatchdogConfig → (ActiveRun → Reading) → ℕ → Watchdog → Watchdog
check_active_runs config reading now w =
    check_runs config reading (list w.redis_up w.active_runs) now w

unfoldable pub run_maintenance : WatchdogConfig → ℕ → Watchdog → Watchdog
run_maintenance config now w = record w {
  active_runs =
      (drain_older_than w.redis_up now (config.max_run_age_hours * 3600 * second) w.active_runs).1;
}

unfoldable pub kill_run : String → Watchdog → Bool × Watchdog
kill_run run_id w = elim (get w.redis_up run_id w.active_runs) [
  | none ↦ (false, w)
  | some run ↦ (true, terminate_run run manual_kill w)
]

-- `values().sum()` on `u32`.
unfoldable pub sum_failures : Dict ℕ → ℕ
sum_failures [] = 0
sum_failures ((log_id, failures) ∷ rest) = u32_add failures (sum_failures rest)

-- The runs with failures, and the failures of all.
unfoldable pub get_stats : Watchdog → ℕ × ℕ
get_stats w = (length w.health_failures, sum_failures w.health_failures)

-- The state after `check_run_health`, which reads the backchannel of one run.
unfoldable pub check_run_health :
    WatchdogConfig → (ActiveRun → Reading) → String → ℕ → Watchdog → Watchdog
check_run_health config reading run_id now w = elim (get w.redis_up run_id w.active_runs) [
  | none ↦ w
  | some run ↦ terminate_if run (check_worker_health config (reading run) run now w)
]
