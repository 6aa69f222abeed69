-- ===== src/Runner/Watchdog/Counters.antt =====
-- The failure counts of the watchdog (runner/src/watchdog.rs).
use janitor.Base.{
  String, ℕ, ◌≤◌, ◌<◌, ◌≡◌, Option, none, some, List, [], ◌∷◌, false, ◌&&◌, arith, inl, inr, str_eq,
  eq_iff, lookup, lookup-remove, lookup-insert, if◌then◌else◌, is_some, unwrap_or, u32_add,
  u32_add_lem, u32_mod, Dict,
}
use janitor.Runner.ActiveRuns.{ActiveRun, list}
use janitor.Runner.Watchdog.{
  TerminationReason, health_check_failed, worker_disappeared, WatchdogConfig, Watchdog, Reading,
  healthy, failed, Checked, check_worker_health, check_single_run, check_runs, check_active_runs,
  terminate_run, terminate_if, count_failure, check_error, check_status, check_alive,
  check_different_run, leave_idle, HealthStatus, other_run,
}
use janitor.Runner.Watchdog.Ends.{check_single_run_cases}

-- The failures counted for a run.
abbrev pub failures_of : String → Dict ℕ → ℕ
failures_of log_id counts = unwrap_or (lookup log_id counts) 0

-- Fewer failures are counted for each run than end it.
abbrev pub IsBounded : WatchdogConfig → Watchdog → Type 0
IsBounded config w = (j : String) → failures_of j w.health_failures < config.max_health_failures

-- The same after a check, but for a run that is about to be ended.
abbrev pub IsBoundedBut : WatchdogConfig → ActiveRun → Checked → Type 0
IsBoundedBut config run c =
    (j : String)
    → (str_eq run.log_id j && is_some c.0) ≡ false
    → failures_of j c.1.health_failures < config.max_health_failures

module _ (config : WatchdogConfig) (run : ActiveRun)
    (fits : config.max_health_failures < u32_mod) where
  failures_of-terminate_run :
      (reason : TerminationReason) (w : Watchdog) (j : String)
      → failures_of j (terminate_run run reason w).health_failures
        ≡ (if str_eq run.log_id j then 0 else failures_of j w.health_failures)
  unfolding terminate_run
  failures_of-terminate_run reason w j =
      ground (arith, lookup-remove run.log_id j w.health_failures)

  terminate_if-IsBounded :
      1 ≤ config.max_health_failures
      → (o : Option TerminationReason) (w : Watchdog) → IsBoundedBut config run (o, w)
      → IsBounded config (terminate_if run (o, w))
  unfolding terminate_if
  terminate_if-IsBounded h1 none w h j = h j (ground arith)
  terminate_if-IsBounded h1 (some reason) w h j =
      ground (arith, failures_of-terminate_run reason w j, h j)

  count_failure-IsBoundedBut :
      (reason : TerminationReason) (w : Watchdog)
      → IsBounded config w
      → IsBoundedBut config run (count_failure config run.log_id reason w)
  unfolding count_failure
  count_failure-IsBoundedBut reason w h j e = ground (
    arith,
    h j,
    h run.log_id,
    eq_iff run.log_id j,
    u32_add_lem (failures_of run.log_id w.health_failures) 1,
    lookup-insert run.log_id j (u32_add (failures_of run.log_id w.health_failures) 1)
        w.health_failures,
  )

  check_different_run-IsBoundedBut :
      (o : Option ActiveRun) (w : Watchdog)
      → IsBounded config w
      → IsBoundedBut config run (check_different_run config run o w)
  unfolding check_different_run
  check_different_run-IsBoundedBut none w h j e = h j
  check_different_run-IsBoundedBut (some other) w h j e =
      ground (arith, h j, count_failure-IsBoundedBut worker_disappeared w h j)

  check_status-IsBoundedBut :
      (health : HealthStatus) (now : ℕ) (w : Watchdog)
      → 1 ≤ config.max_health_failures
      → IsBounded config w
      → IsBoundedBut config run (check_status config run health now w)
  unfolding check_status check_alive
  check_status-IsBoundedBut health now w h1 h j e = ground (
    arith,
    h j,
    e,
    lookup-remove run.log_id j w.health_failures,
    count_failure-IsBoundedBut health_check_failed w h j,
    check_different_run-IsBoundedBut (other_run health w) w h j,
  )

  check_worker_health-IsBoundedBut :
      (reading : Reading) (now : ℕ) (w : Watchdog)
      → 1 ≤ config.max_health_failures
      → IsBounded config w
      → IsBoundedBut config run (check_worker_health config reading run now w)
  unfolding check_worker_health check_error leave_idle
  check_worker_health-IsBoundedBut (failed message) now w h1 h j e = ground (
    arith,
    e,
    h j,
    count_failure-IsBoundedBut worker_disappeared w h j,
    count_failure-IsBoundedBut health_check_failed w h j,
  )
  check_worker_health-IsBoundedBut (healthy health) now w h1 h j e = ground (
    arith,
    e,
    count_failure-IsBoundedBut worker_disappeared w h j,
    check_status-IsBoundedBut health now (leave_idle run health w) h1 (ground (arith, h)) j,
  )

pub check_single_run-IsBounded :
    (config : WatchdogConfig) (reading : ActiveRun → Reading) (run : ActiveRun) (now : ℕ)
    (w : Watchdog)
    → 1 ≤ config.max_health_failures
    → config.max_health_failures < u32_mod
    → IsBounded config w
    → IsBounded config (check_single_run config reading run now w)
check_single_run-IsBounded config reading run now w h1 fits h =
    elim (check_single_run_cases config reading run now w) [
      | inl (reason, e, same) ↦
          rw same (λ j. ground (arith, h j, failures_of-terminate_run config run fits reason w j))
      | inr same ↦ rw same (
          terminate_if-IsBounded config run fits h1 _ _
            (check_worker_health-IsBoundedBut config run fits (reading run) now w h1 h))
    ]

check_runs-IsBounded :
    (config : WatchdogConfig) (reading : ActiveRun → Reading) (runs : List ActiveRun) (now : ℕ)
    (w : Watchdog)
    → 1 ≤ config.max_health_failures
    → config.max_health_failures < u32_mod
    → IsBounded config w
    → IsBounded config (check_runs config reading runs now w)
unfolding check_runs
check_runs-IsBounded config reading [] now w h1 fits h = h
check_runs-IsBounded config reading (run ∷ rest) now w h1 fits h =
    check_runs-IsBounded config reading rest now (check_single_run config reading run now w) h1 fits
      (check_single_run-IsBounded config reading run now w h1 fits h)

-- A round of checks keeps every run's failure count below `max_health_failures`, where that is at
-- least 1 and fits in a `u32`: a run that reaches it is ended in the same check.
pub check_active_runs-IsBounded :
    (config : WatchdogConfig) (reading : ActiveRun → Reading) (now : ℕ) (w : Watchdog)
    → 1 ≤ config.max_health_failures
    → config.max_health_failures < u32_mod
    → IsBounded config w
    → IsBounded config (check_active_runs config reading now w)
unfolding check_active_runs
check_active_runs-IsBounded config reading now w h1 fits h =
    check_runs-IsBounded config reading (list w.redis_up w.active_runs) now w h1 fits h
