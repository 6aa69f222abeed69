-- ===== src/Runner/Examples.antt =====
-- The runner's active runs and watchdog (runner/src) on sample runs.
use janitor.Base.{String, ℕ, ◌≡◌, ◌<◌, none, List, [], ◌∷◌, true, arith, ◌⊎◌, length, lookup}
use janitor.Runner.ActiveRuns.{ActiveRun, ActiveRuns}
use janitor.Runner.Watchdog.{
  Watchdog, Reading, failed, default_config, check_single_run, check_active_runs,
}
use janitor.Runner.Watchdog.Ends.{HasEnded, check_single_run-HasEnded}
use janitor.Runner.Watchdog.Counters.{IsBounded, check_active_runs-IsBounded}
use janitor.Runner.Watchdog.Progress.{failing_checks, failing_checks_end}

abbrev run_of : String → ℕ → ActiveRun
run_of log_id start = record {
  log_id = log_id;
  worker_name = "worker";
  campaign = "lintian-fixes";
  codebase = "hello";
  start_time = start;
  estimated_duration = none;
}

abbrev two_runs : ActiveRuns
two_runs = ("b", run_of "b" 2000000) ∷ ("a", run_of "a" 1000000) ∷ []

abbrev watchdog : Watchdog
watchdog = record {
  active_runs = two_runs;
  health_failures = [];
  idle_since = [];
  submitted = [];
  redis_up = true;
}

abbrev unreachable : ActiveRun → Reading
unreachable run = failed "Worker unreachable"

check_single_run-HasEnded_example :
    ((check_single_run default_config unreachable (run_of "a" 1000000) 3000000 watchdog).submitted
      ≡ watchdog.submitted)
    ⊎ HasEnded
        (run_of "a" 1000000)
        watchdog
        (check_single_run default_config unreachable (run_of "a" 1000000) 3000000 watchdog)
check_single_run-HasEnded_example =
    check_single_run-HasEnded default_config unreachable (run_of "a" 1000000) 3000000 watchdog

watchdog-IsBounded : IsBounded default_config watchdog
unfolding lookup
watchdog-IsBounded j = omega arith

check_active_runs-IsBounded_example :
    IsBounded default_config (check_active_runs default_config unreachable 3000000 watchdog)
check_active_runs-IsBounded_example =
    check_active_runs-IsBounded default_config unreachable 3000000 watchdog (omega arith)
      (omega arith) watchdog-IsBounded

abbrev three_checks : List (ℕ × String)
three_checks = (3000000, "timeout") ∷ (4000000, "connection refused") ∷ (5000000, "other") ∷ []

failing_checks_end_example :
    length watchdog.submitted
    < length (failing_checks default_config (run_of "a" 1000000) three_checks watchdog).submitted
unfolding lookup
failing_checks_end_example =
    failing_checks_end default_config (run_of "a" 1000000) three_checks watchdog (omega arith)
      (omega arith) (omega arith)
