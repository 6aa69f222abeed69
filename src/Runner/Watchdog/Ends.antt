-- ===== src/Runner/Watchdog/Ends.antt =====
-- What one check of the watchdog leaves behind (runner/src/watchdog.rs).
use janitor.Base.{
  ℕ, ◌≡◌, refl, Option, none, some, [], ◌∷◌, ◌++◌, true, arith, ◌⊎◌, inl, inr, Option-cases, eq_iff,
  lookup, lookup-remove,
}
use janitor.Runner.ActiveRuns.{ActiveRun, remove_run}
use janitor.Runner.Watchdog.{
  TerminationReason, result_code, is_transient, WatchdogConfig, Watchdog, Reading, healthy, failed,
  check_timeout, check_worker_health, check_single_run, terminate_run, terminate_if, count_failure,
  check_error, check_status, check_alive, check_different_run, leave_idle, HealthStatus, other_run,
}

-- One result is handed to `finish_run`, and nothing of the run is kept where Redis answers.
pub record HasEnded (run : ActiveRun) (before after : Watchdog) : Type 0 where
  pub reason : TerminationReason
  pub submitted :
      after.submitted
      ≡ before.submitted
        ++ record {
          log_id = run.log_id;
          code = result_code reason;
          transient = is_transient reason;
        }
          ∷ []
  pub not_active : after.redis_up ≡ true → lookup run.log_id after.active_runs ≡ none
  pub not_counted : lookup run.log_id after.health_failures ≡ none
  pub not_idle : lookup run.log_id after.idle_since ≡ none

pub terminate_run-HasEnded :
    (run : ActiveRun) (reason : TerminationReason) (before w : Watchdog)
    → w.submitted ≡ before.submitted
    → HasEnded run before (terminate_run run reason w)
unfolding terminate_run remove_run
terminate_run-HasEnded run reason before w same = record {
  reason = reason;
  submitted = rw same refl;
  not_active = λ up.
      ground (
        arith,
        up,
        lookup-remove run.log_id run.log_id w.active_runs,
        eq_iff run.log_id run.log_id,
      );
  not_counted =
      ground (
        arith,
        lookup-remove run.log_id run.log_id w.health_failures,
        eq_iff run.log_id run.log_id,
      );
  not_idle =
      ground
        (arith, lookup-remove run.log_id run.log_id w.idle_since, eq_iff run.log_id run.log_id);
}

submitted-check_different_run :
    (config : WatchdogConfig) (run : ActiveRun) (o : Option ActiveRun) (w : Watchdog)
    → (check_different_run config run o w).1.submitted ≡ w.submitted
unfolding check_different_run count_failure
submitted-check_different_run config run none w = refl
submitted-check_different_run config run (some other) w = ground arith

submitted-check_status :
    (config : WatchdogConfig) (run : ActiveRun) (health : HealthStatus) (now : ℕ) (w : Watchdog)
    → (check_status config run health now w).1.submitted ≡ w.submitted
unfolding check_status check_alive count_failure
submitted-check_status config run health now w =
    ground (arith, submitted-check_different_run config run (other_run health w) w)

-- Checking a worker's health hands over nothing by itself.
pub submitted-check_worker_health :
    (config : WatchdogConfig) (reading : Reading) (run : ActiveRun) (now : ℕ) (w : Watchdog)
    → (check_worker_health config reading run now w).1.submitted ≡ w.submitted
unfolding check_worker_health check_error count_failure leave_idle
submitted-check_worker_health config (failed e) run now w = ground arith
submitted-check_worker_health config (healthy health) run now w =
    ground (arith, submitted-check_status config run health now (leave_idle run health w))

terminate_if-HasEnded :
    (run : ActiveRun) (before : Watchdog) (o : Option TerminationReason) (w : Watchdog)
    → w.submitted ≡ before.submitted
    → ((terminate_if run (o, w)).submitted ≡ before.submitted)
      ⊎ HasEnded run before (terminate_if run (o, w))
unfolding terminate_if
terminate_if-HasEnded run before none w same = inl same
terminate_if-HasEnded run before (some reason) w same =
    inr (terminate_run-HasEnded run reason before w same)

-- A check ends a run that takes too long, and else does what its health asks for.
pub check_single_run_cases :
    (config : WatchdogConfig) (reading : ActiveRun → Reading) (run : ActiveRun) (now : ℕ)
    (w : Watchdog)
    → ((reason : TerminationReason) × (check_timeout config run now ≡ some reason)
        × (check_single_run config reading run now w ≡ terminate_run run reason w))
      ⊎ (check_single_run config reading run now w
          ≡ terminate_if run (check_worker_health config (reading run) run now w))
unfolding check_single_run
check_single_run_cases config reading run now w =
    elim (Option-cases (check_timeout config run now)) [
      | inr (reason, e) ↦ inl (reason, e, rw (e, check_single_run))
      | inl e ↦ inr (rw (e, check_single_run))
    ]

-- A check either hands nothing to `finish_run`, or ends the run: it hands over exactly one result,
-- under the run's id and with the code of a reason, and, whatever `finish_run` answers, the failure
-- counts and the idle times forget the run, and so does the store of active runs if Redis answers.
pub check_single_run-HasEnded :
    (config : WatchdogConfig) (reading : ActiveRun → Reading) (run : ActiveRun) (now : ℕ)
    (w : Watchdog)
    → ((check_single_run config reading run now w).submitted ≡ w.submitted)
      ⊎ HasEnded run w (check_single_run config reading run now w)
check_single_run-HasEnded config reading run now w =
    elim (check_single_run_cases config reading run now w) [
      | inl (reason, e, same) ↦ rw same (inr (terminate_run-HasEnded run reason w w refl))
      | inr same ↦ rw same (
          terminate_if-HasEnded run w (check_worker_health config (reading run) run now w).0
            (check_worker_health config (reading run) run now w).1
            (submitted-check_worker_health config (reading run) run now w))
    ]
