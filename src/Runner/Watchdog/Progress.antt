-- ===== src/Runner/Watchdog/Progress.antt =====
-- Runs that the watchdog gives up on (runner/src/watchdog.rs).
use janitor.Base.{
  String, ℕ, ◌+◌, ◌≤◌, ◌<◌, ◌≡◌, refl, List, [], ◌∷◌, ◌||◌, arith, ◌⊎◌, inl, inr, Bool-cases,
  eq_iff, lookup, lookup-insert, if◌then◌else◌, u32_add, u32_add_lem, u32_mod, length,
  length-append, leb,
}
use janitor.Runner.ActiveRuns.{ActiveRun}
use janitor.Runner.Watchdog.{
  TerminationReason, WatchdogConfig, Watchdog, failed, check_worker_health, check_single_run,
  terminate_run, terminate_if, count_failure, check_error, contains, worker_disappeared,
  health_check_failed,
}
use janitor.Runner.Watchdog.Ends.{
  HasEnded, check_single_run-HasEnded, check_single_run_cases, terminate_run-HasEnded,
}
use janitor.Runner.Watchdog.Counters.{failures_of}

-- Checks of a run at these times, each of which finds the backchannel failing with this text.
pub failing_checks : WatchdogConfig → ActiveRun → List (ℕ × String) → Watchdog → Watchdog
failing_checks config run [] w = w
failing_checks config run ((now, message) ∷ rest) w =
    failing_checks config run rest (check_single_run config (λ r. failed message) run now w)

length-ended :
    {run : ActiveRun} (w w' : Watchdog)
    → HasEnded run w w'
    → length w'.submitted ≡ length w.submitted + 1
length-ended w w' e = rw e.submitted (length-append w.submitted _)

-- An error ends the run at once or counts as a failure.
check_error_cases :
    (config : WatchdogConfig) (run : ActiveRun) (message : String) (w : Watchdog)
    → (terminate_if run (check_error config run message w) ≡ terminate_run run worker_disappeared w)
      ⊎ ((reason : TerminationReason) × (check_error config run message w
            ≡ count_failure config run.log_id reason w))
unfolding check_error terminate_if
check_error_cases config run message w =
    elim (Bool-cases (
      contains message "Job not found"
      || contains message "Fatal failure"
      || contains message "not-found")) [
        | inl e ↦ inl (rw e)
        | inr e ↦ inr (
          if contains message "Worker unreachable"
                || contains message "timeout"
                || contains message "connection"
              then worker_disappeared
              else health_check_failed,
          rw e,
        )
      ]

terminate_if-counts :
    (config : WatchdogConfig) (run : ActiveRun) (reason : TerminationReason) (w : Watchdog)
    → config.max_health_failures < u32_mod
    → failures_of run.log_id w.health_failures < config.max_health_failures
    → (length (terminate_if run (count_failure config run.log_id reason w)).submitted
        ≡ length w.submitted + 1)
      ⊎ (failures_of run.log_id
            (terminate_if run (count_failure config run.log_id reason w)).health_failures
          ≡ failures_of run.log_id w.health_failures + 1)
        × (failures_of run.log_id w.health_failures + 1 < config.max_health_failures)
unfolding count_failure terminate_if terminate_run
terminate_if-counts config run reason w fits h =
    elim (Bool-cases
      (leb config.max_health_failures (u32_add (failures_of run.log_id w.health_failures) 1))) [
        | inl e ↦ inl (rw e (length-append w.submitted _))
        | inr e ↦ inr (
            rw e (
              ground (
                arith,
                eq_iff run.log_id run.log_id,
                h,
                e,
                u32_add_lem (failures_of run.log_id w.health_failures) 1,
                lookup-insert run.log_id run.log_id
                    (u32_add (failures_of run.log_id w.health_failures) 1) w.health_failures,
              )))
      ]

-- A failing check ends the run, or counts one more failure and leaves room for another.
failing_check-counts :
    (config : WatchdogConfig) (run : ActiveRun) (now : ℕ) (message : String) (w : Watchdog)
    → config.max_health_failures < u32_mod
    → failures_of run.log_id w.health_failures < config.max_health_failures
    → (length (check_single_run config (λ r. failed message) run now w).submitted
        ≡ length w.submitted + 1)
      ⊎ (failures_of run.log_id
            (check_single_run config (λ r. failed message) run now w).health_failures
          ≡ failures_of run.log_id w.health_failures + 1)
        × (failures_of run.log_id w.health_failures + 1 < config.max_health_failures)
unfolding terminate_if lookup check_worker_health
failing_check-counts config run now message w fits h =
    elim (check_single_run_cases config (λ r. failed message) run now w) [
      | inl (reason, e, same) ↦ inl (
          rw same (
            length-ended w (terminate_run run reason w)
              (terminate_run-HasEnded run reason w w refl)))
      | inr same ↦ rw same (elim (check_error_cases config run message w) [
        | inl ends ↦
            rw ends
              (inl (length-ended w _ (terminate_run-HasEnded run worker_disappeared w w refl)))
        | inr (reason, counts) ↦ rw counts (terminate_if-counts config run reason w fits h)
      ])
    ]

submitted-failing_checks :
    (config : WatchdogConfig) (run : ActiveRun) (checks : List (ℕ × String)) (w : Watchdog)
    → length w.submitted ≤ length (failing_checks config run checks w).submitted
unfolding failing_checks
submitted-failing_checks config run [] w = omega arith
submitted-failing_checks config run ((now, message) ∷ rest) w =
    elim (check_single_run-HasEnded config (λ r. failed message) run now w) [
      | inl same ↦ ground (
        arith,
        same,
        submitted-failing_checks config run rest
            (check_single_run config (λ r. failed message) run now w),
      )
      | inr ended ↦ omega (
        arith,
        length-ended w (check_single_run config (λ r. failed message) run now w) ended,
        submitted-failing_checks config run rest
            (check_single_run config (λ r. failed message) run now w),
      )
    ]

-- A run whose backchannel fails in as many checks in a row as it takes to reach
-- `max_health_failures`, with the failures counted before, is terminated: a result is handed to
-- `finish_run`, whatever the errors say and whenever the checks are made.
pub failing_checks_end :
    (config : WatchdogConfig) (run : ActiveRun) (checks : List (ℕ × String)) (w : Watchdog)
    → config.max_health_failures < u32_mod
    → failures_of run.log_id w.health_failures < config.max_health_failures
    → config.max_health_failures ≤ failures_of run.log_id w.health_failures + length checks
    → length w.submitted < length (failing_checks config run checks w).submitted
unfolding failing_checks
failing_checks_end config run [] w fits h enough = absurd (omega (arith, h, enough))
failing_checks_end config run ((now, message) ∷ rest) w fits h enough =
    elim (failing_check-counts config run now message w fits h) [
      | inl ended ↦ omega (
        arith,
        ended,
        submitted-failing_checks config run rest
            (check_single_run config (λ r. failed message) run now w),
      )
      | inr (counted, room) ↦
          elim (check_single_run-HasEnded config (λ r. failed message) run now w) [
            | inr e ↦ omega (
              arith,
              length-ended w (check_single_run config (λ r. failed message) run now w) e,
              submitted-failing_checks config run rest
                  (check_single_run config (λ r. failed message) run now w),
            )
            | inl same ↦ ground (
              arith,
              same,
              failing_checks_end config run rest
                  (check_single_run config (λ r. failed message) run now w) fits
                  (omega (arith, counted, room)) (omega (arith, counted, enough)),
            )
          ]
    ]
