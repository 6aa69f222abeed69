-- ===== src/Runner/Assign/Answering.antt =====
-- What `assign_work_internal` does with the item that its loop found, and the whole request
-- (runner/src/web.rs). The response's JSON, the backchannel and the metrics are left out.
use janitor.Base.{
  String, ℕ, ◌+◌, ◌*◌, Option, none, some, unwrap_or, List, [], Bool, false, if◌then◌else◌, Dict,
  ◌/◌,
}
use Prim.Native.String.{◌++◌ as str_append}
use janitor.Base.Int.{ℤ, pos_part}
use janitor.Runner.ActiveRuns.{ActiveRun, store}
use janitor.Runner.Claims.{rate_limit_host}
use janitor.Runner.Offer.{RunnerWorld, QueueAssignment}
use janitor.Runner.Assign.{
  AssignRequest, LoopEnd, Round, abort_assignment, assign_loop, assigned, merge_hosts,
}

-- What the search for a branch to resume from found: a run, the host that limits our rate with the
-- seconds to wait, and the URL of the main branch as it was opened.
pub record ResumeOutcome : Type 0 where
  pub resume : Option String
  pub rate_limit : Option (String × Option ℤ)
  pub main_branch_url : Option String

-- What happens after the loop: the time, the search, which calls are answered and a fresh id.
pub record Last : Type 0 where
  pub now : ℕ
  -- The seconds to wait, as text.
  pub show_seconds : Option ℤ → String
  pub compute_resume_from : QueueAssignment → ResumeOutcome
  pub limit_up : Bool
  pub finish_up : Bool
  pub store_up : Bool
  pub aborted_id : String

pub data Answer : Type 0 where
  refused : LoopEnd → Answer
  rate_limited : (host : String) (retry_after : Option ℤ) → Answer
  handed_out : (run : ActiveRun) (resume_from main_branch_url : Option String) → Answer

-- The seconds to wait, half an hour unless the forge says, as microseconds.
unfoldable pub retry_wait : Option ℤ → ℕ
retry_wait none = 1800000000
retry_wait (some seconds) = pos_part seconds * 1000000

unfoldable pub active_run : String → QueueAssignment → String → ℕ → ActiveRun
active_run worker a log_id now = record {
  log_id = log_id;
  worker_name = worker;
  campaign = a.queue_item.campaign;
  codebase = a.queue_item.codebase;
  start_time = now;
  estimated_duration = elim a.queue_item.estimated_duration [
    | none ↦ none
    | some duration ↦ some (duration / 1000000)
  ];
}

-- A refreshing item is not resumed.
unfoldable pub resume_outcome : Last → QueueAssignment → ResumeOutcome
resume_outcome last a =
    if unwrap_or a.queue_item.refresh false
    then record { resume = none; rate_limit = none; main_branch_url = none }
    else last.compute_resume_from a

unfoldable pub hand_out :
    String → Last → QueueAssignment → String → RunnerWorld → Answer × RunnerWorld
hand_out worker last a log_id w =
    let found : ResumeOutcome = resume_outcome last a in
    elim found.rate_limit [
      | some (host, retry_after) ↦
          let limited : RunnerWorld = record w {
            redis =
                (rate_limit_host last.limit_up host (last.now + retry_wait retry_after) w.redis).1;
          } in
          (
            rate_limited host retry_after,
            abort_assignment last.finish_up a "resume-rate-limited"
                (str_append "Forge " (
                  str_append host (
                    str_append " rate-limited us; retry after "
                      (str_append (last.show_seconds retry_after) "s"))))
                last.aborted_id last.now limited,
          )
      | none ↦
          let run : ActiveRun = active_run worker a log_id last.now in
          (
            handed_out run found.resume found.main_branch_url,
            record w { active_runs = store last.store_up run w.active_runs },
          )
    ]

-- The whole request, on fuel for its loop.
unfoldable pub assign_work_internal :
    ℕ
    → (String → Option String)
    → Dict Bool
    → ℕ
    → List String
    → String
    → AssignRequest
    → (ℕ → Round)
    → Last
    → RunnerWorld
    → Option (Answer × RunnerWorld)
assign_work_internal unit host_of campaigns fuel avoid_hosts worker request rounds last w =
    elim (assign_loop unit host_of campaigns fuel worker request
      (merge_hosts avoid_hosts (unwrap_or request.exclude_hosts [])) rounds 0 w) [
        | none ↦ none
        | some (assigned a log_id, after) ↦ some (hand_out worker last a log_id after)
        | some (end, after) ↦ some (refused end, after)
      ]
