-- ===== src/Publish/Policy.antt =====
-- publish/src/lib.rs: `publish_from_policy`, which publishes one role of a run under a policy.
pub mod Types
pub mod Gates
pub mod Worker
pub mod Frame
pub mod Guards
pub mod Retry
pub mod Record
pub mod Bound
mod Examples
use Prim.Native.String.{◌++◌ as str_append}
use janitor.Base.{
  String, ℕ, ◌-◌, ◌/◌, Option, none, some, List, [], ◌∷◌, ◌++◌, Bool, true, false, ◌&&◌, ◌||◌, not,
  str_eq, any, filterb, find, length, leb, ◌==◌, if◌then◌else◌, is_some, unwrap_or, Outcome, ok,
  err, panic,
}
use janitor.Base.Int.{ℤ, ltb_ℤ, pos, sub_ℕ}
use janitor.Publish.Mode.{
  Mode, mode_eq, skip, build_only, push, push_derived, propose, attempt_push, bts,
}
use janitor.Publish.RateLimiter.{RateLimiter, is_allowed, check_allowed, inc}
use janitor.Publish.Run.{Run, ResultBranch, LastRun, get_result_branch}
use janitor.Publish.Failure.{
  PublishError, failure, branch_busy, ScheduleCall, regular, handle_publish_failure,
}
use janitor.Publish.Backoff.{day, run_sufficient_for_proposal}
use janitor.Publish.Database.{
  Database, Publish, already_published, get_open_merge_proposal, check_last_published,
}
use janitor.Publish.Store.{store_publish}
use janitor.Publish.Policy.Types.{
  Campaign, VcsType, bzr, git, vcs_type_from_str, Request, PublishOneResult, Event, Environment,
  World, PolicyArgs, Answer,
}
use janitor.Publish.Policy.Gates.{
  command_guard, is_gated, is_proposing, Target, select_target, modes_to_check, is_done_before,
  bucket_gate, age_days, frequency_gate, policy_mode,
}
use janitor.Publish.Policy.Worker.{
  unchanged_at_base, needs_binary_diff, derived_branch_name, make_request, effective_mode, Folded,
  proposal_of, publish_row, bump, event_of, announce,
}

-- From `store_publish` to the end. A failed assertion in `store_publish` is a panic.
unfoldable pub record_outcome :
    Environment → Campaign → PolicyArgs → Mode → Target → Folded → World → Answer
record_outcome env campaign a mode t f w =
    let p : Publish = publish_row env campaign a mode t f in
    elim (store_publish p w.db) [
      | none ↦ (panic, w)
      | some db' ↦
          announce env a p
            (record w { db = db'; limiter = bump a.rate_limit_bucket f.result w.limiter })
    ]

-- The worker's answer.
unfoldable pub after_worker :
    Environment
    → Campaign
    → PolicyArgs
    → Mode
    → Target
    → Outcome PublishError PublishOneResult
    → World
    → Answer
after_worker env campaign a mode t (ok r) w =
    record_outcome env campaign a mode t
      (record { code = "success"; description = none; result = some r }) w
after_worker env campaign a mode t (err (branch_busy url)) w = (ok none, w)
after_worker env campaign a mode t (err (failure c d)) w =
    let ((code, description), calls) =
      handle_publish_failure (failure c d) w.db.last_runs a.run "update-new-mp" in
    record_outcome env campaign a mode t
      (record { code = code; description = some description; result = none })
      (record w { scheduled = w.scheduled ++ calls })
after_worker env campaign a mode t (err other) w = (err "publish-error", w)
after_worker env campaign a mode t panic w = (panic, w)

-- The VCS checks, and the request.
unfoldable pub run_worker : Environment → Campaign → PolicyArgs → Mode → Target → World → Answer
run_worker env campaign a mode t w = elim (vcs_type_from_str a.run.vcs_type) [
  | none ↦ (ok none, w)
  | some v ↦
      let request : Request = make_request env campaign a w mode t in
      if env.has_manager v
      then after_worker env campaign a mode t (env.publish_one request)
          (record w { requests = w.requests ++ request ∷ [] })
      else (ok none, w)
]

unfoldable pub publish_target : Environment → Campaign → PolicyArgs → Target → World → Answer
publish_target env campaign a t w =
    if is_done_before campaign a w.db t || is_gated (policy_mode env campaign a w)
    then (ok none, w)
    else run_worker env campaign a (policy_mode env campaign a w) t w

unfoldable pub publish_from_policy : Environment → Campaign → PolicyArgs → World → Answer
publish_from_policy env campaign a w = elim (command_guard env a) [
  | some calls ↦ (ok none, record w { scheduled = w.scheduled ++ calls })
  | none ↦ elim (select_target env a) [
    | none ↦ (ok none, w)
    | some t ↦ publish_target env campaign a t w
  ]
]
