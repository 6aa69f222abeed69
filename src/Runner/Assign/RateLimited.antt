-- ===== src/Runner/Assign/RateLimited.antt =====
-- The item that is refused when the forge limits our rate (runner/src/web.rs).
use janitor.Base.{
  String, ℕ, ◌≡◌, refl, ap, ◌∙◌, Option, none, some, unwrap_or, Bool, true, false, ◌⊎◌, inl, inr,
}
use janitor.Base.Int.{ℤ}
use janitor.Runner.Claims.{Redis, rate_limit_host}
use janitor.Runner.Claims.Exclusive.{holder}
use janitor.Runner.Results.{
  RunTables, JanitorResult, FinishError, FinishOutcome, stored, already_stored,
}
use janitor.Runner.Database.Finish.{IsGone, HasFinished, finish_run-HasFinished}
use janitor.Runner.Offer.{RunnerWorld, QueueAssignment}
use janitor.Runner.Assign.{aborted_result, abort_assignment}
use janitor.Runner.Assign.Answering.{Last, rate_limited, hand_out, resume_outcome}

abort_assignment-keeps :
    (up : Bool) (a : QueueAssignment) (code description id : String) (now : ℕ) (w : RunnerWorld)
    → ((abort_assignment up a code description id now w).redis ≡ w.redis)
      × ((abort_assignment up a code description id now w).active_runs ≡ w.active_runs)
unfolding abort_assignment
abort_assignment-keeps true a code description id now w = (refl, refl)
abort_assignment-keeps false a code description id now w = (refl, refl)

HasFinished-cases :
    (result : JanitorResult)
    → (command : String) → (queue_id : ℕ) → (t : RunTables)
    → (x : (FinishError ⊎ FinishOutcome) × JanitorResult × RunTables)
    → HasFinished result command queue_id t x
    → (x.2 ≡ t) ⊎ IsGone queue_id x.2
HasFinished-cases result command queue_id t (inl e, filled, after) h = inl h
HasFinished-cases result command queue_id t (inr already_stored, filled, after) h = inr h.2
HasFinished-cases result command queue_id t (inr stored, filled, after) h = inr h.5

-- A refused item leaves the queue, unless the refusal could not be recorded.
abort_assignment-IsGone :
    (up : Bool) (a : QueueAssignment) (code description id : String) (now : ℕ) (w : RunnerWorld)
    → ((abort_assignment up a code description id now w).tables ≡ w.tables)
      ⊎ IsGone a.queue_item.id (abort_assignment up a code description id now w).tables
unfolding abort_assignment
abort_assignment-IsGone false a code description id now w = inl refl
abort_assignment-IsGone true a code description id now w =
    HasFinished-cases (aborted_result a code description id now) (unwrap_or a.queue_item.command "")
      a.queue_item.id w.tables _
      (finish_run-HasFinished (aborted_result a code description id now)
        (unwrap_or a.queue_item.command "") a.queue_item.id w.tables)

rate_limit_host-holder :
    (up : Bool) (host : String) (until id : ℕ) (redis : Option Redis)
    → holder id (rate_limit_host up host until redis).1 ≡ holder id redis
unfolding rate_limit_host
rate_limit_host-holder up host until id none = refl
rate_limit_host-holder true host until id (some r) = refl
rate_limit_host-holder false host until id (some r) = refl

-- When the forge limits our rate, the item is not handed out: the answer names the host, no run
-- becomes active, and the item leaves the queue, unless the refusal could not be recorded; but the
-- claim on it in Redis stays as it was.
pub hand_out_rate_limited :
    (worker : String) (last : Last) (a : QueueAssignment) (log_id host : String)
    → (retry_after : Option ℤ) → (w : RunnerWorld)
    → (resume_outcome last a).rate_limit ≡ some (host, retry_after)
    → let out = hand_out worker last a log_id w in
      (out.0 ≡ rate_limited host retry_after)
      × (out.1.active_runs ≡ w.active_runs)
      × ((out.1.tables ≡ w.tables) ⊎ IsGone a.queue_item.id out.1.tables)
      × (holder a.queue_item.id out.1.redis ≡ holder a.queue_item.id w.redis)
unfolding hand_out
hand_out_rate_limited worker last a log_id host retry_after w e =
    rw (e, hand_out)
      (
        refl,
        (abort_assignment-keeps last.finish_up a _ _ last.aborted_id last.now _).1,
        abort_assignment-IsGone last.finish_up a _ _ last.aborted_id last.now _,
        ap (holder a.queue_item.id)
              (abort_assignment-keeps last.finish_up a _ _ last.aborted_id last.now _).0
            ∙ rate_limit_host-holder last.limit_up host _ a.queue_item.id w.redis,
      )
