-- ===== src/Runner/Assign/Examples.antt =====
-- A worker that asks for work when the queue has two items (runner/src/web.rs).
use janitor.Base.{
  String, ℕ, ◌≡◌, ◌<◌, refl, Option, none, some, List, [], ◌∷◌, Bool, true, false, ◌⊎◌, inr, Dict,
  lookup,
}
use janitor.Base.Int.{pos, ◌+ℤ◌}
use janitor.Queue.Buckets.{Bucket, bucket_rank, hook, default}
use janitor.Queue.Rows.{QueueItem, VcsInfo, delete_item}
use janitor.Queue.Listing.{vcs_info, host_is_kept, is_wanted, is_empty_list}
use janitor.Runner.Results.{JanitorResult, RunTables, stored}
use janitor.Runner.Database.{
  finish_run, has_run, with_change_set, store_change_set, store_run, refusal, is_vcs_type,
  passes_checks, refers, insert_branches, branch_tuples, run_row, store_builder_result_tx,
  delete_from_queue,
}
use janitor.Runner.Database.Finish.{IsGone}
use janitor.Runner.Claims.{
  AssignmentInfo, Redis, already_assigned, assign_queue_item, claim_of, get_rate_limited_hosts,
  get_assigned_queue_items, still_limited, add_member, is_member,
}
use janitor.Runner.Claims.Exclusive.{
  Call, assigning, unassigning, perform_all, holder, perform_all-IsExclusive,
}
use janitor.Runner.Offer.{
  RunnerWorld, QueueAssignment, next_queue_item_with_rate_limiting, next_queue_item_with_scoring,
  is_available, scored_before, computed_score, chance_of, times, or_empty,
}
use janitor.Runner.Assign.{
  AssignRequest, Round, assigned, assign_loop, assign_round, try_item, claim_item, validate,
  assignment_validation_outcome, abort_assignment, aborted_result, max_validation_retries,
}
use janitor.Runner.Assign.Answering.{
  Last, Answer, rate_limited, hand_out, resume_outcome, assign_work_internal,
}
use janitor.Runner.Assign.Loop.{assign_work_internal_ends}
use janitor.Runner.Assign.Handed.{IsHandedOut, assign_loop-IsHandedOut}
use janitor.Runner.Assign.RateLimited.{hand_out_rate_limited}

abbrev item : ℕ → String → Bucket → QueueItem
item id campaign bucket = record {
  id = id;
  bucket = bucket;
  codebase = "one";
  campaign = campaign;
  command = some "lintian-brush";
  priority = pos 0;
  context = none;
  estimated_duration = some 15000000;
  refresh = none;
  requester = none;
  change_set = none;
}

abbrev vcs : VcsInfo
vcs = record { branch_url = some "https://example.com/one"; subpath = none; vcs_type = some "git" }

abbrev tables : RunTables
tables = record {
  queue = record {
    rows = item 1 "unknown" hook ∷ item 2 "lintian-fixes" default ∷ [];
    next_id = 3;
    codebases = ("one", vcs) ∷ [];
    change_sets = [];
  };
  runs = [];
  branches = [];
  builds = [];
  workers = "worker" ∷ [];
}

abbrev redis : Redis
redis = record {
  rate_limit_hosts = ("example.org", some 5) ∷ [];
  assigned_queue_items = [];
  worker_queue_items = [];
}

abbrev world : RunnerWorld
world = record { tables = tables; candidates = []; redis = some redis; active_runs = [] }

abbrev request : AssignRequest
request = record { codebase = none; campaign = none; exclude_hosts = none }

-- Each round answers, and nobody else does anything.
abbrev rounds : ℕ → Round
rounds n = record {
  now = 9;
  hosts_up = true;
  assigned_up = true;
  query_up = true;
  finish_up = true;
  claims = true;
  adds = true;
  log_id = "run";
  aborted_id = "aborted";
  others = λ w. w;
}

abbrev campaigns : Dict Bool
campaigns = ("lintian-fixes", false) ∷ []

abbrev host_of : String → Option String
host_of url = some "example.com"

abbrev last : Last
last = record {
  now = 10;
  show_seconds = λ seconds. "60";
  compute_resume_from = λ a. record {
    resume = none;
    rate_limit = some ("example.com", some (pos 60));
    main_branch_url = none;
  };
  limit_up = true;
  finish_up = true;
  store_up = true;
  aborted_id = "limited";
}

abbrev second : QueueAssignment
second = record { queue_item = item 2 "lintian-fixes" default; vcs = vcs }

assign_work_internal_ends_example :
    (answer : Answer × RunnerWorld) × ((fuel : ℕ)
      → max_validation_retries < fuel
      → assign_work_internal 1 host_of campaigns fuel [] "worker" request rounds last world
        ≡ some answer)
assign_work_internal_ends_example =
    assign_work_internal_ends 1 host_of campaigns "worker" request rounds [] last world

limited : (resume_outcome last second).rate_limit ≡ some ("example.com", some (pos 60))
unfolding resume_outcome
limited = refl

hand_out_rate_limited_example :
    let out = hand_out "worker" last second "run" world in
    (out.0 ≡ rate_limited "example.com" (some (pos 60)))
    × (out.1.active_runs ≡ world.active_runs)
    × ((out.1.tables ≡ world.tables) ⊎ IsGone 2 out.1.tables)
    × (holder 2 out.1.redis ≡ holder 2 world.redis)
hand_out_rate_limited_example =
    hand_out_rate_limited "worker" last second "run" "example.com" (some (pos 60)) world limited

abbrev info : String → AssignmentInfo
info worker = record { worker_name = worker; log_id = "run"; assigned_at = 1 }

abbrev held : Redis
held = record redis { assigned_queue_items = (1, info "worker") ∷ [] }

abbrev calls : List Call
calls = unassigning true true true true 2 ∷ assigning true true 2 (info "other") ∷ []

held-holder : holder 1 (some held) ≡ some (info "worker")
unfolding claim_of
held-holder = refl

perform_all-IsExclusive_example :
    (holder 1 (perform_all calls (some held)) ≡ some (info "worker"))
    × ((assign_queue_item true true 1 (info "other") (perform_all calls (some held))).0
        ≡ some already_assigned)
perform_all-IsExclusive_example =
    perform_all-IsExclusive calls 1 (info "worker") (info "other") true (some held) (refl, (tt, tt))
      held-holder

abbrev result : JanitorResult
result = aborted_result second "not-in-vcs" "No VCS URL known for codebase." "run" 9

result-stored : (finish_run result "lintian-brush" 2 tables).0 ≡ inr stored
unfolding finish_run aborted_result has_run with_change_set store_change_set store_run refusal
    is_vcs_type passes_checks refers insert_branches branch_tuples lookup
result-stored = refl

-- The first item is of a campaign that is not configured: it is refused, and the second handed out.
abbrev after_abort : RunnerWorld
after_abort =
    abort_assignment true (record { queue_item = item 1 "unknown" hook; vcs = vcs })
      "unknown-campaign" "Campaign unknown unknown" "aborted" 9 world

abbrev end_world : RunnerWorld
end_world = record after_abort {
  redis = some (record redis {
    assigned_queue_items =
        (2, record { worker_name = "worker"; log_id = "run"; assigned_at = 9 }) ∷ [];
    worker_queue_items = ("worker", 2) ∷ [];
  });
}

second_is_handed_out :
    assign_loop 1 host_of campaigns 21 "worker" request [] rounds 0 world
    ≡ some (assigned second "run", end_world)
unfolding assign_loop assign_round try_item claim_item validate assignment_validation_outcome
    next_queue_item_with_rate_limiting next_queue_item_with_scoring is_available scored_before
    computed_score chance_of times ◌+ℤ◌ bucket_rank or_empty get_rate_limited_hosts
    get_assigned_queue_items still_limited vcs_info host_is_kept is_empty_list is_wanted
    assign_queue_item claim_of add_member is_member abort_assignment aborted_result finish_run
    has_run with_change_set store_change_set store_run refusal is_vcs_type passes_checks refers
    insert_branches branch_tuples delete_from_queue delete_item store_builder_result_tx run_row
    lookup
second_is_handed_out = refl

assign_loop-IsHandedOut_example :
    IsHandedOut campaigns "worker" rounds (assigned second "run", end_world)
assign_loop-IsHandedOut_example =
    assign_loop-IsHandedOut 1 host_of campaigns "worker" request rounds (λ n. refl) 21 [] 0 world
      (assigned second "run", end_world) second_is_handed_out
