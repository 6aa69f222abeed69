-- ===== src/Runner/ActiveRuns/Limit.antt =====
-- The limit on a worker's concurrent runs (runner/src/auth.rs, runner/src/active_runs.rs).
use janitor.Base.{
  String, ℕ, ◌+◌, ◌≤◌, ◌≡◌, List, [], ◌∷◌, true, arith, filterb, length, ltb, str_eq, eq_iff,
  if◌then◌else◌, Bool-cases, inl, inr, insert, max,
}
use janitor.Runner.ActiveRuns.{
  ActiveRun, ActiveRuns, values, list, store, count_for_worker, can_start_run,
}
use janitor.Runner.ActiveRuns.Listing.{length-sort_by_start}

-- An assignment guarded by `can_start_run`: the run is recorded if its worker may start one.
pub assign_if_allowed : ℕ → ActiveRun → ActiveRuns → ActiveRuns
assign_if_allowed limit run runs =
    if can_start_run true limit run.worker_name runs then store true run runs else runs

pub assign_all : ℕ → List ActiveRun → ActiveRuns → ActiveRuns
assign_all limit [] runs = runs
assign_all limit (run ∷ rest) runs = assign_all limit rest (assign_if_allowed limit run runs)

-- Storing a run adds at most one, and only to its own worker.
length-insert-values :
    (worker : String) (run : ActiveRun) (runs : ActiveRuns)
    → length (filterb (λ r. str_eq r.worker_name worker) (values (insert run.log_id run runs)))
      ≤ length (filterb (λ r. str_eq r.worker_name worker) (values runs))
        + (if str_eq run.worker_name worker then 1 else 0)
unfolding values insert
length-insert-values worker run [] = ground arith
length-insert-values worker run ((log_id, other) ∷ rest) =
    ground (arith, length-insert-values worker run rest)

count_for_worker-values :
    (worker : String) (runs : ActiveRuns)
    → count_for_worker true worker runs
      ≡ length (filterb (λ r. str_eq r.worker_name worker) (values runs))
unfolding count_for_worker list
count_for_worker-values worker runs =
    length-sort_by_start (λ r. str_eq r.worker_name worker) (values runs)

count_for_worker-assign :
    (limit : ℕ) (worker : String) (run : ActiveRun) (runs : ActiveRuns)
    → count_for_worker true worker (assign_if_allowed limit run runs)
      ≤ max (count_for_worker true worker runs) limit
unfolding assign_if_allowed can_start_run store
count_for_worker-assign limit worker run runs =
    elim (Bool-cases (ltb (count_for_worker true run.worker_name runs) limit)) [
      | inl e ↦ ground (
        arith,
        e,
        length-insert-values worker run runs,
        count_for_worker-values worker runs,
        count_for_worker-values worker (insert run.log_id run runs),
        eq_iff run.worker_name worker,
      )
      | inr e ↦ ground (arith, e)
    ]

-- While Redis answers, after any sequence of guarded assignments no worker has more active runs than
-- the limit, unless it had that many before.
count_for_worker-assign_all :
    (limit : ℕ) (worker : String) (new : List ActiveRun) (runs : ActiveRuns)
    → count_for_worker true worker (assign_all limit new runs)
      ≤ max (count_for_worker true worker runs) limit
unfolding assign_all
count_for_worker-assign_all limit worker [] runs = omega arith
count_for_worker-assign_all limit worker (run ∷ rest) runs = ground (
  arith,
  count_for_worker-assign limit worker run runs,
  count_for_worker-assign_all limit worker rest (assign_if_allowed limit run runs),
)
