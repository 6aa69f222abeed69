-- ===== src/Runner/Offer.antt =====
-- Which queue item the runner offers to a worker: `next_queue_item_with_scoring` of
-- runner/src/database.rs. A success chance is a multiple of 1 / `unit`, which stands for any common
-- denominator of the floating point numbers in the table, so scores are compared without rounding.
-- `host_of` is what SQL makes of a URL with the pattern of the host. Times are microseconds.
pub mod Ranking
pub mod Pick
use janitor.Base.{
  String, ℕ, suc, zero, ◌+◌, ◌*◌, ◌≡◌, Option, none, some, unwrap_or, List, [], ◌∷◌, ◌++◌, map,
  Bool, true, false, not, ◌&&◌, ◌||◌, str_eq, any, find, filterb, ltb, leb, ◌==◌, is_some,
  if◌then◌else◌, ◌⊎◌, inl, inr, Outcome, ok, err, panic, Dict, lookup, ◌/◌, max,
}
use Prim.Native.String.{◌++◌ as str_append}
use janitor.Base.Int.{ℤ, pos, negsuc, pos_part, neg_part, sub_ℕ, ltb_ℤ, ◌+ℤ◌}
use janitor.Base.Order.{first, sort_by, then_by}
use janitor.Queue.Buckets.{bucket_rank}
use janitor.Queue.Rows.{QueueItem, VcsInfo, Tables}
use janitor.Queue.Listing.{vcs_info, host_is_kept, is_wanted, is_empty_list}
use janitor.Runner.ActiveRuns.{ActiveRun, ActiveRuns, store}
use janitor.Runner.Results.{JanitorResult, RunTables}
use janitor.Runner.Database.{finish_run}
use janitor.Runner.Claims.{
  AssignmentInfo, Redis, ClaimError, already_assigned, unavailable, get_rate_limited_hosts,
  get_assigned_queue_items, assign_queue_item, rate_limit_host,
}

-- A row of `candidate`.
pub record Candidate : Type 0 where
  pub codebase : String
  pub suite : String
  pub change_set : Option String
  pub success_chance : Option ℤ

-- What the runner works on: its tables, Redis if it is configured, and the active runs.
pub record RunnerWorld : Type 0 where
  pub tables : RunTables
  pub candidates : List Candidate
  pub redis : Option Redis
  pub active_runs : ActiveRuns

pub record QueueAssignment : Type 0 where
  pub queue_item : QueueItem
  pub vcs : VcsInfo

-- The LEFT JOIN: the index on the candidates admits at most one.
unfoldable pub chance_of : List Candidate → QueueItem → Option ℤ
chance_of candidates row =
    elim (find
      (λ candidate.
        str_eq candidate.codebase row.codebase
        && str_eq candidate.suite row.campaign
        && str_eq (unwrap_or candidate.change_set "") (unwrap_or row.change_set ""))
      candidates) [ none ↦ none | some candidate ↦ candidate.success_chance ]

-- Multiplication by a natural number.
unfoldable pub times : ℕ → ℤ → ℤ
times k z = sub_ℕ (k * pos_part z) (k * neg_part z)

-- `computed_score`, in units of 1 / `unit`.
unfoldable pub computed_score : ℕ → Option ℤ → ℤ → ℤ
computed_score unit none priority = times unit (sub_ℕ (100 + neg_part priority) (pos_part priority))
computed_score unit (some chance) priority =
    times 100 chance +ℤ times unit (sub_ℕ (100 + neg_part priority) (pos_part priority))

-- `ORDER BY bucket ASC, computed_score DESC, priority ASC, id ASC`
unfoldable pub scored_before : ℕ → List Candidate → QueueItem → QueueItem → Bool
scored_before unit candidates =
    then_by (λ a b. ltb (bucket_rank a.bucket) (bucket_rank b.bucket))
      (then_by
        (λ a b.
          ltb_ℤ (computed_score unit (chance_of candidates b) b.priority)
            (computed_score unit (chance_of candidates a) a.priority))
        (then_by (λ a b. ltb_ℤ a.priority b.priority) (λ a b. leb a.id b.id)))

module _ (unit : ℕ) (host_of : String → Option String) where
  -- The WHERE clause: an empty list makes no condition.
  unfoldable pub is_available :
      Option String → Option String → List String → List ℕ → Tables → QueueItem → Bool
  is_available codebase campaign exclude_hosts assigned t row =
      not (any (λ id. id == row.id) assigned)
      && is_wanted codebase row.codebase
      && is_wanted campaign row.campaign
      && (is_empty_list exclude_hosts
          || host_is_kept host_of exclude_hosts (vcs_info t row).branch_url)

  unfoldable pub next_queue_item_with_scoring :
      Option String → Option String → List String → List ℕ → RunnerWorld → Option QueueAssignment
  next_queue_item_with_scoring codebase campaign exclude_hosts assigned w =
      let t : Tables = w.tables.queue in
      elim (first (
        sort_by (scored_before unit w.candidates)
          (filterb (is_available codebase campaign exclude_hosts assigned t) t.rows))) [
            | none ↦ none
            | some row ↦ some (record { queue_item = row; vcs = vcs_info t row })
          ]

  -- `unwrap_or_default`
  unfoldable pub or_empty {ℓ} : {A : Type ℓ} → Outcome ClaimError (List A) → List A
  or_empty (ok values) = values
  or_empty (err e) = []
  or_empty panic = []

  unfoldable pub next_queue_item_with_rate_limiting :
      (hosts_up assigned_up : Bool)
      → ℕ
      → Option String
      → Option String
      → List String
      → RunnerWorld
      → Option QueueAssignment
  next_queue_item_with_rate_limiting hosts_up assigned_up now codebase campaign avoid_hosts w =
      next_queue_item_with_scoring codebase campaign
        (avoid_hosts
          ++ map (λ host. host.0) (or_empty (get_rate_limited_hosts hosts_up now w.redis)))
        (or_empty (get_assigned_queue_items assigned_up w.redis)) w
