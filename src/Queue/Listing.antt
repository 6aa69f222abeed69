-- ===== src/Queue/Listing.antt =====
-- The queries of src/queue.rs: the next item, the items in order, the buckets, an item and its
-- position (the view `queue_positions` of schema/state.sql). `host_of` is what the SQL function
-- `substring` makes of a URL with the pattern of the host, none where the pattern does not match.
use janitor.Base.{
  String, ℕ, suc, ◌+◌, ◌-◌, Option, none, some, unwrap_or, List, [], ◌∷◌, ◌++◌, Bool, true, false,
  not, ◌&&◌, str_eq, any, find, filterb, length, ◌==◌, ltb, leb, if◌then◌else◌, Outcome, ok, err,
  lookup, is_some,
}
use janitor.Base.Int.{ℤ, pos, negsuc, ltb_ℤ}
use janitor.Base.Order.{first, take, sort_by}
use janitor.Queue.Buckets.{
  Bucket, bucket_rank, bucket_text, update_existing_mp, manual, control, hook, reschedule,
  update_new_mp, missing_deps, default,
}
use janitor.Queue.Rows.{QueueItem, VcsInfo, Tables}

-- `ORDER BY bucket ASC, priority ASC, id ASC`
unfoldable pub row_before : QueueItem → QueueItem → Bool
row_before a b =
    if ltb (bucket_rank a.bucket) (bucket_rank b.bucket)
    then true
    else if ltb (bucket_rank b.bucket) (bucket_rank a.bucket)
    then false
    else if ltb_ℤ a.priority b.priority
    then true
    else if ltb_ℤ b.priority a.priority
    then false
    else leb a.id b.id

pub data QueryError : Type 0 where
  placeholder_mismatch negative_limit column_decode : QueryError

-- What may be given to `next_item`.
pub record Filters : Type 0 where
  pub codebase : Option String
  pub campaign : Option String
  pub exclude_hosts : Option (List String)
  pub assigned_queue_items : Option (List ℕ)

-- `query.bind`, once for each filter that is given.
unfoldable pub bound_number {ℓ} : {A : Type ℓ} → Option A → ℕ → List ℕ
bound_number none number = []
bound_number (some value) number = number ∷ []

-- The numbers of the placeholders in the query, in the order in which values are bound.
unfoldable pub placeholders : Filters → List ℕ
placeholders f =
    bound_number f.assigned_queue_items 1
    ++ bound_number f.codebase 2
    ++ bound_number f.campaign 3
    ++ bound_number f.exclude_hosts 4

-- Whether a query with these placeholders takes as many values as there are: they are numbered
-- without a gap.
unfoldable pub are_numbered_from : ℕ → List ℕ → Bool
are_numbered_from number [] = true
are_numbered_from number (x ∷ xs) = x == number && are_numbered_from (suc number) xs

-- `codebase.branch_url`, after the left join.
unfoldable pub vcs_info : Tables → QueueItem → VcsInfo
vcs_info t row =
    unwrap_or (lookup row.codebase t.codebases)
      (record { branch_url = none; subpath = none; vcs_type = none })

-- `VcsInfo::from_row`: the column `vcs_type` is an enum of the schema and selected as such, which
-- does not decode as a String unless it is NULL.
unfoldable pub read_row : Tables → QueueItem → Outcome QueryError (Option (QueueItem × VcsInfo))
read_row t row =
    if is_some (vcs_info t row).vcs_type then err column_decode else ok (some (row, vcs_info t row))

unfoldable pub is_empty_list {ℓ} : {A : Type ℓ} → List A → Bool
is_empty_list [] = true
is_empty_list (x ∷ xs) = false

-- Whether NOT (url IS NOT NULL AND host = ANY (hosts)) is true: a host that is NULL makes it NULL,
-- unless the array is empty.
unfoldable pub host_is_kept : (String → Option String) → List String → Option String → Bool
host_is_kept host_of hosts none = true
host_is_kept host_of hosts (some url) = elim (host_of url) [
  | none ↦ is_empty_list hosts
  | some host ↦ not (any (str_eq host) hosts)
]

unfoldable pub is_wanted : Option String → String → Bool
is_wanted none name = true
is_wanted (some wanted) name = str_eq name wanted

module _ (host_of : String → Option String) where
  -- The WHERE clause.
  unfoldable pub is_eligible : Filters → Tables → QueueItem → Bool
  is_eligible f t row =
      not (any (λ id. id == row.id) (unwrap_or f.assigned_queue_items []))
      && is_wanted f.codebase row.codebase
      && is_wanted f.campaign row.campaign
      && elim f.exclude_hosts [
        | none ↦ true
        | some hosts ↦ host_is_kept host_of hosts (vcs_info t row).branch_url
      ]

  -- The query fails unless its placeholders fit the values, and the row that it finds is then read.
  unfoldable pub next_item : Filters → Tables → Outcome QueryError (Option (QueueItem × VcsInfo))
  next_item f t =
      if are_numbered_from 1 (placeholders f)
      then elim (first (sort_by row_before (filterb (is_eligible f t) t.rows))) [
        | none ↦ ok none
        | some row ↦ read_row t row
      ]
      else err placeholder_mismatch

-- The limit without one: `i64::MAX`.
abbrev pub i64_max : ℕ
i64_max = 9223372036854775807

-- `LIMIT`, which refuses a negative number.
unfoldable pub limit_to {ℓ} : {A : Type ℓ} → Option ℤ → List A → Outcome QueryError (List A)
limit_to none rows = ok (take i64_max rows)
limit_to (some (pos n)) rows = ok (take n rows)
limit_to (some (negsuc n)) rows = err negative_limit

unfoldable pub iter_queue : Option ℤ → Option String → Tables → Outcome QueryError (List QueueItem)
iter_queue limit campaign t =
    limit_to limit (sort_by row_before (filterb (λ row. is_wanted campaign row.campaign) t.rows))

abbrev pub all_buckets : List Bucket
all_buckets =
    update_existing_mp ∷ manual ∷ control ∷ hook ∷ reschedule ∷ update_new_mp ∷ missing_deps
    ∷ default ∷ []

unfoldable pub count_bucket : Bucket → List QueueItem → ℕ
count_bucket bucket rows =
    length (filterb (λ row. bucket_rank row.bucket == bucket_rank bucket) rows)

-- `GROUP BY bucket ORDER BY bucket`: a bucket without rows is no group.
unfoldable pub group : List Bucket → List QueueItem → List (String × ℕ)
group [] rows = []
group (bucket ∷ rest) rows =
    let others = group rest rows in
    if count_bucket bucket rows == 0
    then others
    else (bucket_text bucket, count_bucket bucket rows) ∷ others

unfoldable pub get_buckets : Tables → List (String × ℕ)
get_buckets t = group all_buckets t.rows

unfoldable pub get_item : ℕ → Tables → Option QueueItem
get_item queue_id t = find (λ row. row.id == queue_id) t.rows

-- The first position, and the wait time, of which the view makes NULL while every duration is NULL.
pub record Eta : Type 0 where
  pub position : ℕ
  pub wait_time : Option ℕ

-- SUM, which passes over NULL.
unfoldable pub add_duration : Option ℕ → Option ℕ → Option ℕ
add_duration total none = total
add_duration none (some duration) = some duration
add_duration (some total) (some duration) = some (total + duration)

-- `position` is that of the first row, and `total` the sum of the durations before it.
unfoldable pub position_from : ℕ → Option ℕ → String → String → List QueueItem → Option Eta
position_from position total campaign codebase [] = none
position_from position total campaign codebase (row ∷ rest) =
    let sum : Option ℕ = add_duration total row.estimated_duration in
    let later = position_from (suc position) sum campaign codebase rest in
    if str_eq row.codebase codebase && str_eq row.campaign campaign
    then some (record {
      position = position;
      wait_time = elim sum [
        | none ↦ none
        | some value ↦ some (value - unwrap_or row.estimated_duration 0)
      ];
    })
    else later

unfoldable pub get_position : String → String → Tables → Option Eta
get_position campaign codebase t =
    position_from 1 none campaign codebase (sort_by row_before t.rows)
