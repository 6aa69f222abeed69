-- ===== src/Queue/Next.antt =====
-- What the queries of src/queue.rs return.
use janitor.Base.{
  String, ℕ, ap, ◌+◌, ◌≡◌, ◌≢◌, ◌≤◌, ◌<◌, refl, Option, none, some, List, [], ◌∷◌, Bool, true,
  arith, Bool-cases, inl, inr, filterb, length, length-filterb, All, Outcome, ok, err, panic,
  is_some, ◌||◌, ◌==◌, sym, ◌∙◌, ◌⊎◌, unwrap_or,
}
use janitor.Base.Int.{pos}
use janitor.Base.Order.{
  IsTotalOrder, first, take, sort_by, IsSorted, sort_by-IsSorted, sort_by-Permᴰ, take_all,
  first-take, length-sort_by,
}
use mathlib.Core.List.{Permᴰ}
use janitor.Queue.Buckets.{Bucket, bucket_rank}
use janitor.Queue.Rows.{QueueItem, VcsInfo, Tables}
use janitor.Queue.Listing.{
  QueryError, placeholder_mismatch, negative_limit, column_decode, row_before, Filters,
  placeholders, bound_number, are_numbered_from, is_eligible, next_item, read_row, vcs_info,
  iter_queue, limit_to, i64_max, is_wanted, get_buckets, group, count_bucket, all_buckets,
  host_is_kept,
}
use janitor.Queue.Selection.{
  IsExpected, HostPasses, IsBelow, IsLevel, IsPick, by_key, is_wanted-true, is_wanted_if,
  id-unassigned, id-unassigned_if, host_is_kept-true, host_is_kept_if, select-IsPick,
}

pub row_before-IsTotalOrder : IsTotalOrder row_before
unfolding row_before
row_before-IsTotalOrder = record {
  total = λ a b e. ground (arith, e);
  transitive = λ a b c e f. ground (arith, e, f);
}

abbrev pub sum_counts : List (String × ℕ) → ℕ
sum_counts [] = 0
sum_counts ((bucket, count) ∷ rest) = count + sum_counts rest

-- a comes no later than b: by the place of its bucket, then by priority, then by id.
abbrev pub Precedes : QueueItem → QueueItem → Type 0
Precedes a b =
    (bucket_rank a.bucket < bucket_rank b.bucket)
    ⊎ ((bucket_rank a.bucket ≡ bucket_rank b.bucket)
        × (IsBelow a.priority b.priority ⊎ (IsLevel a.priority b.priority × (a.id ≤ b.id))))

row_before-Precedes : (a b : QueueItem) → row_before a b ≡ true → Precedes a b
unfolding row_before
row_before-Precedes a b h = elim (by_key (bucket_rank a.bucket) (bucket_rank b.bucket) _ h) [
  | inl e ↦ inl e
  | inr (e, rest) ↦ elim (by_key _ _ _ rest) [
    | inl e' ↦ inr (e, inl e')
    | inr (e', last) ↦ inr (e, inr (e', ground (arith, last)))
  ]
]

module _ (host_of : String → Option String) where
  -- The row is none of the assigned items, of the codebase and campaign that are asked for, if they
  -- are, and its URL is not on an excluded host.
  abbrev pub Passes : Filters → Tables → QueueItem → Type 0
  Passes f t row =
      All (λ id. id ≢ row.id) (unwrap_or f.assigned_queue_items [])
      × IsExpected f.codebase row.codebase
      × IsExpected f.campaign row.campaign
      × HostPasses host_of f.exclude_hosts (vcs_info t row).branch_url

  -- The test on the hosts.
  hosts_kept :
      (o : Option (List String)) (url : Option String)
      → (◌≡◌ {A = Bool} (elim o [ none ↦ true | some hosts ↦ host_is_kept host_of hosts url ]) true
          → HostPasses host_of o url)
        × (HostPasses host_of o url
            → ◌≡◌ {A = Bool}
                (elim o [ none ↦ true | some hosts ↦ host_is_kept host_of hosts url ])
                true)
  hosts_kept none url = (λ h. tt, λ h. refl)
  hosts_kept (some hosts) url =
      (host_is_kept-true host_of hosts url, host_is_kept_if host_of hosts url)

  is_eligible-Passes :
      (f : Filters) (t : Tables) (row : QueueItem)
      → is_eligible host_of f t row ≡ true
      → Passes f t row
  unfolding is_eligible
  is_eligible-Passes f t row h = (
    id-unassigned row.id _ (ground (arith, h)),
    is_wanted-true f.codebase row.codebase (ground (arith, h)),
    is_wanted-true f.campaign row.campaign (ground (arith, h)),
    (hosts_kept f.exclude_hosts (vcs_info t row).branch_url).0 (ground (arith, h)),
  )

  is_eligible_if :
      (f : Filters) (t : Tables) (row : QueueItem)
      → Passes f t row
      → is_eligible host_of f t row ≡ true
  unfolding is_eligible
  is_eligible_if f t row (free, codebase, campaign, hosts) =
      rw
        (
          id-unassigned_if row.id _ free,
          is_wanted_if f.codebase row.codebase codebase,
          is_wanted_if f.campaign row.campaign campaign,
          (hosts_kept f.exclude_hosts (vcs_info t row).branch_url).1 hosts,
        )
        refl

  -- What `next_item` may answer: the row that the filters and the order pick, with its codebase's
  -- repository, which has no type; nothing, where they pick none; or the error in reading a row that
  -- they pick, whose repository has a type.
  abbrev pub IsNext : Filters → Tables → Outcome QueryError (Option (QueueItem × VcsInfo)) → Type 0
  IsNext f t (ok none) = IsPick (Passes f t) Precedes t.rows none
  IsNext f t (ok (some (row, vcs))) =
      IsPick (Passes f t) Precedes t.rows (some row)
      × (vcs ≡ vcs_info t row)
      × (vcs.vcs_type ≡ none)
  IsNext f t (err column_decode) =
      (row : QueueItem) × IsPick (Passes f t) Precedes t.rows (some row)
      × ((vcs_info t row).vcs_type ≢ none)
  IsNext f t (err placeholder_mismatch) = ⊥
  IsNext f t (err negative_limit) = ⊥
  IsNext f t panic = ⊥

  read_row-IsNext :
      (f : Filters) (t : Tables) (row : QueueItem)
      → IsPick (Passes f t) Precedes t.rows (some row)
      → IsNext f t (read_row t row)
  unfolding read_row
  read_row-IsNext f t row pick = elim (Bool-cases (is_some (vcs_info t row).vcs_type)) [
    | inl e ↦ rw (e, read_row) (row, pick, λ g. ground (arith, e, g))
    | inr e ↦ rw (e, read_row) (pick, refl, ground (arith, e))
  ]

  -- When the filters that are given are the first ones of (assigned items, codebase, campaign,
  -- excluded hosts), `next_item` looks at the row that is in the queue, is none of the assigned
  -- items, of the codebase and campaign asked for and on no excluded host, and comes before all
  -- rows like that, by bucket, priority and id. If that row's codebase has no VCS type, it answers
  -- with the row and the repository; if it has one, it fails; and if there is no such row, it
  -- answers with nothing. A URL of which no host can be told passes only if no host is excluded.
  pub next_item-IsNext :
      (f : Filters) (t : Tables)
      → are_numbered_from 1 (placeholders f) ≡ true
      → IsNext f t (next_item host_of f t)
  unfolding next_item
  next_item-IsNext f t n =
      picked (first (sort_by row_before (filterb (is_eligible host_of f t) t.rows))) refl (
        select-IsPick (is_eligible host_of f t) (Passes f t) (is_eligible-Passes f t)
          (is_eligible_if f t) row_before Precedes row_before-IsTotalOrder row_before-Precedes
          t.rows)
    where
      picked :
          (o : Option QueueItem)
          → first (sort_by row_before (filterb (is_eligible host_of f t) t.rows)) ≡ o
          → IsPick
              (Passes f t)
              Precedes
              t.rows
              (first (sort_by row_before (filterb (is_eligible host_of f t) t.rows)))
          → IsNext f t (next_item host_of f t)
      picked none e pick = rw (n, e, next_item) (rw e at pick)
      picked (some row) e pick = rw (n, e, next_item) (read_row-IsNext f t row (rw e at pick))

-- Unless the assigned items are given, `next_item` fails as soon as any other filter is.
pub next_item_needs_assigned :
    (host_of : String → Option String) (f : Filters) (t : Tables)
    → f.assigned_queue_items ≡ none
    → (is_some f.codebase || is_some f.campaign || is_some f.exclude_hosts) ≡ true
    → next_item host_of f t ≡ err placeholder_mismatch
unfolding next_item placeholders are_numbered_from bound_number
next_item_needs_assigned host_of f t e g = ground (arith, e, g)

-- What a query sorts has the order of `next_item` and is, in another order, the rows that satisfy
-- its test: so `iter_queue` without a limit lists each row of the campaign, or of all campaigns,
-- once, and in the order in which they would be picked.
pub iter_queue_in_order :
    (campaign : Option String) (t : Tables)
    → length t.rows ≤ i64_max
    → (listed : List QueueItem) × (iter_queue none campaign t ≡ ok listed)
      × IsSorted row_before listed
      × Permᴰ listed (filterb (λ row. is_wanted campaign row.campaign) t.rows)
unfolding iter_queue limit_to
iter_queue_in_order campaign t h =
    let rows : List QueueItem = filterb (λ row. is_wanted campaign row.campaign) t.rows in
    (
      sort_by row_before rows,
      ap ok (
          take_all i64_max (sort_by row_before rows) (
            omega (
              arith,
              h,
              length-sort_by row_before rows,
              length-filterb (λ row. is_wanted campaign row.campaign) t.rows,
            ))),
      sort_by-IsSorted row_before row_before-IsTotalOrder rows,
      sort_by-Permᴰ row_before rows,
    )

-- While no worker has an item and nothing is asked for, the item that `next_item` picks is the one
-- that `iter_queue` lists first, read with its codebase's repository.
pub next_item_heads_iter_queue :
    (host_of : String → Option String) (t : Tables) (rest : List QueueItem) (row : QueueItem)
    → iter_queue (some (pos 1)) none t ≡ ok (row ∷ rest)
    → next_item host_of
        (record {
          codebase = none;
          campaign = none;
          exclude_hosts = none;
          assigned_queue_items = some [];
        })
        t
      ≡ read_row t row
unfolding next_item is_eligible is_wanted iter_queue limit_to placeholders bound_number
    are_numbered_from
next_item_heads_iter_queue host_of t rest row e =
    picked (first (sort_by row_before (filterb (λ r. true) t.rows))) (
      sym (first-take (sort_by row_before (filterb (λ r. true) t.rows)))
      ∙ ap first (listed_rows (sort_by row_before (filterb (λ r. true) t.rows)) e))
  where
    listed_rows :
        (xs : List QueueItem)
        → ◌≡◌ {A = Outcome QueryError (List QueueItem)} (ok (take 1 xs)) (ok (row ∷ rest))
        → take 1 xs ≡ row ∷ rest
    listed_rows xs g = cc g

    picked :
        (o : Option QueueItem)
        → o ≡ some row
        → ◌≡◌ {A = Outcome QueryError (Option (QueueItem × VcsInfo))}
            (elim o [ none ↦ ok none | some r ↦ read_row t r ])
            (read_row t row)
    picked o g = rw g refl

-- How many rows stand in one of some buckets.
abbrev sum_over : List Bucket → List QueueItem → ℕ
sum_over [] rows = 0
sum_over (bucket ∷ rest) rows = count_bucket bucket rows + sum_over rest rows

group_sum :
    (buckets : List Bucket) (rows : List QueueItem)
    → sum_counts (group buckets rows) ≡ sum_over buckets rows
unfolding group
group_sum [] rows = refl
group_sum (bucket ∷ rest) rows = ground (arith, group_sum rest rows)

group_positive :
    (buckets : List Bucket) (rows : List QueueItem)
    → All (λ entry. 1 ≤ entry.1) (group buckets rows)
unfolding group
group_positive [] rows = tt
group_positive (bucket ∷ rest) rows = elim (Bool-cases (count_bucket bucket rows == 0)) [
  | inl e ↦ rw e (group_positive rest rows)
  | inr e ↦ rw e (ground (arith, e), group_positive rest rows)
]

rank_lt : (bucket : Bucket) → bucket_rank bucket ≤ 7
unfolding bucket_rank
rank_lt bucket = ground arith

every_row : (rows : List QueueItem) → sum_over all_buckets rows ≡ length rows
unfolding count_bucket bucket_rank
every_row [] = refl
every_row (row ∷ rest) = ground (arith, rank_lt row.bucket, every_row rest)

-- The buckets together count every row of the queue, and none is listed without a row.
pub get_buckets_total :
    (t : Tables)
    → (sum_counts (get_buckets t) ≡ length t.rows) × All (λ entry. 1 ≤ entry.1) (get_buckets t)
unfolding get_buckets
get_buckets_total t =
    (group_sum all_buckets t.rows ∙ every_row t.rows, group_positive all_buckets t.rows)
