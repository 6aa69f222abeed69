-- ===== src/Queue/Rows.antt =====
-- The rows of the queue and the operation that writes one: `Queue::add` of src/queue.rs.
use janitor.Base.{
  String, ℕ, suc, Option, none, some, unwrap_or, List, [], ◌∷◌, ◌++◌, Bool, true, ◌&&◌, str_eq, any,
  find, ◌==◌, ltb, leb, is_some, if◌then◌else◌, Outcome, ok, err, Dict, lookup,
}
use janitor.Base.Int.{ℤ, pos, negsuc, leb_ℤ, ◌+ℤ◌}
use janitor.Queue.Buckets.{Bucket, bucket_rank, bucket_text, bucket_from_text}

-- The columns that the code reads and writes.
pub record QueueItem : Type 0 where
  pub id : ℕ
  pub bucket : Bucket
  pub codebase : String
  pub campaign : String
  pub command : Option String
  pub priority : ℤ
  pub context : Option String
  pub estimated_duration : Option ℕ
  pub refresh : Option Bool
  pub requester : Option String
  pub change_set : Option String

pub record VcsInfo : Type 0 where
  pub branch_url : Option String
  pub subpath : Option String
  pub vcs_type : Option String

-- The queue with the next value of its serial column, the codebases under their names, and the ids
-- of the change sets.
pub record Tables : Type 0 where
  pub rows : List QueueItem
  pub next_id : ℕ
  pub codebases : Dict VcsInfo
  pub change_sets : List String

-- The arguments of `add`.
pub record NewItem : Type 0 where
  pub codebase : String
  pub command : String
  pub campaign : String
  pub change_set : Option String
  pub offset : ℤ
  pub bucket : String
  pub context : Option String
  pub estimated_duration : Option ℕ
  pub refresh : Bool
  pub requester : Option String

pub data AddError : Type 0 where
  invalid_bucket serial_exhausted out_of_range empty_command missing_reference : AddError

-- The largest value of `serial`.
abbrev pub max_serial : ℕ
max_serial = 2147483647

-- Addition of `bigint`, which fails on overflow.
unfoldable pub bigint_add : ℤ → ℤ → Option ℤ
bigint_add a b =
    let sum : ℤ = a +ℤ b in
    if leb_ℤ (negsuc 9223372036854775807) sum && leb_ℤ sum (pos 9223372036854775807)
    then some sum
    else none

-- `MIN(priority)`
unfoldable pub least_priority : List QueueItem → Option ℤ
least_priority [] = none
least_priority (row ∷ rest) = elim (least_priority rest) [
  | none ↦ some row.priority
  | some least ↦ if leb_ℤ row.priority least then some row.priority else some least
]

-- The unique index `queue_codebase_suite_set`.
unfoldable pub has_key : String → String → Option String → QueueItem → Bool
has_key codebase campaign change_set row =
    str_eq row.codebase codebase
    && str_eq row.campaign campaign
    && str_eq (unwrap_or row.change_set "") (unwrap_or change_set "")

abbrev pub conflicts : QueueItem → QueueItem → Bool
conflicts row = has_key row.codebase row.campaign row.change_set

-- `DO UPDATE SET`: the old row, with the new values unless it stands in an earlier bucket.
unfoldable pub merge : QueueItem → QueueItem → QueueItem
merge row old =
    if leb (bucket_rank row.bucket) (bucket_rank old.bucket)
    then record row { id = old.id; campaign = old.campaign; change_set = old.change_set }
    else record old { codebase = row.codebase }

unfoldable pub update_row : QueueItem → List QueueItem → List QueueItem
update_row row [] = []
update_row row (old ∷ rest) =
    if conflicts row old then merge row old ∷ rest else old ∷ update_row row rest

-- The foreign keys of a new row.
unfoldable pub references_exist : QueueItem → Tables → Bool
references_exist row t =
    is_some (lookup row.codebase t.codebases)
    && elim row.change_set [ none ↦ true | some change_set ↦ any (str_eq change_set) t.change_sets ]

-- `INSERT ... ON CONFLICT ... RETURNING id, bucket::text`
unfoldable pub upsert : QueueItem → Tables → Outcome AddError (ℕ × String) × Tables
upsert row t = elim (find (conflicts row) t.rows) [
  | some old ↦
      (ok (old.id, bucket_text (merge row old).bucket), record t { rows = update_row row t.rows })
  | none ↦
      if references_exist row t
      then (ok (row.id, bucket_text row.bucket), record t { rows = t.rows ++ row ∷ [] })
      else (err missing_reference, t)
]

unfoldable pub new_row : NewItem → Bucket → ℤ → ℕ → QueueItem
new_row item bucket priority id = record {
  id = id;
  bucket = bucket;
  codebase = item.codebase;
  campaign = item.campaign;
  command = some item.command;
  priority = priority;
  context = item.context;
  estimated_duration = item.estimated_duration;
  refresh = some item.refresh;
  requester = item.requester;
  change_set = item.change_set;
}

-- The statement once its values are bound: the serial is drawn first and is not given back.
unfoldable pub insert_item : NewItem → Bucket → Tables → Outcome AddError (ℕ × String) × Tables
insert_item item bucket t =
    let drawn : Tables = record t { next_id = suc t.next_id } in
    if ltb max_serial t.next_id
    then (err serial_exhausted, t)
    else elim (bigint_add (unwrap_or (least_priority t.rows) (pos 0)) item.offset) [
      | none ↦ (err out_of_range, drawn)
      | some priority ↦
          if str_eq item.command ""
          then (err empty_command, drawn)
          else upsert (new_row item bucket priority t.next_id) drawn
    ]

unfoldable pub add : NewItem → Tables → Outcome AddError (ℕ × String) × Tables
add item t = elim (bucket_from_text item.bucket) [
  | none ↦ (err invalid_bucket, t)
  | some bucket ↦ insert_item item bucket t
]

-- `DELETE FROM queue WHERE id = $1`, at the end of a run (runner/src/database.rs).
unfoldable pub delete_item : ℕ → List QueueItem → List QueueItem
delete_item id [] = []
delete_item id (row ∷ rest) =
    let kept = delete_item id rest in if row.id == id then kept else row ∷ kept
