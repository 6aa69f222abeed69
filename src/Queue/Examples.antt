-- ===== src/Queue/Examples.antt =====
-- A queue of two items (src/queue.rs).
use janitor.Base.{
  String, ◌≡◌, refl, Option, none, some, [], ◌∷◌, true, false, ok, length, lookup, str_eq,
  if◌then◌else◌,
}
use janitor.Base.Int.{pos, ◌+ℤ◌}
use janitor.Queue.Buckets.{Bucket, bucket_rank, bucket_text, bucket_from_text}
use janitor.Queue.Rows.{
  QueueItem, Tables, NewItem, add, insert_item, upsert, merge, update_row, new_row, has_key,
  bigint_add, least_priority, references_exist,
}
use janitor.Queue.Keys.{IsConsistent, entry}
use janitor.Queue.Add.{Reaches, empty, added, Reaches-IsConsistent}
use janitor.Queue.Effect.{add-entry, merged_rank}
use janitor.Queue.Listing.{
  Filters, next_item, is_eligible, is_wanted, placeholders, bound_number, are_numbered_from,
  vcs_info, host_is_kept, is_empty_list,
}
use janitor.Queue.Next.{IsNext, next_item-IsNext}

abbrev start_tables : Tables
start_tables = record {
  rows = [];
  next_id = 1;
  codebases =
      (
        "one",
        record {
          branch_url = some "https://example.com/one";
          subpath = none;
          vcs_type = some "git";
        },
      )
      ∷ ("two", record { branch_url = some "lp:two"; subpath = none; vcs_type = some "bzr" })
      ∷ [];
  change_sets = [];
}

abbrev wanted : String → String → NewItem
wanted codebase bucket = record {
  codebase = codebase;
  command = "lintian-brush";
  campaign = "lintian-fixes";
  change_set = none;
  offset = pos 3;
  bucket = bucket;
  context = none;
  estimated_duration = some 15;
  refresh = false;
  requester = none;
}

abbrev with_one : Tables
with_one = (add (wanted "one" "hook") start_tables).1

abbrev with_two : Tables
with_two = (add (wanted "two" "manual") with_one).1

with_two-Reaches : Reaches with_two
with_two-Reaches =
    added (wanted "two" "manual") with_one
      (added (wanted "one" "hook") start_tables (empty start_tables refl))

Reaches-IsConsistent_example : IsConsistent with_two.next_id with_two.rows
Reaches-IsConsistent_example = Reaches-IsConsistent with_two with_two-Reaches

-- The first item is asked for again in a later bucket, and stays where it was.
demoted : (add (wanted "one" "default") with_two).0 ≡ ok (1, "hook")
unfolding add insert_item upsert merge update_row new_row has_key bigint_add least_priority
    references_exist bucket_from_text bucket_text bucket_rank ◌+ℤ◌ lookup
demoted = refl

add-entry_example :
    (bucket : Bucket) × (left : QueueItem) × (bucket_from_text "default" ≡ some bucket)
    × (entry "one" "lintian-fixes" none (add (wanted "one" "default") with_two).1.rows ≡ some left)
    × (left.id ≡ 1)
    × (bucket_text left.bucket ≡ "hook")
    × (bucket_rank left.bucket
        ≡ merged_rank bucket (entry "one" "lintian-fixes" none with_two.rows))
add-entry_example = add-entry (wanted "one" "default") with_two 1 "hook" demoted

-- A stand-in for the pattern of the host.
abbrev host_of : String → Option String
host_of url = if str_eq url "https://example.com/one" then some "example.com" else none

abbrev away : Filters
away = record {
  codebase = none;
  campaign = none;
  exclude_hosts = none;
  assigned_queue_items = some (2 ∷ []);
}

away-fits : are_numbered_from 1 (placeholders away) ≡ true
unfolding are_numbered_from placeholders bound_number
away-fits = refl

next_item-IsNext_example : IsNext host_of away with_two (next_item host_of away with_two)
next_item-IsNext_example = next_item-IsNext host_of away with_two away-fits

abbrev in_campaign : Filters
in_campaign = record {
  codebase = none;
  campaign = some "lintian-fixes";
  exclude_hosts = none;
  assigned_queue_items = none;
}

with_two-short : length with_two.rows ≡ 2
unfolding add insert_item upsert merge update_row new_row has_key bigint_add least_priority
    references_exist bucket_from_text bucket_text bucket_rank ◌+ℤ◌ lookup
with_two-short = refl

-- The excluded host is another one, but the item without a host is not picked.
abbrev elsewhere : Filters
elsewhere = record {
  codebase = some "two";
  campaign = some "lintian-fixes";
  exclude_hosts = some ("other.org" ∷ []);
  assigned_queue_items = some [];
}

hostless_is_excluded : next_item host_of elsewhere with_two ≡ ok none
unfolding add insert_item upsert merge update_row new_row has_key bigint_add least_priority
    references_exist bucket_from_text bucket_text bucket_rank ◌+ℤ◌ lookup next_item placeholders
    bound_number are_numbered_from is_eligible is_wanted host_is_kept is_empty_list vcs_info
hostless_is_excluded = refl
