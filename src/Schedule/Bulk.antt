-- ===== src/Schedule/Bulk.antt =====
-- `bulk_add_to_queue` of src/schedule.rs. Values of codebases are not negative.
pub mod Repeats
use janitor.Base.{
  String, ℕ, ◌≡◌, Option, none, some, unwrap_or, List, [], ◌∷◌, Bool, ltb, ◌==◌, if◌then◌else◌,
  Outcome, ok, err, panic, Dict, lookup, remove,
}
use janitor.Base.Int.{ℤ}
use janitor.Queue.Rows.{Tables}
use janitor.Schedule.Estimate.{Fraction}
use janitor.Schedule.Adding.{Regular, ScheduleTables, ScheduleError, greatest, do_schedule_regular}

-- A request of `bulk_add_to_queue`.
pub record ScheduleRequest : Type 0 where
  pub codebase : String
  pub campaign : String
  pub context : String
  pub value : ℤ
  pub success_chance : ℤ
  pub command : String
  pub change_set : Option String

-- `coalesce(value, 0)`
unfoldable pub coalesced : Dict (Option ℕ) → Dict ℕ
coalesced [] = []
coalesced ((name, value) ∷ rest) = (name, unwrap_or value 0) ∷ coalesced rest

-- The normalized value of a codebase, whose value is taken out of the map, and the map that is left.
unfoldable pub take_normalized : Option ℕ → String → Dict ℕ → Fraction × Dict ℕ
take_normalized none codebase values = (record { num = 1; den = 1 }, values)
take_normalized (some most) codebase values =
    let value : ℕ = unwrap_or (lookup codebase values) 0 in
    (
      if ltb most value then record { num = 1; den = 1 } else record { num = value; den = most },
      remove codebase values,
    )

-- The greatest value, if it is positive.
unfoldable pub max_codebase_value : Dict (Option ℕ) → Option ℕ
max_codebase_value values =
    let most : ℕ = unwrap_or (greatest values) 0 in if most == 0 then none else some most

-- What all requests of a call share.
pub record BulkOptions : Type 0 where
  pub dry_run : Bool
  pub default_offset : ℤ
  pub bucket : Option String
  pub requester : Option String
  pub refresh : Bool

unfoldable pub regular_of : BulkOptions → ScheduleRequest → Fraction → Regular
regular_of b request normalized = record {
  codebase = request.codebase;
  campaign = request.campaign;
  command = some request.command;
  candidate_value = some request.value;
  success_chance = some request.success_chance;
  normalized_codebase_value = some normalized;
  requester = b.requester;
  default_offset = b.default_offset;
  context = some request.context;
  change_set = request.change_set;
  dry_run = b.dry_run;
  refresh = b.refresh;
  bucket = some (unwrap_or b.bucket "default");
}

-- The calls of `do_schedule_regular` that a call makes, if none fails.
unfoldable pub bulk_plan : BulkOptions → Option ℕ → List ScheduleRequest → Dict ℕ → List Regular
bulk_plan b most [] values = []
bulk_plan b most (request ∷ rest) values =
    let (normalized, left) = take_normalized most request.codebase values in
    regular_of b request normalized ∷ bulk_plan b most rest left

-- The calls in turn, up to the first that fails: what was added stays.
unfoldable pub schedule_all :
    (String → Bool)
    → (Option String → Option String → Option ℕ)
    → List Regular
    → ScheduleTables
    → Tables
    → Outcome ScheduleError ℕ × Tables
schedule_all available average [] l t = (ok 0, t)
schedule_all available average (r ∷ rest) l t =
    let (answer, after) = do_schedule_regular available average r l t in
    elim answer [
      | ok done ↦ schedule_all available average rest l after
      | err e ↦ (err e, after)
      | janitor.Base.panic ↦ (panic, after)
    ]

unfoldable pub bulk_add_to_queue :
    (String → Bool)
    → (Option String → Option String → Option ℕ)
    → List ScheduleRequest
    → BulkOptions
    → ScheduleTables
    → Tables
    → Outcome ScheduleError ℕ × Tables
bulk_add_to_queue available average todo b l t =
    schedule_all available average
      (bulk_plan b (max_codebase_value l.values) todo (coalesced l.values)) l t
