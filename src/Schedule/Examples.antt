-- ===== src/Schedule/Examples.antt =====
-- Two requests for one codebase (src/schedule.rs).
use janitor.Base.{
  String, ℕ, ◌≡◌, ◌<◌, ◌≤◌, Option, none, some, List, [], ◌∷◌, Bool, false, All, arith, Dict,
}
use janitor.Base.Int.{pos}
use janitor.Schedule.Estimate.{Fraction, PastRun, estimate_success_probability_and_duration}
use janitor.Schedule.Offset.{calculate_offset, normalize}
use janitor.Schedule.Bounds.{Returns, HasOffset, calculate_offset-estimate}
use janitor.Schedule.Adding.{Regular}
use janitor.Schedule.Bulk.{ScheduleRequest, BulkOptions, take_normalized, regular_of, bulk_plan}
use janitor.Schedule.Bulk.Repeats.{IsWorthless, bulk_repeats-IsWorthless}

abbrev past : String → PastRun
past code = record {
  codebase = "one";
  suite = "lintian-fixes";
  failure_transient = none;
  result_code = code;
  instigated_context = none;
  context = some "1.0";
  relations = none;
  duration = 20000000;
  age_days = 2;
}

abbrev history : List PastRun
history = past "success" ∷ past "worker-failure" ∷ past "build-failed" ∷ []

abbrev nothing : String → Bool
nothing relation = false

abbrev unknown : Option String → Option String → Option ℕ
unknown codebase campaign = none

half-proper : 0 < (normalize none).den
unfolding normalize
half-proper = omega arith

calculate_offset-estimate_example :
    Returns
      (λ (e : Fraction × ℕ × ℕ).
        (0 < e.0.num)
        × (e.0.num ≤ e.0.den)
        × HasOffset (calculate_offset e.1 none e.0 (some (pos 50)) e.2))
      (estimate_success_probability_and_duration nothing unknown "one" "lintian-fixes"
        (some "1.0")
        history)
calculate_offset-estimate_example =
    calculate_offset-estimate nothing unknown "one" "lintian-fixes" (some "1.0") history none
      (some (pos 50)) half-proper (omega arith)

abbrev request : String → ScheduleRequest
request campaign = record {
  codebase = "one";
  campaign = campaign;
  context = "";
  value = pos 50;
  success_chance = pos 1;
  command = "lintian-brush";
  change_set = none;
}

abbrev options : BulkOptions
options = record {
  dry_run = false;
  default_offset = pos 0;
  bucket = none;
  requester = none;
  refresh = false;
}

abbrev worth : Dict ℕ
worth = ("one", 8) ∷ ("two", 10) ∷ []

bulk_repeats-IsWorthless_example :
    (later : List Regular) × (bulk_plan options
        (some 10)
        (request "lintian-fixes" ∷ request "deb-scrub" ∷ [])
        worth
      ≡ regular_of options (request "lintian-fixes") (take_normalized (some 10) "one" worth).0
        ∷ later)
    × All (IsWorthless 10 "one") later
bulk_repeats-IsWorthless_example =
    bulk_repeats-IsWorthless options 10 (request "lintian-fixes") (request "deb-scrub" ∷ []) worth
