-- ===== src/Schedule/Requests.antt =====
-- `do_schedule` and `do_schedule_control` of src/schedule.rs. The command of a control run is joined by
-- `join`, which stands for `shlex::try_join`. The query for the command does not ask for the change
-- set: the first candidate that fits is taken.
use Prim.Native.String.{◌++◌ as str_append}
use janitor.Base.{
  String, ℕ, ◌+◌, ◌-◌, ◌*◌, ◌/◌, ◌≡◌, Option, none, some, unwrap_or, List, [], ◌∷◌, map, Bool, true,
  false, not, ◌&&◌, ◌||◌, str_eq, find, is_some, ltb, leb, ◌==◌, if◌then◌else◌, Outcome, ok, err,
  panic, ◌>>=◌, Dict, lookup, remove,
}
use janitor.Base.Int.{ℤ, negsuc}
use janitor.Queue.Rows.{Tables}
use janitor.Schedule.Estimate.{estimate_duration}
use janitor.Schedule.Adding.{
  ScheduleError, candidate_unavailable, ScheduleTables, Scheduled, add_to_queue,
}

-- What `do_schedule` is given.
pub record SchedulingRequest : Type 0 where
  pub campaign : String
  pub codebase : String
  pub bucket : String
  pub change_set : Option String
  pub offset : Option ℤ
  pub refresh : Bool
  pub requester : Option String
  pub estimated_duration : Option ℕ
  pub command : Option String

-- The command that was given, or that of a candidate.
unfoldable pub chosen_command : SchedulingRequest → ScheduleTables → Outcome ScheduleError String
chosen_command r l = elim r.command [
  | some command ↦ ok command
  | none ↦
      elim (find (λ row. str_eq row.codebase r.codebase && str_eq row.suite r.campaign)
        l.candidates) [
          | none ↦ err (candidate_unavailable r.campaign r.codebase)
          | some row ↦ ok row.command
        ]
]

unfoldable pub control_command : (List String → String) → Option String → String
control_command join none = join ("brz" ∷ "up" ∷ [])
control_command join (some revision) = join ("brz" ∷ "up" ∷ str_append "--revision=" revision ∷ [])

module _ (available : String → Bool) (average : Option String → Option String → Option ℕ) where
  -- `DEFAULT_SCHEDULE_OFFSET` is -1.
  unfoldable pub do_schedule :
      SchedulingRequest → ScheduleTables → Tables → Outcome ScheduleError Scheduled × Tables
  do_schedule r l t = elim (chosen_command r l) [
    | err e ↦ (err e, t)
    | janitor.Base.panic ↦ (panic, t)
    | ok command ↦
        let offset : ℤ = unwrap_or r.offset (negsuc 0) in
        let duration : ℕ =
          unwrap_or r.estimated_duration
            (estimate_duration available average r.codebase r.campaign) in
        add_to_queue offset duration
          (record {
            codebase = r.codebase;
            command = command;
            campaign = r.campaign;
            change_set = r.change_set;
            offset = offset;
            bucket = r.bucket;
            context = none;
            estimated_duration = some duration;
            refresh = r.refresh;
            requester = r.requester;
          })
          t
  ]

  unfoldable pub do_schedule_control :
      (List String → String)
      → (codebase : String) → (change_set main_branch_revision : Option String) → Option ℤ
      → Bool
      → (bucket requester : Option String) → Option ℕ
      → ScheduleTables
      → Tables
      → Outcome ScheduleError Scheduled × Tables
  do_schedule_control join codebase change_set main_branch_revision offset refresh bucket requester
        estimated_duration l t =
      do_schedule
        (record {
          campaign = "control";
          codebase = codebase;
          bucket = unwrap_or bucket "control";
          change_set = change_set;
          offset = offset;
          refresh = refresh;
          requester = requester;
          estimated_duration = estimated_duration;
          command = some (control_command join main_branch_revision);
        })
        l t
