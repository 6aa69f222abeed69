-- ===== src/Schedule/Adding.antt =====
-- `do_schedule_regular` of src/schedule.rs, and what the functions that add to the queue share.
use janitor.Base.{
  String, ℕ, ◌+◌, ◌-◌, ◌*◌, ◌/◌, ◌≡◌, Option, none, some, unwrap_or, List, [], ◌∷◌, map, Bool, true,
  false, not, ◌&&◌, ◌||◌, str_eq, find, is_some, ltb, leb, ◌==◌, if◌then◌else◌, Outcome, ok, err,
  panic, ◌>>=◌, Dict, lookup, remove,
}
use janitor.Base.Int.{ℤ, pos, negsuc, sub_ℕ}
use janitor.Publish.Mode.{Mode, skip, build_only, push, push_derived, propose, attempt_push, bts}
use janitor.Queue.Rows.{Tables, NewItem, AddError, add}
use janitor.Schedule.Estimate.{
  Fraction, SqlError, division_by_zero, PastRun, estimate_success_probability_and_duration,
}
use janitor.Schedule.Offset.{calculate_offset}

unfoldable pub publish_mode_value : Mode → ℕ
publish_mode_value skip = 0
publish_mode_value build_only = 0
publish_mode_value push = 500
publish_mode_value propose = 400
publish_mode_value attempt_push = 450
publish_mode_value bts = 100
publish_mode_value push_derived = 200

-- A row of `candidate`.
pub record CandidateRow : Type 0 where
  pub codebase : String
  pub suite : String
  pub change_set : Option String
  pub value : Option ℤ
  pub success_chance : Option ℤ
  pub command : String
  pub context : Option String

pub data ScheduleError : Type 0 where
  candidate_unavailable : (campaign codebase : String) → ScheduleError
  sql_error : SqlError → ScheduleError
  add_error : AddError → ScheduleError

-- What scheduling reads: the candidates, the past runs in the order of the query, and the values of
-- the codebases.
pub record ScheduleTables : Type 0 where
  pub candidates : List CandidateRow
  pub runs : List PastRun
  pub values : Dict (Option ℕ)

-- The offset as the queue casts it, the duration, the item's id (-1 in a dry run) and its bucket.
pub record Scheduled : Type 0 where
  pub offset : ℤ
  pub duration : ℕ
  pub queue_id : ℤ
  pub bucket : String

-- `(default_offset + offset) as i64`, towards zero, for an offset that is not negative.
unfoldable pub trunc_add : ℤ → Fraction → ℤ
trunc_add (pos d) f = pos ((d * f.den + f.num) / f.den)
trunc_add (negsuc d) f =
    if leb ((d + 1) * f.den) f.num
    then pos ((f.num - (d + 1) * f.den) / f.den)
    else sub_ℕ 0 (((d + 1) * f.den - f.num) / f.den)

-- `add` with `?`.
unfoldable pub add_to_queue : ℤ → ℕ → NewItem → Tables → Outcome ScheduleError Scheduled × Tables
add_to_queue offset duration item t =
    let (answer, after) = add item t in
    (
      elim answer [
        | ok (id, bucket) ↦
            ok (record { offset = offset; duration = duration; queue_id = pos id; bucket = bucket })
        | err e ↦ err (add_error e)
        | janitor.Base.panic ↦ panic
      ],
      after,
    )

unfoldable pub lift_sql {ℓ} : {A : Type ℓ} → Outcome SqlError A → Outcome ScheduleError A
lift_sql (ok a) = ok a
lift_sql (err e) = err (sql_error e)
lift_sql panic = panic

-- The candidate's value, command and context, with what was given in their place.
unfoldable pub chosen_candidate :
    String
    → String
    → Option String
    → Option ℤ
    → Option ℤ
    → Option String
    → Option String
    → ScheduleTables
    → Outcome ScheduleError (Option ℤ × String × Option String)
chosen_candidate codebase campaign change_set value success_chance command context l =
    if not (is_some value) || not (is_some success_chance) || not (is_some command)
    then elim (find
        (λ row.
          str_eq row.codebase codebase
          && str_eq row.suite campaign
          && str_eq (unwrap_or row.change_set "") (unwrap_or change_set ""))
        l.candidates) [
          | none ↦ err (candidate_unavailable campaign codebase)
          | some row ↦ ok (
            elim value [ some v ↦ some v | none ↦ row.value ],
            unwrap_or command row.command,
            elim context [ some text ↦ some text | none ↦ row.context ],
          )
        ]
    else ok (value, unwrap_or command "", context)

-- `max(value)`
unfoldable pub greatest : Dict (Option ℕ) → Option ℕ
greatest [] = none
greatest ((name, none) ∷ rest) = greatest rest
greatest ((name, some value) ∷ rest) = elim (greatest rest) [
  | none ↦ some value
  | some most ↦ some (if ltb most value then value else most)
]

-- The query for the normalized value of a codebase: none where there is no such codebase.
unfoldable pub normalized_value : String → Dict (Option ℕ) → Outcome SqlError (Option Fraction)
normalized_value codebase values = elim (lookup codebase values) [
  | none ↦ ok none
  | some value ↦ elim value [
    | none ↦ ok (some (record { num = 1; den = 1 }))
    | some v ↦
        let most : ℕ = unwrap_or (greatest values) 0 in
        if most == 0 then err division_by_zero else ok (some (record { num = v; den = most }))
  ]
]

-- What `do_schedule_regular` is given.
pub record Regular : Type 0 where
  pub codebase : String
  pub campaign : String
  pub command : Option String
  pub candidate_value : Option ℤ
  pub success_chance : Option ℤ
  pub normalized_codebase_value : Option Fraction
  pub requester : Option String
  pub default_offset : ℤ
  pub context : Option String
  pub change_set : Option String
  pub dry_run : Bool
  pub refresh : Bool
  pub bucket : Option String

module _ (available : String → Bool) (average : Option String → Option String → Option ℕ) where
  -- The offset as a fraction, before the default offset is added, with the duration, command and
  -- context of the run.
  unfoldable pub plan_regular :
      Regular → ScheduleTables → Outcome ScheduleError (Fraction × ℕ × String × Option String)
  plan_regular r l =
      chosen_candidate r.codebase r.campaign r.change_set r.candidate_value r.success_chance
        r.command r.context l
      >>= λ (value, command, context).
          lift_sql (
            estimate_success_probability_and_duration available average r.codebase r.campaign
              context l.runs)
          >>= λ (probability, duration, total).
              lift_sql (elim r.normalized_codebase_value [
                | some value ↦ ok (some value)
                | none ↦ normalized_value r.codebase l.values
              ])
              >>= λ normalized.
                  lift_sql (calculate_offset duration normalized probability value total)
                  >>= λ offset.
                      if str_eq command "" then panic else ok (offset, duration, command, context)

  unfoldable pub do_schedule_regular :
      Regular → ScheduleTables → Tables → Outcome ScheduleError Scheduled × Tables
  do_schedule_regular r l t = elim (plan_regular r l) [
    | err e ↦ (err e, t)
    | janitor.Base.panic ↦ (panic, t)
    | ok (offset, duration, command, context) ↦
        let place : ℤ = trunc_add r.default_offset offset in
        let bucket : String = unwrap_or r.bucket "default" in
        if r.dry_run
        then (
          ok (record { offset = place; duration = duration; queue_id = negsuc 0; bucket = bucket }),
          t,
        )
        else add_to_queue place duration
            (record {
              codebase = r.codebase;
              command = command;
              campaign = r.campaign;
              change_set = r.change_set;
              offset = place;
              bucket = bucket;
              context = context;
              estimated_duration = some duration;
              refresh = r.refresh;
              requester = some (unwrap_or r.requester "scheduler");
            })
            t
  ]
