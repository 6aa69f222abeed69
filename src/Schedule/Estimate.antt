-- ===== src/Schedule/Estimate.antt =====
-- What past runs tell about the next one (`estimate_success_probability_and_duration` and
-- `estimate_duration` of src/schedule.rs). `available` tells whether a relation finds a row in
-- `all_debian_versions`, and `average` is the answer of the query for the average duration, of a
-- codebase and of a campaign where they are given.
use janitor.Base.{
  String, ℕ, ◌+◌, ◌*◌, ◌/◌, ◌%◌, Option, none, some, List, [], ◌∷◌, ◌++◌, Bool, true, false, not,
  ◌&&◌, ◌||◌, str_eq, filterb, length, ltb, ◌==◌, if◌then◌else◌, Outcome, ok, err, panic, ◌>>=◌,
}

pub record Fraction : Type 0 where
  pub num : ℕ
  pub den : ℕ

pub data SqlError : Type 0 where
  mismatched_types division_by_zero : SqlError

-- A past run. The relations of its failure's details, if they have any, are those that their text
-- holds, and none where it does not parse; `age_days` is its age.
pub record PastRun : Type 0 where
  pub codebase : String
  pub suite : String
  pub failure_transient : Option Bool
  pub result_code : String
  pub instigated_context : Option String
  pub context : Option String
  pub relations : Option (Option (List (List String)))
  pub duration : ℕ
  pub age_days : ℕ

-- The runs so far, with the multiplier in tenths. The source counts in `i32`, which the runs of a
-- codebase are taken to fit.
pub record Counts : Type 0 where
  pub total : ℕ
  pub success : ℕ
  pub multiplier : ℕ
  pub durations : List ℕ

-- `WHERE codebase = $1 AND suite = $2 AND failure_transient IS NOT True`
unfoldable pub is_considered : String → String → PastRun → Bool
is_considered codebase campaign run =
    str_eq run.codebase codebase
    && str_eq run.suite campaign
    && elim run.failure_transient [ none ↦ true | some transient ↦ not transient ]

unfoldable pub ignore_result_code : PastRun → Bool
ignore_result_code run = str_eq run.result_code "worker-failure" && ltb 0 run.age_days

unfoldable pub is_text : Option String → String → Bool
is_text none wanted = false
is_text (some text) wanted = str_eq text wanted

unfoldable pub is_same_context : Option String → PastRun → Bool
is_same_context none run = false
is_same_context (some context) run =
    not (str_eq context "")
    && (is_text run.instigated_context context || is_text run.context context)

-- The default of the durations, in microseconds.
abbrev pub default_estimated_duration : ℕ
default_estimated_duration = 15000000

unfoldable pub sum : List ℕ → ℕ
sum [] = 0
sum (x ∷ xs) = x + sum xs

-- `round_ties_even` of a quotient.
unfoldable pub round_div : ℕ → ℕ → ℕ
round_div a b =
    if ltb (2 * (a % b)) b
    then a / b
    else if ltb b (2 * (a % b))
    then a / b + 1
    else if (a / b) % 2 == 0
    then a / b
    else a / b + 1

unfoldable pub start_counts : Option String → Counts
start_counts context = record {
  total = 0;
  success = 0;
  multiplier = elim context [ none ↦ 5 | some text ↦ 10 ];
  durations = [];
}

-- One more run, where `satisfied` tells whether its dependencies can be installed by now.
unfoldable pub counted : Option String → PastRun → Counts → Bool → Counts
counted context run c satisfied = record {
  total = c.total + 1;
  success = if str_eq run.result_code "success" || satisfied then c.success + 1 else c.success;
  multiplier = if is_same_context context run && not satisfied then 1 else c.multiplier;
  durations = c.durations ++ run.duration ∷ [];
}

unfoldable pub probability_of : Counts → Fraction
probability_of c = record {
  num = (c.success * 10 + 1) * (if c.total == 0 then 10 else c.multiplier);
  den = (c.total * 10 + 1) * 10;
}

module _ (available : String → Bool) where
  -- The query selects the integer 1, which does not decode as a `bool`.
  unfoldable pub dep_available : String → Outcome SqlError Bool
  dep_available relation = if available relation then err mismatched_types else ok false

  unfoldable pub group_satisfied : List String → Outcome SqlError Bool
  group_satisfied [] = ok false
  group_satisfied (relation ∷ rest) =
      let later = group_satisfied rest in
      dep_available relation >>= λ found. if found then ok true else later

  unfoldable pub deps_satisfied : List (List String) → Outcome SqlError Bool
  deps_satisfied [] = ok true
  deps_satisfied (group ∷ rest) =
      let later = deps_satisfied rest in
      group_satisfied group >>= λ found. if found then later else ok false

  -- Whether a failure for lack of dependencies would now succeed.
  unfoldable pub would_succeed : PastRun → Outcome SqlError Bool
  would_succeed run =
      if str_eq run.result_code "install-deps-unsatisfied-dependencies"
      then elim run.relations [
        | none ↦ ok false
        | some relations ↦ elim relations [ none ↦ panic | some groups ↦ deps_satisfied groups ]
      ]
      else ok false

  unfoldable pub count_run : Option String → PastRun → Counts → Outcome SqlError Counts
  count_run context run c = would_succeed run >>= λ satisfied. ok (counted context run c satisfied)

  unfoldable pub count_runs : Option String → List PastRun → Counts → Outcome SqlError Counts
  count_runs context [] c = ok c
  count_runs context (run ∷ rest) c =
      if ignore_result_code run
      then count_runs context rest c
      else count_run context run c >>= λ counted. count_runs context rest counted

  module _ (average : Option String → Option String → Option ℕ) where
    unfoldable pub estimate_duration : String → String → ℕ
    estimate_duration codebase campaign = elim (average (some codebase) (some campaign)) [
      | some duration ↦ duration
      | none ↦ elim (average (some codebase) none) [
        | some duration ↦ duration
        | none ↦ elim (average none (some campaign)) [
          | some duration ↦ duration
          | none ↦ default_estimated_duration
        ]
      ]
    ]

    -- The duration without a previous run.
    unfoldable pub guess_duration : String → String → ℕ
    guess_duration codebase campaign = elim (average (some codebase) none) [
      | some duration ↦ duration
      | none ↦ elim (average none (some campaign)) [
        | some duration ↦ duration
        | none ↦ default_estimated_duration
      ]
    ]

    -- The probability, the duration and the number of runs that were counted.
    unfoldable pub estimate_success_probability_and_duration :
        String → String → Option String → List PastRun → Outcome SqlError (Fraction × ℕ × ℕ)
    estimate_success_probability_and_duration codebase campaign context runs =
        count_runs context (filterb (is_considered codebase campaign) runs) (start_counts context)
        >>= λ c. ok (
          probability_of c,
          if c.total == 0
              then guess_duration codebase campaign
              else round_div (sum c.durations) (length c.durations),
          c.total,
        )
