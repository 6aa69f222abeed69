-- ===== src/Schedule/Offset.antt =====
-- `calculate_offset` of src/schedule.rs. The values of candidates are integers.
use janitor.Base.{
  ℕ, ◌+◌, ◌*◌, ◌%◌, Option, none, some, ltb, ◌==◌, if◌then◌else◌, Outcome, ok, panic,
}
use janitor.Base.Int.{ℤ, pos, pos_part, ◌+ℤ◌}
use janitor.Schedule.Estimate.{Fraction, SqlError}

abbrev pub first_run_bonus : ℤ
first_run_bonus = pos 100

abbrev pub default_normalized_codebase_value : Fraction
default_normalized_codebase_value = record { num = 1; den = 2 }

abbrev pub minimum_normalized_codebase_value : Fraction
minimum_normalized_codebase_value = record { num = 1; den = 10 }

unfoldable pub normalize : Option Fraction → Fraction
normalize none = default_normalized_codebase_value
normalize (some value) =
    if ltb (value.num * 10) value.den then minimum_normalized_codebase_value else value

-- The candidate's value; it is asserted to be positive.
unfoldable pub value_of : Option ℤ → ℕ → ℤ
value_of none total = pos 1
value_of (some value) total = if total == 0 then value +ℤ first_run_bonus else value

-- The cost, in thousandths of a millisecond: `MINIMUM_COST` and the duration, with the microseconds
-- of its last second once more.
unfoldable pub estimated_cost : ℕ → ℕ
estimated_cost duration = 20000000 + (duration + duration % 1000000)

-- The value that a success chance would have is computed by the code and not used.
unfoldable pub calculate_offset :
    ℕ → Option Fraction → Fraction → Option ℤ → ℕ → Outcome SqlError Fraction
calculate_offset duration normalized probability candidate_value total =
    let codebase : Fraction = normalize normalized in
    let value : ℕ = pos_part (value_of candidate_value total) in
    let worth : ℕ = codebase.num * probability.num * value in
    if codebase.num == 0
    then panic
    else if value == 0
    then panic
    else if ltb probability.den probability.num
    then panic
    else if worth == 0
    then panic
    else ok (record {
      num = estimated_cost duration * (codebase.den * probability.den);
      den = 1000 * worth;
    })
