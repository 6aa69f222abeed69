-- ===== src/Schedule/Bounds.antt =====
-- The estimates and the offset stay within bounds (src/schedule.rs).
use janitor.Base.{
  String, ℕ, suc, zero, ◌*◌, ◌≡◌, ◌≤◌, ◌<◌, ◌==◌, refl, Option, none, some, List, [], ◌∷◌, Bool,
  true, false, not, ◌&&◌, arith, Bool-cases, ◌⊎◌, inl, inr, any, filterb, ltb, Outcome, ok, err,
  panic, ◌>>=◌,
}
use janitor.Base.Int.{ℤ, pos, negsuc, pos_part, ◌+ℤ◌}
use janitor.Schedule.Estimate.{
  Fraction, SqlError, mismatched_types, PastRun, Counts, counted, start_counts, probability_of,
  count_run, count_runs, would_succeed, ignore_result_code, is_considered, is_same_context,
  estimate_success_probability_and_duration, dep_available, group_satisfied, deps_satisfied,
}
use janitor.Schedule.Offset.{calculate_offset, normalize, value_of, estimated_cost}

-- No more successes than runs, and one of the three multipliers, in tenths.
record IsSound (c : Counts) : Type 0 where
  few : c.success ≤ c.total
  multiplied : (c.multiplier ≡ 1) ⊎ ((c.multiplier ≡ 5) ⊎ (c.multiplier ≡ 10))

-- What a computation returns has a property.
abbrev pub Returns {ℓ} : {A : Type ℓ} → (A → Type 0) → Outcome SqlError A → Type 0
Returns P (ok a) = P a
Returns P (err e) = Unit
Returns P panic = Unit

Returns->>= {ℓ κ} :
    {A : Type ℓ} {B : Type κ} (P : A → Type 0) (Q : B → Type 0) (o : Outcome SqlError A)
    → (f : A → Outcome SqlError B) → Returns P o
    → ((a : A) → P a → Returns Q (f a))
    → Returns Q (o >>= f)
Returns->>= P Q (ok a) f p q = q a p
Returns->>= P Q (err e) f p q = tt
Returns->>= P Q panic f p q = tt

any_value {ℓ} : {A : Type ℓ} (o : Outcome SqlError A) → Returns (λ a. Unit) o
any_value (ok a) = tt
any_value (err e) = tt
any_value panic = tt

counted-IsSound :
    (context : Option String) (run : PastRun) (c : Counts) (satisfied : Bool)
    → IsSound c
    → IsSound (counted context run c satisfied)
unfolding counted
counted-IsSound context run c satisfied s = record {
  few = ground (arith, s.few);
  multiplied = elim (Bool-cases (is_same_context context run && not satisfied)) [
    | inl e ↦ rw e (inl refl)
    | inr e ↦ rw e s.multiplied
  ];
}

start-IsSound : (context : Option String) → IsSound (start_counts context)
unfolding start_counts
start-IsSound none = record { few = omega arith; multiplied = inr (inl refl) }
start-IsSound (some text) = record { few = omega arith; multiplied = inr (inr refl) }

-- A fraction above 0 and of at most 1.
abbrev IsProbability : Fraction → Type 0
IsProbability p = (0 < p.num) × (p.num ≤ p.den)

probability_of-IsProbability : (c : Counts) → IsSound c → IsProbability (probability_of c)
unfolding probability_of
probability_of-IsProbability c s = elim (Bool-cases (c.total == 0)) [
  | inl e ↦ rw e (ground (arith, s.few, e), ground (arith, s.few, e))
  | inr e ↦ elim s.multiplied [
    | inl m ↦ rw (e, m) (ground (arith, s.few), ground (arith, s.few))
    | inr (inl m) ↦ rw (e, m) (ground (arith, s.few), ground (arith, s.few))
    | inr (inr m) ↦ rw (e, m) (ground (arith, s.few), ground (arith, s.few))
  ]
]

module _ (available : String → Bool) where
  count_run-IsSound :
      (context : Option String) (run : PastRun) (c : Counts)
      → IsSound c
      → Returns IsSound (count_run available context run c)
  unfolding count_run
  count_run-IsSound context run c s =
      Returns->>= (λ satisfied. Unit) IsSound (would_succeed available run) _
        (any_value (would_succeed available run))
        (λ satisfied t. counted-IsSound context run c satisfied s)

  count_runs-IsSound :
      (context : Option String) (runs : List PastRun) (c : Counts)
      → IsSound c
      → Returns IsSound (count_runs available context runs c)
  unfolding count_runs
  count_runs-IsSound context [] c s = s
  count_runs-IsSound context (run ∷ rest) c s = elim (Bool-cases (ignore_result_code run)) [
    | inl e ↦ rw e (count_runs-IsSound context rest c s)
    | inr e ↦ rw e (
        Returns->>= IsSound IsSound (count_run available context run c) _
          (count_run-IsSound context run c s) (λ next t. count_runs-IsSound context rest next t))
  ]

  estimate-IsProbability :
      (average : Option String → Option String → Option ℕ) (codebase campaign : String)
      → (context : Option String) → (runs : List PastRun)
      → Returns
          (λ (p : Fraction × ℕ × ℕ). IsProbability p.0)
          (estimate_success_probability_and_duration available average codebase campaign context
            runs)
  unfolding estimate_success_probability_and_duration
  estimate-IsProbability average codebase campaign context runs =
      let considered = filterb (is_considered codebase campaign) runs in
      Returns->>= IsSound (λ (p : Fraction × ℕ × ℕ). IsProbability p.0)
        (count_runs available context considered (start_counts context)) _
        (count_runs-IsSound context considered (start_counts context) (start-IsSound context))
        (λ c s. probability_of-IsProbability c s)

mul_pos : (a b : ℕ) → 0 < a → 0 < b → 0 < a * b
mul_pos zero b h k = absurd (omega (arith, h))
mul_pos (suc a) zero h k = absurd (omega (arith, k))
mul_pos (suc a) (suc b) h k = omega arith

normalize-positive :
    (value : Option Fraction)
    → 0 < (normalize value).den
    → (0 < (normalize value).num) × (0 < (normalize value).den)
unfolding normalize
normalize-positive none h = (omega arith, omega arith)
normalize-positive (some value) h = elim (Bool-cases (ltb (value.num * 10) value.den)) [
  | inl e ↦ rw e (omega arith, omega arith)
  | inr e ↦ rw e (ground (arith, rw e at h, e), rw e at h)
]

-- The value of a candidate, if it has one, is positive, as the table demands.
abbrev pub IsPositive : Option ℤ → Type 0
IsPositive none = Unit
IsPositive (some value) = 0 < pos_part value

value_of-IsPositive :
    (value : Option ℤ) (total : ℕ) → IsPositive value → 0 < pos_part (value_of value total)
unfolding value_of ◌+ℤ◌
value_of-IsPositive none total h = omega arith
value_of-IsPositive (some (pos n)) total h = ground (arith, h)
value_of-IsPositive (some (negsuc n)) total h = absurd (omega (arith, h))

-- What `calculate_offset` returns is a positive offset.
abbrev pub HasOffset : Outcome SqlError Fraction → Type 0
HasOffset o = (offset : Fraction) × (o ≡ ok offset) × (0 < offset.num) × (0 < offset.den)

calculate_offset-HasOffset :
    (duration : ℕ) (normalized : Option Fraction) (p : Fraction) (value : Option ℤ) (total : ℕ)
    → 0 < (normalize normalized).den
    → IsPositive value
    → IsProbability p
    → HasOffset (calculate_offset duration normalized p value total)
unfolding calculate_offset estimated_cost
calculate_offset-HasOffset duration normalized p value total d v (some_chance, most) =
    let n = normalize-positive normalized d in
    let worth : ℕ = (normalize normalized).num * p.num * pos_part (value_of value total) in
    let worthy : 0 < worth =
      mul_pos _ _ (mul_pos _ _ n.0 some_chance) (value_of-IsPositive value total v) in
    let f1 : ((normalize normalized).num == 0) ≡ false = ground (arith, n.0) in
    let f2 : (pos_part (value_of value total) == 0) ≡ false =
      ground (arith, value_of-IsPositive value total v) in
    let f3 : ltb p.den p.num ≡ false = ground (arith, most) in
    let f4 : (worth == 0) ≡ false = ground (arith, worthy) in
    (
      record {
        num = estimated_cost duration * ((normalize normalized).den * p.den);
        den = 1000 * worth;
      },
      rw (f1, f2, f3, f4) refl,
      mul_pos _ _ (omega arith) (mul_pos _ _ n.1 (omega (arith, some_chance, most))),
      omega (arith, worthy),
    )

-- Whatever the past runs are, when their estimate is computed the probability of success is above 0
-- and at most 1, and then a candidate whose value, if any, is positive gets a positive offset: no
-- assertion of `calculate_offset` fails.
pub calculate_offset-estimate :
    (available : String → Bool) (average : Option String → Option String → Option ℕ)
    → (codebase campaign : String) → (context : Option String) → (runs : List PastRun)
    → (normalized : Option Fraction) → (value : Option ℤ) → 0 < (normalize normalized).den
    → IsPositive value
    → Returns
        (λ (e : Fraction × ℕ × ℕ).
          (0 < e.0.num)
          × (e.0.num ≤ e.0.den)
          × HasOffset (calculate_offset e.1 normalized e.0 value e.2))
        (estimate_success_probability_and_duration available average codebase campaign context runs)
calculate_offset-estimate available average codebase campaign context runs normalized value d v =
    strengthen
      (estimate_success_probability_and_duration available average codebase campaign context runs)
      (estimate-IsProbability available average codebase campaign context runs)
  where
    strengthen :
        (o : Outcome SqlError (Fraction × ℕ × ℕ))
        → Returns (λ (p : Fraction × ℕ × ℕ). IsProbability p.0) o
        → Returns
            (λ (e : Fraction × ℕ × ℕ).
              (0 < e.0.num)
              × (e.0.num ≤ e.0.den)
              × HasOffset (calculate_offset e.1 normalized e.0 value e.2))
            o
    strengthen (ok (p, duration, total)) h =
        (h.0, h.1, calculate_offset-HasOffset duration normalized p value total d v h)
    strengthen (err e) h = tt
    strengthen panic h = tt

group_fails :
    (available : String → Bool) (relations : List String)
    → any available relations ≡ true
    → group_satisfied available relations ≡ err mismatched_types
unfolding group_satisfied dep_available
group_fails available [] f = absurd (cc f)
group_fails available (relation ∷ rest) f = elim (Bool-cases (available relation)) [
  | inl e ↦ rw e refl
  | inr e ↦ rw e (group_fails available rest (rw e at f))
]

-- As soon as one of the alternatives for a missing dependency can be found, the check of the
-- dependencies fails instead of counting the run as one that would succeed: the row that was found
-- does not decode.
pub available_dependency_fails :
    (available : String → Bool) (group : List String) (rest : List (List String))
    → any available group ≡ true
    → deps_satisfied available (group ∷ rest) ≡ err mismatched_types
unfolding deps_satisfied
available_dependency_fails available group rest e = rw (group_fails available group e) refl
