-- ===== src/Schedule/Bulk/Repeats.antt =====
-- Several requests for one codebase (src/schedule.rs).
use janitor.Base.{
  String, ℕ, ◌≡◌, refl, none, some, List, [], ◌∷◌, false, arith, Bool-cases, ◌⊎◌, inl, inr, All,
  str_eq, eq_iff, Dict, lookup, lookup-remove,
}
use janitor.Schedule.Adding.{Regular}
use janitor.Schedule.Bulk.{ScheduleRequest, BulkOptions, take_normalized, regular_of, bulk_plan}

-- A call for this codebase has the normalized value 0.
abbrev pub IsWorthless : ℕ → String → Regular → Type 0
IsWorthless most codebase r =
    (str_eq r.codebase codebase ≡ false)
    ⊎ (r.normalized_codebase_value ≡ some (record { num = 0; den = most }))

take_missing :
    (most : ℕ) (codebase name : String) (values : Dict ℕ)
    → lookup codebase values ≡ none
    → (str_eq name codebase ≡ false)
      ⊎ ((take_normalized (some most) name values).0 ≡ record { num = 0; den = most })
unfolding take_normalized
take_missing most codebase name values e = elim (Bool-cases (str_eq name codebase)) [
  | inr f ↦ inl f
  | inl f ↦
      let same : name ≡ codebase = ground (arith, f, eq_iff name codebase) in
      inr (rw (same, e) (ground arith))
]

take_keeps_missing :
    (most : ℕ) (codebase name : String) (values : Dict ℕ)
    → lookup codebase values ≡ none
    → lookup codebase (take_normalized (some most) name values).1 ≡ none
unfolding take_normalized
take_keeps_missing most codebase name values e =
    ground (arith, e, lookup-remove name codebase values)

missing-IsWorthless :
    (b : BulkOptions) (most : ℕ) (codebase : String) (todo : List ScheduleRequest)
    → (values : Dict ℕ) → lookup codebase values ≡ none
    → All (IsWorthless most codebase) (bulk_plan b (some most) todo values)
unfolding bulk_plan regular_of
missing-IsWorthless b most codebase [] values e = tt
missing-IsWorthless b most codebase (request ∷ rest) values e = (
  elim (take_missing most codebase request.codebase values e) [
    | inl f ↦ inl f
    | inr f ↦ inr (rw f refl)
  ],
  missing-IsWorthless b most codebase rest (take_normalized (some most) request.codebase values).1
      (take_keeps_missing most codebase request.codebase values e),
)

taken :
    (most : ℕ) (codebase : String) (values : Dict ℕ)
    → lookup codebase (take_normalized (some most) codebase values).1 ≡ none
unfolding take_normalized
taken most codebase values =
    ground (arith, lookup-remove codebase codebase values, eq_iff codebase codebase)

-- When some codebase has a positive value, only the first request for a codebase counts its value:
-- each later request of the same call, for another campaign of it say, is made with the normalized
-- value 0.
pub bulk_repeats-IsWorthless :
    (b : BulkOptions) (most : ℕ) (request : ScheduleRequest) (rest : List ScheduleRequest)
    → (values : Dict ℕ)
    → (later : List Regular) × (bulk_plan b (some most) (request ∷ rest) values
        ≡ regular_of b request (take_normalized (some most) request.codebase values).0 ∷ later)
      × All (IsWorthless most request.codebase) later
unfolding bulk_plan
bulk_repeats-IsWorthless b most request rest values = (
  bulk_plan b (some most) rest (take_normalized (some most) request.codebase values).1,
  refl,
  missing-IsWorthless b most request.codebase rest
      (take_normalized (some most) request.codebase values).1 (taken most request.codebase values),
)
