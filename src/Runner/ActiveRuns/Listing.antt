-- ===== src/Runner/ActiveRuns/Listing.antt =====
-- What `ActiveRunStore::list` returns (runner/src/active_runs.rs).
use janitor.Base.{
  ℕ, ◌≤◌, ◌≡◌, refl, List, [], ◌∷◌, Bool, true, arith, filterb, length, leb, leb→le, All,
  Bool-cases, inl, inr,
}
use janitor.Runner.ActiveRuns.{ActiveRun, ActiveRuns, values, insert_by_start, sort_by_start, list}

-- Each run starts no later than those after it.
abbrev pub IsByStart : List ActiveRun → Type 0
IsByStart [] = Unit
IsByStart (run ∷ rest) = All (λ other. run.start_time ≤ other.start_time) rest × IsByStart rest

All-insert_by_start {κ} :
    (P : ActiveRun → Type κ) (run : ActiveRun) (rest : List ActiveRun)
    → P run
    → All P rest
    → All P (insert_by_start run rest)
unfolding insert_by_start
All-insert_by_start P run [] p ps = (p, tt)
All-insert_by_start P run (other ∷ rest) p ps =
    elim (Bool-cases (leb run.start_time other.start_time)) [
      | inl e ↦ rw e (p, ps)
      | inr e ↦ rw e (ps.0, All-insert_by_start P run rest p ps.1)
    ]

All-later :
    (a b : ℕ)
    → a ≤ b
    → (rest : List ActiveRun) → All (λ other. b ≤ other.start_time) rest
    → All (λ other. a ≤ other.start_time) rest
All-later a b h [] ps = tt
All-later a b h (other ∷ rest) ps = (omega arith, All-later a b h rest ps.1)

insert_by_start-IsByStart :
    (run : ActiveRun) (rest : List ActiveRun)
    → IsByStart rest
    → IsByStart (insert_by_start run rest)
unfolding insert_by_start
insert_by_start-IsByStart run [] s = (tt, tt)
insert_by_start-IsByStart run (other ∷ rest) s =
    elim (Bool-cases (leb run.start_time other.start_time)) [
      | inl e ↦ rw e (
        (
          leb→le run.start_time other.start_time e,
          All-later run.start_time other.start_time (leb→le run.start_time other.start_time e) rest
              s.0,
        ),
        s,
      )
      | inr e ↦ rw e (
        All-insert_by_start (λ x. other.start_time ≤ x.start_time) run rest (ground arith) s.0,
        insert_by_start-IsByStart run rest s.1,
      )
    ]

sort_by_start-IsByStart : (runs : List ActiveRun) → IsByStart (sort_by_start runs)
unfolding sort_by_start
sort_by_start-IsByStart [] = tt
sort_by_start-IsByStart (run ∷ rest) =
    insert_by_start-IsByStart run (sort_by_start rest) (sort_by_start-IsByStart rest)

length-insert_by_start :
    (test : ActiveRun → Bool) (run : ActiveRun) (rest : List ActiveRun)
    → length (filterb test (insert_by_start run rest)) ≡ length (filterb test (run ∷ rest))
unfolding insert_by_start
length-insert_by_start test run [] = refl
length-insert_by_start test run (other ∷ rest) =
    ground (arith, length-insert_by_start test run rest)

pub length-sort_by_start :
    (test : ActiveRun → Bool) (runs : List ActiveRun)
    → length (filterb test (sort_by_start runs)) ≡ length (filterb test runs)
unfolding sort_by_start
length-sort_by_start test [] = refl
length-sort_by_start test (run ∷ rest) =
    ground
      (arith, length-insert_by_start test run (sort_by_start rest), length-sort_by_start test rest)

-- When Redis answers, the list is in the order of the start times and holds the same runs as the
-- hash: as many of them satisfy any test.
list-IsByStart :
    (runs : ActiveRuns) (test : ActiveRun → Bool)
    → IsByStart (list true runs)
      × (length (filterb test (list true runs)) ≡ length (filterb test (values runs)))
unfolding list
list-IsByStart runs test =
    (sort_by_start-IsByStart (values runs), length-sort_by_start test (values runs))
