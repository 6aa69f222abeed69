-- ===== src/Runner/Database/Finish.antt =====
-- What `finish_run` does to the tables (runner/src/database.rs).
use janitor.Base.{
  String, ℕ, ◌≡◌, ◌==◌, refl, sym, ap, ◌∙◌, Option, none, some, List, [], ◌∷◌, ◌++◌, true, false,
  arith, any, if◌then◌else◌, Bool-cases, Option-cases, ◌⊎◌, inl, inr, All, str_eq, eq_iff,
}
use janitor.Queue.Rows.{QueueItem, delete_item}
use janitor.Runner.Results.{
  JanitorResult, RunTables, FinishError, FinishOutcome, stored, already_stored, BuilderResult,
  StoredRun, BranchRow, debian, generic,
}
use janitor.Runner.Database.{
  has_run, run_row, refusal, store_run, store_builder_result_tx, with_change_set, delete_from_queue,
  finish_run, insert_branches, branch_tuples, refers,
}

-- The item is not in the queue.
abbrev pub IsGone : ℕ → RunTables → Type 0
IsGone queue_id t = All (λ row. (row.id == queue_id) ≡ false) t.queue.rows

IsGone-delete_item :
    (id : ℕ) (rows : List QueueItem) → All (λ row. (row.id == id) ≡ false) (delete_item id rows)
unfolding delete_item
IsGone-delete_item id [] = tt
IsGone-delete_item id (row ∷ rest) = elim (Bool-cases (row.id == id)) [
  | inl e ↦ rw e (IsGone-delete_item id rest)
  | inr e ↦ rw e (e, IsGone-delete_item id rest)
]

-- The row of a run is refused unless it names a change set that exists.
refusal-none :
    (result : JanitorResult) (t : RunTables)
    → refusal result t ≡ none
    → refers result.change_set t.queue.change_sets ≡ true
unfolding refusal
refusal-none result t e = ground (arith, e)

store_run_cases :
    (result : JanitorResult) (command : String) (t : RunTables)
    → ((e : FinishError) × (store_run result command t ≡ inl e))
      ⊎ ((rows : List BranchRow) × (refers result.change_set t.queue.change_sets ≡ true)
          × (store_run result command t
              ≡ inr (record t { runs = t.runs ++ run_row result command ∷ []; branches = rows })))
unfolding store_run
store_run_cases result command t = elim (Option-cases (refusal result t)) [
  | inr (e, f) ↦ inl (e, rw (f, store_run) refl)
  | inl f ↦ elim (inserted (insert_branches result.log_id (branch_tuples result) t.branches) refl) [
    | inl (e, g) ↦ inl (e, rw (f, g, store_run) refl)
    | inr (rows, g) ↦ inr (rows, refusal-none result t f, rw (f, g, store_run) refl)
  ]
]
  where
    inserted :
        (o : FinishError ⊎ List BranchRow)
        → insert_branches result.log_id (branch_tuples result) t.branches ≡ o
        → ((e : FinishError) × (insert_branches result.log_id (branch_tuples result) t.branches
              ≡ inl e))
          ⊎ ((rows : List BranchRow) × (insert_branches result.log_id
                  (branch_tuples result)
                  t.branches
                ≡ inr rows))
    inserted (inl e) g = inl (e, g)
    inserted (inr rows) g = inr (rows, g)

has_run-append :
    (id : String) (row : StoredRun) (runs : List StoredRun)
    → id ≡ row.id
    → has_run id (runs ++ row ∷ []) ≡ true
unfolding has_run
has_run-append id row [] e = ground (arith, eq_iff row.id id, e)
has_run-append id row (other ∷ rest) e = ground (arith, has_run-append id row rest e)

builder_result-keeps :
    (id : String) (b : Option BuilderResult) (t : RunTables)
    → ((store_builder_result_tx id b t).runs ≡ t.runs)
      × ((store_builder_result_tx id b t).queue ≡ t.queue)
unfolding store_builder_result_tx
builder_result-keeps id none t = (refl, refl)
builder_result-keeps id (some generic) t = (refl, refl)
builder_result-keeps id (some (debian none v d)) t = (refl, refl)
builder_result-keeps id (some (debian (some s) none d)) t = (refl, refl)
builder_result-keeps id (some (debian (some s) (some v) none)) t = (refl, refl)
builder_result-keeps id (some (debian (some s) (some v) (some d))) t = (refl, refl)

-- The change set of a stored run: the one that the result names, or else the run's own.
abbrev pub set_of : JanitorResult → String
set_of result = elim result.change_set [
  | none ↦ result.log_id
  | some name ↦ if str_eq name "" then result.log_id else name
]

with_change_set-names :
    (result : JanitorResult) (t : RunTables)
    → (with_change_set result t).0.change_set ≡ some (set_of result)
unfolding with_change_set
with_change_set-names result t = elim (Option-cases result.change_set) [
  | inl e ↦ rw (e, with_change_set) refl
  | inr (name, e) ↦ elim (Bool-cases (str_eq name "")) [
    | inl f ↦ rw (e, f, with_change_set) refl
    | inr f ↦ rw (e, f, with_change_set) refl
  ]
]

refers-named :
    (name : String) (o : Option String) (names : List String)
    → o ≡ some name
    → refers o names ≡ true
    → any (str_eq name) names ≡ true
unfolding refers
refers-named name o names e h = rw e at h

with_change_set-keeps :
    (result : JanitorResult) (t : RunTables)
    → ((with_change_set result t).0.log_id ≡ result.log_id)
      × ((with_change_set result t).1.runs ≡ t.runs)
unfolding with_change_set
with_change_set-keeps result t = elim (Option-cases result.change_set) [
  | inl e ↦ rw (e, with_change_set) (refl, refl)
  | inr (name, e) ↦ elim (Bool-cases (str_eq name "")) [
    | inl f ↦ rw (e, f, with_change_set) (refl, refl)
    | inr f ↦ rw (e, f, with_change_set) (refl, refl)
  ]
]

-- What `finish_run` may leave, by its answer.
abbrev pub HasFinished :
    JanitorResult
    → String
    → ℕ
    → RunTables
    → (FinishError ⊎ FinishOutcome) × JanitorResult × RunTables
    → Type 0
HasFinished result command queue_id t (inl e, filled, after) = after ≡ t
HasFinished result command queue_id t (inr already_stored, filled, after) =
    (has_run result.log_id t.runs ≡ true) × (after.runs ≡ t.runs) × IsGone queue_id after
HasFinished result command queue_id t (inr stored, filled, after) =
    (has_run result.log_id t.runs ≡ false)
    × (after.runs ≡ t.runs ++ run_row filled command ∷ [])
    × (has_run result.log_id after.runs ≡ true)
    × (filled.change_set ≡ some (set_of result))
    × (any (str_eq (set_of result)) after.queue.change_sets ≡ true)
    × IsGone queue_id after

pub finish_run-HasFinished :
    (result : JanitorResult) (command : String) (queue_id : ℕ) (t : RunTables)
    → HasFinished result command queue_id t (finish_run result command queue_id t)
unfolding finish_run delete_from_queue run_row
finish_run-HasFinished result command queue_id t =
    elim (Bool-cases (has_run result.log_id t.runs)) [
      | inl e ↦ rw (e, finish_run) (e, refl, IsGone-delete_item queue_id t.queue.rows)
      | inr e ↦
          let filled : JanitorResult = (with_change_set result t).0 in
          let begun : RunTables = (with_change_set result t).1 in
          let kept = with_change_set-keeps result t in
          let names = with_change_set-names result t in
          elim (store_run_cases filled command begun) [
            | inl (x, f) ↦ rw (e, f, finish_run) refl
            | inr (rows, named, f) ↦
                let done : RunTables = record begun {
                  runs = begun.runs ++ run_row filled command ∷ [];
                  branches = rows;
                } in
                let built = builder_result-keeps filled.log_id filled.builder_result done in
                rw (e, f, finish_run)
                  (
                    e,
                    built.0 ∙ ap (λ runs. runs ++ run_row filled command ∷ []) kept.1,
                    rw built.0 (
                        has_run-append result.log_id (run_row filled command) begun.runs
                          (sym kept.0)),
                    names,
                    rw built.1 (refers-named (set_of result) filled.change_set _ names named),
                    IsGone-delete_item queue_id _,
                  )
          ]
    ]

HasFinished-stored :
    (result : JanitorResult)
    → (command : String) → (queue_id : ℕ) → (t : RunTables)
    → (x : (FinishError ⊎ FinishOutcome) × JanitorResult × RunTables)
    → HasFinished result command queue_id t x
    → x.0 ≡ inr stored
    → has_run result.log_id x.2.runs ≡ true
HasFinished-stored result command queue_id t (inl f, filled, after) h e = absurd (cc e)
HasFinished-stored result command queue_id t (inr already_stored, filled, after) h e = absurd (cc e)
HasFinished-stored result command queue_id t (inr stored, filled, after) h e = h.2

has_run_again :
    (again : JanitorResult) (command : String) (queue_id : ℕ) (t : RunTables)
    → has_run again.log_id t.runs ≡ true
    → ((finish_run again command queue_id t).0 ≡ inr already_stored)
      × ((finish_run again command queue_id t).2.runs ≡ t.runs)
unfolding finish_run delete_from_queue
has_run_again again command queue_id t e = rw (e, finish_run) (refl, refl)

-- A run that was stored is not stored again: when its worker repeats `finish_run`, with whatever
-- result under the same id, the answer is that it is stored, and the runs stay as they are.
pub finish_run_twice :
    (result again : JanitorResult) (command command2 : String) (queue_id queue_id2 : ℕ)
    → (t : RunTables) → again.log_id ≡ result.log_id
    → (finish_run result command queue_id t).0 ≡ inr stored
    → let after = (finish_run result command queue_id t).2 in
      ((finish_run again command2 queue_id2 after).0 ≡ inr already_stored)
      × ((finish_run again command2 queue_id2 after).2.runs ≡ after.runs)
finish_run_twice result again command command2 queue_id queue_id2 t same e =
    has_run_again again command2 queue_id2 _ (
      rw same (
        HasFinished-stored result command queue_id t (finish_run result command queue_id t)
          (finish_run-HasFinished result command queue_id t) e))
