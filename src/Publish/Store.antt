-- ===== src/Publish/Store.antt =====
-- publish/src/state.rs: `store_publish`, the transaction that records a publish attempt, with the
-- triggers of schema/state.sql that refresh the state of a change set in it; those that refresh
-- `last_run` are left out.
pub mod Cases
pub mod States
pub mod Moved
pub mod Attempts
mod Examples
use janitor.Base.{
  String, ℕ, zero, suc, Option, none, some, List, [], ◌∷◌, ◌++◌, map, Bool, true, false, ◌&&◌, ◌||◌,
  not, str_eq, any, filterb, if◌then◌else◌, length, ◌==◌, is_some,
}
use janitor.Publish.Mode.{Mode, mode_eq, propose, push, push_derived, open_}
use janitor.Publish.Database.{
  Database, Publish, MergeProposal, NewResultBranch, ChangeSet, ChangeSetState, ready, publishing,
  done, opt_is,
}
use janitor.Publish.ChangeSets.{refresh_change_set_state, new_result_branch_trigger}

-- `INSERT INTO merge_proposal ... ON CONFLICT (url) DO UPDATE`
upsert_proposal : MergeProposal → List MergeProposal → List MergeProposal
upsert_proposal mp [] = mp ∷ []
upsert_proposal mp (x ∷ xs) =
    if str_eq x.url mp.url
    then record x {
      revision = mp.revision;
      last_scanned = mp.last_scanned;
      target_branch_url = mp.target_branch_url;
      codebase = mp.codebase;
    }
      ∷ xs
    else x ∷ upsert_proposal mp xs

absorb_branch : Option String → String → NewResultBranch → NewResultBranch
absorb_branch run_id role b =
    if opt_is run_id b.run_id && str_eq b.role role then record b { absorbed = true } else b

-- The proposal or the pushed branch of a successful attempt; `none` is a failed assertion.
unfoldable pub store_success : Publish → Database → Option Database
unfolding upsert_proposal absorb_branch
store_success p db = elim p.merge_proposal_url [
  | some url ↦
      if mode_eq p.mode propose
      then some (record db {
        merge_proposals =
            upsert_proposal
              (record {
                url = url;
                status = open_;
                revision = p.revision;
                last_scanned = some p.timestamp;
                target_branch_url = p.target_branch_url;
                codebase = some p.codebase;
                can_be_merged = none;
                rate_limit_bucket = none;
              })
              db.merge_proposals;
      })
      else none
  | none ↦
      if is_some p.revision
        && (mode_eq p.mode push || mode_eq p.mode push_derived)
        && is_some p.run_id
      then (if mode_eq p.mode push
          then some (
              new_result_branch_trigger p.run_id p.role db (record db {
                new_result_branches = map (absorb_branch p.run_id p.role) db.new_result_branches;
              }))
          else some db)
      else none
]

run_in_change_set : Database → String → String → Bool
run_in_change_set db change_set run_id =
    any (λ run. str_eq run.id run_id && str_eq run.change_set change_set) db.runs

-- The branches of the change set's runs that are not absorbed.
unfoldable pub remaining_unpublished : Database → String → ℕ
unfolding run_in_change_set
remaining_unpublished db change_set = length (
    filterb (λ b. run_in_change_set db change_set b.run_id && not b.absorbed)
      db.new_result_branches)

start_publishing : String → ChangeSet → ChangeSet
start_publishing id c =
    if str_eq c.id id then (elim c.state [ ready ↦ record c { state = publishing } | _ ↦ c ]) else c

mark_done : String → ChangeSet → ChangeSet
mark_done id c = if str_eq c.id id then record c { state = done } else c

-- What a success does to its change set once its row is there: the trigger on `publish`, and then the
-- two updates.
unfoldable pub advance_change_set : String → Database → Database
unfolding start_publishing mark_done
advance_change_set id db =
    let refreshed : Database = refresh_change_set_state id db in
    let started : Database = record refreshed {
      change_sets = map (start_publishing id) refreshed.change_sets;
    } in
    if remaining_unpublished db id == 0
    then record started { change_sets = map (mark_done id) started.change_sets }
    else started

unfoldable pub insert_publish : Publish → Database → Database
insert_publish p db = record db { publishes = db.publishes ++ p ∷ [] }

-- The arguments are the row to insert, whose `timestamp` is NOW(). `none` is a failed assertion,
-- which rolls the transaction back.
unfoldable pub store_publish : Publish → Database → Option Database
unfolding insert_publish
store_publish p db =
    if str_eq p.result_code "success"
    then (elim (store_success p db) [
      | none ↦ none
      | some db' ↦ some (advance_change_set p.change_set (insert_publish p db'))
    ])
    else some (insert_publish p db)
