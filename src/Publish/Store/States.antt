-- ===== src/Publish/Store/States.antt =====
-- The states of the change sets under the statements of store_publish (publish/src/state.rs) and the
-- refresh of schema/state.sql.
use janitor.Base.{
  String, ℕ, ◌≤◌, ◌≡◌, refl, Option, none, some, List, [], ◌∷◌, map, Bool, true, false, str_eq,
  eq_iff, if◌then◌else◌, arith, ◌==◌, inl, inr, Bool-cases,
}
use janitor.Publish.Database.{
  Database, ChangeSet, ChangeSetState, created, working, ready, publishing, done,
}
use janitor.Publish.ChangeSets.{
  leave_created, leave_working, leave_ready, leave_publishing, refreshed_state, refresh_change_set,
  refresh_change_set_state,
}
use janitor.Publish.Store.{advance_change_set, start_publishing, mark_done, remaining_unpublished}

-- The state of a change set.
pub state_of : String → List ChangeSet → Option ChangeSetState
state_of id [] = none
state_of id (c ∷ cs) = if str_eq c.id id then some c.state else state_of id cs

-- The first of the two updates.
abbrev pub started : ChangeSetState → ChangeSetState
started ready = publishing
started s = s

abbrev pub on_state :
    (ChangeSetState → ChangeSetState) → Option ChangeSetState → Option ChangeSetState
on_state f none = none
on_state f (some s) = some (f s)

-- The order in which a change set passes through its states.
abbrev pub rank : Option ChangeSetState → ℕ
rank none = 0
rank (some created) = 1
rank (some working) = 2
rank (some ready) = 3
rank (some publishing) = 4
rank (some done) = 5

state_of-start :
    (id j : String) (cs : List ChangeSet)
    → state_of j (map (start_publishing id) cs)
      ≡ (if str_eq id j then on_state started (state_of j cs) else state_of j cs)
unfolding state_of start_publishing
state_of-start id j [] = ground (arith, eq_iff id j)
state_of-start id j (c ∷ cs) =
    ground (arith, eq_iff id j, eq_iff c.id id, eq_iff c.id j, state_of-start id j cs)

state_of-done :
    (id j : String) (cs : List ChangeSet)
    → state_of j (map (mark_done id) cs)
      ≡ (if str_eq id j then on_state (λ s. done) (state_of j cs) else state_of j cs)
unfolding state_of mark_done
state_of-done id j [] = ground (arith, eq_iff id j)
state_of-done id j (c ∷ cs) =
    ground (arith, eq_iff id j, eq_iff c.id id, eq_iff c.id j, state_of-done id j cs)

pub state_of-refresh :
    (db : Database) (id j : String) (cs : List ChangeSet)
    → state_of j (map (refresh_change_set db id) cs)
      ≡ (if str_eq id j then on_state (refreshed_state db id) (state_of j cs) else state_of j cs)
unfolding state_of refresh_change_set
state_of-refresh db id j [] = ground (arith, eq_iff id j)
state_of-refresh db id j (c ∷ cs) =
    ground (arith, eq_iff id j, eq_iff c.id id, eq_iff c.id j, state_of-refresh db id j cs)

-- A refresh moves a state forward.
rank-refreshed :
    (db : Database) (id : String) (s : ChangeSetState)
    → rank (some s) ≤ rank (some (refreshed_state db id s))
unfolding refreshed_state leave_created leave_working leave_ready leave_publishing
rank-refreshed db id done = omega arith
rank-refreshed db id publishing = ground arith
rank-refreshed db id ready = ground arith
rank-refreshed db id working = ground arith
rank-refreshed db id created = ground arith

pub rank-on_state :
    (db : Database) (id : String) (o : Option ChangeSetState)
    → rank o ≤ rank (on_state (refreshed_state db id) o)
rank-on_state db id none = omega arith
rank-on_state db id (some s) = rank-refreshed db id s

rank-started : (o : Option ChangeSetState) → rank o ≤ rank (on_state started o)
rank-started none = omega arith
rank-started (some s) = ground arith

rank-done : (o : Option ChangeSetState) → rank o ≤ rank (on_state (λ s. done) o)
rank-done none = omega arith
rank-done (some s) = ground arith

-- What remains to publish after a success, in the state that is committed.
abbrev pub finished : Database → String → Bool
finished db id = remaining_unpublished db id == 0

-- The two updates, by whether nothing remains.
abbrev pub settled : Bool → ChangeSetState → ChangeSetState
settled true s = done
settled false s = started s

abbrev moved_state : Database → String → ChangeSetState → ChangeSetState
moved_state db id s = settled (finished db id) (refreshed_state db id s)

pub state_of-advance :
    (id j : String) (db : Database)
    → state_of j (advance_change_set id db).change_sets ≡ (
        if str_eq id j
        then on_state
            (λ s. settled (finished db id) (refreshed_state db id s))
            (state_of j db.change_sets)
        else state_of j db.change_sets)
unfolding advance_change_set refresh_change_set_state
state_of-advance id j db = elim (Bool-cases (finished db id)) [
  | inl e ↦
      rw (e, advance_change_set, state_of-done, state_of-start, state_of-refresh)
        (three (str_eq id j) (state_of j db.change_sets))
  | inr e ↦
      rw (e, advance_change_set, state_of-start, state_of-refresh)
        (two (str_eq id j) (state_of j db.change_sets))
]
  where
    three :
        (b : Bool) (o : Option ChangeSetState)
        → (let refreshed = if b then on_state (refreshed_state db id) o else o in
            let begun = if b then on_state started refreshed else refreshed in
            if b then on_state (λ s. done) begun else begun)
          ≡ (if b then on_state (λ s. settled true (refreshed_state db id s)) o else o)
    three true none = refl
    three true (some s) = refl
    three false o = refl

    two :
        (b : Bool) (o : Option ChangeSetState)
        → (let refreshed = if b then on_state (refreshed_state db id) o else o in
            if b then on_state started refreshed else refreshed)
          ≡ (if b then on_state (λ s. settled false (refreshed_state db id s)) o else o)
    two true none = refl
    two true (some s) = refl
    two false o = refl

pub rank-advance :
    (id j : String) (db : Database)
    → rank (state_of j db.change_sets) ≤ rank (state_of j (advance_change_set id db).change_sets)
rank-advance id j db =
    rw (state_of-advance id j db) (moved (str_eq id j) (state_of j db.change_sets))
  where
    step : (s : ChangeSetState) → rank (some s) ≤ rank (some (moved_state db id s))
    step s = elim (Bool-cases (finished db id)) [
      | inl e ↦ rw e (rank-done (some s))
      | inr e ↦
          rw e
            (omega (arith, rank-refreshed db id s, rank-started (some (refreshed_state db id s))))
    ]

    moved :
        (b : Bool) (o : Option ChangeSetState)
        → rank o ≤ rank (if b then on_state (moved_state db id) o else o)
    moved false o = omega arith
    moved true none = omega arith
    moved true (some s) = step s

pub remaining-advance :
    (id : String) (db : Database)
    → remaining_unpublished (advance_change_set id db) id ≡ remaining_unpublished db id
unfolding advance_change_set remaining_unpublished refresh_change_set_state
remaining-advance id db = elim (Bool-cases (finished db id)) [
  | inl e ↦ rw (e, remaining_unpublished)
  | inr e ↦ rw (e, remaining_unpublished)
]
