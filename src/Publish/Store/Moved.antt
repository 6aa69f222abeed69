-- ===== src/Publish/Store/Moved.antt =====
-- What store_publish of publish/src/state.rs does to the change sets, with the triggers of
-- schema/state.sql.
use janitor.Base.{
  String, ◌≤◌, ◌≡◌, ◌≢◌, refl, sym, ◌∙◌, ap, Option, none, some, map, Bool, true, false, ◌&&◌,
  str_eq, eq_iff, arith, ◌⊎◌, inl, inr, Bool-cases, Option-cases, not, any,
}
use janitor.Publish.Mode.{push, mode_eq}
use janitor.Publish.Database.{
  Database, Publish, ChangeSetState, created, working, ready, publishing, done, opt_is,
}
use janitor.Publish.ChangeSets.{
  refreshed_state, refresh_change_set_state, change_set_of, new_result_branch_trigger,
}
use janitor.Publish.Store.Cases.{store_publish_cases}
use janitor.Publish.Store.{
  store_publish, store_success, advance_change_set, insert_publish, absorb_branch,
  remaining_unpublished,
}
use janitor.Publish.Store.States.{
  state_of, started, on_state, rank, state_of-refresh, rank-on_state, finished, settled,
  state_of-advance, rank-advance, remaining-advance,
}

-- The trigger on the branches moves the change set of the run, or nothing.
abbrev IsRefreshed : Option String → String → Database → Database → Type 0
IsRefreshed run_id j db d =
    (state_of j d.change_sets ≡ state_of j db.change_sets)
    ⊎ ((change_set_of run_id db ≡ some j)
        × (rank (state_of j db.change_sets) ≤ rank (state_of j d.change_sets)))

refresh_change_set_state-IsRefreshed :
    (run_id : Option String) (id j : String) (db : Database)
    → change_set_of run_id db ≡ some id
    → IsRefreshed run_id j db (refresh_change_set_state id db)
unfolding refresh_change_set_state
refresh_change_set_state-IsRefreshed run_id id j db e = elim (Bool-cases (str_eq id j)) [
  | inl same ↦
      let here : id ≡ j = (eq_iff id j).0 same in
      inr (
        e ∙ ap some here,
        rw (state_of-refresh db id j db.change_sets, same) (rank-on_state db id _),
      )
  | inr other ↦ inl (rw (state_of-refresh db id j db.change_sets, other) refl)
]

trigger-IsRefreshed :
    (run_id : Option String) (role j : String) (before db : Database)
    → IsRefreshed run_id j db (new_result_branch_trigger run_id role before db)
unfolding new_result_branch_trigger
trigger-IsRefreshed run_id role j before db =
    elim (Bool-cases (
      any (λ b. opt_is run_id b.run_id && str_eq b.role role && not b.absorbed)
        before.new_result_branches)) [
          | inr e ↦ inl (rw (e, new_result_branch_trigger) refl)
          | inl e ↦ elim (Option-cases (change_set_of run_id db)) [
            | inl none_named ↦ inl (rw (e, none_named, new_result_branch_trigger) refl)
            | inr (id, named) ↦
                rw (e, named, new_result_branch_trigger)
                  (rw named at (refresh_change_set_state-IsRefreshed run_id id j db named))
          ]
        ]

-- The first step of a successful attempt, which reaches the branches only if it is a push.
store_success-IsRefreshed :
    (p : Publish) (j : String) (db d : Database)
    → store_success p db ≡ some d
    → (d.change_sets ≡ db.change_sets)
      ⊎ ((mode_eq p.mode push ≡ true) × IsRefreshed p.run_id j db d)
unfolding store_success change_set_of
store_success-IsRefreshed p j db d h = elim (Option-cases p.merge_proposal_url) [
  | inr (url, e) ↦ inl (ground (arith, e, h))
  | inl e ↦ elim (Bool-cases (mode_eq p.mode push)) [
    | inr f ↦ inl (ground (arith, e, f, h))
    | inl f ↦
        let absorbed : Database = record db {
          new_result_branches = map (absorb_branch p.run_id p.role) db.new_result_branches;
        } in
        let same : d ≡ new_result_branch_trigger p.run_id p.role db absorbed =
          ground (arith, e, f, h) in
        inr (f, rw same (trigger-IsRefreshed p.run_id p.role j db absorbed))
  ]
]

-- How an attempt that is recorded moves a change set.
pub record HasMoved (p : Publish) (db db' : Database) (j : String) : Type 0 where
  pub forward : rank (state_of j db.change_sets) ≤ rank (state_of j db'.change_sets)
  pub failed : p.result_code ≢ "success" → db'.change_sets ≡ db.change_sets
  pub settled :
      p.result_code ≡ "success" → j ≡ p.change_set → state_of j db'.change_sets ≢ some ready
  pub completed :
      p.result_code ≡ "success"
      → j ≡ p.change_set
      → remaining_unpublished db' j ≡ 0
      → state_of j db.change_sets ≢ none
      → state_of j db'.change_sets ≡ some done
  pub others :
      j ≢ p.change_set
      → (mode_eq p.mode push ≡ false) ⊎ (change_set_of p.run_id db ≢ some j)
      → state_of j db'.change_sets ≡ state_of j db.change_sets

rank-store_success :
    (p : Publish) (j : String) (db d : Database)
    → store_success p db ≡ some d
    → rank (state_of j db.change_sets) ≤ rank (state_of j d.change_sets)
rank-store_success p j db d h = elim (store_success-IsRefreshed p j db d h) [
  | inl same ↦ rw same (omega arith)
  | inr (pushed, inl same) ↦ rw same (omega arith)
  | inr (pushed, inr (named, moved)) ↦ moved
]

settled-ne-ready :
    (b : Bool) (f : ChangeSetState → ChangeSetState) (o : Option ChangeSetState)
    → on_state (λ s. settled b (f s)) o ≢ some ready
settled-ne-ready b f none e = cc e
settled-ne-ready true f (some s) e = cc e
settled-ne-ready false f (some s) e = started-ne-ready (f s) e
  where
    started-ne-ready : (s : ChangeSetState) → some (started s) ≢ some ready
    started-ne-ready created e = cc e
    started-ne-ready working e = cc e
    started-ne-ready ready e = cc e
    started-ne-ready publishing e = cc e
    started-ne-ready done e = cc e

done_if_there :
    (o before : Option ChangeSetState) (f : ChangeSetState → ChangeSetState)
    → rank before ≤ rank o
    → before ≢ none
    → on_state (λ s. settled true (f s)) o ≡ some done
done_if_there (some s) before f h there = refl
done_if_there none none f h there = absurd (there refl)
done_if_there none (some s) f h there = absurd (below s h)
  where
    below : (s : ChangeSetState) → ¬ (rank (some s) ≤ 0)
    below s h = ground (arith, h)

module _ (p : Publish) (db d : Database) (stored : store_success p db ≡ some d) (j : String) where
  here : j ≡ p.change_set → str_eq p.change_set j ≡ true
  here e = (eq_iff p.change_set j).1 (cc e)

  -- A successful attempt, in the state that is committed.
  success-HasMoved :
      p.result_code ≡ "success"
      → HasMoved p db (advance_change_set p.change_set (insert_publish p d)) j
  unfolding insert_publish
  success-HasMoved success =
      let there = insert_publish p d in
      record {
        forward = omega (
          arith,
          rank-store_success p j db d stored,
          rank-advance p.change_set j (insert_publish p d),
        );
        failed = λ f. absurd (f success);
        settled = λ s e.
            rw (state_of-advance p.change_set j there, here e)
              (settled-ne-ready (finished there p.change_set) (refreshed_state there p.change_set)
                (state_of j d.change_sets));
        completed = λ s e none_left found.
            let gone : remaining_unpublished there p.change_set ≡ 0 =
              sym (remaining-advance p.change_set there) ∙ rw e at none_left in
            let over : finished there p.change_set ≡ true = ground (arith, gone) in
            rw (state_of-advance p.change_set j there, here e, over)
              (done_if_there (state_of j d.change_sets) (state_of j db.change_sets)
                (refreshed_state there p.change_set) (rank-store_success p j db d stored) found);
        others = λ other untouched.
            rw (state_of-advance p.change_set j there, elsewhere other)
              (elim (store_success-IsRefreshed p j db d stored) [
                | inl same ↦ rw same refl
                | inr (pushed, inl same) ↦ same
                | inr (pushed, inr (named, moved)) ↦ elim untouched [
                  | inl no_push ↦ absurd (cc no_push)
                  | inr elsewhere ↦ absurd (elsewhere named)
                ]
              ]);
      }
    where
      elsewhere : j ≢ p.change_set → str_eq p.change_set j ≡ false
      elsewhere other = ground (arith, eq_iff p.change_set j, other)

-- Recording an attempt moves no change set back. A failed one moves none at all. After a successful
-- one its own change set is not left at ready, and, if it exists, it is done if no branch of its
-- runs is left to absorb in the state that is committed. Another change set keeps its state, unless
-- the attempt is a push of a run of that change set, whose branch is then absorbed.
pub store_publish-HasMoved :
    (p : Publish) (db db' : Database) (j : String)
    → store_publish p db ≡ some db'
    → HasMoved p db db' j
unfolding insert_publish
store_publish-HasMoved p db db' j h = elim (store_publish_cases p db db' h) [
  | inr (e, (d, stored, same)) ↦
      rw same (success-HasMoved p db d stored j ((eq_iff p.result_code "success").0 e))
  | inl (e, same) ↦ rw same (record {
    forward = omega arith;
    failed = λ f. refl;
    settled = λ s. absurd (ground (arith, e, s, eq_iff p.result_code "success"));
    completed = λ s. absurd (ground (arith, e, s, eq_iff p.result_code "success"));
    others = λ other untouched. refl;
  })
]
