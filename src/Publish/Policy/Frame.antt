-- ===== src/Publish/Policy/Frame.antt =====
-- What the later stages of `publish_from_policy` (publish/src/lib.rs) leave alone.
use janitor.Base.{
  ◌≡◌, refl, none, some, [], ◌∷◌, ◌++◌, Outcome, ok, err, panic, arith, Option-cases, Bool-cases,
  inl, inr, ◌⊎◌,
}
use janitor.Publish.Mode.{Mode}
use janitor.Publish.Failure.{PublishError, failure}
use janitor.Publish.Database.{Publish, Database}
use janitor.Publish.Store.{store_publish}
use janitor.Publish.Policy.Types.{
  Campaign, Environment, World, PolicyArgs, PublishOneResult, vcs_type_from_str,
}
use janitor.Publish.Policy.Gates.{Target}
use janitor.Publish.Policy.Worker.{announce, make_request, Folded, publish_row, bump}
use janitor.Publish.Policy.{record_outcome, after_worker, run_worker}

module _ (env : Environment) (a : PolicyArgs) where
  pub announce_frame :
      (p : Publish) (w : World)
      → ((announce env a p w).1.requests ≡ w.requests)
        × ((announce env a p w).1.db ≡ w.db)
        × ((announce env a p w).1.limiter ≡ w.limiter)
  unfolding announce
  announce_frame p w = ground arith

  module _ (campaign : Campaign) (mode : Mode) (t : Target) where
    -- The record fails an assertion, or it commits and is announced.
    pub record_outcome_cases :
        (f : Folded) (w : World)
        → ((store_publish (publish_row env campaign a mode t f) w.db ≡ none)
            × (record_outcome env campaign a mode t f w ≡ (panic, w)))
          ⊎ ((db' : Database) × (store_publish (publish_row env campaign a mode t f) w.db
                ≡ some db')
              × (record_outcome env campaign a mode t f w
                  ≡ announce env a (publish_row env campaign a mode t f) (record w {
                    db = db';
                    limiter = bump a.rate_limit_bucket f.result w.limiter;
                  })))
    unfolding record_outcome
    record_outcome_cases f w =
        elim (Option-cases (store_publish (publish_row env campaign a mode t f) w.db)) [
          | inl e ↦ inl (e, rw (e, record_outcome))
          | inr (db', e) ↦ inr (db', e, rw (e, record_outcome))
        ]

    pub requests-record_outcome :
        (f : Folded) (w : World)
        → (record_outcome env campaign a mode t f w).1.requests ≡ w.requests
    requests-record_outcome f w = elim (record_outcome_cases f w) [
      | inl (e, same) ↦ rw same
      | inr (db', e, same) ↦ rw same (announce_frame _ _).0
    ]

    pub requests-after_worker :
        (o : Outcome PublishError PublishOneResult) (w : World)
        → (after_worker env campaign a mode t o w).1.requests ≡ w.requests
    unfolding after_worker
    requests-after_worker (ok r) w = requests-record_outcome _ w
    requests-after_worker (err (failure c d)) w = requests-record_outcome _ _
    requests-after_worker (err _) w = refl
    requests-after_worker panic w = refl

    -- The worker is not asked, or it is asked this and its answer is recorded.
    pub run_worker_cases :
        (w : World)
        → (run_worker env campaign a mode t w ≡ (ok none, w))
          ⊎ (run_worker env campaign a mode t w
              ≡ after_worker env campaign a mode t
                  (env.publish_one (make_request env campaign a w mode t))
                  (record w { requests = w.requests ++ make_request env campaign a w mode t ∷ [] }))
    unfolding run_worker
    run_worker_cases w = elim (Option-cases (vcs_type_from_str a.run.vcs_type)) [
      | inl e ↦ inl (rw (e, run_worker))
      | inr (v, e) ↦ elim (Bool-cases (env.has_manager v)) [
        | inl e' ↦ inr (rw (e, run_worker) (rw e'))
        | inr e' ↦ inl (rw (e, run_worker) (rw e'))
      ]
    ]

    -- At most one request is made, and it is the one for this mode and target.
    pub requests-run_worker :
        (w : World)
        → ((run_worker env campaign a mode t w).1.requests ≡ w.requests)
          ⊎ ((run_worker env campaign a mode t w).1.requests
              ≡ w.requests ++ make_request env campaign a w mode t ∷ [])
    requests-run_worker w = elim (run_worker_cases w) [
      | inl same ↦ inl (rw same)
      | inr same ↦ inr (rw same (requests-after_worker _ _))
    ]
