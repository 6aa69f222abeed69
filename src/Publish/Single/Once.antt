-- ===== src/Publish/Single/Once.antt =====
-- What `publish_and_store` does at most (publish/src/lib.rs).
use janitor.Base.{
  String, ◌≡◌, refl, unwrap_or, is_some, ◌&&◌, Option, none, some, [], ◌∷◌, ◌++◌, Bool, false,
  Bool-cases, Option-cases, ◌⊎◌, inl, inr, Outcome, ok, err, panic,
}
use janitor.Publish.RateLimiter.{RateLimiter, inc}
use janitor.Publish.Run.{get_result_branch}
use janitor.Publish.Failure.{PublishError, failure, branch_busy}
use janitor.Publish.Store.{store_publish}
use janitor.Publish.Database.{Database, Publish}
use janitor.Publish.Policy.Worker.{bump}
use janitor.Publish.Policy.Types.{
  Campaign, vcs_type_from_str, Request, PublishOneResult, Environment, World,
}
use janitor.Publish.Single.{
  SingleArgs, SingleEvent, SingleOutcome, failed, send_event, store_answer, publish_branch,
  publish_and_store, success_row, failure_row, single_request,
}

-- The limiter is as it was, or has counted one more proposal in the bucket of the call.
abbrev HasCounted : Option String → RateLimiter → RateLimiter → Type 0
HasCounted bucket before after =
    (after ≡ before) ⊎ ((name : String) × (bucket ≡ some name) × (after ≡ inc before name))

bump-HasCounted :
    (bucket : Option String) (r : PublishOneResult) (limiter : RateLimiter)
    → HasCounted bucket limiter (bump bucket (some r) limiter)
unfolding bump
bump-HasCounted none r limiter = inl refl
bump-HasCounted (some bucket) r limiter =
    elim (Bool-cases (unwrap_or r.is_new false && is_some r.proposal_url)) [
      | inl e ↦ rw e (inr (bucket, refl, refl))
      | inr e ↦ rw e (inl refl)
    ]

-- The table is as it was, or `store_publish` has stored one row for the call.
abbrev HasStored : SingleArgs → Database → Database → Type 0
HasStored a before after =
    (after ≡ before)
    ⊎ ((row : Publish) × (store_publish row before ≡ some after)
        × (row.id ≡ some a.publish_id)
        × (row.run_id ≡ some a.run.id)
        × (row.role ≡ a.role))

-- What is left of a world after the request: its requests are those that were made, at most one row
-- was stored and at most one proposal counted.
abbrev IsAfter : SingleArgs → World → World → Type 0
IsAfter a w after =
    (after.requests ≡ w.requests)
    × HasStored a w.db after.db
    × HasCounted a.rate_limit_bucket w.limiter after.limiter

-- What a call may answer and do to the world.
abbrev pub IsSingle : SingleArgs → World → SingleOutcome → Type 0
IsSingle a w outcome =
    (outcome ≡ (failed, w, none))
    ⊎ ((request : Request) × (outcome.1.requests ≡ w.requests ++ request ∷ [])
        × (request.log_id ≡ a.run.id)
        × (request.role ≡ a.role)
        × (request.mode ≡ a.mode)
        × HasStored a w.db outcome.1.db
        × HasCounted a.rate_limit_bucket w.limiter outcome.1.limiter)

module _ (env : Environment) (campaign : Campaign) (event_sent : SingleEvent → Bool) where
  send_event-world :
      (event : SingleEvent) (w : World) → (send_event env campaign event_sent event w).1 ≡ w
  unfolding send_event
  send_event-world event w = elim (Bool-cases env.has_redis) [
    | inr e ↦ rw (e, send_event) refl
    | inl e ↦ elim (Bool-cases (event_sent event)) [
      | inl f ↦ rw (e, f, send_event) refl
      | inr f ↦ rw (e, f, send_event) refl
    ]
  ]

  store_answer-IsAfter :
      (a : SingleArgs) (url : String) (o : Outcome PublishError PublishOneResult) (w : World)
      → IsAfter a w (store_answer env campaign event_sent a url o w).1
  unfolding store_answer success_row failure_row
  store_answer-IsAfter a url (ok r) w =
      elim (Option-cases (store_publish (success_row env a r) w.db)) [
        | inl e ↦ rw (e, store_answer) (refl, inl refl, inl refl)
        | inr (db, e) ↦
            rw (e, store_answer, send_event-world _ _)
              (
                refl,
                inr (success_row env a r, e, refl, refl, refl),
                bump-HasCounted a.rate_limit_bucket r w.limiter,
              )
      ]
  store_answer-IsAfter a url (err (branch_busy other)) w = (refl, inl refl, inl refl)
  store_answer-IsAfter a url (err (failure code description)) w =
      elim (Option-cases (store_publish (failure_row env campaign a url code description) w.db)) [
        | inl e ↦ rw (e, store_answer) (refl, inl refl, inl refl)
        | inr (db, e) ↦
            rw (e, store_answer, send_event-world _ _)
              (
                refl,
                inr (failure_row env campaign a url code description, e, refl, refl, refl),
                inl refl,
              )
      ]
  store_answer-IsAfter a url (err other) w = (refl, inl refl, inl refl)
  store_answer-IsAfter a url panic w = (refl, inl refl, inl refl)

  publish_branch-IsSingle :
      (a : SingleArgs) (remote_name revision : String) (w : World)
      → IsSingle a w (publish_branch env campaign event_sent a remote_name revision w)
  unfolding publish_branch single_request
  publish_branch-IsSingle a remote_name revision w =
      let base : String = unwrap_or a.run.target_branch_url a.run.branch_url in
      elim (Bool-cases (env.parses_url base)) [
        | inr e ↦ rw (e, publish_branch) (inl refl)
        | inl e ↦ elim (Option-cases (vcs_type_from_str a.run.vcs_type)) [
          | inl f ↦ rw (e, f, publish_branch) (inl refl)
          | inr (vcs_type, f) ↦ elim (Bool-cases (env.has_manager vcs_type)) [
            | inr g ↦ rw (e, f, g, publish_branch) (inl refl)
            | inl g ↦
                let request : Request =
                  single_request env campaign a w.db (env.role_branch_url base remote_name)
                    revision in
                let done =
                  store_answer-IsAfter a (env.role_branch_url base remote_name)
                    (env.publish_one request)
                    (record w { requests = w.requests ++ request ∷ [] }) in
                rw (e, f, g, publish_branch)
                  (inr (request, done.0, refl, refl, refl, done.1, done.2))
          ]
        ]
      ]

  -- A call of `publish_and_store` fails and changes nothing, or asks the worker exactly once, for
  -- the call's run, role and mode. In the second case it stores nothing, or one row that has the
  -- call's id, run and role, and counts nothing, or one proposal in the bucket of the call.
  pub publish_and_store-IsSingle :
      (a : SingleArgs) (w : World) → IsSingle a w (publish_and_store env campaign event_sent a w)
  unfolding publish_and_store
  publish_and_store-IsSingle a w = elim (Option-cases (get_result_branch a.run a.role)) [
    | inl e ↦ rw (e, publish_and_store) (inl refl)
    | inr (branch, e) ↦ elim (Option-cases branch.revision) [
      | inl f ↦ rw (e, f, publish_and_store) (inl refl)
      | inr (revision, f) ↦
          rw (e, f, publish_and_store) (publish_branch-IsSingle a branch.remote_name revision w)
    ]
  ]
