-- ===== src/Publish/Existing/Effects.antt =====
-- What a check of a proposal (`check_existing_mp`, publish/src/lib.rs) changes besides its row.
use janitor.Base.{
  String, ◌≡◌, refl, Option, none, some, [], ◌∷◌, ◌++◌, true, Outcome, ok, err, panic, ◌⊎◌, inl,
  inr, ap, ◌∙◌, arith, Bool-cases, Option-cases,
}
use janitor.Publish.Mode.{propose}
use janitor.Publish.Database.{Publish, opt_is}
use janitor.Publish.Policy.Types.{
  Environment, Campaign, Request, PublishOneResult, vcs_type_from_str,
}
use janitor.Publish.Existing.Types.{
  MergeProposalHandle, ScanWorld, Checked, Gathered, MergeProposalRun,
}
use janitor.Publish.Existing.Proposals.{update_proposal_info}
use janitor.Publish.Run.{Run, ResultBranch}
use janitor.Publish.Failure.{
  PublishError, failure, nothing_to_do, branch_busy, network_error, service_unavailable,
  authentication_failed, database_error, handle_publish_failure,
}
use janitor.Publish.Store.{store_publish}
use janitor.Publish.Store.Attempts.{publishes-store_publish}
use janitor.Publish.Existing.Republish.{
  store_refresh, set_db, close_empty, refreshed, record_failure, refresh_row, refresh_request, send,
  republish,
}
use janitor.Publish.Existing.Close.{
  as_applied, applied_comment, AbandonMode, abandon_or_close, close_proposal,
}

-- The publisher's own part of the world is as it was.
abbrev pub Same : ScanWorld → ScanWorld → Type 0
Same w v =
    (v.world.limiter ≡ w.world.limiter)
    × (v.world.requests ≡ w.world.requests)
    × (v.world.db.publishes ≡ w.world.db.publishes)

abandon_or_close-Same :
    (env : Environment) (mp : MergeProposalHandle) (url : String) (mode : AbandonMode)
    (g : Gathered) (codebase : Option String) (revision target comment : String) (w : ScanWorld)
    → Same w (abandon_or_close env mp url mode g codebase revision target comment w).1
unfolding abandon_or_close update_proposal_info
abandon_or_close-Same env mp url mode g codebase revision target comment w = ground arith

pub close_proposal-Same :
    (env : Environment) (mp : MergeProposalHandle) (url : String) (mode : AbandonMode)
    (g : Gathered) (codebase : String) (target : Option String) (comment : String) (w : ScanWorld)
    → Same w (close_proposal env mp url mode g codebase target comment w).1
unfolding close_proposal
close_proposal-Same env mp url mode g codebase none comment w = ground arith
close_proposal-Same env mp url mode g codebase (some target) comment w =
    elim (Option-cases g.revision) [
      | inl e ↦ rw (e, close_proposal) (refl, refl, refl)
      | inr (revision, e) ↦
          rw (e, close_proposal)
            (abandon_or_close-Same env mp url mode g (some codebase) revision target comment w)
    ]

-- A request for the proposal, and at most one row, which only an `ok true` stores.
abbrev pub HasAsked : String → ScanWorld → Checked → Type 0
HasAsked url w c =
    (request : Request) × (c.1.world.requests ≡ w.world.requests ++ request ∷ [])
    × (request.existing_mp_url ≡ some url)
    × (request.mode ≡ propose)
    × ((c.1.world.db.publishes ≡ w.world.db.publishes)
        ⊎ ((p : Publish) × (c.1.world.db.publishes ≡ w.world.db.publishes ++ p ∷ [])
            × (c.0 ≡ ok true)))

abbrev pub IsActed : String → ScanWorld → Checked → Type 0
IsActed url w c = Same w c.1 ⊎ ((c.1.world.limiter ≡ w.world.limiter) × HasAsked url w c)

-- The part of a world that is `Same` can be put in place of another's.
pub IsActed-Same :
    (url : String) (w v : ScanWorld) (c : Checked) → Same w v → IsActed url v c → IsActed url w c
IsActed-Same url w v c same (inl (limiter, requests, publishes)) =
    inl (limiter ∙ same.0, requests ∙ same.1, publishes ∙ same.2)
IsActed-Same url w v c same (inr (limiter, (request, asked, about, mode, inl publishes))) = inr (
  limiter ∙ same.0,
  (request, asked ∙ ap (λ rs. rs ++ request ∷ []) same.1, about, mode, inl (publishes ∙ same.2)),
)
IsActed-Same url w v c same
      (inr (limiter, (request, asked, about, mode, inr (p, stored, answer)))) =
    inr (
      limiter ∙ same.0,
      (
        request,
        asked ∙ ap (λ rs. rs ++ request ∷ []) same.1,
        about,
        mode,
        inr (p, stored ∙ ap (λ ps. ps ++ p ∷ []) same.2, answer),
      ),
    )

-- What storing the answer to a request may do.
abbrev HasStored : ScanWorld → Checked → Type 0
HasStored w c =
    (c.1.world.limiter ≡ w.world.limiter)
    × (c.1.world.requests ≡ w.world.requests)
    × ((c.1.world.db.publishes ≡ w.world.db.publishes)
        ⊎ ((p : Publish) × (c.1.world.db.publishes ≡ w.world.db.publishes ++ p ∷ [])
            × (c.0 ≡ ok true)))

store_refresh-HasStored : (row : Publish) (w : ScanWorld) → HasStored w (store_refresh row w)
unfolding store_refresh set_db
store_refresh-HasStored row w = elim (Option-cases (store_publish row w.world.db)) [
  | inl e ↦ rw (e, store_refresh) (refl, refl, inl refl)
  | inr (db, e) ↦
      rw (e, store_refresh)
        (refl, refl, inr (row, publishes-store_publish row w.world.db db e, refl))
]

HasStored-Same : (w v : ScanWorld) (c : Checked) → Same w v → HasStored v c → HasStored w c
HasStored-Same w v c same (limiter, requests, inl publishes) =
    (limiter ∙ same.0, requests ∙ same.1, inl (publishes ∙ same.2))
HasStored-Same w v c same (limiter, requests, inr (p, stored, answer)) =
    (limiter ∙ same.0, requests ∙ same.1, inr (p, stored ∙ ap (λ ps. ps ++ p ∷ []) same.2, answer))

close_empty-Same :
    (env : Environment) (mp : MergeProposalHandle) (url : String) (g : Gathered) (target : String)
    (recorded : String × String) (w : ScanWorld)
    → Same w (close_empty env mp url g target recorded w).1
unfolding close_empty
close_empty-Same env mp url g target (code, description) w = elim (Option-cases g.revision) [
  | inl e ↦ rw (e, close_empty) (ground arith)
  | inr (revision, e) ↦
      let closed =
        abandon_or_close-Same env mp url as_applied g g.codebase revision target applied_comment
          w in
      rw (e, close_empty) (ground arith)
]

module _ (env : Environment) (campaign : Campaign) (mp : MergeProposalHandle) (url : String)
    (mp_run : MergeProposalRun) (g : Gathered) (run : Run) (branch : ResultBranch) where
  failed-HasStored :
      (target : String) (e : PublishError) (w : ScanWorld)
      → HasStored w (record_failure env campaign mp url mp_run g run branch target e w)
  unfolding record_failure
  failed-HasStored target e w =
      let failure = handle_publish_failure e w.world.db.last_runs run "update-existing-mp" in
      let called : ScanWorld = record w {
        world = record w.world { scheduled = w.world.scheduled ++ failure.1 };
      } in
      let closed = close_empty env mp url g target failure.0 called in
      let row =
        refresh_row env mp_run run branch campaign.branch_name target none closed.0.0 closed.0.1
          (some url) in
      HasStored-Same w closed.1 (store_refresh row closed.1)
        (close_empty-Same env mp url g target failure.0 called)
        (store_refresh-HasStored row closed.1)

  refreshed-HasStored :
      (target : String) (o : Outcome PublishError PublishOneResult) (w : ScanWorld)
      → HasStored w (refreshed env campaign mp url mp_run g run branch target o w)
  unfolding refreshed
  refreshed-HasStored target (ok r) w = store_refresh-HasStored _ w
  refreshed-HasStored target (err (branch_busy busy)) w = (refl, refl, inl refl)
  refreshed-HasStored target (err (failure code description)) w =
      failed-HasStored target (failure code description) w
  refreshed-HasStored target (err (nothing_to_do reason)) w =
      failed-HasStored target (nothing_to_do reason) w
  refreshed-HasStored target (err (network_error msg)) w =
      failed-HasStored target (network_error msg) w
  refreshed-HasStored target (err (service_unavailable msg)) w =
      failed-HasStored target (service_unavailable msg) w
  refreshed-HasStored target (err authentication_failed) w =
      failed-HasStored target authentication_failed w
  refreshed-HasStored target (err database_error) w = failed-HasStored target database_error w
  refreshed-HasStored target panic w = (refl, refl, inl refl)

  send-IsActed :
      (target revision : String) (w : ScanWorld)
      → IsActed url w (send env campaign mp url mp_run g run branch target revision w)
  unfolding send refresh_request
  send-IsActed target revision w =
      let request : Request =
        refresh_request env campaign w.world.db url mp_run g run target revision in
      let asked : ScanWorld = record w {
        world = record w.world { requests = w.world.requests ++ request ∷ [] };
      } in
      let done = refreshed-HasStored target (env.publish_one request) asked in
      inr (done.0, (request, done.1, refl, refl, done.2))

  pub republish-IsActed :
      (target : Option String) (w : ScanWorld)
      → IsActed url w (republish env campaign mp url mp_run g run branch target w)
  unfolding republish
  republish-IsActed none w = elim (Bool-cases (opt_is branch.revision mp_run.revision)) [
    | inl e ↦ rw (e, republish) (inl (refl, refl, refl))
    | inr e ↦ rw (e, republish) (inl (refl, refl, refl))
  ]
  republish-IsActed (some t) w = elim (Bool-cases (opt_is branch.revision mp_run.revision)) [
    | inl e ↦ rw (e, republish) (inl (refl, refl, refl))
    | inr e ↦ elim (Option-cases branch.revision) [
      | inl f ↦ rw (f, republish) (inl (refl, refl, refl))
      | inr (revision, f) ↦ elim (Option-cases (vcs_type_from_str run.vcs_type)) [
        | inl v ↦ rw (e, f, v, republish) (inl (refl, refl, refl))
        | inr (vcs_type, v) ↦ elim (Bool-cases (env.has_manager vcs_type)) [
          | inr m ↦ rw (e, f, v, m, republish) (inl (refl, refl, refl))
          | inl m ↦ rw (e, f, v, m, republish) (send-IsActed t revision w)
        ]
      ]
    ]
  ]
