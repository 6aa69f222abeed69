-- ===== src/Publish/Existing/Refreshed.antt =====
-- What is done about an open proposal (`check_existing_mp`, publish/src/lib.rs) changes little
-- outside its row.
use janitor.Base.{
  String, refl, Option, some, ◌||◌, ◌⊎◌, inl, inr, arith, str_eq, Bool-cases, Option-cases,
  Outcome-cases, [], ◌∷◌, ◌++◌,
}
use janitor.Publish.Backoff.{run_sufficient_for_proposal}
use janitor.Publish.Run.{Run, ResultBranch, get_result_branch}
use janitor.Publish.Database.{opt_is}
use janitor.Publish.Policy.Types.{Environment, Campaign}
use janitor.Publish.Existing.Types.{
  retargeted, MergeProposalHandle, ForgeEnvironment, ScanWorld, Checked, Gathered, MergeProposalRun,
  EffectiveRun,
}
use janitor.Publish.Existing.Close.{as_abandoned, as_applied, trivial_comment, applied_comment}
use janitor.Publish.Existing.Refresh.{
  branches_match, parsed, reschedule, retry_failed, reschedule_conflict, moved_comment,
  follow_rename, refresh_branch, after_rename, refresh_successful, target_or, refresh_run,
  target_or,
}
use janitor.Publish.Existing.Effects.{
  Same, IsActed, IsActed-Same, close_proposal-Same, republish-IsActed,
}

-- A renamed branch leaves the publisher's part of the world alone.
abbrev Renamed : ScanWorld → (Option String × ScanWorld) ⊎ Checked → Type 0
Renamed w (inl (target, v)) = Same w v
Renamed w (inr c) = Same w c.1

module _ (env : Environment) (forge : ForgeEnvironment) (campaign : Campaign)
    (mp : MergeProposalHandle) (url : String) (mp_run : MergeProposalRun) (g : Gathered) where
  refresh_branch-IsActed :
      (run : Run) (branch : ResultBranch) (target : Option String) (w : ScanWorld)
      → IsActed url w (refresh_branch env forge campaign mp url mp_run g run branch target w)
  unfolding refresh_branch reschedule_conflict reschedule
  refresh_branch-IsActed run branch target w =
      elim (Option-cases
        (branches_match forge (parsed env mp_run.branch_url) (parsed env run.branch_url))) [
          | inl e ↦ rw (e, refresh_branch) (inl (refl, refl, refl))
          | inr (same, e) ↦ elim (Bool-cases same) [
            | inr f ↦ rw (e, f, refresh_branch) (inl (refl, refl, refl))
            | inl f ↦ elim (Bool-cases (opt_is mp_run.id run.id)) [
              | inr m ↦
                  rw (e, f, m, refresh_branch)
                    (republish-IsActed env campaign mp url mp_run g run branch target w)
              | inl m ↦ rw (e, f, m, refresh_branch) (inl (ground arith))
            ]
          ]
        ]

  follow_rename-Renamed :
      (new : String) (target : Option String) (w : ScanWorld)
      → Renamed w (follow_rename env mp url mp_run g new target w)
  unfolding follow_rename
  follow_rename-Renamed new target w =
      elim (Bool-cases (str_eq new mp_run.remote_branch_name || str_eq new "")) [
        | inl e ↦ rw (e, follow_rename) (refl, refl, refl)
        | inr e ↦ elim (Bool-cases (str_eq mp_run.remote_branch_name "")) [
          | inl f ↦ rw (e, f, follow_rename) (refl, refl, refl)
          | inr f ↦ elim (Outcome-cases (mp.set_target_branch_name new)) [
            | inl (done, m) ↦ rw (e, f, m, follow_rename) (refl, refl, refl)
            | inr (inl (x, m)) ↦
                let asked : ScanWorld = record w { calls = w.calls ++ retargeted url new ∷ [] } in
                rw (e, f, m, follow_rename)
                  (close_proposal-Same env mp url as_abandoned g mp_run.codebase target
                    (moved_comment mp_run.role mp_run.remote_branch_name new) asked)
            | inr (inr m) ↦ rw (e, f, m, follow_rename) (refl, refl, refl)
          ]
        ]
      ]

  after_rename-IsActed :
      (run : Run) (branch : ResultBranch) (w : ScanWorld)
      (r : (Option String × ScanWorld) ⊎ Checked)
      → Renamed w r
      → IsActed url w (after_rename env forge campaign mp url mp_run g run branch r)
  unfolding after_rename
  after_rename-IsActed run branch w (inl (target, v)) same =
      IsActed-Same url w v (refresh_branch env forge campaign mp url mp_run g run branch target v)
        same (refresh_branch-IsActed run branch target v)
  after_rename-IsActed run branch w (inr c) same = inl same

  refresh_successful-IsActed :
      (run : Run) (target : Option String) (w : ScanWorld)
      → IsActed url w (refresh_successful env forge campaign mp url mp_run g run target w)
  unfolding refresh_successful
  refresh_successful-IsActed run target w =
      elim (Bool-cases (run_sufficient_for_proposal campaign.value_threshold (some mp_run.value))) [
        | inr e ↦
            rw (e, refresh_successful)
              (inl (
                close_proposal-Same env mp url as_abandoned g mp_run.codebase target trivial_comment
                  w))
        | inl e ↦ elim (Option-cases (get_result_branch run mp_run.role)) [
          | inl f ↦ rw (e, f, refresh_successful) (inl (refl, refl, refl))
          | inr (branch, f) ↦
              rw (e, f, refresh_successful)
                (after_rename-IsActed run branch w
                  (follow_rename env mp url mp_run g branch.remote_name target w)
                  (follow_rename-Renamed branch.remote_name target w))
        ]
      ]

  pub refresh_run-IsActed :
      (last : EffectiveRun) (w : ScanWorld)
      → IsActed url w (refresh_run env forge campaign mp url mp_run g last w)
  unfolding refresh_run retry_failed reschedule
  refresh_run-IsActed last w =
      let target : Option String = target_or env mp_run.branch_url g.target_branch_url in
      elim (Bool-cases (str_eq last.run.result_code "nothing-to-do")) [
        | inl e ↦
            rw (e, refresh_run)
              (inl (
                close_proposal-Same env mp url as_applied g mp_run.codebase target applied_comment
                  w))
        | inr e ↦ elim (Bool-cases (str_eq last.run.result_code "success")) [
          | inr f ↦ rw (e, f, refresh_run) (inl (ground arith))
          | inl f ↦ rw (e, f, refresh_run) (refresh_successful-IsActed last.run target w)
        ]
      ]
