-- ===== src/Publish/Existing/Orphans.antt =====
-- Orphaned proposals (`check_existing_mp`, publish/src/lib.rs).
use janitor.Base.{
  String, ℕ, suc, ◌≡◌, refl, none, some, true, false, ok, ◌∙◌, ap, str_eq, inl, arith,
}
use janitor.Base.Int.{pos}
use janitor.Identifiers.{codes, is_valid_name}
use janitor.Publish.Backoff.{run_sufficient_for_proposal}
use janitor.Publish.Policy.Types.{Campaign}
use janitor.Publish.Existing.Types.{
  MergeProposalHandle, ScanWorld, Gathered, EffectiveRun, MergeProposalRun,
}
use janitor.Publish.Existing.Close.{as_abandoned, close_proposal, trivial_comment}
use janitor.Publish.Existing.Runs.{get_merge_proposal_run, get_last_effective_run}
use janitor.Publish.Existing.Refresh.{target_or, refresh_run, refresh_successful}
use janitor.Publish.Existing.Check.{
  Setting, find_campaign_by_branch_name, get_campaign, orphan_run, recover_campaign, recover_orphan,
  find_run, act_on_run,
}

no_value_insufficient :
    (k : ℕ) → run_sufficient_for_proposal (some (pos (suc k))) (some (pos 0)) ≡ false
unfolding run_sufficient_for_proposal
no_value_insufficient k = ground arith

-- A proposal whose own run is not worth enough is abandoned if the last run was a success.
refresh_trivial :
    (s : Setting) (campaign : Campaign) (mp : MergeProposalHandle) (url : String)
    (mp_run : MergeProposalRun) (g : Gathered) (last : EffectiveRun) (target : String)
    (w : ScanWorld)
    → last.run.result_code ≡ "success"
    → g.target_branch_url ≡ some target
    → run_sufficient_for_proposal campaign.value_threshold (some mp_run.value) ≡ false
    → refresh_run s.env s.forge campaign mp url mp_run g last w
      ≡ close_proposal s.env mp url as_abandoned g mp_run.codebase (some target) trivial_comment w
unfolding refresh_run refresh_successful
refresh_trivial s campaign mp url mp_run g last target w success has_target small =
    let applied : str_eq last.run.result_code "nothing-to-do" ≡ false =
      ap (λ c. str_eq c "nothing-to-do") success in
    let good : str_eq last.run.result_code "success" ≡ true =
      ap (λ c. str_eq c "success") success in
    rw (applied, good, small, refresh_run, refresh_successful)
      (ap (λ t. close_proposal s.env mp url as_abandoned g mp_run.codebase t trivial_comment w)
        (ap (λ t. target_or s.env mp_run.branch_url t) has_target))

-- What is known of an orphaned proposal: the codebase and the campaign that its branch belongs to,
-- and a last run that was a success.
pub record IsOrphan (s : Setting) (url : String) (g : Gathered) (w : ScanWorld)
    (codebase branch name : String) (revision target : String) (campaign : Campaign)
    (last : EffectiveRun) : Type 0 where
  pub no_run : get_merge_proposal_run w.world.db.merge_proposals s.tables url ≡ ok none
  pub has_codebase : g.codebase ≡ some codebase
  pub has_branch : g.source_branch_name ≡ some branch
  pub named : find_campaign_by_branch_name s.config branch ≡ some name
  pub valid : is_valid_name (codes name) ≡ true
  pub configured : get_campaign s.config name ≡ some campaign
  pub has_last : get_last_effective_run s.tables codebase name ≡ some last
  pub has_revision : g.revision ≡ some revision
  pub has_target : g.target_branch_url ≡ some target
  pub success : last.run.result_code ≡ "success"

module _ (s : Setting) (mp : MergeProposalHandle) (url : String) (g : Gathered) (w : ScanWorld)
    (codebase branch name : String) (revision target : String) (campaign : Campaign)
    (last : EffectiveRun)
    (orphan : IsOrphan s url g w codebase branch name revision target campaign last) where
  find_run-orphan : find_run s url g none w ≡ inl (orphan_run name codebase revision target, w)
  unfolding find_run recover_orphan recover_campaign
  find_run-orphan =
      rw
        (
          orphan.no_run, orphan.has_codebase, orphan.has_branch, orphan.named, orphan.valid,
          orphan.has_last, orphan.has_revision, orphan.has_target, find_run, recover_orphan,
          recover_campaign,
        )
        refl

  -- If the campaign has a positive value threshold, an orphaned proposal whose last run was a success
  -- is abandoned, whatever the value of that run is.
  pub orphan_abandoned :
      (k : ℕ)
      → campaign.value_threshold ≡ some (pos (suc k))
      → act_on_run s mp url g (find_run s url g none w)
        ≡ close_proposal s.env mp url as_abandoned g codebase (some target) trivial_comment w
  unfolding act_on_run orphan_run
  orphan_abandoned k threshold =
      rw (find_run-orphan, orphan.has_last, orphan.configured, act_on_run)
        (refresh_trivial s campaign mp url (orphan_run name codebase revision target) g last target
          w orphan.success orphan.has_target
          (ap (λ t. run_sufficient_for_proposal t (some (pos 0))) threshold
            ∙ no_value_insufficient k))
