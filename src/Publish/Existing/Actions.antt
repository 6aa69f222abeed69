-- ===== src/Publish/Existing/Actions.antt =====
-- What `check_existing_mp` (publish/src/lib.rs) does once a proposal's row is up to date.
use janitor.Base.{
  String, ◌≡◌, refl, Option, none, some, inl, inr, arith, Bool, true, not, ◌||◌, Bool-cases,
  Option-cases, Outcome-cases,
}
use janitor.Identifiers.{codes, is_valid_name}
use janitor.Publish.Mode.{MergeProposalStatus}
use janitor.Publish.Existing.Types.{
  forge_open, forge_status_eq, ForgeStatus, ScheduleAnswer, scheduled, candidate_unavailable,
  schedule_failed, MergeProposalHandle, ScanWorld, Gathered, MergeProposalRun,
}
use janitor.Publish.Existing.Proposals.{count_proposal}
use janitor.Publish.Existing.Refresh.{reschedule, refresh_run}
use janitor.Publish.Existing.Runs.{get_merge_proposal_run, get_last_effective_run}
use janitor.Publish.Existing.Check.{
  Setting, Recovered, orphan_call, orphan_scheduled, find_campaign_by_branch_name, get_campaign,
  recover_campaign, recover_orphan, find_run, act, act_on_run,
}
use janitor.Publish.Existing.Effects.{Same, IsActed, IsActed-Same}
use janitor.Publish.Existing.Refreshed.{refresh_run-IsActed}

-- Looking for the run leaves the publisher's part of the world alone.
abbrev Found : ScanWorld → Recovered → Type 0
Found w (inl (mp_run, v)) = Same w v
Found w (inr c) = Same w c.1

module _ (s : Setting) (mp : MergeProposalHandle) (url : String) (g : Gathered) where
  orphan_scheduled-Found :
      (answer : ScheduleAnswer) (w : ScanWorld) → Found w (orphan_scheduled url answer w)
  unfolding orphan_scheduled
  orphan_scheduled-Found scheduled w = (refl, refl, refl)
  orphan_scheduled-Found candidate_unavailable w = (refl, refl, refl)
  orphan_scheduled-Found schedule_failed w = (refl, refl, refl)

  recover_campaign-Found :
      (codebase campaign : String) (w : ScanWorld)
      → Found w (recover_campaign s url g codebase campaign w)
  unfolding recover_campaign reschedule
  recover_campaign-Found codebase campaign w = elim (Bool-cases (is_valid_name (codes campaign))) [
    | inr e ↦ rw (e, recover_campaign) (refl, refl, refl)
    | inl e ↦ elim (Option-cases (get_last_effective_run s.tables codebase campaign)) [
      | inl f ↦
          rw (e, f, recover_campaign)
            (orphan_scheduled-Found (s.forge.do_schedule (orphan_call campaign codebase))
              (reschedule (orphan_call campaign codebase) w))
      | inr (last, f) ↦ elim (Option-cases g.revision) [
        | inl r ↦ rw (e, f, r, recover_campaign) (refl, refl, refl)
        | inr (revision, r) ↦ elim (Option-cases g.target_branch_url) [
          | inl t ↦ rw (e, f, r, t, recover_campaign) (refl, refl, refl)
          | inr (target, t) ↦ rw (e, f, r, t, recover_campaign) (refl, refl, refl)
        ]
      ]
    ]
  ]

  recover_orphan-Found : (w : ScanWorld) → Found w (recover_orphan s url g w)
  unfolding recover_orphan
  recover_orphan-Found w = elim (Option-cases g.codebase) [
    | inl e ↦ rw (e, recover_orphan) (refl, refl, refl)
    | inr (codebase, e) ↦ elim (Option-cases g.source_branch_name) [
      | inl f ↦ rw (e, f, recover_orphan) (refl, refl, refl)
      | inr (branch, f) ↦ elim (Option-cases (find_campaign_by_branch_name s.config branch)) [
        | inl c ↦ rw (e, f, c, recover_orphan) (refl, refl, refl)
        | inr (campaign, c) ↦
            rw (e, f, c, recover_orphan) (recover_campaign-Found codebase campaign w)
      ]
    ]
  ]

  find_run-Found :
      (found : Option MergeProposalRun) (w : ScanWorld) → Found w (find_run s url g found w)
  unfolding find_run
  find_run-Found (some mp_run) w = (refl, refl, refl)
  find_run-Found none w =
      elim (Outcome-cases (get_merge_proposal_run w.world.db.merge_proposals s.tables url)) [
        | inr (inl (x, e)) ↦ rw (e, find_run) (refl, refl, refl)
        | inr (inr e) ↦ rw (e, find_run) (refl, refl, refl)
        | inl (found, e) ↦ elim (Option-cases found) [
          | inl f ↦ rw (e, f, find_run) (recover_orphan-Found w)
          | inr (mp_run, f) ↦ rw (e, f, find_run) (refl, refl, refl)
        ]
      ]

  act_on_run-IsActed :
      (w : ScanWorld) (r : Recovered) → Found w r → IsActed url w (act_on_run s mp url g r)
  unfolding act_on_run
  act_on_run-IsActed w (inr c) same = inl same
  act_on_run-IsActed w (inl (mp_run, v)) same =
      elim (Option-cases (get_last_effective_run s.tables mp_run.codebase mp_run.campaign)) [
        | inl e ↦ rw (e, act_on_run) (inl same)
        | inr (last, e) ↦ elim (Option-cases (get_campaign s.config mp_run.campaign)) [
          | inl f ↦ rw (e, f, act_on_run) (inl same)
          | inr (campaign, f) ↦
              rw (e, f, act_on_run)
                (IsActed-Same url w v (refresh_run s.env s.forge campaign mp url mp_run g last v)
                  same (refresh_run-IsActed s.env s.forge campaign mp url mp_run g last v))
        ]
      ]

-- Nothing but rows of proposals and the counts has changed.
abbrev pub IsQuiet : ScanWorld → ScanWorld → Type 0
IsQuiet w v =
    Same w v
    × (v.calls ≡ w.calls)
    × (v.rescheduled ≡ w.rescheduled)
    × (v.world.scheduled ≡ w.world.scheduled)

pub count_proposal-IsQuiet :
    (status : MergeProposalStatus) (bucket : Option String) (w : ScanWorld)
    → IsQuiet w (count_proposal status bucket w)
unfolding count_proposal
count_proposal-IsQuiet status none w = ground arith
count_proposal-IsQuiet status (some bucket) w = ground arith

pub act-IsActed :
    (s : Setting) (mp : MergeProposalHandle) (url : String) (status : ForgeStatus)
    (check_only : Bool) (g : Gathered) (mp_run : Option MergeProposalRun) (w : ScanWorld)
    → IsActed url w (act s mp url status check_only g mp_run w)
unfolding act
act-IsActed s mp url status check_only g mp_run w =
    let counted : ScanWorld = count_proposal g.status g.rate_limit_bucket w in
    let same = (count_proposal-IsQuiet g.status g.rate_limit_bucket w).0 in
    elim (Bool-cases (not (forge_status_eq status forge_open) || check_only)) [
      | inl e ↦ rw (e, act) (inl same)
      | inr e ↦
          rw (e, act)
            (IsActed-Same url w counted (act_on_run s mp url g (find_run s url g mp_run counted))
              same
              (act_on_run-IsActed s mp url g counted (find_run s url g mp_run counted)
                (find_run-Found s mp url g mp_run counted)))
    ]

-- A check that may not act.
pub act_passive :
    (s : Setting) (mp : MergeProposalHandle) (url : String) (status : ForgeStatus)
    (check_only : Bool) (g : Gathered) (mp_run : Option MergeProposalRun) (w : ScanWorld)
    → (not (forge_status_eq status forge_open) || check_only) ≡ true
    → IsQuiet w (act s mp url status check_only g mp_run w).1
unfolding act
act_passive s mp url status check_only g mp_run w e =
    rw (e, act) (count_proposal-IsQuiet g.status g.rate_limit_bucket w)
