-- ===== src/Publish/Existing/Check.antt =====
-- publish/src/lib.rs: `check_existing_mp`, which brings one proposal's row up to date and acts on an
-- open one. Where the name of the target branch is looked up only for the logs, it is left out.
use janitor.Base.{
  Outcome, String, ℕ, Option, none, some, List, [], ◌∷◌, Bool, true, false, ◌||◌, not, find,
  if◌then◌else◌, ok, err, panic, ◌⊎◌, inl, inr,
}
use janitor.Base.Int.{pos}
use janitor.Identifiers.{codes, is_valid_name}
use janitor.Publish.Database.{MergeProposal, opt_is}
use janitor.Publish.Policy.Types.{Campaign, Environment}
use janitor.Publish.Existing.Types.{
  BrzError, candidate_unavailable, schedule_failed, ScheduleAnswer, from_brz,
  no_run_for_merge_proposal, brz, invalid_identifier, ForgeStatus, forge_open, forge_status_eq,
  MergeProposalHandle, ForgeEnvironment, Reschedule, scheduled, Tables, ScanWorld, Checked,
  MergeProposalRun, Gathered,
}
use janitor.Publish.Existing.Proposals.{
  get_proposal_info, bump_last_scanned, update_proposal_info, count_proposal, finish_no_action,
  fresh_threshold, should_skip_per_mp_fetch,
}
use janitor.Publish.Existing.Runs.{get_merge_proposal_run, get_last_effective_run}
use janitor.Publish.Existing.Gather.{fetch_fails, gather, needs_update}
use janitor.Publish.Existing.Refresh.{refresh_run, reschedule}

-- What is fixed during a check: the outside, the configuration and the tables that are read.
pub record Setting : Type 0 where
  pub env : Environment
  pub forge : ForgeEnvironment
  pub config : List Campaign
  pub tables : Tables

-- The name of the first campaign with this branch name; its role is `main`.
unfoldable pub find_campaign_by_branch_name : List Campaign → String → Option String
find_campaign_by_branch_name [] branch = none
find_campaign_by_branch_name (c ∷ rest) branch =
    let later : Option String = find_campaign_by_branch_name rest branch in
    if opt_is c.branch_name branch
    then elim c.name [ none ↦ later | some name ↦ some name ]
    else later

unfoldable pub get_campaign : List Campaign → String → Option Campaign
get_campaign config name = find (λ (c : Campaign). opt_is c.name name) config

-- The row that `update_proposal_info` writes for what was gathered.
unfoldable pub gathered_row : ℕ → String → Gathered → String → MergeProposal
gathered_row now url g target = record {
  url = url;
  status = g.status;
  revision = g.revision;
  last_scanned = some now;
  target_branch_url = some target;
  codebase = g.codebase;
  can_be_merged = g.can_be_merged;
  rate_limit_bucket = g.rate_limit_bucket;
}

unfoldable pub orphan_call : String → String → Reschedule
orphan_call campaign codebase = record {
  campaign = campaign;
  codebase = codebase;
  change_set = none;
  refresh = true;
  requester = "publisher (orphaned merge proposal)";
}

-- The placeholder for the run of an orphaned proposal.
unfoldable pub orphan_run : String → String → String → String → MergeProposalRun
orphan_run campaign codebase revision target = record {
  id = none;
  campaign = campaign;
  branch_url = target;
  command = "";
  value = pos 0;
  role = "main";
  remote_branch_name = "";
  revision = revision;
  codebase = codebase;
  change_set = none;
}

abbrev pub Recovered : Type 0
Recovered = (MergeProposalRun × ScanWorld) ⊎ Checked

-- The scheduler's answer for an orphaned proposal without a run.
unfoldable pub orphan_scheduled : String → ScheduleAnswer → ScanWorld → Recovered
orphan_scheduled url scheduled w = inr (ok false, w)
orphan_scheduled url candidate_unavailable w = inr (err (no_run_for_merge_proposal url), w)
orphan_scheduled url schedule_failed w = inr (err (no_run_for_merge_proposal url), w)

-- An orphaned proposal whose campaign is known: a run is scheduled, or the placeholder made.
unfoldable pub recover_campaign :
    Setting → String → Gathered → String → String → ScanWorld → Recovered
recover_campaign s url g codebase campaign w =
    if not (is_valid_name (codes campaign))
    then inr (err invalid_identifier, w)
    else elim (get_last_effective_run s.tables codebase campaign) [
      | none ↦
          orphan_scheduled url (s.forge.do_schedule (orphan_call campaign codebase))
            (reschedule (orphan_call campaign codebase) w)
      | some last ↦ elim g.revision [
        | none ↦ inr (ok false, w)
        | some revision ↦ elim g.target_branch_url [
          | none ↦ inr (ok false, w)
          | some target ↦ inl (orphan_run campaign codebase revision target, w)
        ]
      ]
    ]

unfoldable pub recover_orphan : Setting → String → Gathered → ScanWorld → Recovered
recover_orphan s url g w = elim g.codebase [
  | none ↦ inr (err (no_run_for_merge_proposal url), w)
  | some codebase ↦ elim g.source_branch_name [
    | none ↦ inr (err (no_run_for_merge_proposal url), w)
    | some branch ↦ elim (find_campaign_by_branch_name s.config branch) [
      | none ↦ inr (err (no_run_for_merge_proposal url), w)
      | some campaign ↦ recover_campaign s url g codebase campaign w
    ]
  ]
]

-- The run that was found before the row was written, or else the one that is found now.
unfoldable pub find_run :
    Setting → String → Gathered → Option MergeProposalRun → ScanWorld → Recovered
find_run s url g (some mp_run) w = inl (mp_run, w)
find_run s url g none w = elim (get_merge_proposal_run w.world.db.merge_proposals s.tables url) [
  | err e ↦ inr (err e, w)
  | panic ↦ inr (panic, w)
  | ok found ↦ elim found [ some mp_run ↦ inl (mp_run, w) | none ↦ recover_orphan s url g w ]
]

unfoldable pub act_on_run : Setting → MergeProposalHandle → String → Gathered → Recovered → Checked
act_on_run s mp url g (inr answer) = answer
act_on_run s mp url g (inl (mp_run, w)) =
    elim (get_last_effective_run s.tables mp_run.codebase mp_run.campaign) [
      | none ↦ (ok false, w)
      | some last ↦ elim (get_campaign s.config mp_run.campaign) [
        | none ↦ (ok false, w)
        | some campaign ↦ refresh_run s.env s.forge campaign mp url mp_run g last w
      ]
    ]

-- What is done once the row is up to date.
unfoldable pub act :
    Setting
    → MergeProposalHandle
    → String
    → ForgeStatus
    → Bool
    → Gathered
    → Option MergeProposalRun
    → ScanWorld
    → Checked
act s mp url status check_only g mp_run w =
    let counted : ScanWorld = count_proposal g.status g.rate_limit_bucket w in
    if not (forge_status_eq status forge_open) || check_only
    then (ok false, counted)
    else act_on_run s mp url g (find_run s url g mp_run counted)

-- With what was gathered: the row is written if it has changed, and else touched.
unfoldable pub record_gathered :
    Setting
    → MergeProposalHandle
    → String
    → ForgeStatus
    → Bool
    → Bool
    → Gathered
    → ScanWorld
    → Checked
record_gathered s mp url status check_only changed g w =
    let touched : ScanWorld = bump_last_scanned s.env.now url w in
    if not changed
    then act s mp url status check_only g none touched
    else elim (get_merge_proposal_run w.world.db.merge_proposals s.tables url) [
      | err e ↦ (err e, w)
      | panic ↦ (panic, w)
      | ok mp_run ↦ elim g.target_branch_url [
        | none ↦ finish_no_action g.status g.rate_limit_bucket touched
        | some target ↦
            act s mp url status check_only g mp_run
              (update_proposal_info (gathered_row s.env.now url g target) w)
      ]
    ]

unfoldable pub fetch_and_record :
    Setting
    → MergeProposalHandle
    → String
    → ForgeStatus
    → Bool
    → Option MergeProposal
    → ScanWorld
    → Checked
fetch_and_record s mp url status check_only old w =
    let g : Gathered = gather s.forge s.tables mp status old in
    if fetch_fails mp
    then (err brz, w)
    else record_gathered s mp url status check_only (needs_update old g) g w

unfoldable pub skips : Setting → ForgeStatus → MergeProposal → Bool
skips s status row =
    should_skip_per_mp_fetch status row.status row.last_scanned s.env.now fresh_threshold

unfoldable pub check_url :
    Setting → MergeProposalHandle → String → ForgeStatus → Bool → ScanWorld → Checked
check_url s mp url status check_only w = elim (get_proposal_info url w.world.db.merge_proposals) [
  | none ↦ fetch_and_record s mp url status check_only none w
  | some row ↦
      if skips s status row
      then finish_no_action row.status row.rate_limit_bucket (bump_last_scanned s.env.now url w)
      else fetch_and_record s mp url status check_only (some row) w
]

unfoldable pub check_known :
    Setting
    → MergeProposalHandle
    → ForgeStatus
    → Bool
    → ScanWorld
    → Outcome BrzError String
    → Checked
check_known s mp status check_only w (ok url) = check_url s mp url status check_only w
check_known s mp status check_only w (err e) = (err (from_brz e), w)
check_known s mp status check_only w panic = (panic, w)

unfoldable pub check_existing_mp :
    Setting → MergeProposalHandle → ForgeStatus → Bool → ScanWorld → Checked
check_existing_mp s mp status check_only w = check_known s mp status check_only w mp.url
