-- ===== src/Publish/Existing/Refresh.antt =====
-- publish/src/lib.rs, `check_existing_mp`: what is done about an open proposal whose run is known.
-- The branch name that the source looks up and never reads is left out.
use Prim.Native.String.{◌++◌ as str_append}
use janitor.Base.{
  String, ℕ, Option, none, some, [], ◌∷◌, ◌++◌, Bool, true, false, ◌||◌, not, str_eq, if◌then◌else◌,
  unwrap_or, Outcome, ok, err, panic, ◌⊎◌, inl, inr,
}
use janitor.Base.Int.{ℤ, pos, ltb_ℤ}
use janitor.Publish.Backoff.{run_sufficient_for_proposal}
use janitor.Publish.Run.{Run, ResultBranch, get_result_branch}
use janitor.Publish.Database.{opt_is}
use janitor.Publish.Policy.Types.{Campaign, Environment}
use janitor.Publish.Policy.Gates.{age_days}
use janitor.Publish.Existing.Types.{
  brz, OpenError, missing, Branch, MergeProposalHandle, ForgeEnvironment, Reschedule, EffectiveRun,
  retargeted, ScanWorld, Checked, MergeProposalRun, Gathered,
}
use janitor.Publish.Existing.Guess.{opt_eq, trim_trailing_slash}
use janitor.Publish.Existing.Close.{
  as_abandoned, as_applied, close_proposal, applied_comment, trivial_comment,
}
use janitor.Publish.Existing.Republish.{republish}

abbrev pub existing_run_retry_interval_days : ℤ
existing_run_retry_interval_days = pos 30

-- Whether two opened branches have one name; none is a panic, on any error but a missing branch.
unfoldable pub same_name : Outcome OpenError Branch → Outcome OpenError Branch → Option Bool
same_name (err missing) b = some false
same_name (err _) b = none
same_name panic b = none
same_name (ok branch) (err missing) = some false
same_name (ok branch) (err _) = none
same_name (ok branch) panic = none
same_name (ok branch) (ok branch') = some (opt_eq branch.name branch'.name)

-- The URL without its parameters, with redirects followed; none if it no longer parses.
unfoldable pub repository_of : ForgeEnvironment → String → Option String
repository_of forge url = elim (forge.parse_url (trim_trailing_slash url)) [
  | none ↦ none
  | some parts ↦ some (
      trim_trailing_slash
        (forge.resolve_redirects (forge.repository_url (trim_trailing_slash url))))
]

unfoldable pub same_repository : Option String → Option String → Bool
same_repository (some a) (some b) = str_eq a b
same_repository _ _ = false

-- The requests that resolve redirects are taken to return.
unfoldable pub branches_match : ForgeEnvironment → Option String → Option String → Option Bool
branches_match forge none none = some true
branches_match forge none (some b) = some false
branches_match forge (some a) none = some false
branches_match forge (some a) (some b) =
    if str_eq a b
    then some true
    else if not (same_repository (repository_of forge a) (repository_of forge b))
    then some false
    else same_name (forge.open_branch a) (forge.open_branch b)

-- `url.parse().ok()`
unfoldable pub parsed : Environment → String → Option String
parsed env url = if env.parses_url url then some url else none

-- The calls of `do_schedule` whose answer is only logged.
unfoldable pub reschedule : Reschedule → ScanWorld → ScanWorld
reschedule call w = record w { rescheduled = w.rescheduled ++ call ∷ [] }

-- The last run failed: a transient or an old failure is tried again.
unfoldable pub retry_requester : ℕ → EffectiveRun → Option String
retry_requester now last =
    if unwrap_or last.failure_transient false
    then some "publisher (transient error)"
    else if ltb_ℤ existing_run_retry_interval_days (age_days now last.run.finish_time)
    then some "publisher (retrying old failed run)"
    else none

unfoldable pub retry_failed : ℕ → EffectiveRun → ScanWorld → ScanWorld
retry_failed now last w = elim (retry_requester now last) [
  | none ↦ w
  | some requester ↦
      reschedule
        (record {
          campaign = last.run.suite;
          codebase = last.run.codebase;
          change_set = some last.run.change_set;
          refresh = false;
          requester = requester;
        })
        w
]

-- The comment on a proposal whose role has another branch now.
unfoldable pub moved_comment : String → String → String → String
moved_comment role old new =
    str_append "This merge proposal will be closed, since the branch for the role '" (
      str_append role (
        str_append "' has changed from " (str_append old (str_append " to " (str_append new ".")))))

-- The same run: a proposal that cannot be merged is rescheduled.
unfoldable pub reschedule_conflict : MergeProposalRun → Gathered → ScanWorld → ScanWorld
reschedule_conflict mp_run g w = elim g.can_be_merged [
  | some false ↦
      reschedule
        (record {
          campaign = mp_run.campaign;
          codebase = mp_run.codebase;
          change_set = mp_run.change_set;
          refresh = true;
          requester = "publisher (merge conflict)";
        })
        w
  | _ ↦ w
]

-- The branch of the role has another name now: the target from here on, or an answer. After a
-- rename the target is the URL of the old branch.
unfoldable pub follow_rename :
    Environment
    → MergeProposalHandle
    → String
    → MergeProposalRun
    → Gathered
    → String
    → Option String
    → ScanWorld
    → (Option String × ScanWorld) ⊎ Checked
follow_rename env mp url mp_run g new target w =
    if str_eq new mp_run.remote_branch_name || str_eq new ""
    then inl (target, w)
    else if str_eq mp_run.remote_branch_name ""
    then inr (ok false, w)
    else (let asked : ScanWorld = record w { calls = w.calls ++ retargeted url new ∷ [] } in
        elim (mp.set_target_branch_name new) [
          | ok done ↦ inl (
            (if env.parses_url mp_run.branch_url
                then some (env.role_branch_url mp_run.branch_url mp_run.remote_branch_name)
                else target),
            asked,
          )
          | err e ↦ inr (
              close_proposal env mp url as_abandoned g mp_run.codebase target
                (moved_comment mp_run.role mp_run.remote_branch_name new) asked)
          | panic ↦ inr (err brz, asked)
        ])

-- With the role's branch of the last run.
unfoldable pub refresh_branch :
    Environment
    → ForgeEnvironment
    → Campaign
    → MergeProposalHandle
    → String
    → MergeProposalRun
    → Gathered
    → Run
    → ResultBranch
    → Option String
    → ScanWorld
    → Checked
refresh_branch env forge campaign mp url mp_run g run branch target w =
    elim (branches_match forge (parsed env mp_run.branch_url) (parsed env run.branch_url)) [
      | none ↦ (panic, w)
      | some false ↦ (ok false, w)
      | some true ↦
          if opt_is mp_run.id run.id
          then (ok false, reschedule_conflict mp_run g w)
          else republish env campaign mp url mp_run g run branch target w
    ]

unfoldable pub after_rename :
    Environment
    → ForgeEnvironment
    → Campaign
    → MergeProposalHandle
    → String
    → MergeProposalRun
    → Gathered
    → Run
    → ResultBranch
    → (Option String × ScanWorld) ⊎ Checked
    → Checked
after_rename env forge campaign mp url mp_run g run branch (inl (target, w)) =
    refresh_branch env forge campaign mp url mp_run g run branch target w
after_rename env forge campaign mp url mp_run g run branch (inr answer) = answer

-- A successful last run.
unfoldable pub refresh_successful :
    Environment
    → ForgeEnvironment
    → Campaign
    → MergeProposalHandle
    → String
    → MergeProposalRun
    → Gathered
    → Run
    → Option String
    → ScanWorld
    → Checked
refresh_successful env forge campaign mp url mp_run g run target w =
    if not (run_sufficient_for_proposal campaign.value_threshold (some mp_run.value))
    then close_proposal env mp url as_abandoned g mp_run.codebase target trivial_comment w
    else elim (get_result_branch run mp_run.role) [
      | none ↦ (ok false, w)
      | some branch ↦
          after_rename env forge campaign mp url mp_run g run branch
            (follow_rename env mp url mp_run g branch.remote_name target w)
    ]

-- The target by the forge, or else the run's branch.
abbrev pub target_or : Environment → String → Option String → Option String
target_or env branch_url none = parsed env branch_url
target_or env branch_url (some target) = some target

unfoldable pub refresh_run :
    Environment
    → ForgeEnvironment
    → Campaign
    → MergeProposalHandle
    → String
    → MergeProposalRun
    → Gathered
    → EffectiveRun
    → ScanWorld
    → Checked
refresh_run env forge campaign mp url mp_run g last w =
    let target : Option String = target_or env mp_run.branch_url g.target_branch_url in
    if str_eq last.run.result_code "nothing-to-do"
    then close_proposal env mp url as_applied g mp_run.codebase target applied_comment w
    else if not (str_eq last.run.result_code "success")
    then (ok false, retry_failed env.now last w)
    else refresh_successful env forge campaign mp url mp_run g last.run target w
