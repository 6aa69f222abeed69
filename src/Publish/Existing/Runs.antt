-- ===== src/Publish/Existing/Runs.antt =====
-- publish/src/state.rs: the run behind a proposal, and the last effective run.
use janitor.Base.{
  String, Option, none, some, List, [], ◌∷◌, ◌&&◌, str_eq, ltb, find, if◌then◌else◌, unwrap_or,
  Outcome, ok, err,
}
use janitor.Publish.Run.{Run, ResultBranch}
use janitor.Publish.Database.{MergeProposal, opt_is}
use janitor.Publish.Existing.Types.{CheckMpError, database, Tables, EffectiveRun, MergeProposalRun}
use janitor.Publish.Existing.Proposals.{get_proposal_info}

-- The later of two rows by `finish_time`.
later_run : Run × ResultBranch → Option (Run × ResultBranch) → Option (Run × ResultBranch)
later_run row none = some row
later_run (run, branch) (some (run', branch')) =
    if ltb run.finish_time run'.finish_time then some (run', branch') else some (run, branch)

later_branches :
    String → Run → List ResultBranch → Option (Run × ResultBranch) → Option (Run × ResultBranch)
unfolding later_run
later_branches revision run [] best = best
later_branches revision run (b ∷ rest) best =
    let others : Option (Run × ResultBranch) = later_branches revision run rest best in
    if opt_is b.revision revision then later_run (run, b) others else others

-- `WHERE rb.revision = ... ORDER BY run.finish_time DESC LIMIT 1`
unfoldable pub run_of_revision : String → List Run → Option (Run × ResultBranch)
unfolding later_branches
run_of_revision revision [] = none
run_of_revision revision (run ∷ runs) =
    later_branches revision run (unwrap_or run.result_branches []) (run_of_revision revision runs)

-- A run without a value fails to decode.
unfoldable pub get_merge_proposal_run :
    List MergeProposal → Tables → String → Outcome CheckMpError (Option MergeProposalRun)
get_merge_proposal_run proposals tables url = elim (get_proposal_info url proposals) [
  | none ↦ ok none
  | some row ↦ elim row.revision [
    | none ↦ ok none
    | some revision ↦ elim (run_of_revision revision tables.runs) [
      | none ↦ ok none
      | some (run, branch) ↦ elim run.value [
        | none ↦ err database
        | some value ↦ ok (
            some (record {
              id = some run.id;
              campaign = run.suite;
              branch_url = run.branch_url;
              command = run.command;
              value = value;
              role = branch.role;
              remote_branch_name = branch.remote_name;
              revision = revision;
              codebase = run.codebase;
              change_set = some run.change_set;
            }))
      ]
    ]
  ]
]

unfoldable pub get_last_effective_run : Tables → String → String → Option EffectiveRun
get_last_effective_run tables codebase campaign =
    find (λ (e : EffectiveRun). str_eq e.run.codebase codebase && str_eq e.run.suite campaign)
      tables.effective_runs
