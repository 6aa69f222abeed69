-- ===== src/Publish/Existing/Close.antt =====
-- publish/src/lib.rs: `abandon_mp`, `close_applied_mp`, and where `check_existing_mp` calls them.
use janitor.Base.{
  String, ℕ, Option, none, some, [], ◌∷◌, ◌++◌, true, false, if◌then◌else◌, ok, err, panic,
}
use janitor.Publish.Mode.{MergeProposalStatus, applied, abandoned}
use janitor.Publish.Database.{MergeProposal}
use janitor.Publish.Policy.Types.{Environment}
use janitor.Publish.Existing.Types.{
  BrzError, other, MergeProposalHandle, commented, closed_on_forge, ScanWorld, Checked, Gathered,
}
use janitor.Publish.Existing.Proposals.{update_proposal_info}

pub data AbandonMode : Type 0 where
  as_abandoned as_applied : AbandonMode

unfoldable pub status_of_mode : AbandonMode → MergeProposalStatus
status_of_mode as_abandoned = abandoned
status_of_mode as_applied = applied

-- The row that is written before the proposal is closed.
unfoldable pub closing_row :
    ℕ → String → AbandonMode → Gathered → Option String → String → String → MergeProposal
closing_row now url mode g codebase revision target = record {
  url = url;
  status = status_of_mode mode;
  revision = some revision;
  last_scanned = some now;
  target_branch_url = some target;
  codebase = codebase;
  can_be_merged = g.can_be_merged;
  rate_limit_bucket = g.rate_limit_bucket;
}

-- The row is written and the comment posted, whether or not the forge then closes the proposal. An
-- answer to the comment is only logged, but a task that panics ends the call.
unfoldable pub abandon_or_close :
    Environment
    → MergeProposalHandle
    → String
    → AbandonMode
    → Gathered
    → Option String
    → String
    → String
    → String
    → ScanWorld
    → Option BrzError × ScanWorld
abandon_or_close env mp url mode g codebase revision target comment w =
    let row : MergeProposal = closing_row env.now url mode g codebase revision target in
    let stored : ScanWorld = update_proposal_info row w in
    let posted : ScanWorld = record stored { calls = w.calls ++ commented url comment ∷ [] } in
    let shut : ScanWorld = record posted { calls = posted.calls ++ closed_on_forge url ∷ [] } in
    if env.parses_url target
    then elim (mp.post_comment comment) [
      | panic ↦ (some other, posted)
      | _ ↦ elim mp.close [
        | ok done ↦ (none, shut)
        | err e ↦ (some e, shut)
        | panic ↦ (some other, shut)
      ]
    ]
    else (some other, w)

abbrev pub applied_comment : String
applied_comment =
    "This merge proposal will be closed, since all remaining changes have been applied independently."

abbrev pub trivial_comment : String
trivial_comment = "This merge proposal will be closed, since only trivial changes are left."

-- Whether the proposal was closed; without a revision and a target nothing is done.
unfoldable pub close_proposal :
    Environment
    → MergeProposalHandle
    → String
    → AbandonMode
    → Gathered
    → String
    → Option String
    → String
    → ScanWorld
    → Checked
close_proposal env mp url mode g codebase target comment w = elim g.revision [
  | none ↦ (ok false, w)
  | some revision ↦ elim target [
    | none ↦ (ok false, w)
    | some t ↦
        let done : Option BrzError × ScanWorld =
          abandon_or_close env mp url mode g (some codebase) revision t comment w in
        (ok (elim done.0 [ none ↦ true | some e ↦ false ]), done.1)
  ]
]
