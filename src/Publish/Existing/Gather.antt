-- ===== src/Publish/Existing/Gather.antt =====
-- publish/src/lib.rs, `check_existing_mp`: what the forge, the branches and the tables say about a
-- proposal.
use janitor.Base.{
  String, Option, none, some, Bool, true, false, ◌&&◌, ◌||◌, not, Outcome, ok, err, panic,
}
use janitor.Publish.Mode.{MergeProposalStatus, open_, merged, applied, closed, abandoned, rejected}
use janitor.Publish.Database.{MergeProposal}
use janitor.Publish.Existing.Types.{
  BrzError, ForgeStatus, forge_open, forge_merged, forge_closed, forge_all, status_eq, Branch,
  MergeProposalHandle, ForgeEnvironment, Tables, Gathered,
}
use janitor.Publish.Existing.Guess.{
  opt_eq, guess_codebase_from_branch_url, guess_proposal_info_from_revision,
  guess_rate_limit_bucket,
}

-- An error is only logged.
unfoldable pub answered : Outcome BrzError (Option String) → Option String
answered (ok a) = a
answered (err e) = none
answered panic = none

unfoldable pub answered_bool : Outcome BrzError Bool → Option Bool
answered_bool (ok b) = some b
answered_bool (err e) = none
answered_bool panic = none

unfoldable pub panicked : {A : Type 0} → Outcome BrzError A → Bool
panicked (ok a) = false
panicked (err e) = false
panicked panic = true

-- Whether one of the four tasks fails.
unfoldable pub fetch_fails : MergeProposalHandle → Bool
unfolding panicked
fetch_fails mp =
    panicked mp.source_revision
    || panicked mp.source_branch_url
    || panicked mp.can_be_merged
    || panicked mp.target_branch_url

unfoldable pub or_option : Option String → Option String → Option String
or_option none other = other
or_option (some s) other = some s

-- The branch that is opened where the forge does not know the revision.
unfoldable pub opened_source : ForgeEnvironment → Option String → Option String → Option Branch
opened_source forge (some revision) url = none
opened_source forge none none = none
opened_source forge none (some url) = elim (forge.open_branch url) [
  | ok branch ↦ some branch
  | err e ↦ none
  | panic ↦ none
]

-- The revision by the forge, the opened branch, or the persisted row.
unfoldable pub source_revision :
    Option String → Option Branch → Option MergeProposal → Option String
source_revision (some revision) opened old = some revision
source_revision none (some branch) old = some branch.last_revision
source_revision none none none = none
source_revision none none (some row) = row.revision

-- The name by the opened branch, or the URL.
unfoldable pub source_name : ForgeEnvironment → Option Branch → Option String → Option String
source_name forge opened url =
    or_option (elim opened [ none ↦ none | some branch ↦ branch.name ])
      (elim url [ none ↦ none | some u ↦ forge.branch_parameter u ])

unfoldable pub guess_target :
    ForgeEnvironment → Tables → Option String → Option String → Option String
guess_target forge tables none codebase = codebase
guess_target forge tables (some url) codebase =
    or_option (guess_codebase_from_branch_url forge tables url) codebase

unfoldable pub guess_revision : Tables → Option String → Option String × Option String
guess_revision tables none = (none, none)
guess_revision tables (some revision) = elim (guess_proposal_info_from_revision tables revision) [
  | none ↦ (none, none)
  | some (codebase, bucket) ↦ (some codebase, bucket)
]

-- The codebase and the bucket; without a bucket they are guessed.
unfoldable pub guess_info :
    ForgeEnvironment
    → Tables
    → Option String
    → Option String
    → Option String
    → Option String
    → Option String
    → Option String × Option String
guess_info forge tables (some bucket) codebase target revision name = (codebase, some bucket)
guess_info forge tables none codebase target revision name =
    elim (guess_target forge tables target codebase) [
      | none ↦ guess_revision tables revision
      | some found ↦ elim name [
        | none ↦ (some found, none)
        | some branch ↦ (some found, guess_rate_limit_bucket tables found branch)
      ]
    ]

unfoldable pub from_forge : ForgeStatus → MergeProposalStatus
from_forge forge_open = open_
from_forge forge_merged = merged
from_forge forge_closed = closed
from_forge forge_all = open_

-- A closed proposal keeps what the publisher knows better.
unfoldable pub carry_forward : MergeProposalStatus → MergeProposalStatus → MergeProposalStatus
carry_forward closed abandoned = abandoned
carry_forward closed applied = applied
carry_forward closed rejected = rejected
carry_forward closed _ = closed
carry_forward open_ _ = open_
carry_forward merged _ = merged
carry_forward applied _ = applied
carry_forward abandoned _ = abandoned
carry_forward rejected _ = rejected

unfoldable pub effective_status : ForgeStatus → Option MergeProposal → MergeProposalStatus
effective_status status none = from_forge status
effective_status status (some row) = carry_forward (from_forge status) row.status

unfoldable pub old_codebase : Option MergeProposal → Option String
old_codebase none = none
old_codebase (some row) = row.codebase

unfoldable pub old_bucket : Option MergeProposal → Option String
old_bucket none = none
old_bucket (some row) = row.rate_limit_bucket

unfoldable pub gather :
    ForgeEnvironment → Tables → MergeProposalHandle → ForgeStatus → Option MergeProposal → Gathered
gather forge tables mp status old =
    let url : Option String = answered mp.source_branch_url in
    let opened : Option Branch = opened_source forge (answered mp.source_revision) url in
    let revision : Option String = source_revision (answered mp.source_revision) opened old in
    let target : Option String = answered mp.target_branch_url in
    let name : Option String = source_name forge opened url in
    let info : Option String × Option String =
      guess_info forge tables (old_bucket old) (old_codebase old) target revision name in
    record {
      revision = revision;
      source_branch_name = name;
      target_branch_url = target;
      can_be_merged = answered_bool mp.can_be_merged;
      codebase = info.0;
      rate_limit_bucket = info.1;
      status = effective_status status old;
    }

unfoldable pub opt_bool_eq : Option Bool → Option Bool → Bool
opt_bool_eq none none = true
opt_bool_eq (some true) (some true) = true
opt_bool_eq (some false) (some false) = true
opt_bool_eq _ _ = false

unfoldable pub needs_update : Option MergeProposal → Gathered → Bool
needs_update none g = true
needs_update (some row) g = not (
    status_eq row.status g.status
    && opt_eq row.revision g.revision
    && opt_eq row.target_branch_url g.target_branch_url
    && opt_eq row.rate_limit_bucket g.rate_limit_bucket
    && opt_bool_eq row.can_be_merged g.can_be_merged)
