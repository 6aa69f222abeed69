-- ===== src/Publish/Existing/Proposals.antt =====
-- publish/src/proposal_info.rs and publish/src/lib.rs: the rows of `merge_proposal`, and the count of
-- proposals per bucket. Who merged a proposal, the triggers and the message on the channel
-- `merge-proposal` are left out.
use janitor.Base.{
  String, ℕ, ◌-◌, ◌*◌, Option, none, some, List, [], ◌∷◌, map, Bool, true, false, not, str_eq, leb,
  if◌then◌else◌, unwrap_or, ok, Dict,
}
use janitor.Publish.Mode.{MergeProposalStatus, open_, merged, applied, closed, abandoned, rejected}
use janitor.Publish.Backoff.{hour}
use janitor.Publish.RateLimiter.{MpsPerBucket, count_one}
use janitor.Publish.Database.{MergeProposal, NewResultBranch, opt_is}
use janitor.Publish.Existing.Types.{
  ForgeStatus, forge_open, forge_merged, forge_closed, forge_status_eq, status_eq, ScanWorld,
  Checked,
}

unfoldable pub get_proposal_info : String → List MergeProposal → Option MergeProposal
get_proposal_info url [] = none
get_proposal_info url (row ∷ rows) =
    if str_eq row.url url then some row else get_proposal_info url rows

-- `UPDATE merge_proposal SET last_scanned = NOW() WHERE url = $1`
unfoldable pub touch : ℕ → String → List MergeProposal → List MergeProposal
touch now url [] = []
touch now url (row ∷ rows) =
    (if str_eq row.url url then record row { last_scanned = some now } else row)
    ∷ touch now url rows

unfoldable pub bump_last_scanned : ℕ → String → ScanWorld → ScanWorld
bump_last_scanned now url w = record w {
  world = record w.world {
    db = record w.world.db { merge_proposals = touch now url w.world.db.merge_proposals };
  };
}

-- `INSERT INTO merge_proposal ... ON CONFLICT (url) DO UPDATE SET` every column.
unfoldable pub put_proposal : MergeProposal → List MergeProposal → List MergeProposal
put_proposal row [] = row ∷ []
put_proposal row (old ∷ rows) =
    if str_eq old.url row.url then row ∷ rows else old ∷ put_proposal row rows

-- `UPDATE new_result_branch SET absorbed = $1 WHERE revision = $2`
unfoldable pub set_absorbed : Bool → String → NewResultBranch → NewResultBranch
set_absorbed absorbed revision b =
    if opt_is b.revision revision then record b { absorbed = absorbed } else b

unfoldable pub absorb_revision : MergeProposal → List NewResultBranch → List NewResultBranch
absorb_revision row branches = elim row.revision [
  | none ↦ branches
  | some revision ↦ map (set_absorbed (status_eq row.status merged) revision) branches
]

-- The transaction of `update_proposal_info`, for the row that it writes.
unfoldable pub update_proposal_info : MergeProposal → ScanWorld → ScanWorld
update_proposal_info row w = record w {
  world = record w.world {
    db = record w.world.db {
      merge_proposals = put_proposal row w.world.db.merge_proposals;
      new_result_branches = absorb_revision row w.world.db.new_result_branches;
    };
  };
}

unfoldable pub set_status : MergeProposalStatus → Dict ℕ → MpsPerBucket → MpsPerBucket
set_status status counts mps other = if status_eq status other then some counts else mps other

-- `*mps_per_bucket.entry(status).or_default().entry(bucket).or_insert(0) += 1`
unfoldable pub count_mp : MergeProposalStatus → String → MpsPerBucket → MpsPerBucket
count_mp status bucket mps = set_status status (count_one bucket (unwrap_or (mps status) [])) mps

unfoldable pub count_proposal : MergeProposalStatus → Option String → ScanWorld → ScanWorld
count_proposal status none w = w
count_proposal status (some bucket) w = elim w.mps_per_bucket [
  | none ↦ w
  | some mps ↦ record w { mps_per_bucket = some (count_mp status bucket mps) }
]

unfoldable pub finish_no_action : MergeProposalStatus → Option String → ScanWorld → Checked
finish_no_action status bucket w = (ok false, count_proposal status bucket w)

-- The forge's status of a persisted one.
unfoldable pub persisted_kind : MergeProposalStatus → ForgeStatus
persisted_kind open_ = forge_open
persisted_kind merged = forge_merged
persisted_kind closed = forge_closed
persisted_kind abandoned = forge_closed
persisted_kind applied = forge_closed
persisted_kind rejected = forge_closed

abbrev pub fresh_threshold : ℕ
fresh_threshold = 24 * hour

-- A time in the future counts as recent, as in the source, where the difference is then negative.
unfoldable pub is_fresh : Option ℕ → ℕ → ℕ → Bool
is_fresh none now threshold = false
is_fresh (some last_scanned) now threshold = leb (now - last_scanned) threshold

unfoldable pub should_skip_per_mp_fetch :
    ForgeStatus → MergeProposalStatus → Option ℕ → ℕ → ℕ → Bool
should_skip_per_mp_fetch forge_status persisted last_scanned now threshold =
    if not (forge_status_eq (persisted_kind persisted) forge_status)
    then false
    else if not (forge_status_eq forge_status forge_open)
    then true
    else is_fresh last_scanned now threshold
