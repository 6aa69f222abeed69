-- ===== src/Publish/Existing/Scan.antt =====
-- publish/src/lib.rs: `iter_all_mps` and `check_existing`, the scan of all proposals. Counts that are
-- only logged or published as metrics are left out.
use janitor.Base.{
  String, ℕ, suc, ◌+◌, ◌/◌, Option, none, some, List, [], ◌∷◌, ◌++◌, Bool, true, false, ltb,
  if◌then◌else◌, unwrap_or, Outcome, ok, err, panic, Dict, lookup, insert, remove,
}
use janitor.Base.Int.{ℤ, pos, ltb_ℤ}
use janitor.Publish.Backoff.{hour}
use janitor.Publish.RateLimiter.{RateLimiter, MpsPerBucket, set_mps_per_bucket}
use janitor.Publish.Policy.Types.{World}
use janitor.Publish.Existing.Types.{
  BrzError, CheckMpError, branch_rate_limited, unexpected_http_status, database, invalid_identifier,
  ForgeStatus, forge_open, forge_closed, forge_merged, MergeProposalHandle, ScanWorld, Checked,
}
use janitor.Publish.Existing.Check.{Setting, check_existing_mp}

pub data ForgeRateLimitDecision : Type 0 where
  not_limited backoff expired : ForgeRateLimitDecision

unfoldable pub classify_forge_rate_limit : Option ℕ → ℕ → ForgeRateLimitDecision
classify_forge_rate_limit none now = not_limited
classify_forge_rate_limit (some deadline) now = if ltb now deadline then backoff else expired

-- A forge, with what it answers when its proposals of one status are listed.
pub record Forge : Type 0 where
  pub base_url : String
  pub proposals : ForgeStatus → Outcome BrzError (List (Outcome BrzError MergeProposalHandle))

pub record ScanItem : Type 0 where
  pub forge : String
  pub mp : MergeProposalHandle
  pub status : ForgeStatus

unfoldable pub good_items :
    String → ForgeStatus → List (Outcome BrzError MergeProposalHandle) → List ScanItem
good_items forge status [] = []
good_items forge status (ok mp ∷ rest) =
    record { forge = forge; mp = mp; status = status } ∷ good_items forge status rest
good_items forge status (err e ∷ rest) = good_items forge status rest
good_items forge status (panic ∷ rest) = good_items forge status rest

unfoldable pub forge_items : Forge → List ForgeStatus → List ScanItem
forge_items forge [] = []
forge_items forge (status ∷ rest) =
    elim (forge.proposals status) [
      | ok items ↦ good_items forge.base_url status items
      | err e ↦ []
      | panic ↦ []
    ]
    ++ forge_items forge rest

-- A listing that fails, and a proposal that cannot be read, are skipped.
unfoldable pub iter_all_mps : List Forge → List ForgeStatus → List ScanItem
iter_all_mps [] statuses = []
iter_all_mps (forge ∷ rest) statuses = forge_items forge statuses ++ iter_all_mps rest statuses

abbrev pub all_statuses : List ForgeStatus
all_statuses = forge_open ∷ forge_closed ∷ forge_merged ∷ []

-- `forge_limits` is shared by the scans: until when a forge is left alone.
pub record ScanState : Type 0 where
  pub scan : ScanWorld
  pub forge_limits : Dict ℕ
  pub modified : ℕ
  pub unexpected : ℕ
  pub check_only : Bool
  pub was_limited : Bool

pub record Limits : Type 0 where
  pub modify_limit : Option ℤ
  pub unexpected_limit : Option ℤ

-- Whether the error counts as unexpected, and whether it counts as a modification.
unfoldable pub error_is_unexpected : CheckMpError → Bool
error_is_unexpected unexpected_http_status = true
error_is_unexpected database = true
error_is_unexpected invalid_identifier = true
error_is_unexpected _ = false

unfoldable pub error_is_modification : CheckMpError → Bool
error_is_modification unexpected_http_status = true
error_is_modification _ = false

-- `limit.map(|l| n > l).unwrap_or(false)`
unfoldable pub exceeds : ℕ → Option ℤ → Bool
exceeds n none = false
exceeds n (some limit) = ltb_ℤ limit (pos n)

-- What becomes of the scan after a proposal.
pub data Verdict : Type 0 where
  go_on give_up crash : Verdict

unfoldable pub note_modified : Limits → Bool → ScanState → ScanState
note_modified limits false st = st
note_modified limits true st =
    let n : ℕ = st.modified + 1 in
    record st {
      modified = n;
      check_only = if exceeds n limits.modify_limit then true else st.check_only;
    }

-- The limit on what is unexpected, and then that on modifications.
unfoldable pub note_checked : Limits → Bool → Bool → ScanState → Verdict × ScanState
note_checked limits unexpected modified st =
    let seen : ScanState = record st {
      unexpected = if unexpected then st.unexpected + 1 else st.unexpected;
    } in
    if exceeds seen.unexpected limits.unexpected_limit
    then (give_up, seen)
    else (go_on, note_modified limits modified seen)

unfoldable pub limit_forge : ℕ → String → Option ℕ → ScanState → ScanState
limit_forge now forge retry_after st = record st {
  forge_limits = insert forge (now + unwrap_or retry_after (hour / 2)) st.forge_limits;
}

unfoldable pub note_answer :
    Limits → ℕ → String → Outcome CheckMpError Bool → ScanState → Verdict × ScanState
note_answer limits now forge (ok modified) st = note_checked limits false modified st
note_answer limits now forge (err (branch_rate_limited retry_after)) st =
    (go_on, limit_forge now forge retry_after st)
note_answer limits now forge (err e) st =
    note_checked limits (error_is_unexpected e) (error_is_modification e) st
note_answer limits now forge panic st = (crash, st)

unfoldable pub check_item : Setting → Limits → ScanItem → ScanState → Verdict × ScanState
check_item s limits item st =
    let checked : Checked = check_existing_mp s item.mp item.status st.check_only st.scan in
    note_answer limits s.env.now item.forge checked.0 (record st { scan = checked.1 })

-- A proposal of a forge that is left alone for now is passed over.
unfoldable pub scan_item : Setting → Limits → ScanItem → ScanState → Verdict × ScanState
scan_item s limits item st =
    elim (classify_forge_rate_limit (lookup item.forge st.forge_limits) s.env.now) [
      | backoff ↦ (go_on, record st { was_limited = true })
      | expired ↦
          check_item s limits item (record st { forge_limits = remove item.forge st.forge_limits })
      | not_limited ↦ check_item s limits item st
    ]

-- The loop; `meet` is the setting that each check meets.
unfoldable pub scan_items :
    (ℕ → Setting) → Limits → ℕ → List ScanItem → ScanState → Verdict × ScanState
scan_items meet limits n [] st = (go_on, st)
scan_items meet limits n (item ∷ rest) st =
    let here : Verdict × ScanState = scan_item (meet n) limits item st in
    elim here.0 [
      | go_on ↦ scan_items meet limits (suc n) rest here.1
      | give_up ↦ (give_up, here.1)
      | crash ↦ (crash, here.1)
    ]

-- Six statuses with no counts.
unfoldable pub start_scan : World → Dict ℕ → ScanState
start_scan world forge_limits = record {
  scan = record {
    world = world;
    calls = [];
    rescheduled = [];
    mps_per_bucket = some (λ status. some []);
  };
  forge_limits = forge_limits;
  modified = 0;
  unexpected = 0;
  check_only = false;
  was_limited = false;
}

unfoldable pub set_counts : Option MpsPerBucket → RateLimiter → RateLimiter
set_counts none limiter = limiter
set_counts (some mps) limiter = set_mps_per_bucket limiter mps

-- The fresh counts go to the limiter.
unfoldable pub publish_counts : ScanState → ScanState
publish_counts st = record st {
  scan = record st.scan {
    world = record st.scan.world {
      limiter = set_counts st.scan.mps_per_bucket st.scan.world.limiter;
    };
  };
}

unfoldable pub finish_scan : Verdict × ScanState → Outcome CheckMpError Bool × ScanState
finish_scan (go_on, st) = if st.was_limited then (ok false, st) else (ok true, publish_counts st)
finish_scan (give_up, st) = (ok false, st)
finish_scan (crash, st) = (panic, st)

-- Whether the scan was complete.
unfoldable pub check_existing :
    (ℕ → Setting) → Limits → List Forge → World → Dict ℕ → Outcome CheckMpError Bool × ScanState
check_existing meet limits forges world forge_limits =
    finish_scan
      (scan_items meet limits 0 (iter_all_mps forges all_statuses) (start_scan world forge_limits))
