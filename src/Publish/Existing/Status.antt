-- ===== src/Publish/Existing/Status.antt =====
-- A check of a proposal whose row is known (`check_existing_mp`, publish/src/lib.rs), where it acts
-- on nothing: whether the proposal is fetched, and what its row says then.
use janitor.Base.{
  String, ℕ, ◌≡◌, ◌≢◌, refl, ap, Option, none, some, List, [], ◌∷◌, Bool, true, false, ◌⊎◌, inl,
  inr, Bool-cases, Outcome, ok, err, panic, str_eq, eq_iff, arith,
}
use janitor.Publish.Mode.{MergeProposalStatus, open_, merged}
use janitor.Publish.Database.{MergeProposal}
use janitor.Publish.Existing.Types.{
  CheckMpError, ForgeStatus, forge_open, forge_merged, forge_closed, forge_all, forge_status_eq,
  status_eq, MergeProposalHandle, ScanWorld, Checked, Gathered, MergeProposalRun, brz,
}
use janitor.Publish.Existing.Proposals.{
  persisted_kind, should_skip_per_mp_fetch, is_fresh, fresh_threshold, get_proposal_info, touch,
  put_proposal, bump_last_scanned, update_proposal_info, finish_no_action, count_proposal,
}
use janitor.Publish.Existing.Gather.{
  from_forge, carry_forward, effective_status, gather, needs_update, fetch_fails, answered,
}
use janitor.Publish.Existing.Runs.{get_merge_proposal_run}
use janitor.Publish.Existing.Check.{
  Setting, skips, check_existing_mp, check_known, check_url, fetch_and_record, record_gathered, act,
  gathered_row,
}

-- Without a fetch the persisted status is of the forge's kind, and with one it becomes the forge's,
-- which is another kind unless the proposal is open.
abbrev Follows : Bool → ForgeStatus → MergeProposalStatus → MergeProposalStatus → Type 0
Follows skipped status persisted effective =
    ((skipped ≡ true) × (persisted_kind persisted ≡ status))
    ⊎ ((skipped ≡ false)
        × ((persisted_kind persisted ≢ status) ⊎ (status ≡ forge_open))
        × (effective ≡ from_forge status))

should_skip-Follows :
    (status : ForgeStatus) (persisted : MergeProposalStatus) (last : Option ℕ) (now threshold : ℕ)
    → status ≢ forge_all
    → Follows
        (should_skip_per_mp_fetch status persisted last now threshold)
        status
        persisted
        (carry_forward (from_forge status) persisted)
unfolding should_skip_per_mp_fetch persisted_kind forge_status_eq carry_forward from_forge
should_skip-Follows forge_open open_ last now threshold h =
    elim (Bool-cases (is_fresh last now threshold)) [
      | inl e ↦ inl (e, refl)
      | inr e ↦ inr (e, inr refl, refl)
    ]
should_skip-Follows forge_open _ last now threshold h = inr (refl, inr refl, refl)
should_skip-Follows forge_merged merged last now threshold h = inl (refl, refl)
should_skip-Follows forge_merged _ last now threshold h = inr (refl, inl (λ e. cc e), refl)
should_skip-Follows forge_closed open_ last now threshold h = inr (refl, inl (λ e. cc e), refl)
should_skip-Follows forge_closed merged last now threshold h = inr (refl, inl (λ e. cc e), refl)
should_skip-Follows forge_closed _ last now threshold h = inl (refl, refl)
should_skip-Follows forge_all _ last now threshold h = absurd (h refl)

-- The row of a URL has this status.
abbrev pub HasStatus : String → MergeProposalStatus → List MergeProposal → Type 0
HasStatus url status rows =
    (row : MergeProposal) × (get_proposal_info url rows ≡ some row) × (row.status ≡ status)

touch-HasStatus :
    (now : ℕ) (url : String) (row : MergeProposal) (rows : List MergeProposal)
    → get_proposal_info url rows ≡ some row
    → HasStatus url row.status (touch now url rows)
unfolding get_proposal_info touch
touch-HasStatus now url row [] e = absurd (cc e)
touch-HasStatus now url row (old ∷ rows) e = elim (Bool-cases (str_eq old.url url)) [
  | inl f ↦
      let same : old ≡ row = cc (rw f at e) in
      (
        record old { last_scanned = some now },
        rw (f, f) refl,
        ap (λ (r : MergeProposal). r.status) same,
      )
  | inr f ↦
      let later = touch-HasStatus now url row rows (rw f at e) in
      (later.0, rw (f, f) later.1, later.2)
]

put-HasStatus :
    (row : MergeProposal) (rows : List MergeProposal)
    → HasStatus row.url row.status (put_proposal row rows)
unfolding get_proposal_info put_proposal
put-HasStatus row [] = (row, ground (arith, eq_iff row.url row.url), refl)
put-HasStatus row (old ∷ rows) = elim (Bool-cases (str_eq old.url row.url)) [
  | inl f ↦ (row, ground (arith, f, eq_iff row.url row.url), refl)
  | inr f ↦ let later = put-HasStatus row rows in (later.0, rw (f, f) later.1, later.2)
]

status_eq-eq : (a b : MergeProposalStatus) → status_eq a b ≡ true → a ≡ b
unfolding status_eq
status_eq-eq a b e = ground (arith, e)

unchanged-status :
    (row : MergeProposal) (g : Gathered) → needs_update (some row) g ≡ false → row.status ≡ g.status
unfolding needs_update
unchanged-status row g e = status_eq-eq row.status g.status (ground (arith, e))

-- A passive check after the fetch.
abbrev Records : String → Gathered → Checked → Type 0
Records url g c =
    c.0 ≡ ok false
    → g.target_branch_url ≢ none
    → HasStatus url g.status c.1.world.db.merge_proposals

counted-rows :
    (status : MergeProposalStatus) (bucket : Option String) (w : ScanWorld)
    → (count_proposal status bucket w).world.db.merge_proposals ≡ w.world.db.merge_proposals
unfolding count_proposal
counted-rows status bucket w = ground arith

act-rows :
    (s : Setting) (mp : MergeProposalHandle) (url : String) (status : ForgeStatus) (g : Gathered)
    → (run : Option MergeProposalRun) → (w : ScanWorld)
    → (act s mp url status true g run w).1.world.db.merge_proposals ≡ w.world.db.merge_proposals
unfolding act
act-rows s mp url status g run w = elim (Bool-cases (forge_status_eq status forge_open)) [
  | inl e ↦ rw (e, act) (counted-rows g.status g.rate_limit_bucket w)
  | inr e ↦ rw (e, act) (counted-rows g.status g.rate_limit_bucket w)
]

changed-Records :
    (s : Setting) (mp : MergeProposalHandle) (url : String) (status : ForgeStatus) (g : Gathered)
    → (w : ScanWorld) → (o : Outcome CheckMpError (Option MergeProposalRun))
    → get_merge_proposal_run w.world.db.merge_proposals s.tables url ≡ o
    → (t : Option String) → g.target_branch_url ≡ t
    → Records url g (record_gathered s mp url status true true g w)
unfolding record_gathered update_proposal_info gathered_row
changed-Records s mp url status g w (err x) e t f answer target =
    absurd (cc (rw (e, record_gathered) at answer))
changed-Records s mp url status g w panic e t f answer target =
    absurd (cc (rw (e, record_gathered) at answer))
changed-Records s mp url status g w (ok run) e none f answer target = absurd (target f)
changed-Records s mp url status g w (ok run) e (some t) f answer target =
    let row = gathered_row s.env.now url g t in
    simp (e, f, record_gathered)
      (rw (act-rows s mp url status g run (update_proposal_info row w))
        (put-HasStatus row w.world.db.merge_proposals))

record_gathered-Records :
    (s : Setting) (mp : MergeProposalHandle) (url : String) (status : ForgeStatus) (g : Gathered)
    → (row : MergeProposal) → (w : ScanWorld)
    → get_proposal_info url w.world.db.merge_proposals ≡ some row
    → Records url g (record_gathered s mp url status true (needs_update (some row) g) g w)
unfolding record_gathered bump_last_scanned
record_gathered-Records s mp url status g row w found =
    elim (Bool-cases (needs_update (some row) g)) [
      | inl e ↦ rw e (changed-Records s mp url status g w _ refl _ refl)
      | inr e ↦ rw e (λ answer target.
          rw (act-rows s mp url status g none (bump_last_scanned s.env.now url w)) (
            rw (← unchanged-status row g e)
              (touch-HasStatus s.env.now url row w.world.db.merge_proposals found)))
    ]

-- What a passive check of a known proposal does: it trusts the row, and then only notes the time and
-- counts; or it fetches.
abbrev pub FollowsForge :
    Setting
    → MergeProposalHandle
    → String
    → ForgeStatus
    → MergeProposal
    → ScanWorld
    → Checked
    → Type 0
FollowsForge s mp url status row w c =
    ((persisted_kind row.status ≡ status)
      × (c ≡ finish_no_action row.status row.rate_limit_bucket (bump_last_scanned s.env.now url w)))
    ⊎ (((persisted_kind row.status ≢ status) ⊎ (status ≡ forge_open))
        × (fetch_fails mp ≡ true → c ≡ (err brz, w))
        × (c.0 ≡ ok false
            → answered mp.target_branch_url ≢ none
            → HasStatus url (from_forge status) c.1.world.db.merge_proposals))

fetched :
    (s : Setting) (mp : MergeProposalHandle) (url : String) (status : ForgeStatus)
    → (row : MergeProposal) → (w : ScanWorld)
    → get_proposal_info url w.world.db.merge_proposals ≡ some row
    → effective_status status (some row) ≡ from_forge status
    → let c = fetch_and_record s mp url status true (some row) w in
      (fetch_fails mp ≡ true → c ≡ (err brz, w))
      × (c.0 ≡ ok false
          → answered mp.target_branch_url ≢ none
          → HasStatus url (from_forge status) c.1.world.db.merge_proposals)
unfolding fetch_and_record gather
fetched s mp url status row w found same = elim (Bool-cases (fetch_fails mp)) [
  | inl e ↦ rw (e, fetch_and_record) (λ f. refl, λ f. absurd (cc f))
  | inr e ↦
      let g : Gathered = gather s.forge s.tables mp status (some row) in
      rw (e, fetch_and_record)
        (λ f. absurd (cc f), rw (← same) (record_gathered-Records s mp url status g row w found))
]

-- A check of a proposal that the publisher knows, made with `check_only`, does one of two things.
-- It trusts the row, whose status is then of the forge's kind, and only notes the time of the scan
-- and counts the proposal: so one that is abandoned, applied or rejected is not fetched while the
-- forge has it closed. Or it fetches the proposal, which is then open or of another kind than the
-- row says: it fails if the fetch fails, and a check that answers has given the row the forge's
-- status, if the forge names the target branch.
pub check_existing_mp-FollowsForge :
    (s : Setting) (mp : MergeProposalHandle) (url : String) (status : ForgeStatus)
    → (row : MergeProposal) → (w : ScanWorld) → mp.url ≡ ok url
    → get_proposal_info url w.world.db.merge_proposals ≡ some row
    → status ≢ forge_all
    → FollowsForge s mp url status row w (check_existing_mp s mp status true w)
unfolding check_existing_mp check_known check_url skips effective_status
check_existing_mp-FollowsForge s mp url status row w named found h =
    elim (should_skip-Follows status row.status row.last_scanned s.env.now fresh_threshold h) [
      | inl (e, kind) ↦ simp (named, found, e, check_known, check_url) (inl (kind, refl))
      | inr (e, kind, same) ↦
          simp (named, found, e, check_known, check_url)
            (let done = fetched s mp url status row w found same in inr (kind, done.0, done.1))
    ]
