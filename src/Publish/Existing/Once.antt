-- ===== src/Publish/Existing/Once.antt =====
-- A check of a proposal (`check_existing_mp`, publish/src/lib.rs) asks the worker at most once, and
-- acts on an open proposal only.
use janitor.Base.{
  [], ◌∷◌, ◌++◌, ◌⊎◌, String, ◌≡◌, refl, Option, none, some, inl, inr, arith, Bool, true, false,
  not, ◌||◌, Outcome, ok, err, panic, Bool-cases, Option-cases, Outcome-cases,
}
use janitor.Publish.Database.{MergeProposal, Publish}
use janitor.Publish.Existing.Types.{
  BrzError, forge_open, forge_status_eq, ForgeStatus, CheckMpError, MergeProposalHandle, ScanWorld,
  Checked, Gathered, MergeProposalRun,
}
use janitor.Publish.Existing.Proposals.{
  get_proposal_info, bump_last_scanned, update_proposal_info, count_proposal, finish_no_action,
}
use janitor.Publish.Existing.Gather.{gather, fetch_fails, needs_update}
use janitor.Publish.Existing.Runs.{get_merge_proposal_run}
use janitor.Publish.Existing.Check.{
  Setting, act, gathered_row, record_gathered, fetch_and_record, skips, check_url, check_known,
  check_existing_mp,
}
use janitor.Publish.Existing.Effects.{IsActed, IsActed-Same}
use janitor.Publish.Existing.Actions.{IsQuiet, count_proposal-IsQuiet, act-IsActed, act_passive}

IsQuiet-trans : (u v w : ScanWorld) → IsQuiet u v → IsQuiet v w → IsQuiet u w
IsQuiet-trans u v w p q = ground arith

-- Whatever holds of `act` from every world that differs in rows of proposals only, and of ending
-- early, holds of the whole check.
module _ (P : ScanWorld → Checked → Type 0) (s : Setting) (mp : MergeProposalHandle)
    (status : ForgeStatus) (check_only : Bool)
    (quiet : (o : Outcome CheckMpError Bool) (w v : ScanWorld) → IsQuiet w v → P w (o, v))
    (acts : (url : String) (g : Gathered) (mp_run : Option MergeProposalRun) (w v : ScanWorld)
      → mp.url ≡ ok url
      → IsQuiet w v
      → P w (act s mp url status check_only g mp_run v)) where
  record_gathered-lift :
      (url : String) (changed : Bool) (g : Gathered) (w : ScanWorld)
      → mp.url ≡ ok url
      → P w (record_gathered s mp url status check_only changed g w)
  unfolding record_gathered bump_last_scanned update_proposal_info finish_no_action
  record_gathered-lift url false g w known =
      acts url g none w (bump_last_scanned s.env.now url w) known (ground arith)
  record_gathered-lift url true g w known =
      elim (Outcome-cases (get_merge_proposal_run w.world.db.merge_proposals s.tables url)) [
        | inr (inl (x, e)) ↦ rw (e, record_gathered) (quiet _ w w (ground arith))
        | inr (inr e) ↦ rw (e, record_gathered) (quiet _ w w (ground arith))
        | inl (mp_run, e) ↦ elim (Option-cases g.target_branch_url) [
          | inl t ↦
              rw (e, t, record_gathered)
                (quiet _ w _ (
                  count_proposal-IsQuiet g.status g.rate_limit_bucket
                    (bump_last_scanned s.env.now url w)))
          | inr (target, t) ↦
              rw (e, t, record_gathered)
                (acts url g mp_run w (update_proposal_info (gathered_row s.env.now url g target) w)
                  known (ground arith))
        ]
      ]

  fetch_and_record-lift :
      (url : String) (old : Option MergeProposal) (w : ScanWorld)
      → mp.url ≡ ok url
      → P w (fetch_and_record s mp url status check_only old w)
  unfolding fetch_and_record
  fetch_and_record-lift url old w known = elim (Bool-cases (fetch_fails mp)) [
    | inl e ↦ rw (e, fetch_and_record) (quiet _ w w (ground arith))
    | inr e ↦
        let g = gather s.forge s.tables mp status old in
        rw (e, fetch_and_record) (record_gathered-lift url (needs_update old g) g w known)
  ]

  check_url-lift :
      (url : String) (w : ScanWorld)
      → mp.url ≡ ok url
      → P w (check_url s mp url status check_only w)
  unfolding check_url finish_no_action bump_last_scanned
  check_url-lift url w known =
      elim (Option-cases (get_proposal_info url w.world.db.merge_proposals)) [
        | inl f ↦ rw (f, check_url) (fetch_and_record-lift url none w known)
        | inr (row, f) ↦ elim (Bool-cases (skips s status row)) [
          | inr k ↦ rw (f, k, check_url) (fetch_and_record-lift url (some row) w known)
          | inl k ↦
              let touched : ScanWorld = bump_last_scanned s.env.now url w in
              rw (f, k, check_url)
                (quiet _ w (count_proposal row.status row.rate_limit_bucket touched)
                  (count_proposal-IsQuiet row.status row.rate_limit_bucket touched))
        ]
      ]

  check_known-lift :
      (w : ScanWorld) (o : Outcome BrzError String)
      → mp.url ≡ o
      → P w (check_known s mp status check_only w o)
  unfolding check_known
  check_known-lift w (ok url) known = check_url-lift url w known
  check_known-lift w (err e) known = quiet _ w w (ground arith)
  check_known-lift w panic known = quiet _ w w (ground arith)

  check_existing_mp-lift : (w : ScanWorld) → P w (check_existing_mp s mp status check_only w)
  unfolding check_existing_mp
  check_existing_mp-lift w = check_known-lift w mp.url refl

-- No row is stored, or one by an answer of `ok true`; the limiter is as it was.
abbrev pub IsStored : ScanWorld → Checked → Type 0
IsStored w c =
    (c.1.world.limiter ≡ w.world.limiter)
    × ((c.1.world.db.publishes ≡ w.world.db.publishes)
        ⊎ ((p : Publish) × (c.1.world.db.publishes ≡ w.world.db.publishes ++ p ∷ [])
            × (c.0 ≡ ok true)))

IsActed-IsStored : (url : String) (w : ScanWorld) (c : Checked) → IsActed url w c → IsStored w c
IsActed-IsStored url w c (inl same) = (same.0, inl same.2)
IsActed-IsStored url w c (inr (limiter, (request, asked, about, mode, stored))) = (limiter, stored)

-- A check of a proposal asks the worker at most once, about that very proposal and in the mode
-- `propose`. It stores at most one publish row: none without a request, and one only if it answers
-- that it has modified the proposal. It never changes the rate limiter.
pub check_existing_mp-IsActed :
    (s : Setting) (mp : MergeProposalHandle) (status : ForgeStatus) (check_only : Bool)
    (url : String) (w : ScanWorld)
    → mp.url ≡ ok url
    → IsActed url w (check_existing_mp s mp status check_only w)
check_existing_mp-IsActed s mp status check_only url w known =
    check_existing_mp-lift (λ v c. (u : String) → mp.url ≡ ok u → IsActed u v c) s mp status
      check_only (λ o v v' same u k. inl same.0)
      (λ u' g mp_run v v' k' same u k.
        let e : u' ≡ u = cc (k', k) in
        rw (← e) (
          IsActed-Same u' v v' (act s mp u' status check_only g mp_run v') same.0
            (act-IsActed s mp u' status check_only g mp_run v')))
      w url known

-- A check of a proposal that is not open, or with `check_only`, asks the worker nothing, changes
-- nothing on the forge, calls no scheduler, stores no publish row and leaves the limiter alone. It may
-- still fetch the proposal.
pub check_existing_mp_passive :
    (s : Setting) (mp : MergeProposalHandle) (status : ForgeStatus) (check_only : Bool)
    (w : ScanWorld)
    → (not (forge_status_eq status forge_open) || check_only) ≡ true
    → IsQuiet w (check_existing_mp s mp status check_only w).1
check_existing_mp_passive s mp status check_only w passive =
    check_existing_mp-lift (λ v c. IsQuiet v c.1) s mp status check_only (λ o v v' same. same)
      (λ url g mp_run v v' known same.
        IsQuiet-trans v v' (act s mp url status check_only g mp_run v').1 same
          (act_passive s mp url status check_only g mp_run v' passive))
      w

-- The rows that a check stores.
pub check_existing_mp-IsStored :
    (s : Setting) (mp : MergeProposalHandle) (status : ForgeStatus) (check_only : Bool)
    (w : ScanWorld)
    → IsStored w (check_existing_mp s mp status check_only w)
check_existing_mp-IsStored s mp status check_only w =
    check_existing_mp-lift IsStored s mp status check_only (λ o v v' same. (same.0.0, inl same.0.2))
      (λ url g mp_run v v' known same.
        IsActed-IsStored url v (act s mp url status check_only g mp_run v') (
          IsActed-Same url v v' (act s mp url status check_only g mp_run v') same.0
            (act-IsActed s mp url status check_only g mp_run v')))
      w
