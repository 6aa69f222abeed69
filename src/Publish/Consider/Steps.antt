-- ===== src/Publish/Consider/Steps.antt =====
-- What one branch does in `consider_publish_run` (publish/src/lib.rs), and how large its result is.
use janitor.Base.{
  String, ℕ, suc, ◌+◌, ◌≤◌, ◌≡◌, refl, Option, none, some, List, [], ◌∷◌, Bool, false, ◌⊎◌, inl,
  inr, arith, length, Outcome, ok, err, panic, Bool-cases, Option-cases, Dict, insert,
}
use janitor.Publish.Mode.{Mode, mode_from_str}
use janitor.Publish.Policy.Types.{Campaign, Environment, World}
use janitor.Publish.Policy.{publish_from_policy}
use janitor.Publish.Consider.{
  Modes, ReadyRun, UnpublishedBranch, Considered, Preflight, stop, go, non_empty, note_outcome,
  branch_args, should_skip_main_after_aux_failure, consider_branch, consider_branches,
  after_preflight, preflight, consider_publish_run, and_then,
}

-- Each branch adds at most one entry to the result map.
length-insert {ℓ} :
    {V : Type ℓ} (k : String) (v : V) (m : Dict V) → length (insert k v m) ≤ length m + 1
unfolding insert
length-insert k v [] = omega arith
length-insert k v ((j, x) ∷ m) = ground (arith, length-insert k v m)

-- At most `n` roles stand in the map of a run that was considered.
abbrev pub AtMost : ℕ → Outcome String Modes → Type 0
AtMost n (ok modes) = length modes ≤ n
AtMost n (err e) = Unit
AtMost n panic = Unit

AtMost-weaken : (k n : ℕ) (o : Outcome String Modes) → n ≤ k → AtMost n o → AtMost k o
AtMost-weaken k n (ok modes) h a = omega arith
AtMost-weaken k n (err e) h a = tt
AtMost-weaken k n panic h a = tt

AtMost-and_then :
    (k m n : ℕ) (o : Outcome String Modes) (w : World) (f : Modes → World → Considered)
    → m + n ≤ k
    → AtMost n o
    → ((modes : Modes) (w' : World) → AtMost (m + length modes) (f modes w').0)
    → AtMost k (and_then (o, w) f).0
unfolding and_then
AtMost-and_then k m n (ok modes) w f hk h hf =
    AtMost-weaken k (m + length modes) (f modes w).0 (omega arith) (hf modes w)
AtMost-and_then k m n (err e) w f hk h hf = tt
AtMost-and_then k m n panic w f hk h hf = tt

pub Preflight-cases :
    (p : Preflight) → ((s : String) × p ≡ stop s) ⊎ ((c : Campaign) × (t : String) × p ≡ go c t)
Preflight-cases (stop s) = inl (s, refl)
Preflight-cases (go c t) = inr (c, t, refl)

AtMost-note_outcome :
    (role : String) (modes : Modes) (o : Outcome String (Option Mode)) (w : World)
    → AtMost (length modes + 1) (note_outcome role modes (o, w)).0
unfolding note_outcome
AtMost-note_outcome role modes (ok (some m)) w = length-insert role _ modes
AtMost-note_outcome role modes (ok none) w = length-insert role _ modes
AtMost-note_outcome role modes (err e) w = tt
AtMost-note_outcome role modes panic w = tt

module _ (env : Environment) (campaign : Campaign) (r : ReadyRun) (target : String)
    (require_binary_diff : Bool) where
  -- A branch is passed over, or published under its mode where `main` need not wait.
  pub consider_branch_cases :
      (b : UnpublishedBranch) (modes : Modes) (w : World)
      → (consider_branch env campaign r target require_binary_diff b modes w ≡ (ok modes, w))
        ⊎ ((mode : Mode) × (should_skip_main_after_aux_failure b.role modes ≡ false)
            × (consider_branch env campaign r target require_binary_diff b modes w
                ≡ note_outcome b.role modes (
                    publish_from_policy env campaign
                      (branch_args r target require_binary_diff b mode)
                      w)))
  unfolding consider_branch
  consider_branch_cases b modes w = elim (Option-cases (non_empty b.publish_mode)) [
    | inl e ↦ inl (rw (e, consider_branch))
    | inr (s, e) ↦ elim (Bool-cases (should_skip_main_after_aux_failure b.role modes)) [
      | inl e' ↦ inl (rw (e, consider_branch) (rw e'))
      | inr e' ↦ elim (Option-cases (mode_from_str s)) [
        | inl e'' ↦ inl (rw (e, consider_branch) (rw (e', e'')))
        | inr (m, e'') ↦ inr (m, e', rw (e, consider_branch) (rw (e', e'')))
      ]
    ]
  ]

  AtMost-consider_branch :
      (b : UnpublishedBranch) (modes : Modes) (w : World)
      → AtMost
          (length modes + 1)
          (consider_branch env campaign r target require_binary_diff b modes w).0
  AtMost-consider_branch b modes w = elim (consider_branch_cases b modes w) [
    | inl same ↦ rw same (omega arith)
    | inr (mode, e, same) ↦ rw same (
        AtMost-note_outcome b.role modes
          (publish_from_policy env campaign (branch_args r target require_binary_diff b mode) w).0
          _)
  ]

  AtMost-consider_branches :
      (bs : List UnpublishedBranch) (modes : Modes) (w : World)
      → AtMost
          (length bs + length modes)
          (consider_branches env campaign r target require_binary_diff bs modes w).0
  unfolding consider_branches
  AtMost-consider_branches [] modes w = omega arith
  AtMost-consider_branches (b ∷ bs) modes w =
      AtMost-and_then (suc (length bs) + length modes) (length bs) (length modes + 1)
        (consider_branch env campaign r target require_binary_diff b modes w).0 _
        (consider_branches env campaign r target require_binary_diff bs) (omega arith)
        (AtMost-consider_branch b modes w) (λ modes' w'. AtMost-consider_branches bs modes' w')

-- The result of a run has at most one entry for each of its branches, or only the status.
pub AtMost-consider_publish_run :
    (env : Environment) (campaigns : List Campaign) (r : ReadyRun) (limit : Option ℕ)
    (require_binary_diff : Bool) (w : World) (k : ℕ)
    → 1 ≤ k
    → length r.unpublished_branches ≤ k
    → AtMost k (consider_publish_run env campaigns r limit require_binary_diff w).0
unfolding consider_publish_run after_preflight
AtMost-consider_publish_run env campaigns r limit require_binary_diff w k h1 hk =
    elim (Preflight-cases (preflight env campaigns w r limit)) [
      | inl (s, e) ↦ rw e (omega arith)
      | inr (c, t, e) ↦ rw e (
          AtMost-weaken k _
            (consider_branches env c r t require_binary_diff r.unpublished_branches [] w).0
            (omega arith)
            (AtMost-consider_branches env c r t require_binary_diff r.unpublished_branches [] w))
    ]
