-- ===== src/Publish/Consider/Main.antt =====
-- The branch with role `main` waits for the others in `consider_publish_run` (publish/src/lib.rs).
-- The view `publish_ready` (schema/state.sql) lists it last.
use janitor.Base.{
  String, ℕ, ◌≡◌, ◌≢◌, refl, sym, ◌∙◌, Option, none, some, List, [], ◌∷◌, ◌++◌, Bool, true, false,
  inl, inr, arith, Outcome, ok, err, panic, Bool-cases, lookup, lookup-insert, str_eq, eq_iff, All,
  is_some,
}
use janitor.Publish.Mode.{Mode, mode_to_string}
use janitor.Publish.Policy.Types.{Campaign, Environment, World}
use janitor.Publish.Policy.{publish_from_policy}
use janitor.Publish.Consider.{
  Modes, ReadyRun, UnpublishedBranch, Considered, note_outcome, branch_args, and_then, has_none,
  should_skip_main_after_aux_failure, consider_branch, consider_branches, after_preflight,
  preflight, consider_publish_run,
}
use janitor.Publish.Consider.Steps.{consider_branch_cases, Preflight-cases}

lookup-has_none : (modes : Modes) (j : String) → has_none modes ≡ false → lookup j modes ≢ some none
unfolding has_none lookup
lookup-has_none [] j h e = absurd (cc e)
lookup-has_none ((role, none) ∷ rest) j h e = absurd (cc h)
lookup-has_none ((role, some m) ∷ rest) j h e = elim (Bool-cases (str_eq role j)) [
  | inl same ↦ absurd (ground (arith, e, same))
  | inr other ↦ lookup-has_none rest j h (ground (arith, e, other))
]

-- What a result map has to satisfy, where there is one.
abbrev OnOk : (Modes → Type 0) → Outcome String Modes → Type 0
OnOk P (ok modes) = P modes
OnOk P (err e) = Unit
OnOk P panic = Unit

abbrev NoMain : Modes → Type 0
NoMain modes = lookup "main" modes ≡ none

-- If `main` has an entry, no other role was kept from being published.
abbrev Guarded : Modes → Type 0
Guarded modes =
    is_some (lookup "main" modes) ≡ true
    → (j : String) → str_eq "main" j ≡ false
    → lookup j modes ≢ some none

and_then-OnOk :
    (P Q : Modes → Type 0) (c : Considered) (f : Modes → World → Considered)
    → OnOk P c.0
    → ((modes : Modes) (w : World) → P modes → OnOk Q (f modes w).0)
    → OnOk Q (and_then c f).0
unfolding and_then
and_then-OnOk P Q (ok modes, w) f p g = g modes w p
and_then-OnOk P Q (err e, w) f p g = tt
and_then-OnOk P Q (panic, w) f p g = tt

-- A branch notes its outcome under its own role.
lookup-note_outcome :
    (role j : String) (modes : Modes) (o : Outcome String (Option Mode)) (w : World)
    → str_eq role j ≡ false
    → OnOk (λ after. lookup j after ≡ lookup j modes) (note_outcome role modes (o, w)).0
unfolding note_outcome
lookup-note_outcome role j modes (ok (some m)) w h =
    ground (arith, h, lookup-insert role j (some (mode_to_string m)) modes)
lookup-note_outcome role j modes (ok none) w h = ground (arith, h, lookup-insert role j none modes)
lookup-note_outcome role j modes (err e) w h = tt
lookup-note_outcome role j modes panic w h = tt

OnOk-map :
    (P Q : Modes → Type 0) (o : Outcome String Modes)
    → ((modes : Modes) → P modes → Q modes)
    → OnOk P o
    → OnOk Q o
OnOk-map P Q (ok modes) f p = f modes p
OnOk-map P Q (err e) f p = tt
OnOk-map P Q panic f p = tt

Guarded-note_outcome :
    (role : String) (modes : Modes) (o : Outcome String (Option Mode)) (w : World)
    → role ≡ "main"
    → has_none modes ≡ false
    → OnOk Guarded (note_outcome role modes (o, w)).0
unfolding note_outcome
Guarded-note_outcome role modes o w named h =
    OnOk-map (λ after. (j : String) → str_eq "main" j ≡ false → lookup j after ≡ lookup j modes)
      Guarded (note_outcome role modes (o, w)).0
      (λ after kept here j other e. lookup-has_none modes j h (sym (kept j other) ∙ e)) (all_kept o)
  where
    all_kept :
        (o : Outcome String (Option Mode))
        → OnOk
            (λ after. (j : String) → str_eq "main" j ≡ false → lookup j after ≡ lookup j modes)
            (note_outcome role modes (o, w)).0
    all_kept (ok (some m)) =
        λ j other. lookup-note_outcome role j modes (ok (some m)) w (rw named other)
    all_kept (ok none) = λ j other. lookup-note_outcome role j modes (ok none) w (rw named other)
    all_kept (err e) = tt
    all_kept panic = tt

module _ (env : Environment) (campaign : Campaign) (r : ReadyRun) (target : String)
    (require_binary_diff : Bool) where
  consider_branch-NoMain :
      (b : UnpublishedBranch) (modes : Modes) (w : World)
      → str_eq b.role "main" ≡ false
      → NoMain modes
      → OnOk NoMain (consider_branch env campaign r target require_binary_diff b modes w).0
  consider_branch-NoMain b modes w h free =
      elim (consider_branch_cases env campaign r target require_binary_diff b modes w) [
        | inl same ↦ rw same free
        | inr (mode, e, same) ↦ rw same (
            OnOk-map (λ after. lookup "main" after ≡ lookup "main" modes) NoMain _
              (λ after kept. kept ∙ free)
              (lookup-note_outcome b.role "main" modes
                (publish_from_policy env campaign (branch_args r target require_binary_diff b mode)
                  w).0
                _ h))
      ]

  consider_branch-Guarded :
      (b : UnpublishedBranch) (modes : Modes) (w : World)
      → b.role ≡ "main"
      → NoMain modes
      → OnOk Guarded (consider_branch env campaign r target require_binary_diff b modes w).0
  unfolding should_skip_main_after_aux_failure
  consider_branch-Guarded b modes w named free =
      elim (consider_branch_cases env campaign r target require_binary_diff b modes w) [
        | inl same ↦ rw same (λ here j other e. absurd (ground (arith, here, free)))
        | inr (mode, e, same) ↦ rw same (
            Guarded-note_outcome b.role modes
              (publish_from_policy env campaign (branch_args r target require_binary_diff b mode)
                w).0
              _ named (ground (arith, e, named, eq_iff b.role "main")))
      ]

  consider_branches-Guarded :
      (bs : List UnpublishedBranch) (main : UnpublishedBranch) (modes : Modes) (w : World)
      → main.role ≡ "main"
      → All (λ b. str_eq b.role "main" ≡ false) bs
      → NoMain modes
      → OnOk Guarded
          (consider_branches env campaign r target require_binary_diff (bs ++ main ∷ []) modes w).0
  unfolding consider_branches
  consider_branches-Guarded [] main modes w named others free =
      and_then-OnOk Guarded Guarded
        (consider_branch env campaign r target require_binary_diff main modes w) _
        (consider_branch-Guarded main modes w named free) (λ after w' p. p)
  consider_branches-Guarded (b ∷ bs) main modes w named others free =
      and_then-OnOk NoMain Guarded
        (consider_branch env campaign r target require_binary_diff b modes w) _
        (consider_branch-NoMain b modes w others.0 free)
        (λ after w' p. consider_branches-Guarded bs main after w' named others.1 p)

consider_publish_run-Guarded :
    (env : Environment) (campaigns : List Campaign) (r : ReadyRun) (limit : Option ℕ)
    (require_binary_diff : Bool) (w : World) (bs : List UnpublishedBranch)
    (main : UnpublishedBranch)
    → r.unpublished_branches ≡ bs ++ main ∷ []
    → main.role ≡ "main"
    → All (λ b. str_eq b.role "main" ≡ false) bs
    → OnOk Guarded (consider_publish_run env campaigns r limit require_binary_diff w).0
unfolding consider_publish_run after_preflight lookup consider_branches consider_branch branch_args
consider_publish_run-Guarded env campaigns r limit require_binary_diff w bs main last named others =
    elim (Preflight-cases (preflight env campaigns w r limit)) [
      | inl (s, e) ↦ rw e (λ here j other same. absurd (cc here))
      | inr (c, t, e) ↦ rw e (
          rw last (
            consider_branches-Guarded env c r t require_binary_diff bs main [] w named others refl))
    ]

-- If the branches of a run end with the only one of role `main`, and `consider_publish_run` returns
-- a map in which `main` has an entry, then no other role in the map was left unpublished.
pub main_waits_for_others :
    (env : Environment) (campaigns : List Campaign) (r : ReadyRun) (limit : Option ℕ)
    (require_binary_diff : Bool) (w : World) (bs : List UnpublishedBranch)
    (main : UnpublishedBranch) (modes : Modes)
    → r.unpublished_branches ≡ bs ++ main ∷ []
    → main.role ≡ "main"
    → All (λ b. str_eq b.role "main" ≡ false) bs
    → (consider_publish_run env campaigns r limit require_binary_diff w).0 ≡ ok modes
    → is_some (lookup "main" modes) ≡ true
    → (j : String) → str_eq "main" j ≡ false
    → lookup j modes ≢ some none
main_waits_for_others env campaigns r limit require_binary_diff w bs main modes last named others
      e =
    rw e at (
      consider_publish_run-Guarded env campaigns r limit require_binary_diff w bs main last named
        others)
