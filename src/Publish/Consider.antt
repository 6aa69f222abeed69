-- ===== src/Publish/Consider.antt =====
-- publish/src/lib.rs: `consider_publish_run`, which decides whether a ready run may be published
-- now and publishes its branches.
pub mod Steps
pub mod Main
mod Examples
use janitor.Base.{
  String, ℕ, zero, suc, ◌+◌, ◌-◌, Option, none, some, List, [], ◌∷◌, ◌++◌, Bool, true, false, ◌&&◌,
  ◌||◌, not, str_eq, any, find, leb, ltb, ◌==◌, if◌then◌else◌, is_some, unwrap_or, Outcome, ok, err,
  panic, Dict, lookup, insert,
}
use janitor.Base.Int.{ℤ}
use janitor.Publish.Mode.{
  Mode, mode_from_str, mode_to_string, MergeProposalStatus, rejected, closed,
}
use janitor.Publish.Run.{Run}
use janitor.Publish.Backoff.{calculate_next_try_time}
use janitor.Publish.Database.{get_publish_attempt_count, get_previous_mp_status}
use janitor.Publish.Policy.Types.{Campaign, Environment, World, PolicyArgs}
use janitor.Publish.Policy.{publish_from_policy}

pub record UnpublishedBranch : Type 0 where
  pub role : String
  pub publish_mode : Option String
  pub max_frequency_days : Option ℤ

-- The result map: the effective mode of each role, or `none` where nothing was published.
abbrev pub Modes : Type 0
Modes = Dict (Option String)

-- A ready run as `iter_publish_ready` returns it.
pub record ReadyRun : Type 0 where
  pub run : Run
  pub rate_limit_bucket : String
  pub policy_command : String
  pub unpublished_branches : List UnpublishedBranch

pub wants_push : UnpublishedBranch → Bool
wants_push b = elim b.publish_mode [
  | none ↦ false
  | some m ↦ str_eq m "push" || str_eq m "attempt-push"
]

unfoldable pub wants_push_mode : List UnpublishedBranch → Bool
unfolding wants_push
wants_push_mode branches = any wants_push branches

unfoldable pub should_skip_for_push_limit : Bool → Option ℕ → Bool
should_skip_for_push_limit wants none = false
should_skip_for_push_limit wants (some limit) = limit == 0 && wants

pub is_refusal : MergeProposalStatus → Bool
is_refusal rejected = true
is_refusal closed = true
is_refusal _ = false

unfoldable pub previous_mp_blocks_publish : List (String × MergeProposalStatus) → Bool
unfolding is_refusal
previous_mp_blocks_publish statuses = any (λ s. is_refusal s.1) statuses

pub non_empty : Option String → Option String
non_empty none = none
non_empty (some s) = if str_eq s "" then none else some s

unfoldable pub resolve_target_branch_url : Option String → String → String
unfolding non_empty
resolve_target_branch_url target branch_url = unwrap_or (non_empty target) branch_url

pub has_none : Modes → Bool
has_none [] = false
has_none ((role, m) ∷ modes) = not (is_some m) || has_none modes

unfoldable pub should_skip_main_after_aux_failure : String → Modes → Bool
unfolding has_none
should_skip_main_after_aux_failure role actual_modes = str_eq role "main" && has_none actual_modes

find_campaign : List Campaign → String → Option Campaign
find_campaign campaigns suite = find (λ c. str_eq (unwrap_or c.name "") suite) campaigns

-- The next try lies in the future.
backs_off : Environment → World → Run → String → Bool
backs_off env w run revision = ltb env.now (
    calculate_next_try_time run.finish_time
      (get_publish_attempt_count w.db revision ("differ-unreachable" ∷ [])))

-- The reason for which the run is not considered, or the target branch and the campaign.
pub data Preflight : Type 0 where
  stop : String → Preflight
  go : Campaign → String → Preflight

pub preflight_run : Environment → World → ReadyRun → Option ℕ → String → Campaign → Preflight
preflight_run env w r push_limit revision campaign =
    let target : String = resolve_target_branch_url r.run.target_branch_url r.run.branch_url in
    if backs_off env w r.run revision
    then stop "exponential_backoff"
    else if should_skip_for_push_limit (wants_push_mode r.unpublished_branches) push_limit
    then stop "push_limit_reached"
    else if str_eq r.run.branch_url ""
    then stop "missing_branch_url"
    else if previous_mp_blocks_publish (get_previous_mp_status w.db r.run.codebase r.run.suite)
    then stop "rejected_last_mp"
    else if env.parses_url target
    then go campaign target
    else stop "invalid_branch_url"

pub preflight : Environment → List Campaign → World → ReadyRun → Option ℕ → Preflight
preflight env campaigns w r push_limit = elim r.run.revision [
  | none ↦ stop "no_revision"
  | some revision ↦ elim (find_campaign campaigns r.run.suite) [
    | none ↦ stop "no_campaign_config"
    | some campaign ↦ preflight_run env w r push_limit revision campaign
  ]
]

abbrev pub Considered : Type 0
Considered = Outcome String Modes × World

-- What a result of `publish_from_policy` adds to the map.
pub note_outcome : String → Modes → Outcome String (Option Mode) × World → Considered
note_outcome role modes (ok (some m), w) = (ok (insert role (some (mode_to_string m)) modes), w)
note_outcome role modes (ok none, w) = (ok (insert role none modes), w)
note_outcome role modes (err e, w) = (err e, w)
note_outcome role modes (panic, w) = (panic, w)

-- `?`, with the world passed on.
pub and_then : Considered → (Modes → World → Considered) → Considered
and_then (ok modes, w) f = f modes w
and_then (err e, w) f = (err e, w)
and_then (panic, w) f = (panic, w)

pub branch_args : ReadyRun → String → Bool → UnpublishedBranch → Mode → PolicyArgs
branch_args r target require_binary_diff b mode = record {
  run = r.run;
  role = b.role;
  rate_limit_bucket = some r.rate_limit_bucket;
  target_branch_url = target;
  mode = mode;
  max_frequency_days = b.max_frequency_days;
  command = r.policy_command;
  require_binary_diff = require_binary_diff;
  force = false;
  requester = some "publisher (publish pending)";
}

module _ (env : Environment) (campaign : Campaign) (r : ReadyRun) (target : String)
    (require_binary_diff : Bool) where
  -- The body of the loop over the branches; a branch without a known mode is passed over.
  pub consider_branch : UnpublishedBranch → Modes → World → Considered
  consider_branch b modes w = elim (non_empty b.publish_mode) [
    | none ↦ (ok modes, w)
    | some mode_str ↦
        if should_skip_main_after_aux_failure b.role modes
        then (ok modes, w)
        else (elim (mode_from_str mode_str) [
          | none ↦ (ok modes, w)
          | some mode ↦
              note_outcome b.role modes (
                publish_from_policy env campaign (branch_args r target require_binary_diff b mode)
                  w)
        ])
  ]

  pub consider_branches : List UnpublishedBranch → Modes → World → Considered
  consider_branches [] modes w = (ok modes, w)
  consider_branches (b ∷ bs) modes w = and_then (consider_branch b modes w) (consider_branches bs)

pub after_preflight : Environment → ReadyRun → Bool → World → Preflight → Considered
after_preflight env r require_binary_diff w (stop reason) = (ok (("__status", some reason) ∷ []), w)
after_preflight env r require_binary_diff w (go campaign target) =
    consider_branches env campaign r target require_binary_diff r.unpublished_branches [] w

pub consider_publish_run :
    Environment → List Campaign → ReadyRun → Option ℕ → Bool → World → Considered
consider_publish_run env campaigns r push_limit require_binary_diff w =
    after_preflight env r require_binary_diff w (preflight env campaigns w r push_limit)
