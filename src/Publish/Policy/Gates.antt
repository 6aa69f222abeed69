-- ===== src/Publish/Policy/Gates.antt =====
-- publish/src/lib.rs, `publish_from_policy`: the guards before the worker is asked.
use Prim.Native.String.{◌++◌ as str_append}
use janitor.Base.{
  String, ℕ, ◌-◌, ◌/◌, Option, none, some, List, [], ◌∷◌, Bool, true, false, ◌&&◌, not, str_eq, leb,
  if◌then◌else◌, is_some, unwrap_or,
}
use janitor.Base.Int.{ℤ, ltb_ℤ, pos, sub_ℕ}
use janitor.Publish.Mode.{Mode, mode_eq, skip, build_only, push, propose, attempt_push}
use janitor.Publish.RateLimiter.{RateLimiter, is_allowed, check_allowed}
use janitor.Publish.Run.{ResultBranch, get_result_branch}
use janitor.Publish.Failure.{ScheduleCall, regular}
use janitor.Publish.Backoff.{day}
use janitor.Publish.Database.{
  Database, already_published, get_open_merge_proposal, check_last_published,
}
use janitor.Publish.Policy.Types.{Campaign, Environment, World, PolicyArgs}

-- `none` passes; `some calls` returns `Ok(None)` after those scheduling calls.
unfoldable pub command_guard : Environment → PolicyArgs → Option (List ScheduleCall)
command_guard env a =
    if str_eq a.command ""
    then some []
    else if str_eq a.command a.run.command
    then none
    else some (
        regular a.run.suite a.run.codebase "update-new-mp" a.run.change_set true
          (str_append "publisher (changed policy: " (
            str_append (env.debug a.run.command)
              (str_append " -> " (str_append (env.debug a.command) ")"))))
          (some a.command)
        ∷ [])

-- `matches!(mode, Mode::BuildOnly | Mode::Skip)`
unfoldable pub is_gated : Mode → Bool
is_gated build_only = true
is_gated skip = true
is_gated _ = false

-- `matches!(mode, Mode::Propose | Mode::AttemptPush)`
unfoldable pub is_proposing : Mode → Bool
is_proposing propose = true
is_proposing attempt_push = true
is_proposing _ = false

pub record Target : Type 0 where
  pub url : String
  pub base_revision : Option String
  pub revision : String

target_of : Environment → PolicyArgs → Option ResultBranch → Option Target
target_of env a none = none
target_of env a (some b) = elim b.revision [
  | none ↦ none
  | some r ↦ some (record {
    url = env.role_branch_url a.target_branch_url b.remote_name;
    base_revision = b.base_revision;
    revision = r;
  })
]

-- The branch to publish; `none` returns `Ok(None)`.
unfoldable pub select_target : Environment → PolicyArgs → Option Target
unfolding target_of
select_target env a =
    if is_gated a.mode then none else target_of env a (get_result_branch a.run a.role)

unfoldable pub modes_to_check : Mode → List Mode
modes_to_check mode = if mode_eq mode attempt_push then propose ∷ push ∷ [] else mode ∷ []

unfoldable pub is_done_before : Campaign → PolicyArgs → Database → Target → Bool
is_done_before campaign a db t =
    not a.force
    && already_published db t.url (unwrap_or campaign.branch_name "") t.revision
        (modes_to_check a.mode)

unfoldable pub bucket_gate : RateLimiter → Option String → Mode → Mode
bucket_gate limiter none mode = mode
bucket_gate limiter (some bucket) mode =
    if is_allowed (check_allowed limiter bucket) then mode else build_only

-- `(now - last_published).num_days()`
unfoldable pub age_days : ℕ → ℕ → ℤ
age_days now last_published =
    if leb last_published now
    then pos ((now - last_published) / day)
    else sub_ℕ 0 ((last_published - now) / day)

unfoldable pub frequency_gate : ℕ → Option ℤ → Option ℕ → Mode → Mode
frequency_gate now none last_published mode = mode
frequency_gate now (some max_days) none mode = mode
frequency_gate now (some max_days) (some last_published) mode =
    if ltb_ℤ (age_days now last_published) max_days then build_only else mode

-- The mode that is left after the rate limit and the frequency limit.
unfoldable pub policy_mode : Environment → Campaign → PolicyArgs → World → Mode
policy_mode env campaign a w =
    if is_proposing a.mode
      && not (
          is_some (
            get_open_merge_proposal env.parses_url w.db a.run.codebase
              (unwrap_or campaign.branch_name "")))
    then frequency_gate env.now a.max_frequency_days
        (check_last_published w.db a.run.suite a.run.codebase)
        (bucket_gate w.limiter a.rate_limit_bucket a.mode)
    else a.mode
