-- ===== src/Publish/Pending.antt =====
-- publish/src/queue.rs: `publish_pending_ready`, the pass over all runs that are ready.
pub mod Limit
mod Examples
use janitor.Base.{
  String, ℕ, zero, suc, ◌+◌, ◌-◌, Option, none, some, List, [], ◌∷◌, ◌++◌, Bool, true, false, ◌&&◌,
  ◌||◌, not, str_eq, leb, if◌then◌else◌, is_some, Outcome, ok, err, panic, lookup,
}
use janitor.Publish.Run.{Run}
use janitor.Publish.Policy.Types.{Campaign, Environment, World}
use janitor.Publish.Consider.{Modes, ReadyRun, Considered, consider_publish_run}

pub is_push_mode : Option String → Bool
is_push_mode none = false
is_push_mode (some m) = not (str_eq m "build-only") && not (str_eq m "skip")

pub count_modes : Modes → ℕ
count_modes [] = 0
count_modes ((role, m) ∷ modes) = (if is_push_mode m then 1 else 0) + count_modes modes

pub has_status : Modes → Bool
has_status modes = elim (lookup "__status" modes) [ none ↦ false | some s ↦ is_some s ]

-- By how much one run raises `published_count`.
pub count_published : Modes → ℕ
count_published modes = if has_status modes then 0 else count_modes modes

-- The counters of `publish_pending_ready`, and the push limit that each call was given. The counts
-- of actions, which are only logged, are left out.
pub record Pass : Type 0 where
  pub published_count : ℕ
  pub error_count : ℕ
  pub panicked : Bool
  pub given : List (Option ℕ)
  pub world : World

pub note_considered : Considered → Pass → Pass
note_considered (ok modes, w) p = record p {
  published_count = p.published_count + count_published modes;
  world = w;
}
note_considered (err e, w) p = record p { error_count = p.error_count + 1; world = w }
note_considered (panic, w) p = record p { panicked = true; world = w }

-- `push_limit.map(|limit| limit - published_count)`
pub remaining : Option ℕ → ℕ → Option ℕ
remaining none published = none
remaining (some limit) published = some (limit - published)

pub reached : Option ℕ → ℕ → Bool
reached none published = false
reached (some limit) published = leb limit published

-- `interrupted` is what the timeout does: the world that a call leaves which it cuts short.
module _ (env : Environment) (campaigns : List Campaign) (push_limit : Option ℕ)
    (require_binary_diff : Bool) (interrupted : Run → World → Option World) where
  pub consider_ready : ReadyRun → Pass → Pass
  consider_ready r p =
      let rest : Option ℕ = remaining push_limit p.published_count in
      let q : Pass = record p { given = p.given ++ rest ∷ [] } in
      elim (interrupted r.run p.world) [
        | some w ↦ record q { error_count = p.error_count + 1; world = w }
        | none ↦
            note_considered (consider_publish_run env campaigns r rest require_binary_diff p.world)
              q
      ]

  -- The loop of `publish_pending_ready`.
  pub publish_ready_runs : List ReadyRun → Pass → Pass
  publish_ready_runs [] p = p
  publish_ready_runs (r ∷ rs) p =
      let next = publish_ready_runs rs (consider_ready r p) in
      if p.panicked || reached push_limit p.published_count then p else next

  pub publish_pending_ready : List ReadyRun → World → Pass
  publish_pending_ready ready_runs w =
      publish_ready_runs ready_runs
        (record { published_count = 0; error_count = 0; panicked = false; given = []; world = w })
