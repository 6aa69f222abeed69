-- ===== src/Publish/Pending/Examples.antt =====
-- `publish_pending_ready` (publish/src/queue.rs) on two ready runs.
use janitor.Base.{Option, ◌<◌, ◌+◌, none, some, [], ◌∷◌, All, ok, true, arith}
use janitor.Publish.RateLimiter.{non}
use janitor.Publish.Run.{Run}
use janitor.Publish.Policy.Types.{World}
use janitor.Publish.Samples.{campaign, env, world, answer, run}
use janitor.Publish.Consider.{ReadyRun}
use janitor.Publish.Pending.{publish_pending_ready}
use janitor.Publish.Pending.Limit.{
  NotExhausted, publish_pending_ready-NotExhausted, Within-publish_pending_ready,
}

abbrev ready_run : ReadyRun
ready_run = record {
  run = run;
  rate_limit_bucket = "bucket";
  policy_command = "lintian-brush";
  unpublished_branches =
      record { role = "main"; publish_mode = some "propose"; max_frequency_days = none } ∷ [];
}

abbrev never : Run → World → Option World
never r w = none

publish_pending_ready-NotExhausted_example :
    All NotExhausted
      (publish_pending_ready
        (env (ok answer))
        (campaign ∷ [])
        (some 1)
        true
        never
        (ready_run ∷ ready_run ∷ [])
        (world non)).given
publish_pending_ready-NotExhausted_example =
    publish_pending_ready-NotExhausted (env (ok answer)) (campaign ∷ []) (some 1) true never
      (ready_run ∷ ready_run ∷ []) (world non)

Within-publish_pending_ready_example :
    (publish_pending_ready
      (env (ok answer))
      (campaign ∷ [])
      (some 1)
      true
      never
      (ready_run ∷ ready_run ∷ [])
      (world non)).published_count
    < 1 + 1
Within-publish_pending_ready_example =
    Within-publish_pending_ready (env (ok answer)) (campaign ∷ []) (some 1) true never 1
      (omega arith) (ready_run ∷ ready_run ∷ []) (omega arith, (omega arith, tt)) (world non)
