-- ===== src/Publish/Samples.antt =====
-- Sample data for the tests of the publisher's modules.
use janitor.Base.{none, some, [], ◌∷◌, true, false, Outcome}
use janitor.Base.Int.{pos}
use janitor.Publish.Mode.{Mode, push}
use janitor.Publish.RateLimiter.{RateLimiter, fixed}
use janitor.Publish.Run.{Run}
use janitor.Publish.Failure.{PublishError}
use janitor.Publish.Database.{Database, Publish, ready, created, done}
use janitor.Publish.Policy.Types.{Campaign, PublishOneResult, Environment, World, PolicyArgs}
use janitor.Publish.Policy.Gates.{Target}

abbrev pub campaign : Campaign
campaign = record {
  name = some "lintian-fixes";
  branch_name = some "lintian-fixes";
  value_threshold = some (pos 10);
}

abbrev pub run : Run
run = record {
  id = "run-1";
  command = "lintian-brush";
  result_code = "success";
  main_branch_revision = some "base";
  revision = some "rev";
  suite = "lintian-fixes";
  vcs_type = "git";
  branch_url = "https://example.com/repo";
  result_branches = some (
      record { role = "main"; remote_name = ""; base_revision = some "base"; revision = some "rev" }
      ∷ []);
  target_branch_url = none;
  change_set = "set-1";
  codebase = "hello";
  finish_time = 1000;
  value = some (pos 30);
}

abbrev pub answer : PublishOneResult
answer = record {
  proposal_url = some "https://example.com/repo/1";
  is_new = some true;
  branch_name = "lintian-fixes";
  target_branch_url = "https://example.com/repo";
  target_branch_web_url = none;
}

-- The worker gives the same answer to every request.
abbrev pub env : Outcome PublishError PublishOneResult → Environment
env reply = record {
  now = 2000;
  new_publish_id = "publish-1";
  parses_url = λ url. true;
  role_branch_url = λ url name. url;
  tenant_url = λ url. url;
  debug = λ s. s;
  publish_one = λ request. reply;
  has_manager = λ v. true;
  has_redis = false;
  event_sent = λ e. true;
}

abbrev pub db : Database
db = record {
  merge_proposals = [];
  publishes = [];
  new_result_branches =
      record { run_id = "run-1"; role = "main"; revision = some "rev"; absorbed = false } ∷ [];
  runs =
      record {
        id = "run-1";
        change_set = "set-1";
        codebase = "hello";
        suite = "lintian-fixes";
        revision = some "rev";
        result_code = "success";
        finish_time = 1000;
      }
      ∷ [];
  change_sets =
      record { id = "set-1"; state = ready } ∷ record { id = "set-2"; state = created } ∷ [];
  last_runs =
      record { id = "run-0"; codebase = "hello"; revision = "base"; result_code = "success" } ∷ [];
  codebases = [];
  todo = λ branches publishes. [];
  unpublished = λ branches publishes. [];
}

abbrev pub world : RateLimiter → World
world limiter = record { db = db; limiter = limiter; scheduled = []; requests = []; events = [] }

-- One open proposal in the bucket, of at most one.
abbrev pub full : RateLimiter
full = fixed (record { max_mps_per_bucket = 1; open_mps_per_bucket = some (("bucket", 1) ∷ []) })

abbrev pub args : Mode → PolicyArgs
args mode = record {
  run = run;
  role = "main";
  rate_limit_bucket = some "bucket";
  target_branch_url = "https://example.com/repo";
  mode = mode;
  max_frequency_days = none;
  command = "lintian-brush";
  require_binary_diff = true;
  force = false;
  requester = none;
}

abbrev pub target : Target
target = record { url = "https://example.com/repo"; base_revision = some "base"; revision = "rev" }

-- A successful push of the run's main branch.
abbrev pub pushed : Publish
pushed = record {
  branch_name = some "lintian-fixes";
  main_branch_revision = some "base";
  revision = some "rev";
  role = "main";
  mode = push;
  result_code = "success";
  description = none;
  merge_proposal_url = none;
  id = some "publish-1";
  requester = none;
  change_set = "set-1";
  run_id = some "run-1";
  target_branch_url = some "https://example.com/repo";
  target_branch_web_url = none;
  codebase = "hello";
  timestamp = 2000;
}

-- The database after it.
abbrev pub pushed_db : Database
pushed_db = record db {
  publishes = pushed ∷ [];
  new_result_branches =
      record { run_id = "run-1"; role = "main"; revision = some "rev"; absorbed = true } ∷ [];
  change_sets =
      record { id = "set-1"; state = done } ∷ record { id = "set-2"; state = created } ∷ [];
}
