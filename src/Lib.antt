-- ===== src/Lib.antt =====
-- A model of the janitor platform's services (https://janitor.debian.net), with the theorems that
-- make their core logic correct.
--
-- The platform runs codemods over many codebases. A scheduled run is carried out by a worker; its
-- result branches are published as pushes or merge proposals when its campaign's policy allows.
--
-- The publish service, publish/src:
--   Publish/Mode         src/publish.rs: modes and proposal statuses, and their names.
--   Publish/RateLimiter  publish/src/rate_limiter.rs: the three limiters. `Box<dyn RateLimiter>` is
--                        the data type RateLimiter. RateLimiter/Gate is what a limiter promises,
--                        and Fixed and SlowStart show that two of them keep it.
--   Publish/Run          src/state.rs: `Run` and `get_result_branch`.
--   Publish/Backoff      `calculate_next_try_time`, `run_sufficient_for_proposal` and
--                        `scan_ts_is_recent` of publish/src/lib.rs and publish/src/queue.rs.
--   Publish/Failure      `PublishError` and `handle_publish_failure` of publish/src/lib.rs.
--   Publish/Database     the tables and queries of publish/src/state.rs.
--   Publish/Store        `store_publish` of publish/src/state.rs, with the triggers of
--                        schema/state.sql on change sets (Publish/ChangeSets).
--   Publish/Policy       `publish_from_policy` of publish/src/lib.rs.
--   Publish/Consider     `consider_publish_run` of publish/src/lib.rs.
--   Publish/Pending      `publish_pending_ready` of publish/src/queue.rs.
--   Publish/Existing     `check_existing`, `iter_all_mps` and `check_existing_mp` of
--                        publish/src/lib.rs with publish/src/proposal_info.rs: the scan of the
--                        proposals that exist. Existing/Check composes what Gather, Guess, Runs,
--                        Proposals, Close, Republish and Refresh hold; Existing/Scan is the loop.
-- `publish_pending_ready` calls `consider_publish_run` for each ready run, which calls
-- `publish_from_policy` for each branch, which asks the limiter and the database, calls the worker
-- and stores the outcome. The functions pass one World on: the database, the limiter, and what was
-- scheduled, requested and sent.
--
-- The runner, runner/src:
--   Runner/ActiveRuns    runner/src/active_runs.rs: the store of active runs, and `can_start_run` of
--                        runner/src/auth.rs.
--   Runner/Watchdog      runner/src/watchdog.rs: the watchdog over the active runs, whose state holds
--                        the store, whether Redis answers, and the results that were handed to
--                        `finish_run`, whose answer only the log depends on.
--
-- The archive generator, archive/src:
--   Archive/Jobs         archive/src/manager.rs: the bookkeeping of jobs. Jobs/Steps is a relation of
--                        steps of callers and tasks, which covers every order in which they run.
--
-- What runs are to be made, src:
--   Queue                src/queue.rs and the table `queue` of schema/state.sql. Queue/Rows is
--                        `Queue::add`, Queue/Listing the queries, and Queue/Selection says what a
--                        query for a row asks for without its tests.
--   Schedule             src/schedule.rs, which adds to the queue. Estimate and Offset compute with
--                        exact fractions what the source computes with floating point numbers.
--
-- How they are handed out and stored, runner/src:
--   Runner/Results       the results of runs and the rows that store them.
--   Runner/Database      `finish_run` of runner/src/database.rs, which takes an item from the queue.
--   Runner/Claims        the claims on queue items and the limited hosts in Redis, of the same file.
--   Runner/Offer         `next_queue_item_with_scoring` of the same file.
--   Runner/Assign        `assign_work_internal` of runner/src/web.rs, which offers items, refuses them
--                        with `finish_run`, claims them and stores the active run. What each round of
--                        its loop meets, other requests included, is an argument. The loop runs on
--                        fuel: it makes at most 20 rounds, and Assign/Loop shows that fuel of 21
--                        gives the answer.
--   Runner/Candidates    `candidate_preflight` of the same file.
--
-- Publish/Single: `publish_and_store` of publish/src/lib.rs, which publishes one role without the
-- policy's gates.
--
-- GitStore: git-store/src/git_http.rs and web.rs. GitStore/Paths holds the tests on paths and services,
-- GitStore/Backend `git_backend` up to the start of git, with the answers of the database and of libgit2
-- as parameters. It shares nothing with the other services but the identifiers.
--
-- Identifiers: types/src/identifiers.rs, the texts that are names, roles and ids.
--
-- What is shared stands in Base: Boolean tests on numbers, machine-width addition, lists,
-- association lists for maps, and Outcome, which tells an error from a panic.
--
-- The world outside is given by parameters: the record Policy.Types.Environment holds the clock, the
-- worker's answers, URL handling and the Redis channel. Tables are lists in order of insertion.
-- Times are microseconds since 1970. Loops are structural recursion over lists, but for that of
-- Runner/Assign.
-- A `usize` wraps at 2^64 where the source adds. The counts of past runs in Schedule, `i32` in the
-- source, are taken to fit.
--
-- Of the calls of a forge, Publish/Existing keeps those that change a proposal; what is fetched is an
-- argument. What the views `change_set_todo` and `change_set_unpublished` list is a field of the
-- database, given by the branches and attempts at the time. Redirects are taken to be resolved by a
-- function that returns.
--
-- Not modelled: logging and metrics, database and connection errors but in the git store, concurrent
-- calls of the publish service, and of the runner but for claims and assignment, poisoned locks, and
-- the web pages, the other HTTP handlers and the child processes of the services; the triggers of
-- schema/state.sql that refresh `last_run`, and those that fire when the scan of proposals updates the
-- row of a proposal or its branches.
pub mod Base
pub mod Publish
pub mod Runner
pub mod Archive
pub mod Queue
pub mod Schedule
pub mod Identifiers
pub mod GitStore
