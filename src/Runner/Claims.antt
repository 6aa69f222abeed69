-- ===== src/Runner/Claims.antt =====
-- runner/src/database.rs: what the runner keeps in Redis about the queue, the claims of workers on
-- queue items and the hosts that limit their rate. A hash field that is a queue item's id is that
-- number, and JSON and time texts read back as what was written; a time that does not parse is none.
-- Without Redis (`none`) each call does nothing; the flags tell which commands Redis answers. Times
-- are microseconds. A call that returns nothing gives its error, if any.
pub mod Exclusive
pub mod Hosts
use janitor.Base.{
  String, ℕ, Option, none, some, List, [], ◌∷◌, map, Bool, true, false, not, ◌&&◌, ◌||◌, str_eq,
  any, ltb, leb, ◌==◌, if◌then◌else◌, Outcome, ok, err, panic, Dict, insert, filterb,
}

pub record AssignmentInfo : Type 0 where
  pub worker_name : String
  pub log_id : String
  pub assigned_at : ℕ

-- The hash of the claims.
abbrev pub Claims : Type 0
Claims = List (ℕ × AssignmentInfo)

pub record Redis : Type 0 where
  pub rate_limit_hosts : Dict (Option ℕ)
  pub assigned_queue_items : Claims
  -- The members of the sets `worker-queue-items:...`, each with its worker.
  pub worker_queue_items : List (String × ℕ)

pub data ClaimError : Type 0 where
  unavailable already_assigned : ClaimError

unfoldable pub claim_of : ℕ → Claims → Option AssignmentInfo
claim_of queue_id [] = none
claim_of queue_id ((id, info) ∷ rest) = if id == queue_id then some info else claim_of queue_id rest

unfoldable pub drop_claim : ℕ → Claims → Claims
drop_claim queue_id [] = []
drop_claim queue_id ((id, info) ∷ rest) =
    let kept : Claims = drop_claim queue_id rest in
    if id == queue_id then kept else (id, info) ∷ kept

-- `SADD` and `SREM`.
unfoldable pub is_member : String → ℕ → List (String × ℕ) → Bool
is_member worker queue_id members =
    any (λ member. str_eq member.0 worker && member.1 == queue_id) members

unfoldable pub add_member : String → ℕ → List (String × ℕ) → List (String × ℕ)
add_member worker queue_id members =
    if is_member worker queue_id members then members else (worker, queue_id) ∷ members

unfoldable pub remove_member : String → ℕ → List (String × ℕ) → List (String × ℕ)
remove_member worker queue_id members =
    filterb (λ member. not (str_eq member.0 worker && member.1 == queue_id)) members

unfoldable pub rate_limit_host : Bool → String → ℕ → Option Redis → Option ClaimError × Option Redis
rate_limit_host up host retry_after none = (none, none)
rate_limit_host up host retry_after (some r) =
    if up
    then (
      none,
      some (record r { rate_limit_hosts = insert host (some retry_after) r.rate_limit_hosts }),
    )
    else (some unavailable, some r)

unfoldable pub still_limited : ℕ → Dict (Option ℕ) → Dict ℕ
still_limited now [] = []
still_limited now ((host, none) ∷ rest) = still_limited now rest
still_limited now ((host, some retry_time) ∷ rest) =
    let others : Dict ℕ = still_limited now rest in
    if ltb now retry_time then (host, retry_time) ∷ others else others

unfoldable pub get_rate_limited_hosts : Bool → ℕ → Option Redis → Outcome ClaimError (Dict ℕ)
get_rate_limited_hosts up now none = ok []
get_rate_limited_hosts up now (some r) =
    if up then ok (still_limited now r.rate_limit_hosts) else err unavailable

unfoldable pub get_assigned_queue_items : Bool → Option Redis → Outcome ClaimError (List ℕ)
get_assigned_queue_items up none = ok []
get_assigned_queue_items up (some r) =
    if up then ok (map (λ claim. claim.0) r.assigned_queue_items) else err unavailable

-- `HSETNX` and then `SADD`: a failure of the second leaves the claim of the first.
unfoldable pub assign_queue_item :
    (claims adds : Bool) → ℕ → AssignmentInfo → Option Redis → Option ClaimError × Option Redis
assign_queue_item claims adds queue_id info none = (none, none)
assign_queue_item claims adds queue_id info (some r) =
    if not claims
    then (some unavailable, some r)
    else elim (claim_of queue_id r.assigned_queue_items) [
      | some other ↦ (some already_assigned, some r)
      | none ↦
          let claimed : Redis = record r {
            assigned_queue_items = (queue_id, info) ∷ r.assigned_queue_items;
          } in
          if adds
          then (
            none,
            some (record claimed {
              worker_queue_items = add_member info.worker_name queue_id r.worker_queue_items;
            }),
          )
          else (some unavailable, some claimed)
    ]

-- The worker's set, where the claim can be read.
unfoldable pub without_member : Bool → ℕ → Redis → Redis
without_member reads queue_id r =
    elim (if reads then claim_of queue_id r.assigned_queue_items else none) [
      | none ↦ r
      | some info ↦ record r {
        worker_queue_items = remove_member info.worker_name queue_id r.worker_queue_items;
      }
    ]

-- Whether `SREM` is sent.
unfoldable pub has_readable_claim : Bool → ℕ → Redis → Bool
has_readable_claim reads queue_id r =
    elim (if reads then claim_of queue_id r.assigned_queue_items else none) [
      | none ↦ false
      | some info ↦ true
    ]

unfoldable pub unassign_queue_item :
    (connects reads removes deletes : Bool) → ℕ → Option Redis → Option ClaimError × Option Redis
unassign_queue_item connects reads removes deletes queue_id none = (none, none)
unassign_queue_item connects reads removes deletes queue_id (some r) =
    if not connects || (has_readable_claim reads queue_id r && not removes)
    then (some unavailable, some r)
    else let left : Redis = without_member reads queue_id r in
      if deletes
      then (
        none,
        some (record left { assigned_queue_items = drop_claim queue_id r.assigned_queue_items }),
      )
      else (some unavailable, some left)

-- Whether a host's entry is past its time.
unfoldable pub is_past : ℕ → Option ℕ → Bool
is_past now none = false
is_past now (some retry_time) = leb retry_time now

unfoldable pub without_past : ℕ → Dict (Option ℕ) → Dict (Option ℕ)
without_past now [] = []
without_past now ((host, retry_time) ∷ rest) =
    let kept : Dict (Option ℕ) = without_past now rest in
    if is_past now retry_time then kept else (host, retry_time) ∷ kept

unfoldable pub maintenance_cleanup : Bool → ℕ → Option Redis → Option Redis
maintenance_cleanup up now none = none
maintenance_cleanup up now (some r) =
    if up
    then some (record r { rate_limit_hosts = without_past now r.rate_limit_hosts })
    else some r
