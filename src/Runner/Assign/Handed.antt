-- ===== src/Runner/Assign/Handed.antt =====
-- The items that are handed out (runner/src/web.rs).
use janitor.Base.{
  String, ℕ, zero, suc, ◌≡◌, ◌<◌, refl, ap, ◌∙◌, Option, none, some, List, Bool, true, false, arith,
  Bool-cases, Option-cases, Sum-cases, ◌⊎◌, inl, inr, leb, Dict, lookup, is_some,
}
use janitor.Runner.Claims.{
  AssignmentInfo, Redis, already_assigned, unavailable, claim_of, assign_queue_item,
}
use janitor.Runner.Claims.Exclusive.{holder}
use janitor.Runner.Offer.{RunnerWorld, QueueAssignment, next_queue_item_with_rate_limiting}
use janitor.Runner.Assign.{
  AssignRequest, Round, LoopEnd, gave_up, queue_empty, database_error, assigned,
  max_validation_retries, assign_round, assign_loop, try_item, claim_item, validate, valid,
  unknown_campaign, not_in_vcs, AssignmentValidation, assignment_validation_outcome,
}

-- The campaign is configured, and the codebase has a URL unless the campaign does without.
abbrev pub IsValid : Dict Bool → QueueAssignment → Type 0
IsValid campaigns a =
    (default_empty : Bool) × (lookup a.queue_item.campaign campaigns ≡ some default_empty)
    × ((default_empty ≡ true) ⊎ (is_some a.vcs.branch_url ≡ true))

validate-IsValid :
    (campaigns : Dict Bool) (a : QueueAssignment)
    → validate campaigns a ≡ valid
    → IsValid campaigns a
unfolding validate assignment_validation_outcome
validate-IsValid campaigns a e = elim (Option-cases (lookup a.queue_item.campaign campaigns)) [
  | inl f ↦ absurd (cc (rw f at e))
  | inr (true, f) ↦ (true, f, inl refl)
  | inr (false, f) ↦ elim (Bool-cases (is_some a.vcs.branch_url)) [
    | inl g ↦ (false, f, inr g)
    | inr g ↦ absurd (cc (rw (f, g) at e))
  ]
]

-- The item is held in Redis, if there is one, by the worker under the run's id.
abbrev pub IsHeld : String → ℕ → String → ℕ → Option Redis → Type 0
IsHeld worker queue_id log_id now redis =
    (redis ≡ none)
    ⊎ (holder queue_id redis
        ≡ some (record { worker_name = worker; log_id = log_id; assigned_at = now }))

-- What a loop that ends with an item has checked and done.
abbrev pub IsHandedOut : Dict Bool → String → (ℕ → Round) → LoopEnd × RunnerWorld → Type 0
IsHandedOut campaigns worker rounds (assigned a log_id, after) =
    IsValid campaigns a
    × ((round : ℕ) × (round < 20)
        × ((rounds round).log_id ≡ log_id)
        × IsHeld worker a.queue_item.id log_id (rounds round).now after.redis)
IsHandedOut campaigns worker rounds (gave_up, after) = Unit
IsHandedOut campaigns worker rounds (queue_empty, after) = Unit
IsHandedOut campaigns worker rounds (database_error, after) = Unit

-- A claim that Redis answers is kept, or refused because there is another one.
assign_queue_item_cases :
    (claims adds : Bool) (queue_id : ℕ) (info : AssignmentInfo) (redis : Option Redis)
    → claims ≡ true
    → ((assign_queue_item claims adds queue_id info redis).0 ≡ some already_assigned)
      ⊎ (((assign_queue_item claims adds queue_id info redis).1 ≡ none)
          ⊎ (holder queue_id (assign_queue_item claims adds queue_id info redis).1 ≡ some info))
unfolding assign_queue_item claim_of
assign_queue_item_cases claims adds queue_id info none up = inr (inl refl)
assign_queue_item_cases claims adds queue_id info (some r) up =
    elim (Option-cases (claim_of queue_id r.assigned_queue_items)) [
      | inr (other, e) ↦ inl (rw (up, e, assign_queue_item) refl)
      | inl e ↦ elim (Bool-cases adds) [
        | inl f ↦ inr (inr (rw (up, e, f, assign_queue_item) (ground arith)))
        | inr f ↦ inr (inr (rw (up, e, f, assign_queue_item) (ground arith)))
      ]
    ]

-- The end that a round gives is the one that it is said to give.
end_is :
    (campaigns : Dict Bool) (worker : String) (rounds : ℕ → Round) (x y : LoopEnd × RunnerWorld)
    → ◌≡◌ {A = (LoopEnd × RunnerWorld) ⊎ RunnerWorld} (inl x) (inl y)
    → IsHandedOut campaigns worker rounds x
    → IsHandedOut campaigns worker rounds y
end_is campaigns worker rounds x y e h = let same : x ≡ y = cc e in rw (← same) h

not_next :
    (next : RunnerWorld) (end : LoopEnd × RunnerWorld)
    → ◌≡◌ {A = (LoopEnd × RunnerWorld) ⊎ RunnerWorld} (inr next) (inl end)
    → ⊥
not_next next end e = cc e

claim_item-IsHandedOut :
    (campaigns : Dict Bool) (worker : String) (a : QueueAssignment) (rounds : ℕ → Round)
    → (n : ℕ) → (w : RunnerWorld) → (rounds n).claims ≡ true
    → n < 20
    → IsValid campaigns a
    → (end : LoopEnd × RunnerWorld) → claim_item worker a (rounds n) w ≡ inl end
    → IsHandedOut campaigns worker rounds end
unfolding claim_item
claim_item-IsHandedOut campaigns worker a rounds n w up m v end e =
    elim (assign_queue_item_cases (rounds n).claims (rounds n).adds a.queue_item.id info w.redis
      up) [
        | inl f ↦ absurd (not_next _ end (rw (f, claim_item) at e))
        | inr held ↦
            elim (Option-cases
              (assign_queue_item (rounds n).claims (rounds n).adds a.queue_item.id info
                w.redis).0) [
                  | inl f ↦
                      end_is campaigns worker rounds _ end (rw (f, claim_item) at e)
                        (v, (n, m, refl, held))
                  | inr (already_assigned, f) ↦ absurd (not_next _ end (rw (f, claim_item) at e))
                  | inr (unavailable, f) ↦
                      end_is campaigns worker rounds _ end (rw (f, claim_item) at e)
                        (v, (n, m, refl, held))
                ]
      ]
  where
    info : AssignmentInfo
    info = record { worker_name = worker; log_id = (rounds n).log_id; assigned_at = (rounds n).now }

try_item-IsHandedOut :
    (campaigns : Dict Bool) (worker : String) (a : QueueAssignment) (rounds : ℕ → Round)
    → (n : ℕ) → (w : RunnerWorld) → (rounds n).claims ≡ true
    → n < 20
    → (end : LoopEnd × RunnerWorld) → try_item campaigns worker a (rounds n) w ≡ inl end
    → IsHandedOut campaigns worker rounds end
unfolding try_item
try_item-IsHandedOut campaigns worker a rounds n w up m end e =
    elim (validation_cases (validate campaigns a)) [
      | inl f ↦
          claim_item-IsHandedOut campaigns worker a rounds n w up m (validate-IsValid campaigns a f)
            end (rw (f, try_item) at e)
      | inr (inl f) ↦ absurd (not_next _ end (rw (f, try_item) at e))
      | inr (inr f) ↦ absurd (not_next _ end (rw (f, try_item) at e))
    ]
  where
    validation_cases :
        (v : AssignmentValidation) → (v ≡ valid) ⊎ ((v ≡ unknown_campaign) ⊎ (v ≡ not_in_vcs))
    validation_cases valid = inl refl
    validation_cases unknown_campaign = inr (inl refl)
    validation_cases not_in_vcs = inr (inr refl)

assign_round-IsHandedOut :
    (unit : ℕ) (host_of : String → Option String) (campaigns : Dict Bool) (worker : String)
    → (request : AssignRequest) → (rounds : ℕ → Round) → (hosts : List String) → (n : ℕ)
    → (w : RunnerWorld) → (rounds n).claims ≡ true
    → n < 20
    → (end : LoopEnd × RunnerWorld)
    → assign_round unit host_of campaigns worker request hosts (rounds n) w ≡ inl end
    → IsHandedOut campaigns worker rounds end
unfolding assign_round
assign_round-IsHandedOut unit host_of campaigns worker request rounds hosts n w up m end e =
    elim (Bool-cases (rounds n).query_up) [
      | inr f ↦ end_is campaigns worker rounds (database_error, w) end (rw f at e) tt
      | inl f ↦
          elim (Option-cases (
            next_queue_item_with_rate_limiting unit host_of (rounds n).hosts_up
              (rounds n).assigned_up (rounds n).now request.codebase request.campaign hosts w)) [
                | inl g ↦ end_is campaigns worker rounds (queue_empty, w) end (rw (f, g) at e) tt
                | inr (a, g) ↦
                    try_item-IsHandedOut campaigns worker a rounds n ((rounds n).others w) up m end
                      (rw (f, g) at e)
              ]
    ]

some_is : (x y : LoopEnd × RunnerWorld) → some x ≡ some y → x ≡ y
some_is x y e = cc e

-- While Redis answers the claims, an item that the loop ends with, whatever other requests and tasks
-- did meanwhile, is of a configured campaign, of a codebase with a URL unless the campaign does
-- without, and is held in Redis, if Redis is configured, by this worker under the run's id.
pub assign_loop-IsHandedOut :
    (unit : ℕ) (host_of : String → Option String) (campaigns : Dict Bool) (worker : String)
    → (request : AssignRequest) → (rounds : ℕ → Round) → ((n : ℕ) → (rounds n).claims ≡ true)
    → (fuel : ℕ) → (hosts : List String) → (retries : ℕ) → (w : RunnerWorld)
    → (end : LoopEnd × RunnerWorld)
    → assign_loop unit host_of campaigns fuel worker request hosts rounds retries w ≡ some end
    → IsHandedOut campaigns worker rounds end
unfolding assign_loop
assign_loop-IsHandedOut unit host_of campaigns worker request rounds up zero hosts retries w end e =
    absurd (cc e)
assign_loop-IsHandedOut unit host_of campaigns worker request rounds up (suc fuel) hosts retries w
      end e =
    elim (Bool-cases (leb max_validation_retries retries)) [
      | inl f ↦
          end_is campaigns worker rounds (gave_up, w) end (ap inl (some_is _ _ (rw f at e))) tt
      | inr f ↦
          elim (Sum-cases
            (assign_round unit host_of campaigns worker request hosts (rounds retries) w)) [
              | inl (ended, g) ↦
                  assign_round-IsHandedOut unit host_of campaigns worker request rounds hosts
                    retries w (up retries) (ground (arith, f)) end
                    (g ∙ ap inl (some_is ended end (rw (f, g) at e)))
              | inr (next, g) ↦
                  assign_loop-IsHandedOut unit host_of campaigns worker request rounds up fuel hosts
                    (suc retries) next end (rw (f, g) at e)
            ]
    ]
