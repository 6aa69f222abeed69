-- ===== src/Runner/Assign/Loop.antt =====
-- The loop that looks for an item to hand out (runner/src/web.rs).
use janitor.Base.{
  String, ℕ, zero, suc, ◌+◌, ◌≡◌, ◌<◌, refl, Option, some, unwrap_or, List, [], Bool, true, false,
  arith, Sum-cases, inl, inr, leb, Dict,
}
use janitor.Runner.Offer.{RunnerWorld}
use janitor.Runner.Assign.{
  AssignRequest, Round, LoopEnd, gave_up, queue_empty, database_error, assigned,
  max_validation_retries, assign_round, assign_loop, merge_hosts,
}
use janitor.Runner.Assign.Answering.{Last, Answer, refused, hand_out, assign_work_internal}

module _ (unit : ℕ) (host_of : String → Option String) (campaigns : Dict Bool) (worker : String)
    (request : AssignRequest) (rounds : ℕ → Round) where
  -- Enough fuel for the rounds that are left gives the end of the loop, and more makes no difference.
  assign_loop_ends :
      (left retries : ℕ)
      → left + retries ≡ 20
      → (hosts : List String) (w : RunnerWorld)
      → (end : LoopEnd × RunnerWorld) × ((fuel : ℕ)
          → left < fuel
          → assign_loop unit host_of campaigns fuel worker request hosts rounds retries w
            ≡ some end)
  unfolding assign_loop
  assign_loop_ends zero retries h hosts w = ((gave_up, w), λ fuel m. ended fuel m)
    where
      ended :
          (fuel : ℕ)
          → 0 < fuel
          → assign_loop unit host_of campaigns fuel worker request hosts rounds retries w
            ≡ some (gave_up, w)
      ended zero m = absurd (omega (arith, m))
      ended (suc fuel) m =
          let full : leb max_validation_retries retries ≡ true = ground (arith, h) in rw full refl
  assign_loop_ends (suc left) retries h hosts w =
      elim (Sum-cases
        (assign_round unit host_of campaigns worker request hosts (rounds retries) w)) [
          | inl (end, e) ↦ (end, λ fuel m. ended end e fuel m)
          | inr (next, e) ↦
              let rest = assign_loop_ends left (suc retries) (omega (arith, h)) hosts next in
              (rest.0, λ fuel m. followed rest.0 next e rest.1 fuel m)
        ]
    where
      open_still : leb max_validation_retries retries ≡ false
      open_still = ground (arith, h)

      ended :
          (end : LoopEnd × RunnerWorld)
          → assign_round unit host_of campaigns worker request hosts (rounds retries) w ≡ inl end
          → (fuel : ℕ) → suc left < fuel
          → assign_loop unit host_of campaigns fuel worker request hosts rounds retries w ≡ some end
      ended end e zero m = absurd (omega (arith, m))
      ended end e (suc fuel) m = rw (open_still, e) refl

      followed :
          (end : LoopEnd × RunnerWorld) (next : RunnerWorld)
          → assign_round unit host_of campaigns worker request hosts (rounds retries) w ≡ inr next
          → ((fuel : ℕ)
              → left < fuel
              → assign_loop unit host_of campaigns fuel worker request hosts rounds
                  (suc retries)
                  next
                ≡ some end)
          → (fuel : ℕ) → suc left < fuel
          → assign_loop unit host_of campaigns fuel worker request hosts rounds retries w ≡ some end
      followed end next e more zero m = absurd (omega (arith, m))
      followed end next e more (suc fuel) m = rw (open_still, e) (more fuel (omega (arith, m)))

  -- A request for work is answered: whatever each round meets, the loop ends after at most 20
  -- refused or lost items, and fuel above that number always gives the same answer.
  pub assign_work_internal_ends :
      (hosts : List String) (last : Last) (w : RunnerWorld)
      → (answer : Answer × RunnerWorld) × ((fuel : ℕ)
          → max_validation_retries < fuel
          → assign_work_internal unit host_of campaigns fuel hosts worker request rounds last w
            ≡ some answer)
  unfolding assign_work_internal
  assign_work_internal_ends hosts last w =
      let all = merge_hosts hosts (unwrap_or request.exclude_hosts []) in
      let ended = assign_loop_ends 20 0 refl all w in answer_of ended.0 ended.1
    where
      answer_of :
          (end : LoopEnd × RunnerWorld)
          → ((fuel : ℕ)
              → 20 < fuel
              → assign_loop unit host_of campaigns fuel worker request
                  (merge_hosts hosts (unwrap_or request.exclude_hosts []))
                  rounds
                  0
                  w
                ≡ some end)
          → (answer : Answer × RunnerWorld) × ((fuel : ℕ)
              → max_validation_retries < fuel
              → assign_work_internal unit host_of campaigns fuel hosts worker request rounds last w
                ≡ some answer)
      answer_of (assigned a log_id, after) f =
          (hand_out worker last a log_id after, λ fuel m. rw (f fuel m, assign_work_internal) refl)
      answer_of (gave_up, after) f =
          ((refused gave_up, after), λ fuel m. rw (f fuel m, assign_work_internal) refl)
      answer_of (queue_empty, after) f =
          ((refused queue_empty, after), λ fuel m. rw (f fuel m, assign_work_internal) refl)
      answer_of (database_error, after) f =
          ((refused database_error, after), λ fuel m. rw (f fuel m, assign_work_internal) refl)
