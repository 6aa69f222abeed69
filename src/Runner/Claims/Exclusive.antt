-- ===== src/Runner/Claims/Exclusive.antt =====
-- The claims of workers on queue items (runner/src/database.rs).
use janitor.Base.{
  ℕ, ◌≡◌, ◌==◌, refl, sym, ◌∙◌, ap, Option, none, some, List, [], ◌∷◌, Bool, true, false, not,
  arith, Bool-cases, Option-cases, inl, inr, All, if◌then◌else◌, ◌||◌, ◌&&◌,
}
use janitor.Runner.Claims.{
  AssignmentInfo, Claims, Redis, ClaimError, already_assigned, claim_of, drop_claim,
  assign_queue_item, unassign_queue_item, without_member, has_readable_claim,
}

-- The calls that change claims, of any worker, each with what Redis answers.
pub data Call : Type 0 where
  assigning : (claims adds : Bool) (queue_id : ℕ) (info : AssignmentInfo) → Call
  unassigning : (connects reads removes deletes : Bool) (queue_id : ℕ) → Call

unfoldable pub perform : Call → Option Redis → Option ClaimError × Option Redis
perform (assigning claims adds queue_id info) redis =
    assign_queue_item claims adds queue_id info redis
perform (unassigning connects reads removes deletes queue_id) redis =
    unassign_queue_item connects reads removes deletes queue_id redis

unfoldable pub perform_all : List Call → Option Redis → Option Redis
perform_all [] redis = redis
perform_all (call ∷ rest) redis = perform_all rest (perform call redis).1

-- The call is not one that frees the item.
abbrev pub Keeps : ℕ → Call → Type 0
Keeps id (assigning claims adds queue_id info) = Unit
Keeps id (unassigning connects reads removes deletes queue_id) = (queue_id == id) ≡ false

claim_of-drop_claim :
    (id other : ℕ) (claims : Claims)
    → (other == id) ≡ false
    → claim_of id (drop_claim other claims) ≡ claim_of id claims
unfolding claim_of drop_claim
claim_of-drop_claim id other [] e = refl
claim_of-drop_claim id other ((queue_id, info) ∷ rest) e =
    ground (arith, e, claim_of-drop_claim id other rest e)

claim_of-without_member :
    (reads : Bool) (id : ℕ) (r : Redis)
    → (without_member reads id r).assigned_queue_items ≡ r.assigned_queue_items
unfolding without_member
claim_of-without_member reads id r =
    elim (Option-cases (if reads then claim_of id r.assigned_queue_items else none)) [
      | inl e ↦ rw (e, without_member) refl
      | inr (info, e) ↦ rw (e, without_member) refl
    ]

claim_of-new :
    (id queue_id : ℕ) (info new : AssignmentInfo) (claims : Claims)
    → claim_of queue_id claims ≡ none
    → claim_of id claims ≡ some info
    → claim_of id ((queue_id, new) ∷ claims) ≡ some info
unfolding claim_of
claim_of-new id queue_id info new claims n e = elim (Bool-cases (queue_id == id)) [
  | inl f ↦
      let same : queue_id ≡ id = ground (arith, f) in
      absurd (none_some info (sym (rw same at n) ∙ e))
  | inr f ↦ rw f e
]
  where
    none_some : (a : AssignmentInfo) → ◌≡◌ {A = Option AssignmentInfo} none (some a) → ⊥
    none_some a g = cc g

-- Who holds the item, in Redis.
abbrev pub holder : ℕ → Option Redis → Option AssignmentInfo
holder id none = none
holder id (some r) = claim_of id r.assigned_queue_items

perform-holder :
    (call : Call) (id : ℕ) (info : AssignmentInfo) (redis : Option Redis)
    → Keeps id call
    → holder id redis ≡ some info
    → holder id (perform call redis).1 ≡ some info
unfolding perform assign_queue_item unassign_queue_item
perform-holder call id info none k e = absurd (cc e)
perform-holder (assigning claims adds queue_id new) id info (some r) k e =
    elim (Bool-cases claims) [
      | inr f ↦ rw (f, assign_queue_item) e
      | inl f ↦ elim (Option-cases (claim_of queue_id r.assigned_queue_items)) [
        | inr (old, g) ↦ rw (f, g, assign_queue_item) e
        | inl g ↦ elim (Bool-cases adds) [
          | inl h ↦
              rw (f, g, h, assign_queue_item)
                (claim_of-new id queue_id info new r.assigned_queue_items g e)
          | inr h ↦
              rw (f, g, h, assign_queue_item)
                (claim_of-new id queue_id info new r.assigned_queue_items g e)
        ]
      ]
    ]
perform-holder (unassigning connects reads removes deletes queue_id) id info (some r) k e =
    elim (Bool-cases (not connects || (has_readable_claim reads queue_id r && not removes))) [
      | inl f ↦ rw (f, unassign_queue_item) e
      | inr f ↦ elim (Bool-cases deletes) [
        | inl g ↦
            rw (f, g, unassign_queue_item)
              (claim_of-drop_claim id queue_id r.assigned_queue_items k ∙ e)
        | inr g ↦
            rw (f, g, unassign_queue_item)
              (ap (claim_of id) (claim_of-without_member reads queue_id r) ∙ e)
      ]
    ]

-- While nobody frees a claimed item, its claim stays as it is whatever else any worker claims or
-- frees, and each further attempt to claim it that Redis answers fails as already assigned: no two
-- workers hold one item.
pub perform_all-IsExclusive :
    (calls : List Call) (id : ℕ) (info other : AssignmentInfo) (adds : Bool) (redis : Option Redis)
    → All (Keeps id) calls
    → holder id redis ≡ some info
    → (holder id (perform_all calls redis) ≡ some info)
      × ((assign_queue_item true adds id other (perform_all calls redis)).0 ≡ some already_assigned)
unfolding perform_all assign_queue_item
perform_all-IsExclusive [] id info other adds redis k e = (e, refused redis e)
  where
    refused :
        (r : Option Redis)
        → holder id r ≡ some info
        → (assign_queue_item true adds id other r).0 ≡ some already_assigned
    refused none f = absurd (cc f)
    refused (some r) f = rw (f, assign_queue_item) refl
perform_all-IsExclusive (call ∷ rest) id info other adds redis k e =
    perform_all-IsExclusive rest id info other adds (perform call redis).1 k.1
      (perform-holder call id info redis k.0 e)
