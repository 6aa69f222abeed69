-- ===== src/Runner/Offer/Ranking.antt =====
-- The order in which queue items are offered (runner/src/database.rs): that the query's order is a
-- total one, and what it says of buckets, success chances, priorities and ids.
use janitor.Base.{
  ℕ, ◌≡◌, ap, Option, none, some, List, true, arith, inl, inr, ltb, leb, ◌+◌, ◌*◌, ◌<◌, ◌≤◌, ◌⊎◌,
  unwrap_or,
}
use janitor.Base.Order.{IsTotalOrder, IsWeakOrder, then_by-IsTotalOrder}
use janitor.Base.Int.{ℤ, pos, pos_part, neg_part, sub_ℕ, ltb_ℤ, ◌+ℤ◌}
use janitor.Queue.Buckets.{bucket_rank}
use janitor.Queue.Rows.{QueueItem}
use janitor.Queue.Selection.{IsBelow, IsLevel, by_key, by_integer_key}
use janitor.Runner.Offer.{Candidate, scored_before, computed_score, times, chance_of}

by_number : (f : QueueItem → ℕ) → IsWeakOrder (λ a b. ltb (f a) (f b))
by_number f = record {
  asymmetric = λ a b e. ground (arith, e);
  negative = λ a b c e g. ground (arith, e, g);
}

by_integer : (f : QueueItem → ℤ) → IsWeakOrder (λ a b. ltb_ℤ (f a) (f b))
by_integer f = record {
  asymmetric = λ a b e. ground (arith, e);
  negative = λ a b c e g. ground (arith, e, g);
}

by_integer_down : (f : QueueItem → ℤ) → IsWeakOrder (λ a b. ltb_ℤ (f b) (f a))
by_integer_down f = record {
  asymmetric = λ a b e. ground (arith, e);
  negative = λ a b c e g. ground (arith, e, g);
}

by_id : IsTotalOrder {A = QueueItem} (λ a b. leb a.id b.id)
by_id = record {
  total = λ a b e. ground (arith, e);
  transitive = λ a b c e f. ground (arith, e, f);
}

pub scored_before-IsTotalOrder :
    (unit : ℕ) (candidates : List Candidate) → IsTotalOrder (scored_before unit candidates)
unfolding scored_before
scored_before-IsTotalOrder unit candidates =
    let score = λ (a : QueueItem). computed_score unit (chance_of candidates a) a.priority in
    then_by-IsTotalOrder _ _ (by_number (λ a. bucket_rank a.bucket)) (
      then_by-IsTotalOrder _ _ (by_integer_down score)
        (then_by-IsTotalOrder _ _ (by_integer (λ a. a.priority)) by_id))

-- The success chance of an item's candidate, or 0.
abbrev pub chance : List Candidate → QueueItem → ℤ
chance candidates a = unwrap_or (chance_of candidates a) (pos 0)

-- What raises and what lowers 100 · chance - priority, in units of 1 / `unit`.
abbrev pub credit : ℕ → ℤ → ℤ → ℕ
credit unit chance priority = 100 * pos_part chance + unit * neg_part priority

abbrev pub debit : ℕ → ℤ → ℤ → ℕ
debit unit chance priority = 100 * neg_part chance + unit * pos_part priority

-- 100 · chance - priority of a and of b, on the two sides of an order.
abbrev pub side : ℕ → List Candidate → QueueItem → QueueItem → ℕ
side unit candidates a b =
    credit unit (chance candidates a) a.priority + debit unit (chance candidates b) b.priority

times-parts :
    (k : ℕ) (z : ℤ) → pos_part (times k z) + k * neg_part z ≡ neg_part (times k z) + k * pos_part z
unfolding times
times-parts k z = ground arith

sub_ℕ-parts : (a b : ℕ) → pos_part (sub_ℕ a b) + b ≡ neg_part (sub_ℕ a b) + a
sub_ℕ-parts a b = ground arith

+ℤ-parts :
    (a b : ℤ)
    → pos_part (a +ℤ b) + neg_part a + neg_part b ≡ neg_part (a +ℤ b) + pos_part a + pos_part b
unfolding ◌+ℤ◌
+ℤ-parts a b = ground arith

over : (k a b c d : ℕ) → a + b ≡ c + d → k * a + k * b ≡ k * c + k * d
over k a b c d e = grind (arith, ap (λ (t : ℕ). k * t) e)

-- `unit` times (100 - priority).
flipped-parts :
    (unit : ℕ) (p : ℤ)
    → let z = times unit (sub_ℕ (100 + neg_part p) (pos_part p)) in
      pos_part z + unit * pos_part p ≡ neg_part z + (unit * 100 + unit * neg_part p)
flipped-parts unit p =
    let z : ℤ = sub_ℕ (100 + neg_part p) (pos_part p) in
    flipped (pos_part z) (neg_part z) (pos_part (times unit z)) (neg_part (times unit z))
      (sub_ℕ-parts (100 + neg_part p) (pos_part p)) (times-parts unit z)
  where
    flipped :
        (a b c d : ℕ)
        → a + pos_part p ≡ b + (100 + neg_part p)
        → c + unit * b ≡ d + unit * a
        → c + unit * pos_part p ≡ d + (unit * 100 + unit * neg_part p)
    flipped a b c d e h = grind (arith, over unit a (pos_part p) b (100 + neg_part p) e, h)

computed_score-parts :
    (unit : ℕ) (o : Option ℤ) (p : ℤ)
    → pos_part (computed_score unit o p) + debit unit (unwrap_or o (pos 0)) p
      ≡ neg_part (computed_score unit o p) + credit unit (unwrap_or o (pos 0)) p + unit * 100
unfolding computed_score
computed_score-parts unit none p = omega (arith, flipped-parts unit p)
computed_score-parts unit (some c) p = omega (
  arith,
  flipped-parts unit p,
  times-parts 100 c,
  +ℤ-parts (times 100 c) (times unit (sub_ℕ (100 + neg_part p) (pos_part p))),
)

-- a comes no later than b: by the place of its bucket, then by the higher 100 · chance - priority,
-- then by priority, then by id.
abbrev pub Precedes : ℕ → List Candidate → QueueItem → QueueItem → Type 0
Precedes unit candidates a b =
    (bucket_rank a.bucket < bucket_rank b.bucket)
    ⊎ ((bucket_rank a.bucket ≡ bucket_rank b.bucket)
        × ((side unit candidates b a < side unit candidates a b)
            ⊎ ((side unit candidates b a ≡ side unit candidates a b)
                × (IsBelow a.priority b.priority
                    ⊎ (IsLevel a.priority b.priority × (a.id ≤ b.id))))))

pub scored_before-Precedes :
    (unit : ℕ) (candidates : List Candidate) (a b : QueueItem)
    → scored_before unit candidates a b ≡ true
    → Precedes unit candidates a b
unfolding scored_before
scored_before-Precedes unit candidates a b h =
    let score_of : QueueItem → ℤ = λ x. computed_score unit (chance_of candidates x) x.priority in
    elim (by_key (bucket_rank a.bucket) (bucket_rank b.bucket) _ h) [
      | inl e ↦ inl e
      | inr (e, rest) ↦ elim (by_integer_key (score_of b) (score_of a) _ rest) [
        | inl higher ↦ inr (
          e,
          inl (
              omega (
                arith,
                higher,
                computed_score-parts unit (chance_of candidates a) a.priority,
                computed_score-parts unit (chance_of candidates b) b.priority,
              )),
        )
        | inr (same, later) ↦ inr (
          e,
          inr (
            omega (
              arith,
              same,
              computed_score-parts unit (chance_of candidates a) a.priority,
              computed_score-parts unit (chance_of candidates b) b.priority,
            ),
            elim (by_integer_key a.priority b.priority _ later) [
              | inl below ↦ inl below
              | inr (level, last) ↦ inr (level, ground (arith, last))
            ],
          ),
        )
      ]
    ]
