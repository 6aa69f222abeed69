-- ===== src/Queue/Keys.antt =====
-- The keys of the queue's rows (the unique index of schema/state.sql), and what an update keeps.
use janitor.Base.{
  String, ℕ, ◌≡◌, ◌<◌, refl, ◌∙◌, Option, List, [], ◌∷◌, true, false, arith, Bool-cases, ◌⊎◌, inl,
  inr, All, eq_iff, find, min, leb, unwrap_or,
}
use janitor.Base.Order.{All-map}
use janitor.Queue.Buckets.{bucket_rank}
use janitor.Queue.Rows.{QueueItem, has_key, conflicts, merge, update_row}

-- No later row conflicts with this one.
abbrev pub HasOwnKey : QueueItem → List QueueItem → Type 0
HasOwnKey row rest = All (λ other. conflicts row other ≡ false) rest

-- No two rows have the same key, and each row's id is less than those of the later rows and than the
-- next one.
abbrev pub IsConsistent : ℕ → List QueueItem → Type 0
IsConsistent next [] = Unit
IsConsistent next (row ∷ rest) =
    HasOwnKey row rest
    × All (λ other. row.id < other.id) rest
    × (row.id < next)
    × IsConsistent next rest

-- The row under a key.
abbrev pub entry : String → String → Option String → List QueueItem → Option QueueItem
entry codebase campaign change_set rows = find (has_key codebase campaign change_set) rows

-- Two rows with the same key, by the index that holds keys apart.
pub record SameKey (a b : QueueItem) : Type 0 where
  pub codebase : a.codebase ≡ b.codebase
  pub campaign : a.campaign ≡ b.campaign
  pub change_set : unwrap_or a.change_set "" ≡ unwrap_or b.change_set ""

pub conflicts-SameKey : (a b : QueueItem) → conflicts a b ≡ true → SameKey a b
unfolding has_key
conflicts-SameKey a b e = record {
  codebase = ground (arith, e, eq_iff b.codebase a.codebase);
  campaign = ground (arith, e, eq_iff b.campaign a.campaign);
  change_set = ground (arith, e, eq_iff (unwrap_or b.change_set "") (unwrap_or a.change_set ""));
}

pub conflicts-same : (a b c : QueueItem) → SameKey a b → conflicts a c ≡ conflicts b c
unfolding has_key
conflicts-same a b c k = rw (k.codebase, k.campaign, k.change_set) refl

pub has_key-same :
    (codebase campaign : String) (change_set : Option String) (a b : QueueItem)
    → SameKey a b
    → has_key codebase campaign change_set a ≡ has_key codebase campaign change_set b
unfolding has_key
has_key-same codebase campaign change_set a b k = rw (k.codebase, k.campaign, k.change_set) refl

pub conflicts_sym : (a b : QueueItem) → conflicts a b ≡ conflicts b a
unfolding has_key
conflicts_sym a b = ground (
  arith,
  eq_iff b.codebase a.codebase,
  eq_iff a.codebase b.codebase,
  eq_iff b.campaign a.campaign,
  eq_iff a.campaign b.campaign,
  eq_iff (unwrap_or b.change_set "") (unwrap_or a.change_set ""),
  eq_iff (unwrap_or a.change_set "") (unwrap_or b.change_set ""),
)

merge_cases :
    (row old : QueueItem)
    → (merge row old
        ≡ record row { id = old.id; campaign = old.campaign; change_set = old.change_set })
      ⊎ (merge row old ≡ record old { codebase = row.codebase })
unfolding merge
merge_cases row old = elim (Bool-cases (leb (bucket_rank row.bucket) (bucket_rank old.bucket))) [
  | inl e ↦ inl (rw e refl)
  | inr e ↦ inr (rw e refl)
]

pub merge-SameKey : (row old : QueueItem) → SameKey row old → SameKey (merge row old) old
merge-SameKey row old k = elim (merge_cases row old) [
  | inl e ↦ rw e (record { codebase = k.codebase; campaign = refl; change_set = refl })
  | inr e ↦ rw e (record { codebase = k.codebase; campaign = refl; change_set = refl })
]

pub merge-id : (row old : QueueItem) → (merge row old).id ≡ old.id
merge-id row old = elim (merge_cases row old) [ inl e ↦ rw e refl | inr e ↦ rw e refl ]

pub merge-rank :
    (row old : QueueItem)
    → bucket_rank (merge row old).bucket ≡ min (bucket_rank row.bucket) (bucket_rank old.bucket)
unfolding merge
merge-rank row old = elim (Bool-cases (leb (bucket_rank row.bucket) (bucket_rank old.bucket))) [
  | inl e ↦ rw e (ground (arith, e))
  | inr e ↦ rw e (ground (arith, e))
]

-- What depends on the key and the id of a row only survives the update of a row.
pub All-update_row {κ} :
    (P : QueueItem → Type κ) (row : QueueItem)
    → ((old : QueueItem) → SameKey row old → P old → P (merge row old))
    → (rows : List QueueItem) → All P rows
    → All P (update_row row rows)
unfolding update_row
All-update_row P row f [] ps = tt
All-update_row P row f (old ∷ rest) (p, ps) = elim (Bool-cases (conflicts row old)) [
  | inl e ↦ rw e (f old (conflicts-SameKey row old e) p, ps)
  | inr e ↦ rw e (p, All-update_row P row f rest ps)
]

pub update_row-IsConsistent :
    (next : ℕ) (row : QueueItem) (rows : List QueueItem)
    → IsConsistent next rows
    → IsConsistent next (update_row row rows)
unfolding update_row
update_row-IsConsistent next row [] c = tt
update_row-IsConsistent next row (old ∷ rest) (own, later, less, c) =
    elim (Bool-cases (conflicts row old)) [
      | inl e ↦
          let k = merge-SameKey row old (conflicts-SameKey row old e) in
          rw (e, merge-id row old)
            (
              All-map (λ x. conflicts old x ≡ false) (λ x. conflicts (merge row old) x ≡ false) rest
                  (λ x g. conflicts-same (merge row old) old x k ∙ g) own,
              later,
              less,
              c,
            )
      | inr e ↦ rw e (
        All-update_row (λ x. conflicts old x ≡ false) row
            (λ x k g.
              has_key-same old.codebase old.campaign old.change_set _ x (merge-SameKey row x k) ∙ g)
            rest own,
        All-update_row (λ x. old.id < x.id) row (λ x k g. rw (merge-id row x) g) rest later,
        less,
        update_row-IsConsistent next row rest c,
      )
    ]
