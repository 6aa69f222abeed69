-- ===== src/Queue/Effect.antt =====
-- What `Queue::add` leaves under each key (src/queue.rs).
use janitor.Base.{
  String, ℕ, suc, ◌≡◌, refl, sym, ap, ◌∙◌, Option, none, some, List, [], ◌∷◌, ◌++◌, Bool, true,
  false, arith, Bool-cases, Option-cases, inl, inr, Outcome, ok, err, str_eq, eq_iff, find,
  if◌then◌else◌, min, unwrap_or, ◌&&◌,
}
use janitor.Queue.Buckets.{Bucket, bucket_rank, bucket_text, bucket_from_text}
use janitor.Queue.Rows.{
  QueueItem, Tables, NewItem, AddError, missing_reference, invalid_bucket, has_key, conflicts,
  merge, update_row, upsert, new_row, add, references_exist,
}
use janitor.Queue.Keys.{entry, conflicts-SameKey, has_key-same, merge-SameKey, merge-rank, merge-id}
use janitor.Queue.Add.{insert_item_cases}

-- The new row's own key.
conflicts_self : (row : QueueItem) → conflicts row row ≡ true
unfolding has_key
conflicts_self row = ground (
  arith,
  eq_iff row.codebase row.codebase,
  eq_iff row.campaign row.campaign,
  eq_iff (unwrap_or row.change_set "") (unwrap_or row.change_set ""),
)

find-update_row :
    (row old : QueueItem) (rows : List QueueItem)
    → find (conflicts row) rows ≡ some old
    → find (conflicts row) (update_row row rows) ≡ some (merge row old)
unfolding update_row
find-update_row row old [] e = absurd (cc e)
find-update_row row old (other ∷ rest) e = elim (Bool-cases (conflicts row other)) [
  | inl f ↦
      let same : other ≡ old = cc (rw f at e) in
      rw
        (
          f,
          has_key-same row.codebase row.campaign row.change_set (merge row other) other
              (merge-SameKey row other (conflicts-SameKey row other f)),
          f,
        )
        (ap (λ x. some (merge row x)) same)
  | inr f ↦ rw (f, f) (find-update_row row old rest (rw f at e))
]

find-append :
    (p : QueueItem → Bool) (row : QueueItem) (rows : List QueueItem)
    → find p rows ≡ none
    → find p (rows ++ row ∷ []) ≡ (if p row then some row else none)
find-append p row [] e = refl
find-append p row (old ∷ rest) e = elim (Bool-cases (p old)) [
  | inl f ↦ absurd (cc (rw f at e))
  | inr f ↦ rw f (find-append p row rest (rw f at e))
]

-- A key that the written row has not finds what it found before.
find-update_row_other :
    (codebase campaign : String) (change_set : Option String) (row : QueueItem)
    → has_key codebase campaign change_set row ≡ false
    → (rows : List QueueItem)
    → entry codebase campaign change_set (update_row row rows)
      ≡ entry codebase campaign change_set rows
unfolding update_row
find-update_row_other codebase campaign change_set row n [] = refl
find-update_row_other codebase campaign change_set row n (old ∷ rest) =
    elim (Bool-cases (conflicts row old)) [
      | inl f ↦
          let k = conflicts-SameKey row old f in
          let miss : has_key codebase campaign change_set old ≡ false =
            sym (has_key-same codebase campaign change_set row old k) ∙ n in
          rw
            (
              f,
              has_key-same codebase campaign change_set (merge row old) old
                  (merge-SameKey row old k),
              miss,
            )
            refl
      | inr f ↦ rw (f, find-update_row_other codebase campaign change_set row n rest) refl
    ]

find-append_other :
    (p : QueueItem → Bool) (row : QueueItem) (rows : List QueueItem)
    → p row ≡ false
    → find p (rows ++ row ∷ []) ≡ find p rows
find-append_other p row [] e = rw e refl
find-append_other p row (old ∷ rest) e = ground (arith, find-append_other p row rest e)

-- The bucket of the row that `add` leaves, by its place: the earlier of the old and the new one.
abbrev pub merged_rank : Bucket → Option QueueItem → ℕ
merged_rank bucket none = bucket_rank bucket
merged_rank bucket (some old) = min (bucket_rank bucket) (bucket_rank old.bucket)

-- What two equal results hold.
first_of :
    (a b : ℕ) (s u : String)
    → ◌≡◌ {A = Outcome AddError (ℕ × String)} (ok (a, s)) (ok (b, u))
    → a ≡ b
first_of a b s u e = cc e

second_of :
    (a b : ℕ) (s u : String)
    → ◌≡◌ {A = Outcome AddError (ℕ × String)} (ok (a, s)) (ok (b, u))
    → s ≡ u
second_of a b s u e = cc e

no_result :
    (error : AddError) (id : ℕ) (text : String)
    → ◌≡◌ {A = Outcome AddError (ℕ × String)} (err error) (ok (id, text))
    → ⊥
no_result error id text e = cc e

-- What is under the row's key after `upsert`, and under any other.
upsert-entry :
    (row : QueueItem) (t : Tables) (id : ℕ) (text : String)
    → (upsert row t).0 ≡ ok (id, text)
    → (left : QueueItem) × (find (conflicts row) (upsert row t).1.rows ≡ some left)
      × (left.id ≡ id)
      × (bucket_text left.bucket ≡ text)
      × (bucket_rank left.bucket ≡ merged_rank row.bucket (find (conflicts row) t.rows))
unfolding upsert
upsert-entry row t id text e = elim (Option-cases (find (conflicts row) t.rows)) [
  | inr (old, f) ↦
      let given = rw (f, upsert) at e in
      (
        merge row old,
        rw (f, upsert) (find-update_row row old t.rows f),
        merge-id row old ∙ first_of old.id id _ text given,
        second_of old.id id _ text given,
        rw f (merge-rank row old),
      )
  | inl f ↦ elim (Bool-cases (references_exist row t)) [
    | inl g ↦
        let given = rw (f, g, upsert) at e in
        (
          row,
          rw (f, g, upsert)
              (find-append (conflicts row) row t.rows f ∙ rw (conflicts_self row) refl),
          first_of row.id id _ text given,
          second_of row.id id _ text given,
          rw f refl,
        )
    | inr g ↦ absurd (no_result missing_reference id text (rw (f, g, upsert) at e))
  ]
]

upsert_others :
    (codebase campaign : String) (change_set : Option String) (row : QueueItem) (t : Tables)
    → has_key codebase campaign change_set row ≡ false
    → entry codebase campaign change_set (upsert row t).1.rows
      ≡ entry codebase campaign change_set t.rows
unfolding upsert
upsert_others codebase campaign change_set row t n =
    elim (Option-cases (find (conflicts row) t.rows)) [
      | inr (old, f) ↦
          rw (f, upsert) (find-update_row_other codebase campaign change_set row n t.rows)
      | inl f ↦ elim (Bool-cases (references_exist row t)) [
        | inl g ↦
            rw (f, g, upsert)
              (find-append_other (has_key codebase campaign change_set) row t.rows n)
        | inr g ↦ rw (f, g, upsert) refl
      ]
    ]

-- Whether an item to add has a key.
abbrev pub is_under : String → String → Option String → NewItem → Bool
is_under codebase campaign change_set item =
    str_eq item.codebase codebase
    && str_eq item.campaign campaign
    && str_eq (unwrap_or item.change_set "") (unwrap_or change_set "")

-- When `add` returns an id and a bucket, its bucket's text was one of the enumeration, and the row
-- under the item's codebase, campaign and change set has that id and that bucket: the given bucket,
-- or that of the row which was there before if it is the earlier one. An item is never demoted.
pub add-entry :
    (item : NewItem) (t : Tables) (id : ℕ) (text : String)
    → (add item t).0 ≡ ok (id, text)
    → (bucket : Bucket) × (left : QueueItem) × (bucket_from_text item.bucket ≡ some bucket)
      × (entry item.codebase item.campaign item.change_set (add item t).1.rows ≡ some left)
      × (left.id ≡ id)
      × (bucket_text left.bucket ≡ text)
      × (bucket_rank left.bucket
          ≡ merged_rank bucket (entry item.codebase item.campaign item.change_set t.rows))
unfolding add new_row
add-entry item t id text e = elim (Option-cases (bucket_from_text item.bucket)) [
  | inl f ↦ absurd (no_result invalid_bucket id text (rw (f, add) at e))
  | inr (bucket, f) ↦ elim (insert_item_cases item bucket t) [
    | inl (inl (g, h)) ↦ absurd (no_result g id text (rw (f, add, h) at e))
    | inl (inr (g, h)) ↦ absurd (no_result g id text (rw (f, add, h) at e))
    | inr (priority, h) ↦
        let found =
          upsert-entry (new_row item bucket priority t.next_id)
            (record t { next_id = suc t.next_id }) id text (rw (f, add, h) at e) in
        (bucket, found.0, f, rw (f, add, h) found.1, found.2, found.3, found.4)
  ]
]

-- `add`, with whatever outcome, leaves the row under every other key as it was.
pub add_keeps_others :
    (item : NewItem) (t : Tables) (codebase campaign : String) (change_set : Option String)
    → is_under codebase campaign change_set item ≡ false
    → entry codebase campaign change_set (add item t).1.rows
      ≡ entry codebase campaign change_set t.rows
unfolding add new_row has_key
add_keeps_others item t codebase campaign change_set n =
    elim (Option-cases (bucket_from_text item.bucket)) [
      | inl f ↦ rw (f, add) refl
      | inr (bucket, f) ↦ elim (insert_item_cases item bucket t) [
        | inl (inl (g, h)) ↦ rw (f, add, h) refl
        | inl (inr (g, h)) ↦ rw (f, add, h) refl
        | inr (priority, h) ↦
            rw (f, add, h)
              (upsert_others codebase campaign change_set (new_row item bucket priority t.next_id)
                (record t { next_id = suc t.next_id }) n)
      ]
    ]
