-- ===== src/Queue/Add.antt =====
-- What `Queue::add` does to the queue (src/queue.rs).
use janitor.Base.{
  ℕ, suc, ◌≡◌, ◌<◌, ◌==◌, refl, ◌∙◌, none, List, [], ◌∷◌, ◌++◌, Bool, false, arith, Bool-cases,
  Option-cases, ◌⊎◌, inl, inr, All, All-append, err, str_eq, find, ltb, unwrap_or,
}
use janitor.Base.Int.{ℤ, pos}
use janitor.Queue.Buckets.{Bucket, bucket_from_text}
use janitor.Queue.Rows.{
  QueueItem, Tables, NewItem, AddError, serial_exhausted, out_of_range, empty_command, conflicts,
  upsert, new_row, insert_item, add, references_exist, delete_item, max_serial, bigint_add,
  least_priority,
}
use janitor.Queue.Keys.{IsConsistent, conflicts_sym, update_row-IsConsistent}

-- Looking for a row that is not there fails on every row.
find-none :
    (p : QueueItem → Bool) (rows : List QueueItem)
    → find p rows ≡ none
    → All (λ row. p row ≡ false) rows
find-none p [] e = tt
find-none p (row ∷ rest) e = elim (Bool-cases (p row)) [
  | inl g ↦ absurd (cc (rw g at e))
  | inr g ↦ (g, find-none p rest (rw g at e))
]

raised-IsConsistent :
    (next : ℕ) (rows : List QueueItem) → IsConsistent next rows → IsConsistent (suc next) rows
raised-IsConsistent next [] c = tt
raised-IsConsistent next (row ∷ rest) (own, later, less, c) =
    (own, later, omega arith, raised-IsConsistent next rest c)

append-IsConsistent :
    (row : QueueItem) (rows : List QueueItem)
    → IsConsistent row.id rows
    → All (λ other. conflicts row other ≡ false) rows
    → IsConsistent (suc row.id) (rows ++ row ∷ [])
append-IsConsistent row [] c ns = (tt, tt, omega arith, tt)
append-IsConsistent row (old ∷ rest) (own, later, less, c) (n, ns) = (
  All-append (λ x. conflicts old x ≡ false) rest (row ∷ []) own (conflicts_sym old row ∙ n, tt),
  All-append (λ x. old.id < x.id) rest (row ∷ []) later (less, tt),
  omega arith,
  append-IsConsistent row rest c ns,
)

upsert-IsConsistent :
    (row : QueueItem) (t : Tables)
    → IsConsistent row.id t.rows
    → t.next_id ≡ suc row.id
    → IsConsistent (upsert row t).1.next_id (upsert row t).1.rows
unfolding upsert
upsert-IsConsistent row t c e = elim (Option-cases (find (conflicts row) t.rows)) [
  | inr (old, f) ↦
      rw (f, upsert, e)
        (update_row-IsConsistent (suc row.id) row t.rows (raised-IsConsistent row.id t.rows c))
  | inl f ↦ elim (Bool-cases (references_exist row t)) [
    | inl g ↦
        rw (f, g, upsert, e) (append-IsConsistent row t.rows c (find-none (conflicts row) t.rows f))
    | inr g ↦ rw (f, g, upsert, e) (raised-IsConsistent row.id t.rows c)
  ]
]

-- How an insertion may go: it fails before the row is written, or it writes a row under the next id.
pub insert_item_cases :
    (item : NewItem) (bucket : Bucket) (t : Tables)
    → (((e : AddError) × ((insert_item item bucket t) ≡ (err e, t)))
        ⊎ ((e : AddError) × ((insert_item item bucket t)
              ≡ (err e, record t { next_id = suc t.next_id }))))
      ⊎ ((priority : ℤ) × ((insert_item item bucket t)
            ≡ upsert
                (new_row item bucket priority t.next_id)
                (record t { next_id = suc t.next_id })))
unfolding insert_item
insert_item_cases item bucket t = elim (Bool-cases (ltb max_serial t.next_id)) [
  | inl e ↦ inl (inl (serial_exhausted, rw e refl))
  | inr e ↦
      elim (Option-cases (bigint_add (unwrap_or (least_priority t.rows) (pos 0)) item.offset)) [
        | inl f ↦ inl (inr (out_of_range, rw (e, f) refl))
        | inr (priority, f) ↦ elim (Bool-cases (str_eq item.command "")) [
          | inl g ↦ inl (inr (empty_command, rw (e, f, g) refl))
          | inr g ↦ inr (priority, rw (e, f, g) refl)
        ]
      ]
]

insert_item-IsConsistent :
    (item : NewItem) (bucket : Bucket) (t : Tables)
    → IsConsistent t.next_id t.rows
    → IsConsistent (insert_item item bucket t).1.next_id (insert_item item bucket t).1.rows
unfolding new_row
insert_item-IsConsistent item bucket t c = elim (insert_item_cases item bucket t) [
  | inl (inl (e, f)) ↦ rw f c
  | inl (inr (e, f)) ↦ rw f (raised-IsConsistent t.next_id t.rows c)
  | inr (priority, f) ↦ rw f (
      upsert-IsConsistent (new_row item bucket priority t.next_id)
        (record t { next_id = suc t.next_id }) c refl)
]

add-IsConsistent :
    (item : NewItem) (t : Tables)
    → IsConsistent t.next_id t.rows
    → IsConsistent (add item t).1.next_id (add item t).1.rows
unfolding add
add-IsConsistent item t c = elim (Option-cases (bucket_from_text item.bucket)) [
  | inl e ↦ rw (e, add) c
  | inr (bucket, e) ↦ rw (e, add) (insert_item-IsConsistent item bucket t c)
]

All-delete_item {κ} :
    (P : QueueItem → Type κ) (id : ℕ) (rows : List QueueItem)
    → All P rows
    → All P (delete_item id rows)
unfolding delete_item
All-delete_item P id [] ps = tt
All-delete_item P id (row ∷ rest) (p, ps) = elim (Bool-cases (row.id == id)) [
  | inl e ↦ rw e (All-delete_item P id rest ps)
  | inr e ↦ rw e (p, All-delete_item P id rest ps)
]

delete_item-IsConsistent :
    (next id : ℕ) (rows : List QueueItem)
    → IsConsistent next rows
    → IsConsistent next (delete_item id rows)
unfolding delete_item
delete_item-IsConsistent next id [] c = tt
delete_item-IsConsistent next id (row ∷ rest) (own, later, less, c) =
    elim (Bool-cases (row.id == id)) [
      | inl e ↦ rw e (delete_item-IsConsistent next id rest c)
      | inr e ↦ rw e (
        All-delete_item (λ x. conflicts row x ≡ false) id rest own,
        All-delete_item (λ x. row.id < x.id) id rest later,
        less,
        delete_item-IsConsistent next id rest c,
      )
    ]

-- What the queue may come to from an empty table: items are added, and deleted when their run ends.
pub data Reaches : Tables → Type 0 where
  empty : (t : Tables) → t.rows ≡ [] → Reaches t
  added : (item : NewItem) (t : Tables) → Reaches t → Reaches (add item t).1
  deleted : (id : ℕ) (t : Tables) → Reaches t → Reaches (record t { rows = delete_item id t.rows })

-- From an empty queue on, whatever is added and deleted, with whatever outcome, no two items of the queue are of the same
-- codebase, campaign and change set, their ids grow from one to the next, and each is below the
-- next id to be given.
pub Reaches-IsConsistent : (t : Tables) → Reaches t → IsConsistent t.next_id t.rows
Reaches-IsConsistent t (empty _ e) = rw e tt
Reaches-IsConsistent _ (added item t r) = add-IsConsistent item t (Reaches-IsConsistent t r)
Reaches-IsConsistent _ (deleted id t r) =
    delete_item-IsConsistent t.next_id id t.rows (Reaches-IsConsistent t r)
