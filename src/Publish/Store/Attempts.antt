-- ===== src/Publish/Store/Attempts.antt =====
-- What the queries of publish/src/state.rs see of an attempt that store_publish has recorded.
use janitor.Base.{
  String, ◌+◌, ◌≡◌, some, List, [], ◌∷◌, ◌++◌, Bool, true, ◌&&◌, ◌||◌, not, str_eq, eq_iff,
  if◌then◌else◌, arith, any, filterb, length, inl, inr,
}
use janitor.Publish.Mode.{Mode, mode_eq}
use janitor.Publish.Database.{
  Database, Publish, already_published, get_publish_attempt_count, opt_is,
}
use janitor.Publish.Store.{store_publish, store_success, advance_change_set, insert_publish}
use janitor.Publish.ChangeSets.{new_result_branch_trigger, refresh_change_set_state}
use janitor.Publish.Store.Cases.{store_publish_cases}

publishes-store_success :
    (p : Publish) (db d : Database) → store_success p db ≡ some d → d.publishes ≡ db.publishes
unfolding store_success new_result_branch_trigger refresh_change_set_state
publishes-store_success p db d h = ground arith

publishes-advance :
    (id : String) (db : Database) → (advance_change_set id db).publishes ≡ db.publishes
unfolding advance_change_set refresh_change_set_state
publishes-advance id db = ground arith

-- Every attempt that commits, failed or not, adds its row.
pub publishes-store_publish :
    (p : Publish) (db db' : Database)
    → store_publish p db ≡ some db'
    → db'.publishes ≡ db.publishes ++ p ∷ []
unfolding insert_publish
publishes-store_publish p db db' h = elim (store_publish_cases p db db' h) [
  | inl (e, same) ↦ ground arith
  | inr (e, (d, stored, same)) ↦ ground (
    arith,
    publishes-advance p.change_set (insert_publish p d),
    publishes-store_success p db d stored,
  )
]

any-last {ℓ} :
    {A : Type ℓ} (test : A → Bool) (xs : List A) (x : A)
    → any test (xs ++ x ∷ []) ≡ (any test xs || test x)
any-last test [] x = ground arith
any-last test (y ∷ xs) x = ground (arith, any-last test xs x)

length-filterb_last {ℓ} :
    {A : Type ℓ} (test : A → Bool) (xs : List A) (x : A)
    → length (filterb test (xs ++ x ∷ [])) ≡ length (filterb test xs) + (if test x then 1 else 0)
length-filterb_last test [] x = ground arith
length-filterb_last test (y ∷ xs) x = ground (arith, length-filterb_last test xs x)

-- Once an attempt at a revision, target and branch name is recorded, failed or not, the revision
-- counts as already published there in every list of modes that has the attempt's mode.
pub store_publish-already_published :
    (p : Publish) (db db' : Database) (target branch revision : String) (modes : List Mode)
    → store_publish p db ≡ some db'
    → p.target_branch_url ≡ some target
    → p.branch_name ≡ some branch
    → p.revision ≡ some revision
    → any (mode_eq p.mode) modes ≡ true
    → already_published db' target branch revision modes ≡ true
unfolding already_published
store_publish-already_published p db db' target branch revision modes h ht hb hr hm =
    rw (publishes-store_publish p db db' h, any-last _ db.publishes p)
      (ground (arith, eq_iff revision revision, eq_iff target target, eq_iff branch branch))

-- A recorded attempt raises the count of attempts at its revision by one unless its code is
-- excluded, and changes no other revision's count.
store_publish-attempt_count :
    (p : Publish) (db db' : Database) (revision : String) (exclude_codes : List String)
    → store_publish p db ≡ some db'
    → get_publish_attempt_count db' revision exclude_codes
      ≡ get_publish_attempt_count db revision exclude_codes
        + (if opt_is p.revision revision && not (any (str_eq p.result_code) exclude_codes)
            then 1
            else 0)
unfolding get_publish_attempt_count
store_publish-attempt_count p db db' revision exclude_codes h =
    rw (publishes-store_publish p db db' h) (length-filterb_last _ db.publishes p)
