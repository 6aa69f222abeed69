-- ===== src/Publish/Store/Cases.antt =====
-- The two ways in which store_publish of publish/src/state.rs commits.
use janitor.Base.{
  ◌≡◌, ◌≢◌, none, some, true, false, ◌⊎◌, inl, inr, str_eq, arith, Option-cases, Bool-cases,
}
use janitor.Publish.Database.{Database, Publish}
use janitor.Publish.Store.{store_publish, store_success, advance_change_set, insert_publish}

pub store_publish_cases :
    (p : Publish) (db db' : Database)
    → store_publish p db ≡ some db'
    → ((str_eq p.result_code "success" ≡ false) × (db' ≡ insert_publish p db))
      ⊎ ((str_eq p.result_code "success" ≡ true)
          × ((d : Database) × (store_success p db ≡ some d)
              × (db' ≡ advance_change_set p.change_set (insert_publish p d))))
unfolding store_publish
store_publish_cases p db db' h = elim (Bool-cases (str_eq p.result_code "success")) [
  | inr e ↦ inl (e, cc (rw (e, store_publish) at h))
  | inl e ↦ elim (Option-cases (store_success p db)) [
    | inl e' ↦ absurd (ground arith)
    | inr (d, e') ↦ inr (e, (d, e', ground arith))
  ]
]

-- A failed attempt fails no assertion.
pub store_publish-failed :
    (p : Publish) (db : Database)
    → str_eq p.result_code "success" ≡ false
    → store_publish p db ≢ none
unfolding store_publish
store_publish-failed p db e h = cc (rw (e, store_publish) at h)
