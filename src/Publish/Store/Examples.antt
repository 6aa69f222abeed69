-- ===== src/Publish/Store/Examples.antt =====
-- `store_publish` (publish/src/state.rs) of a successful push.
use janitor.Base.{◌≡◌, refl, some, [], ◌∷◌, true, any}
use janitor.Publish.Mode.{push, mode_eq}
use janitor.Publish.Database.{already_published}
use janitor.Publish.Samples.{db, pushed, pushed_db}
use janitor.Publish.ChangeSets.{
  refresh_change_set_state, refresh_change_set, refreshed_state, leave_created, leave_working,
  leave_ready, leave_publishing, change_set_of, new_result_branch_trigger,
}
use janitor.Publish.Store.{
  store_publish, store_success, advance_change_set, insert_publish, remaining_unpublished,
}
use janitor.Publish.Store.Moved.{HasMoved, store_publish-HasMoved}
use janitor.Publish.Store.Attempts.{store_publish-already_published}

stored : store_publish pushed db ≡ some pushed_db
unfolding store_publish store_success advance_change_set refresh_change_set_state refresh_change_set
    refreshed_state leave_created leave_working leave_ready leave_publishing change_set_of
    new_result_branch_trigger insert_publish remaining_unpublished mode_eq
stored = refl

store_publish-HasMoved_example : HasMoved pushed db pushed_db "set-1"
store_publish-HasMoved_example = store_publish-HasMoved pushed db pushed_db "set-1" stored

is_push : any (mode_eq push) (push ∷ []) ≡ true
unfolding mode_eq
is_push = refl

store_publish-already_published_example :
    already_published pushed_db "https://example.com/repo" "lintian-fixes" "rev" (push ∷ []) ≡ true
store_publish-already_published_example =
    store_publish-already_published pushed db pushed_db "https://example.com/repo" "lintian-fixes"
      "rev" (push ∷ []) stored refl refl refl is_push
