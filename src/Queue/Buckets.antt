-- ===== src/Queue/Buckets.antt =====
-- The enumeration `queue_bucket` of schema/state.sql, in its order.
use janitor.Base.{String, ℕ, ◌≡◌, refl, Option, none, some, str_eq, if◌then◌else◌}

pub data Bucket : Type 0 where
  update_existing_mp manual control hook reschedule update_new_mp missing_deps default : Bucket

-- Its place in the enumeration, by which Postgres compares.
unfoldable pub bucket_rank : Bucket → ℕ
bucket_rank update_existing_mp = 0
bucket_rank manual = 1
bucket_rank control = 2
bucket_rank hook = 3
bucket_rank reschedule = 4
bucket_rank update_new_mp = 5
bucket_rank missing_deps = 6
bucket_rank default = 7

-- `bucket::text`
unfoldable pub bucket_text : Bucket → String
bucket_text update_existing_mp = "update-existing-mp"
bucket_text manual = "manual"
bucket_text control = "control"
bucket_text hook = "hook"
bucket_text reschedule = "reschedule"
bucket_text update_new_mp = "update-new-mp"
bucket_text missing_deps = "missing-deps"
bucket_text default = "default"

-- `::queue_bucket`, which fails on any other text.
unfoldable pub bucket_from_text : String → Option Bucket
bucket_from_text text =
    if str_eq text "update-existing-mp"
    then some update_existing_mp
    else if str_eq text "manual"
    then some manual
    else if str_eq text "control"
    then some control
    else if str_eq text "hook"
    then some hook
    else if str_eq text "reschedule"
    then some reschedule
    else if str_eq text "update-new-mp"
    then some update_new_mp
    else if str_eq text "missing-deps"
    then some missing_deps
    else if str_eq text "default"
    then some default
    else none

pub bucket_from_text-bucket_text :
    (bucket : Bucket) → bucket_from_text (bucket_text bucket) ≡ some bucket
unfolding bucket_from_text bucket_text
bucket_from_text-bucket_text update_existing_mp = refl
bucket_from_text-bucket_text manual = refl
bucket_from_text-bucket_text control = refl
bucket_from_text-bucket_text hook = refl
bucket_from_text-bucket_text reschedule = refl
bucket_from_text-bucket_text update_new_mp = refl
bucket_from_text-bucket_text missing_deps = refl
bucket_from_text-bucket_text default = refl
