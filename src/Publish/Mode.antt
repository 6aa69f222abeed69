-- ===== src/Publish/Mode.antt =====
-- src/publish.rs: publish modes and merge proposal statuses, and their names.
use janitor.Base.{
  String, ◌≡◌, ◌↔◌, refl, Option, none, some, Bool, true, false, arith, if◌then◌else◌, str_eq,
  eq_iff,
}

pub data MergeProposalStatus : Type 0 where
  open_ merged applied closed abandoned rejected : MergeProposalStatus

-- `Display for MergeProposalStatus`
unfoldable pub status_to_string : MergeProposalStatus → String
status_to_string open_ = "open"
status_to_string merged = "merged"
status_to_string applied = "applied"
status_to_string closed = "closed"
status_to_string abandoned = "abandoned"
status_to_string rejected = "rejected"

-- `FromStr for MergeProposalStatus`: `none` is the error, whose text is not modelled.
unfoldable pub status_from_str : String → Option MergeProposalStatus
status_from_str s =
    if str_eq s "open"
    then some open_
    else if str_eq s "merged"
    then some merged
    else if str_eq s "applied"
    then some applied
    else if str_eq s "closed"
    then some closed
    else if str_eq s "abandoned"
    then some abandoned
    else if str_eq s "rejected"
    then some rejected
    else none

pub data Mode : Type 0 where
  skip build_only push push_derived propose attempt_push bts : Mode

-- `Display for Mode`
unfoldable pub mode_to_string : Mode → String
mode_to_string push_derived = "push-derived"
mode_to_string propose = "propose"
mode_to_string push = "push"
mode_to_string build_only = "build-only"
mode_to_string skip = "skip"
mode_to_string bts = "bts"
mode_to_string attempt_push = "attempt-push"

-- `FromStr for Mode`: `none` is the error, whose text is not modelled.
unfoldable pub mode_from_str : String → Option Mode
mode_from_str s =
    if str_eq s "push-derived"
    then some push_derived
    else if str_eq s "propose"
    then some propose
    else if str_eq s "push"
    then some push
    else if str_eq s "build-only"
    then some build_only
    else if str_eq s "skip"
    then some skip
    else if str_eq s "bts"
    then some bts
    else if str_eq s "attempt-push"
    then some attempt_push
    else none

-- `mode == other`, the derived `PartialEq`.
unfoldable pub mode_eq : Mode → Mode → Bool
mode_eq skip skip = true
mode_eq build_only build_only = true
mode_eq push push = true
mode_eq push_derived push_derived = true
mode_eq propose propose = true
mode_eq attempt_push attempt_push = true
mode_eq bts bts = true
mode_eq _ _ = false

pub mode_eq_refl : (m : Mode) → mode_eq m m ≡ true
unfolding mode_eq
mode_eq_refl skip = refl
mode_eq_refl _ = refl

mode_names : (m : Mode) → mode_from_str (mode_to_string m) ≡ some m
unfolding mode_from_str mode_to_string
mode_names skip = refl
mode_names _ = refl

mode_parses : (m : Mode) (s : String) → mode_from_str s ≡ some m → s ≡ mode_to_string m
unfolding mode_from_str mode_to_string
mode_parses m s h = ground (
  arith,
  eq_iff s "push-derived",
  eq_iff s "propose",
  eq_iff s "push",
  eq_iff s "build-only",
  eq_iff s "skip",
  eq_iff s "bts",
  eq_iff s "attempt-push",
)

-- A text parses as a mode exactly when it is that mode's name: the two functions are inverse to
-- each other, so no two modes share a name and no other text is accepted.
mode_roundtrip :
    (m : Mode) (s : String)
    → (mode_from_str (mode_to_string m) ≡ some m)
      × ((mode_from_str s ≡ some m) ↔ (s ≡ mode_to_string m))
mode_roundtrip m s = (mode_names m, (mode_parses m s, λ e. rw e (mode_names m)))
