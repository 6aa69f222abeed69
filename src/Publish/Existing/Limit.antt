-- ===== src/Publish/Existing/Limit.antt =====
-- Scans of all proposals (`check_existing`, publish/src/lib.rs): the modify limit and the limiter.
use janitor.Base.{
  ℕ, suc, ◌+◌, ◌≤◌, ◌≡◌, ◌≢◌, refl, some, List, [], ◌∷◌, Bool, true, false, Outcome, ok, err, panic,
  ◌⊎◌, inl, inr, arith, ◌∙◌, ap, length, lookup, remove, String, Bool-cases, Dict, Option, none,
  ltb, ltb→le, sym,
}
use janitor.Base.Int.{pos}
use janitor.Publish.RateLimiter.{RateLimiter}
use janitor.Publish.Policy.Types.{World}
use janitor.Publish.Existing.Types.{
  CheckMpError, no_run_for_merge_proposal, branch_rate_limited, unexpected_http_status,
  forge_login_required, database, brz, invalid_identifier, ScanWorld, Checked,
}
use janitor.Publish.Existing.Check.{Setting, check_existing_mp}
use janitor.Publish.Existing.Scan.{
  Limits, ScanState, ScanItem, Forge, Verdict, go_on, give_up, crash, note_modified, note_checked,
  note_answer, limit_forge, check_item, scan_item, scan_items, start_scan, set_counts,
  publish_counts, finish_scan, check_existing, iter_all_mps, all_statuses,
  classify_forge_rate_limit, backoff,
}
use janitor.Publish.Existing.Once.{check_existing_mp-IsStored}
use janitor.Publish.Existing.Pass.{
  rows, IsWithin, scan_item-IsNext, ForgeRateLimitDecision-cases, Verdict-cases,
}

scan_items-rows :
    (l : ℕ) (limits : Limits) (limited : limits.modify_limit ≡ some (pos l)) (meet : ℕ → Setting)
    (k n : ℕ) (items : List ScanItem) (st : ScanState)
    → IsWithin l n st
    → rows (scan_items meet limits k items st).1 ≤ n + l + 1
unfolding scan_items
scan_items-rows l limits limited meet k n [] st within = within.1
scan_items-rows l limits limited meet k n (item ∷ rest) st within =
    let here = scan_item (meet k) limits item st in
    let next = scan_item-IsNext l limits limited (meet k) item n st within in
    elim (Verdict-cases here.0) [
      | inl e ↦
          rw (e, scan_items)
            (scan_items-rows l limits limited meet (suc k) n rest here.1 (next.1 e))
      | inr (inl e) ↦ rw (e, scan_items) next.0
      | inr (inr e) ↦ rw (e, scan_items) next.0
    ]

finish_scan-rows : (r : Verdict × ScanState) → rows (finish_scan r).1 ≡ rows r.1
unfolding finish_scan publish_counts
finish_scan-rows (go_on, st) = ground arith
finish_scan-rows (give_up, st) = refl
finish_scan-rows (crash, st) = refl

-- With the modify limit `l`, a scan stores at most `l + 1` publish rows, whatever the forges, the
-- worker and the tables answer and however it ends.
pub check_existing_within :
    (meet : ℕ → Setting) (limits : Limits) (l : ℕ) (forges : List Forge) (world : World)
    (forge_limits : Dict ℕ)
    → limits.modify_limit ≡ some (pos l)
    → rows (check_existing meet limits forges world forge_limits).1
      ≤ length world.db.publishes + l + 1
unfolding check_existing start_scan
check_existing_within meet limits l forges world forge_limits limited =
    let items = iter_all_mps forges all_statuses in
    rw (finish_scan-rows (scan_items meet limits 0 items (start_scan world forge_limits))) (
      scan_items-rows l limits limited meet 0 (length world.db.publishes) items
        (start_scan world forge_limits) (omega arith, omega arith, λ h. absurd (omega arith)))

note_answer-scan :
    (limits : Limits) (now : ℕ) (forge : String) (o : Outcome CheckMpError Bool) (st : ScanState)
    → (note_answer limits now forge o st).1.scan ≡ st.scan
unfolding note_answer note_checked note_modified limit_forge
note_answer-scan limits now forge (ok true) st = ground arith
note_answer-scan limits now forge (ok false) st = ground arith
note_answer-scan limits now forge (err (branch_rate_limited retry_after)) st = refl
note_answer-scan limits now forge (err (no_run_for_merge_proposal url)) st = ground arith
note_answer-scan limits now forge (err unexpected_http_status) st = ground arith
note_answer-scan limits now forge (err forge_login_required) st = ground arith
note_answer-scan limits now forge (err database) st = ground arith
note_answer-scan limits now forge (err brz) st = ground arith
note_answer-scan limits now forge (err invalid_identifier) st = ground arith
note_answer-scan limits now forge panic st = refl

-- The limiter of a scan.
abbrev limiter_of : ScanState → RateLimiter
limiter_of st = st.scan.world.limiter

check_item-limiter :
    (s : Setting) (limits : Limits) (item : ScanItem) (st : ScanState)
    → limiter_of (check_item s limits item st).1 ≡ limiter_of st
unfolding check_item
check_item-limiter s limits item st =
    let c : Checked = check_existing_mp s item.mp item.status st.check_only st.scan in
    ap (λ (w : ScanWorld). w.world.limiter)
      (note_answer-scan limits s.env.now item.forge c.0 (record st { scan = c.1 }))
    ∙ (check_existing_mp-IsStored s item.mp item.status st.check_only st.scan).0

scan_item-limiter :
    (s : Setting) (limits : Limits) (item : ScanItem) (st : ScanState)
    → limiter_of (scan_item s limits item st).1 ≡ limiter_of st
unfolding scan_item
scan_item-limiter s limits item st =
    elim (ForgeRateLimitDecision-cases
      (classify_forge_rate_limit (lookup item.forge st.forge_limits) s.env.now)) [
        | inl e ↦ rw (e, scan_item) (check_item-limiter s limits item st)
        | inr (inl e) ↦ rw (e, scan_item) refl
        | inr (inr e) ↦
            rw (e, scan_item)
              (check_item-limiter s limits item
                (record st { forge_limits = remove item.forge st.forge_limits }))
      ]

scan_items-limiter :
    (meet : ℕ → Setting) (limits : Limits) (k : ℕ) (items : List ScanItem) (st : ScanState)
    → limiter_of (scan_items meet limits k items st).1 ≡ limiter_of st
unfolding scan_items
scan_items-limiter meet limits k [] st = refl
scan_items-limiter meet limits k (item ∷ rest) st =
    let here = scan_item (meet k) limits item st in
    let same = scan_item-limiter (meet k) limits item st in
    elim (Verdict-cases here.0) [
      | inl e ↦ rw (e, scan_items) (scan_items-limiter meet limits (suc k) rest here.1 ∙ same)
      | inr (inl e) ↦ rw (e, scan_items) same
      | inr (inr e) ↦ rw (e, scan_items) same
    ]

-- The forge's time has come, if it has one.
abbrev IsOver : Option ℕ → ℕ → Type 0
IsOver none now = Unit {0}
IsOver (some until) now = until ≤ now

-- Every proposal of the scan was reached, each on a forge that was not to be left alone then.
abbrev pub ReachesAll : (ℕ → Setting) → Limits → ℕ → List ScanItem → ScanState → Type 0
ReachesAll meet limits k [] st = Unit {0}
ReachesAll meet limits k (item ∷ rest) st =
    IsOver (lookup item.forge st.forge_limits) (meet k).env.now
    × ((scan_item (meet k) limits item st).0 ≡ go_on)
    × ReachesAll meet limits (suc k) rest (scan_item (meet k) limits item st).1

note_answer-was_limited :
    (limits : Limits) (now : ℕ) (forge : String) (o : Outcome CheckMpError Bool) (st : ScanState)
    → (note_answer limits now forge o st).1.was_limited ≡ st.was_limited
unfolding note_answer note_checked note_modified limit_forge
note_answer-was_limited limits now forge (ok true) st = ground arith
note_answer-was_limited limits now forge (ok false) st = ground arith
note_answer-was_limited limits now forge (err (branch_rate_limited retry_after)) st = refl
note_answer-was_limited limits now forge (err (no_run_for_merge_proposal url)) st = ground arith
note_answer-was_limited limits now forge (err unexpected_http_status) st = ground arith
note_answer-was_limited limits now forge (err forge_login_required) st = ground arith
note_answer-was_limited limits now forge (err database) st = ground arith
note_answer-was_limited limits now forge (err brz) st = ground arith
note_answer-was_limited limits now forge (err invalid_identifier) st = ground arith
note_answer-was_limited limits now forge panic st = refl

check_item-was_limited :
    (s : Setting) (limits : Limits) (item : ScanItem) (st : ScanState)
    → (check_item s limits item st).1.was_limited ≡ st.was_limited
unfolding check_item
check_item-was_limited s limits item st =
    let c : Checked = check_existing_mp s item.mp item.status st.check_only st.scan in
    note_answer-was_limited limits s.env.now item.forge c.0 (record st { scan = c.1 })

classify-IsOver :
    (o : Option ℕ) (now : ℕ) → (classify_forge_rate_limit o now ≡ backoff) ⊎ IsOver o now
unfolding classify_forge_rate_limit
classify-IsOver none now = inr tt
classify-IsOver (some until) now = elim (Bool-cases (ltb now until)) [
  | inl e ↦ inl (rw e refl)
  | inr e ↦ inr (ltb→le now until e)
]

-- A forge that is left alone is noted, and nothing takes the note back.
scan_item-notes :
    (s : Setting) (limits : Limits) (item : ScanItem) (st : ScanState)
    → (scan_item s limits item st).1.was_limited ≡ false
    → (st.was_limited ≡ false) × IsOver (lookup item.forge st.forge_limits) s.env.now
unfolding scan_item
scan_item-notes s limits item st h =
    elim (classify-IsOver (lookup item.forge st.forge_limits) s.env.now) [
      | inl e ↦ absurd (cc (rw (e, scan_item) at h))
      | inr over ↦
          elim (ForgeRateLimitDecision-cases
            (classify_forge_rate_limit (lookup item.forge st.forge_limits) s.env.now)) [
              | inl e ↦
                  (sym (check_item-was_limited s limits item st) ∙ rw (e, scan_item) at h, over)
              | inr (inl e) ↦ absurd (cc (rw (e, scan_item) at h))
              | inr (inr e) ↦ (
                sym (
                      check_item-was_limited s limits item
                        (record st { forge_limits = remove item.forge st.forge_limits }))
                    ∙ rw (e, scan_item) at h,
                over,
              )
            ]
    ]

scan_items-ReachesAll :
    (meet : ℕ → Setting) (limits : Limits) (k : ℕ) (items : List ScanItem) (st : ScanState)
    → (scan_items meet limits k items st).0 ≡ go_on
    → (scan_items meet limits k items st).1.was_limited ≡ false
    → (st.was_limited ≡ false) × ReachesAll meet limits k items st
unfolding scan_items
scan_items-ReachesAll meet limits k [] st went h = (h, tt)
scan_items-ReachesAll meet limits k (item ∷ rest) st went h =
    let here = scan_item (meet k) limits item st in
    elim (Verdict-cases here.0) [
      | inl e ↦
          let later =
            scan_items-ReachesAll meet limits (suc k) rest here.1 (rw (e, scan_items) at went)
              (rw (e, scan_items) at h) in
          let noted = scan_item-notes (meet k) limits item st later.0 in
          (noted.0, (noted.1, e, later.1))
      | inr (inl e) ↦ absurd (cc (rw (e, scan_items) at went))
      | inr (inr e) ↦ absurd (cc (rw (e, scan_items) at went))
    ]

-- What is left of the limiter: the counts of a complete scan, or what it was.
abbrev pub IsCounted : RateLimiter → Type 0 → Outcome CheckMpError Bool × ScanState → Type 0
IsCounted before Complete r =
    ((r.0 ≡ ok true) × Complete × (limiter_of r.1 ≡ set_counts r.1.scan.mps_per_bucket before))
    ⊎ ((r.0 ≢ ok true) × (limiter_of r.1 ≡ before))

finish_scan-IsCounted :
    (before : RateLimiter) (Complete : Type 0) (r : Verdict × ScanState)
    → limiter_of r.1 ≡ before
    → (r.0 ≡ go_on → r.1.was_limited ≡ false → Complete)
    → IsCounted before Complete (finish_scan r)
unfolding finish_scan publish_counts
finish_scan-IsCounted before Complete (go_on, st) same complete = elim (Bool-cases st.was_limited) [
  | inl e ↦ rw (e, finish_scan) (inr (λ f. cc f, same))
  | inr e ↦
      let all = complete refl e in
      rw (e, finish_scan) (inl (refl, all, ap (set_counts st.scan.mps_per_bucket) same))
]
finish_scan-IsCounted before Complete (give_up, st) same complete = inr (λ f. cc f, same)
finish_scan-IsCounted before Complete (crash, st) same complete = inr (λ f. cc f, same)

-- A scan hands its counts to the rate limiter exactly when it answers that it was complete, and then
-- it has reached every proposal that the forges list, each at a time when no rate limit of its forge
-- was still running. Otherwise the limiter is as it was before the scan.
pub check_existing-IsCounted :
    (meet : ℕ → Setting) (limits : Limits) (forges : List Forge) (world : World)
    (forge_limits : Dict ℕ)
    → IsCounted world.limiter
        (ReachesAll meet limits 0
          (iter_all_mps forges all_statuses)
          (start_scan world forge_limits))
        (check_existing meet limits forges world forge_limits)
unfolding check_existing start_scan
check_existing-IsCounted meet limits forges world forge_limits =
    let items = iter_all_mps forges all_statuses in
    let start = start_scan world forge_limits in
    finish_scan-IsCounted world.limiter (ReachesAll meet limits 0 items start)
      (scan_items meet limits 0 items start) (scan_items-limiter meet limits 0 items start)
      (λ went clear. (scan_items-ReachesAll meet limits 0 items start went clear).1)
