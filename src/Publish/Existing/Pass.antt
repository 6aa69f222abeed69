-- ===== src/Publish/Existing/Pass.antt =====
-- What a scan of all proposals (`check_existing`, publish/src/lib.rs) does at most.
use janitor.Base.{
  if◌then◌else◌, String, ℕ, ◌+◌, ◌≤◌, ◌<◌, ◌≡◌, refl, some, [], ◌∷◌, Bool, true, false, not, ◌||◌,
  Outcome, ok, err, panic, ◌⊎◌, inl, inr, arith, ap, ◌∙◌, length, length-append, lookup, remove,
  Bool-cases, if◌then◌else◌, ltb, ltb→lt, ltb→le,
}
use janitor.Base.Int.{pos}
use janitor.Publish.Database.{Publish}
use janitor.Publish.Existing.Types.{
  CheckMpError, no_run_for_merge_proposal, branch_rate_limited, unexpected_http_status,
  forge_login_required, database, brz, invalid_identifier, forge_open, forge_status_eq, ScanWorld,
  Checked,
}
use janitor.Publish.Existing.Check.{Setting, check_existing_mp}
use janitor.Publish.Existing.Scan.{
  Limits, ScanState, ScanItem, Verdict, go_on, give_up, crash, exceeds, note_modified, note_checked,
  note_answer, limit_forge, error_is_unexpected, error_is_modification, check_item, scan_item,
  classify_forge_rate_limit, not_limited, backoff, expired, ForgeRateLimitDecision,
}
use janitor.Publish.Existing.Once.{IsStored, check_existing_mp-IsStored, check_existing_mp_passive}

-- The number of publish rows.
abbrev pub rows : ScanState → ℕ
rows st = length st.scan.world.db.publishes

-- While a scan goes on, with the modify limit `l` and `n` rows at its start.
abbrev pub IsWithin : ℕ → ℕ → ScanState → Type 0
IsWithin l n st =
    (rows st ≤ n + st.modified) × (rows st ≤ n + l + 1) × (l < st.modified → st.check_only ≡ true)

passive_flag :
    (open_status check_only : Bool) → check_only ≡ true → (not open_status || check_only) ≡ true
passive_flag open_status check_only on = rw on (ground arith)

pub ForgeRateLimitDecision-cases :
    (d : ForgeRateLimitDecision) → (d ≡ not_limited) ⊎ ((d ≡ backoff) ⊎ (d ≡ expired))
ForgeRateLimitDecision-cases not_limited = inl refl
ForgeRateLimitDecision-cases backoff = inr (inl refl)
ForgeRateLimitDecision-cases expired = inr (inr refl)

pub Verdict-cases : (v : Verdict) → (v ≡ go_on) ⊎ ((v ≡ give_up) ⊎ (v ≡ crash))
Verdict-cases go_on = inl refl
Verdict-cases give_up = inr (inl refl)
Verdict-cases crash = inr (inr refl)

module _ (l : ℕ) (limits : Limits) (limited : limits.modify_limit ≡ some (pos l)) where
  -- What the bookkeeping after a check does to the count of modifications.
  abbrev Counts : Bool → ScanState → ScanState → Type 0
  Counts modified st st' =
      (st'.scan ≡ st.scan)
      × (st.modified ≤ st'.modified)
      × (modified ≡ true → st'.modified ≡ st.modified + 1)
      × ((l < st.modified → st.check_only ≡ true) → l < st'.modified → st'.check_only ≡ true)

  note_modified-Counts :
      (modified : Bool) (st : ScanState) → Counts modified st (note_modified limits modified st)
  unfolding note_modified exceeds
  note_modified-Counts false st = (refl, omega arith, λ e. absurd (cc e), λ h. h)
  note_modified-Counts true st =
      (refl, omega arith, λ e. refl, λ h k. rw (limited, exceeds) (ground (arith, k)))

  -- The same after an answer, while the scan goes on.
  abbrev IsNoted : Outcome CheckMpError Bool → ScanState → Verdict × ScanState → Type 0
  IsNoted o st r =
      (r.1.scan ≡ st.scan)
      × (r.0 ≡ go_on
          → (st.modified ≤ r.1.modified)
            × (o ≡ ok true → r.1.modified ≡ st.modified + 1)
            × ((l < st.modified → st.check_only ≡ true) → l < r.1.modified → r.1.check_only ≡ true))

  note_checked-IsNoted :
      (o : Outcome CheckMpError Bool) (unexpected modified : Bool) (st : ScanState)
      → (o ≡ ok true → modified ≡ true)
      → IsNoted o st (note_checked limits unexpected modified st)
  unfolding note_checked
  note_checked-IsNoted o unexpected modified st same =
      let seen : ScanState = record st {
        unexpected = if unexpected then st.unexpected + 1 else st.unexpected;
      } in
      let counts = note_modified-Counts modified seen in
      elim (Bool-cases (exceeds seen.unexpected limits.unexpected_limit)) [
        | inl e ↦ rw (e, note_checked) (refl, λ stop. absurd (cc stop))
        | inr e ↦
            rw (e, note_checked) (counts.0, λ go. (counts.1, λ is. counts.2 (same is), counts.3))
      ]

  note_answer-IsNoted :
      (now : ℕ) (forge : String) (o : Outcome CheckMpError Bool) (st : ScanState)
      → IsNoted o st (note_answer limits now forge o st)
  unfolding note_answer limit_forge error_is_unexpected error_is_modification
  note_answer-IsNoted now forge (ok modified) st =
      note_checked-IsNoted (ok modified) false modified st (λ e. cc e)
  note_answer-IsNoted now forge (err (branch_rate_limited retry_after)) st =
      (refl, λ go. (omega arith, λ e. absurd (cc e), λ h. h))
  note_answer-IsNoted now forge (err (no_run_for_merge_proposal url)) st =
      note_checked-IsNoted (err (no_run_for_merge_proposal url)) _ _ st (λ e. absurd (cc e))
  note_answer-IsNoted now forge (err unexpected_http_status) st =
      note_checked-IsNoted (err unexpected_http_status) _ _ st (λ e. refl)
  note_answer-IsNoted now forge (err forge_login_required) st =
      note_checked-IsNoted (err forge_login_required) _ _ st (λ e. absurd (cc e))
  note_answer-IsNoted now forge (err database) st =
      note_checked-IsNoted (err database) _ _ st (λ e. absurd (cc e))
  note_answer-IsNoted now forge (err brz) st =
      note_checked-IsNoted (err brz) _ _ st (λ e. absurd (cc e))
  note_answer-IsNoted now forge (err invalid_identifier) st =
      note_checked-IsNoted (err invalid_identifier) _ _ st (λ e. absurd (cc e))
  note_answer-IsNoted now forge panic st = (refl, λ stop. absurd (cc stop))

  -- Rows are within the limit after a proposal, and the scan can go on from there.
  abbrev pub IsNext : ℕ → Verdict × ScanState → Type 0
  IsNext n r = (rows r.1 ≤ n + l + 1) × (r.0 ≡ go_on → IsWithin l n r.1)

  -- Before the limit is reached, the modifications are at most the limit.
  below_limit : (st : ScanState) (n : ℕ) → IsWithin l n st → st.check_only ≡ false → st.modified ≤ l
  below_limit st n within off = elim (Bool-cases (ltb l st.modified)) [
    | inr e ↦ ltb→le l st.modified e
    | inl e ↦ absurd (cc (within.2 (ltb→lt l st.modified e), off))
  ]

  rows_after :
      (n : ℕ) (st : ScanState) (c : Checked)
      → IsWithin l n st
      → IsStored st.scan c
      → (st.check_only ≡ true → c.1.world.db.publishes ≡ st.scan.world.db.publishes)
      → (length c.1.world.db.publishes ≤ n + l + 1)
        × ((length c.1.world.db.publishes ≡ rows st)
            ⊎ ((length c.1.world.db.publishes ≡ rows st + 1) × (c.0 ≡ ok true)))
  rows_after n st c within (limiter, inl same) passive =
      let e = ap (length {A = Publish}) same in (rw e within.1, inl e)
  rows_after n st c within (limiter, inr (p, more, answer)) passive =
      let e : length c.1.world.db.publishes ≡ rows st + 1 =
        ap (length {A = Publish}) more ∙ length-append st.scan.world.db.publishes (p ∷ []) in
      elim (Bool-cases st.check_only) [
        | inl on ↦ let same = ap (length {A = Publish}) (passive on) in (rw same within.1, inl same)
        | inr off ↦
            let below = below_limit st n within off in (omega (arith, within.0), inr (e, answer))
      ]

  step-IsNext :
      (n : ℕ) (st : ScanState) (c : Checked) (r : Verdict × ScanState)
      → IsWithin l n st
      → IsNoted c.0 (record st { scan = c.1 }) r
      → IsStored st.scan c
      → (st.check_only ≡ true → c.1.world.db.publishes ≡ st.scan.world.db.publishes)
      → IsNext n r
  step-IsNext n st c r within noted stored passive =
      let after = rows_after n st c within stored passive in
      let same : rows r.1 ≡ length c.1.world.db.publishes =
        ap (λ (w : ScanWorld). length w.world.db.publishes) noted.0 in
      (
        rw same after.0,
        λ go.
            let counts = noted.1 go in
            (
              elim after.1 [
                | inl e ↦ omega (arith, same, e, within.0, counts.0)
                | inr (e, answer) ↦ omega (arith, same, e, within.0, counts.1 answer)
              ],
              rw same after.0,
              counts.2 within.2,
            ),
      )

  check_item-IsNext :
      (s : Setting) (item : ScanItem) (n : ℕ) (st : ScanState)
      → IsWithin l n st
      → IsNext n (check_item s limits item st)
  unfolding check_item
  check_item-IsNext s item n st within =
      let c : Checked = check_existing_mp s item.mp item.status st.check_only st.scan in
      step-IsNext n st c (check_item s limits item st) within
        (note_answer-IsNoted s.env.now item.forge c.0 (record st { scan = c.1 }))
        (check_existing_mp-IsStored s item.mp item.status st.check_only st.scan)
        (λ on.
          (check_existing_mp_passive s item.mp item.status st.check_only st.scan
            (passive_flag (forge_status_eq item.status forge_open) st.check_only on)).0.2)

  pub scan_item-IsNext :
      (s : Setting) (item : ScanItem) (n : ℕ) (st : ScanState)
      → IsWithin l n st
      → IsNext n (scan_item s limits item st)
  unfolding scan_item
  scan_item-IsNext s item n st within =
      elim (ForgeRateLimitDecision-cases
        (classify_forge_rate_limit (lookup item.forge st.forge_limits) s.env.now)) [
          | inl e ↦ rw (e, scan_item) (check_item-IsNext s item n st within)
          | inr (inl e) ↦ rw (e, scan_item) (within.1, λ go. within)
          | inr (inr e) ↦
              rw (e, scan_item)
                (check_item-IsNext s item n
                  (record st { forge_limits = remove item.forge st.forge_limits }) within)
        ]
