-- ===== src/Publish/Pending/Limit.antt =====
-- The push limit of `publish_pending_ready` (publish/src/queue.rs).
use janitor.Base.{
  String, ℕ, ◌+◌, ◌≤◌, ◌<◌, ◌≡◌, refl, Option, none, some, List, [], ◌∷◌, ◌++◌, Bool, true, false,
  ◌||◌, arith, Outcome, ok, err, panic, Bool-cases, Option-cases, inl, inr, All, All-append, length,
}
use janitor.Publish.Run.{Run}
use janitor.Publish.Policy.Types.{Campaign, Environment, World}
use janitor.Publish.Consider.{
  Modes, ReadyRun, Considered, consider_publish_run, should_skip_for_push_limit,
}
use janitor.Publish.Consider.Steps.{AtMost, AtMost-consider_publish_run}
use janitor.Publish.Pending.{
  Pass, note_considered, remaining, reached, consider_ready, publish_ready_runs,
  publish_pending_ready, count_published, count_modes,
}

-- A call with this limit does not stop for an exhausted limit.
abbrev pub NotExhausted : Option ℕ → Type 0
NotExhausted limit = should_skip_for_push_limit true limit ≡ false

-- What a pass may publish whose runs publish at most `k` each.
abbrev pub Within : ℕ → Option ℕ → ℕ → Type 0
Within k none n = Unit
Within k (some limit) n = n < limit + k

abbrev pub Small : ℕ → ReadyRun → Type 0
Small k r = length r.unpublished_branches ≤ k

remaining-NotExhausted :
    (limit : Option ℕ) (n : ℕ) → reached limit n ≡ false → NotExhausted (remaining limit n)
unfolding reached remaining should_skip_for_push_limit
remaining-NotExhausted none n h = refl
remaining-NotExhausted (some l) n h = ground arith

count_modes-length : (modes : Modes) → count_modes modes ≤ length modes
unfolding count_modes
count_modes-length [] = omega arith
count_modes-length ((role, m) ∷ modes) = ground (arith, count_modes-length modes)

count_published-length : (modes : Modes) → count_published modes ≤ length modes
unfolding count_published
count_published-length modes = ground (arith, count_modes-length modes)

given-note_considered : (c : Considered) (p : Pass) → (note_considered c p).given ≡ p.given
unfolding note_considered
given-note_considered (ok modes, w) p = refl
given-note_considered (err e, w) p = refl
given-note_considered (panic, w) p = refl

published_count-note_considered :
    (k : ℕ) (o : Outcome String Modes) (w : World) (p : Pass)
    → AtMost k o
    → (note_considered (o, w) p).published_count ≤ p.published_count + k
unfolding note_considered
published_count-note_considered k (ok modes) w p h = omega (arith, count_published-length modes)
published_count-note_considered k (err e) w p h = omega arith
published_count-note_considered k panic w p h = omega arith

module _ (env : Environment) (campaigns : List Campaign) (push_limit : Option ℕ)
    (require_binary_diff : Bool) (interrupted : Run → World → Option World) where
  given-consider_ready :
      (r : ReadyRun) (p : Pass)
      → (consider_ready env campaigns push_limit require_binary_diff interrupted r p).given
        ≡ p.given ++ remaining push_limit p.published_count ∷ []
  unfolding consider_ready
  given-consider_ready r p = elim (Option-cases (interrupted r.run p.world)) [
    | inl e ↦ rw (e, consider_ready) (given-note_considered _ _)
    | inr (w, e) ↦ rw (e, consider_ready)
  ]

  published_count-consider_ready :
      (k : ℕ) (r : ReadyRun) (p : Pass)
      → 1 ≤ k
      → Small k r
      → (consider_ready env campaigns push_limit require_binary_diff interrupted r
          p).published_count
        ≤ p.published_count + k
  unfolding consider_ready
  published_count-consider_ready k r p h1 hk = elim (Option-cases (interrupted r.run p.world)) [
    | inl e ↦
        rw (e, consider_ready)
          (published_count-note_considered k
            (consider_publish_run env campaigns r (remaining push_limit p.published_count)
              require_binary_diff p.world).0
            _ _
            (AtMost-consider_publish_run env campaigns r (remaining push_limit p.published_count)
              require_binary_diff p.world k h1 hk))
    | inr (w, e) ↦ rw (e, consider_ready) (omega arith)
  ]

  given-publish_ready_runs :
      (rs : List ReadyRun) (p : Pass)
      → All NotExhausted p.given
      → All NotExhausted
          (publish_ready_runs env campaigns push_limit require_binary_diff interrupted rs p).given
  unfolding publish_ready_runs
  given-publish_ready_runs [] p h = h
  given-publish_ready_runs (r ∷ rs) p h =
      elim (Bool-cases (p.panicked || reached push_limit p.published_count)) [
        | inl e ↦ rw e h
        | inr e ↦ rw e (
            given-publish_ready_runs rs
              (consider_ready env campaigns push_limit require_binary_diff interrupted r p)
              (rw (given-consider_ready r p) (
                All-append NotExhausted p.given _ h
                  (remaining-NotExhausted push_limit p.published_count (ground arith), tt))))
      ]

  -- No call of `consider_publish_run` is told that the limit is exhausted.
  pub publish_pending_ready-NotExhausted :
      (ready_runs : List ReadyRun) (w : World)
      → All NotExhausted
          (publish_pending_ready env campaigns push_limit require_binary_diff interrupted ready_runs
            w).given
  unfolding publish_pending_ready
  publish_pending_ready-NotExhausted ready_runs w = given-publish_ready_runs ready_runs _ tt

  Within-step : (k m n : ℕ) → reached push_limit m ≡ false → n ≤ m + k → Within k push_limit n
  unfolding reached
  Within-step k m n h le = elim (Option-cases push_limit) [
    | inl e ↦ rw e tt
    | inr (l, e) ↦ rw e (ground (arith, e, h, le))
  ]

  Within-publish_ready_runs :
      (k : ℕ)
      → 1 ≤ k
      → (rs : List ReadyRun) → All (Small k) rs
      → (p : Pass) → Within k push_limit p.published_count
      → Within k push_limit
          (publish_ready_runs env campaigns push_limit require_binary_diff interrupted rs
            p).published_count
  unfolding publish_ready_runs
  Within-publish_ready_runs k h1 [] hs p h = h
  Within-publish_ready_runs k h1 (r ∷ rs) hs p h =
      elim (Bool-cases (p.panicked || reached push_limit p.published_count)) [
        | inl e ↦ rw e h
        | inr e ↦ rw e (
            Within-publish_ready_runs k h1 rs hs.1
              (consider_ready env campaigns push_limit require_binary_diff interrupted r p)
              (Within-step k p.published_count _ (ground arith)
                (published_count-consider_ready k r p h1 hs.0)))
      ]

  -- A pass whose runs have at most `k` branches each stops at fewer than `k` above the limit.
  pub Within-publish_pending_ready :
      (k : ℕ)
      → 1 ≤ k
      → (ready_runs : List ReadyRun) → All (Small k) ready_runs
      → (w : World)
      → Within k push_limit
          (publish_pending_ready env campaigns push_limit require_binary_diff interrupted ready_runs
            w).published_count
  unfolding publish_pending_ready
  Within-publish_pending_ready k h1 ready_runs hs w =
      Within-publish_ready_runs k h1 ready_runs hs _
        (elim (Option-cases push_limit) [ inl e ↦ rw e tt | inr (l, e) ↦ rw e (omega arith) ])
