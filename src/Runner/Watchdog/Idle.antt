-- ===== src/Runner/Watchdog/Idle.antt =====
-- The idle timer of the watchdog (runner/src/watchdog.rs).
use janitor.Base.{
  String, ℕ, ◌+◌, ◌*◌, ◌<◌, ◌≡◌, none, some, List, [], ◌∷◌, arith, eq_iff, lookup, lookup-insert,
  if◌then◌else◌, leb, Dict, All,
}
use janitor.Runner.Watchdog.{health_check_failed, check_idle_timeout, second}

-- The timers after idle readings at these times.
pub idle_readings : ℕ → String → List ℕ → Dict ℕ → Dict ℕ
idle_readings timeout_secs log_id [] timers = timers
idle_readings timeout_secs log_id (now ∷ rest) timers =
    idle_readings timeout_secs log_id rest (check_idle_timeout timers log_id now timeout_secs).1

lookup-idle_readings :
    (timeout_secs : ℕ) (log_id : String) (first : ℕ) (times : List ℕ) (timers : Dict ℕ)
    → lookup log_id timers ≡ some first
    → All (λ t. t < first + timeout_secs * second) times
    → lookup log_id (idle_readings timeout_secs log_id times timers) ≡ some first
unfolding idle_readings check_idle_timeout
lookup-idle_readings timeout_secs log_id first [] timers h early = h
lookup-idle_readings timeout_secs log_id first (now ∷ rest) timers h early =
    lookup-idle_readings timeout_secs log_id first rest _
      (ground (arith, h, early.0, eq_iff log_id log_id, lookup-insert log_id log_id first timers))
      early.1

lookup-first_reading :
    (timeout_secs : ℕ) (log_id : String) (first : ℕ) (timers : Dict ℕ)
    → lookup log_id timers ≡ none
    → 0 < timeout_secs
    → lookup log_id (check_idle_timeout timers log_id first timeout_secs).1 ≡ some first
unfolding check_idle_timeout
lookup-first_reading timeout_secs log_id first timers h pos =
    ground (arith, h, eq_iff log_id log_id, lookup-insert log_id log_id first timers)

-- After a first idle reading and any number of further ones within the timeout, a reading gives the
-- run up exactly when the timeout has passed since the first one, whatever came between; the
-- timeout is not 0.
check_idle_timeout_since_first :
    (timeout_secs : ℕ) (log_id : String) (first : ℕ) (times : List ℕ) (now : ℕ) (timers : Dict ℕ)
    → lookup log_id timers ≡ none
    → 0 < timeout_secs
    → All (λ t. t < first + timeout_secs * second) times
    → (check_idle_timeout
        (idle_readings timeout_secs log_id (first ∷ times) timers)
        log_id
        now
        timeout_secs).0
      ≡ (if leb (first + timeout_secs * second) now then some health_check_failed else none)
unfolding check_idle_timeout idle_readings
check_idle_timeout_since_first timeout_secs log_id first times now timers h pos early = ground (
  arith,
  lookup-idle_readings timeout_secs log_id first times
      (check_idle_timeout timers log_id first timeout_secs).1
      (lookup-first_reading timeout_secs log_id first timers h pos) early,
)
