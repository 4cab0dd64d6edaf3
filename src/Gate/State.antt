-- ===== src/Gate/State.antt =====
-- The state of the semaphore (src/limiter/gate.ts, class Semaphore; src/limiter/types.ts).
-- Amounts are in thousandths of a permit, as in the source. A promise returned by `acquire` is
-- known by a number; `permits` holds the `released` flag of each permit's closure, and `outcomes`
-- how each promise was settled, the first settlement counting. `release_timer` tells whether
-- `releaseTimer` is set, the one timer in `cooldownTimers`. Callbacks and logging are left out.
use umans_gate.Base.{ℕ, Bool, List, none, some, String, lookup, insert, nat_key}

abbrev pub scale : ℕ
scale = 1000

pub data GateError : Type 0 where
  invalid_weight circuit_open queue_full timeout aborted shut_down : GateError

pub data Outcome : Type 0 where
  granted : Outcome
  rejected : GateError → Outcome

pub record Waiter : Type 0 where
  pub id : ℕ
  pub weight : ℕ
  pub intention : String
  pub enqueued_at : ℕ
  pub was_probe : Bool

pub record Permit : Type 0 where
  pub id : ℕ
  pub weight : ℕ
  pub intention : String
  pub released : Bool

-- An element of `pendingReleases`.
pub record Release : Type 0 where
  pub weight : ℕ
  pub intention : String

pub record Semaphore : Type 0 where
  pub active : ℕ
  pub limit : ℕ
  pub hard_cap : ℕ
  pub soft_limit : ℕ
  pub release_cooldown_ms : ℕ
  pub max_queue_depth : ℕ
  pub queue_timeout_ms : ℕ
  pub waiters : List Waiter
  pub reservations : List (String × ℕ)
  pub active_by_intention : List (String × ℕ)
  pub queued_by_intention : List (String × ℕ)
  pub pending_releases : List Release
  pub release_timer : Bool
  pub shutdown_requested : Bool
  pub permits : List Permit
  pub outcomes : List (ℕ × Outcome)

pub record Options : Type 0 where
  pub hard_cap : ℕ
  pub soft_limit : ℕ
  pub release_cooldown_ms : ℕ
  pub breaker_threshold : ℕ
  pub breaker_window_ms : ℕ
  pub breaker_cooldown_ms : ℕ
  pub max_queue_depth : ℕ
  pub queue_timeout_ms : ℕ
  pub intentions : List (String × ℕ)

-- `resolve` and `reject` of a promise that may be settled already.
abbrev pub settle : ℕ → Outcome → List (ℕ × Outcome) → List (ℕ × Outcome)
settle id outcome outcomes = elim (lookup id outcomes) [
  | none ↦ insert id outcome outcomes
  | some old ↦ outcomes
]
