-- ===== src/Breaker.antt =====
-- The circuit breaker (src/limiter/circuit-breaker.ts, class CircuitBreaker).
-- `Date.now()` is an argument of each operation; times and settings are whole, non-negative
-- milliseconds, and `now - t < w` is written `now < t + w`, which also covers a clock set back.
pub mod Invariant
pub mod Trip
mod Tests
use umans_gate.Base.{
  ℕ, ◌+◌, Bool, true, false, List, [], ◌∷◌, ◌++◌, Option, none, some, ltb, leb, if◌then◌else◌,
  length, keep,
}

pub data BreakerState : Type 0 where
  closed opened half_open : BreakerState

-- What a 429 answer is classified as.
pub data Kind : Type 0 where
  concurrency rate_limit gateway : Kind

pub record Breaker : Type 0 where
  pub state : BreakerState
  pub concurrency_429s : List ℕ
  pub opened_at : ℕ
  pub threshold : ℕ
  pub window_ms : ℕ
  pub cooldown_ms : ℕ
  pub half_open_probe_started : Bool

unfoldable pub new : ℕ → ℕ → ℕ → Breaker
new threshold window_ms cooldown_ms = record {
  state = closed;
  concurrency_429s = [];
  opened_at = 0;
  threshold = threshold;
  window_ms = window_ms;
  cooldown_ms = cooldown_ms;
  half_open_probe_started = false;
}

-- `opt !== undefined ? opt : old`
abbrev pub given {ℓ} : {A : Type ℓ} → Option A → A → A
given none old = old
given (some v) old = v

-- The 429s of the last `window` milliseconds.
abbrev pub fresh : ℕ → ℕ → List ℕ → List ℕ
fresh window now = keep (λ t. ltb now (t + window))

unfoldable pub reconfigure : Breaker → Option ℕ → Option ℕ → Option ℕ → ℕ → Breaker
reconfigure b threshold window_ms cooldown_ms now = record b {
  threshold = given threshold b.threshold;
  window_ms = given window_ms b.window_ms;
  cooldown_ms = given cooldown_ms b.cooldown_ms;
  concurrency_429s = fresh (given window_ms b.window_ms) now b.concurrency_429s;
}

half_open_from : BreakerState → Breaker → ℕ → Breaker × BreakerState
half_open_from opened b now =
    if b.half_open_probe_started
    then (b, opened)
    else if leb (b.opened_at + b.cooldown_ms) now
    then (record b { half_open_probe_started = true; state = half_open }, half_open)
    else (b, b.state)
half_open_from half_open b now = if b.half_open_probe_started then (b, opened) else (b, b.state)
half_open_from closed b now = (b, b.state)

unfoldable pub maybe_half_open : Breaker → ℕ → Breaker × BreakerState
unfolding half_open_from
maybe_half_open b now = half_open_from b.state b now

abbrev pub is_opened : BreakerState → Bool
is_opened opened = true
is_opened _ = false

trip : Breaker → ℕ → Breaker
trip b now =
    let kept = fresh b.window_ms now (b.concurrency_429s ++ now ∷ []) in
    let b' = record b { concurrency_429s = kept } in
    if leb b.threshold (length kept)
    then (if is_opened b.state
        then b'
        else record b' { state = opened; opened_at = now; half_open_probe_started = false })
    else b'

unfoldable pub record_429 : Breaker → Kind → ℕ → Breaker
unfolding trip
record_429 b concurrency now = trip b now
record_429 b _ now = b

success_from : BreakerState → Breaker → Breaker
success_from half_open b = record b {
  state = closed;
  concurrency_429s = [];
  half_open_probe_started = false;
}
success_from _ b = b

unfoldable pub record_success : Breaker → Breaker
unfolding success_from
record_success b = success_from b.state b

reset_from : BreakerState → Breaker → ℕ → Breaker
reset_from half_open b now =
    if b.half_open_probe_started
    then record b { half_open_probe_started = false; state = opened; opened_at = now }
    else b
reset_from _ b now = b

unfoldable pub reset_half_open_probe : Breaker → ℕ → Breaker
unfolding reset_from
reset_half_open_probe b now = reset_from b.state b now

-- A call of the breaker's interface, with its time.
pub data Call : Type 0 where
  polls : ℕ → Call
  fails : Kind → ℕ → Call
  succeeds : Call
  resets : ℕ → Call
  reconfigures : Option ℕ → Option ℕ → Option ℕ → ℕ → Call

-- The new breaker, and the answer of `maybeHalfOpen`.
unfoldable pub step : Breaker → Call → Breaker × Option BreakerState
step b (polls now) = let (b', answer) = maybe_half_open b now in (b', some answer)
step b (fails kind now) = (record_429 b kind now, none)
step b succeeds = (record_success b, none)
step b (resets now) = (reset_half_open_probe b now, none)
step b (reconfigures threshold window cooldown now) =
    (reconfigure b threshold window cooldown now, none)

unfoldable pub run : Breaker → List Call → Breaker
run b [] = b
run b (c ∷ cs) = run (step b c).0 cs
