-- ===== src/Gate/Calls.antt =====
-- The gate's interface (src/limiter/gate.ts, class ConcurrencyGate): the semaphore joined with the
-- circuit breaker. Each `acquire` makes a promise, numbered by `next_id`; the timers of waiting
-- promises and the abort signals of clients call `times_out` and `aborts`. A waiter's timer is
-- cleared where it leaves the queue; a callback that comes all the same finds no waiter, and its
-- `reject` comes after the settlement, so it changes nothing.
use umans_gate.Base.{
  ℕ, suc, Bool, true, false, List, [], ◌∷◌, Option, none, some, String, if◌then◌else◌, ℤ, pos,
  negsuc, Double, nat_beq, ltb,
}
use umans_gate.Breaker
use umans_gate.Breaker.{Breaker, BreakerState, closed, opened, half_open, Kind}
use umans_gate.Gate.State.{
  Semaphore, Waiter, Options, rejected, GateError, invalid_weight, circuit_open, queue_full,
  timeout, aborted, settle,
}
use umans_gate.Gate.Capacity.{can_grant}
use umans_gate.Gate.Semaphore as Sem

pub record Gate : Type 0 where
  pub semaphore : Semaphore
  pub breaker : Breaker
  pub next_id : ℕ

unfoldable pub init : Options → Gate
init o = record {
  semaphore = Sem.init o;
  breaker = Breaker.new o.breaker_threshold o.breaker_window_ms o.breaker_cooldown_ms;
  next_id = 0;
}

reject : Gate → ℕ → GateError → Gate
reject g id e =
    let s = g.semaphore in
    record g { semaphore = record s { outcomes = settle id (rejected e) s.outcomes } }

abbrev pub is_half_open : BreakerState → Bool
is_half_open half_open = true
is_half_open _ = false

-- The rest of `acquire` once the breaker has let the caller pass.
unfoldable pub enter : (ℕ → ℕ → ℕ → ℕ) → Gate → ℕ → ℕ → String → Bool → ℕ → Gate
unfolding reject
enter share g id weight intention was_probe now =
    if can_grant share g.semaphore intention weight
    then record g { semaphore = Sem.grant g.semaphore id weight intention }
    else (let waiter : Waiter = record {
      id = id;
      weight = weight;
      intention = intention;
      enqueued_at = now;
      was_probe = was_probe;
    } in
        let (s, enqueued) = Sem.enqueue g.semaphore waiter in
        if enqueued then record g { semaphore = s } else reject g id queue_full)

-- What `maybeHalfOpen` answers decides.
unfoldable pub enter_or_reject : (ℕ → ℕ → ℕ → ℕ) → Gate → BreakerState → ℕ → ℕ → String → ℕ → Gate
unfolding enter reject
enter_or_reject share g opened id weight intention now = reject g id circuit_open
enter_or_reject share g half_open id weight intention now =
    enter share g id weight intention true now
enter_or_reject share g closed id weight intention now = enter share g id weight intention false now

-- `weight` is `Math.round((opts.weight ?? 1) * SCALE)`; the error of a weight that is not positive
-- is thrown, and stands here as the promise's rejection.
unfoldable pub acquire : (ℕ → ℕ → ℕ → ℕ) → Gate → ℤ → String → ℕ → Gate
unfolding enter_or_reject reject
acquire share g weight intention now =
    let id = g.next_id in
    let g' = record g { next_id = suc id } in
    elim weight [
      | negsuc n ↦ reject g' id invalid_weight
      | pos n ↦
          if nat_beq n 0
          then reject g' id invalid_weight
          else (let (b, state) = Breaker.maybe_half_open g.breaker now in
              enter_or_reject share (record g' { breaker = b }) state id n intention now)
    ]

-- What both callbacks do to the breaker: a probe that leaves the queue is given up.
abbrev pub give_up : Option Waiter → Breaker → ℕ → Breaker
give_up none b now = b
give_up (some w) b now = if w.was_probe then Breaker.reset_half_open_probe b now else b

leave : Gate → ℕ → ℕ → Gate
leave g id now =
    let (s, removed) = Sem.remove_waiter g.semaphore id in
    record g { semaphore = s; breaker = give_up removed g.breaker now }

unfoldable pub times_out : Gate → ℕ → ℕ → Gate
unfolding leave reject
times_out g id now = reject (leave g id now) id timeout

unfoldable pub aborts : Gate → ℕ → ℕ → Gate
unfolding leave reject
aborts g id now = reject (leave g id now) id aborted

unfoldable pub record_429 : Gate → Kind → ℕ → Gate
record_429 g kind now = record g { breaker = Breaker.record_429 g.breaker kind now }

unfoldable pub record_success : Gate → Gate
record_success g = record g { breaker = Breaker.record_success g.breaker }

unfoldable pub shutdown : Gate → Gate
shutdown g = record g { semaphore = Sem.shutdown g.semaphore }

-- Each option that is given is set.
pub record Changes : Type 0 where
  pub release_cooldown_ms : Option ℕ
  pub max_queue_depth : Option ℕ
  pub queue_timeout_ms : Option ℕ
  pub intentions : Option (List (String × ℕ))
  pub breaker_threshold : Option ℕ
  pub breaker_window_ms : Option ℕ
  pub breaker_cooldown_ms : Option ℕ

unfoldable pub reconfigure : Gate → Changes → ℕ → Gate
reconfigure g c now = record g {
  semaphore =
      Sem.reconfigure g.semaphore c.release_cooldown_ms c.max_queue_depth c.queue_timeout_ms
        c.intentions;
  breaker =
      Breaker.reconfigure g.breaker c.breaker_threshold c.breaker_window_ms c.breaker_cooldown_ms
        now;
}

-- A call of the gate's interface, or a callback, with its time.
pub data Call : Type 0 where
  acquires : ℤ → String → ℕ → Call
  releases : ℕ → Call
  cools_down : Call
  times_out_at aborts_at : ℕ → ℕ → Call
  resizes : ℤ → Call
  sets_hard_cap sets_soft_limit : Double → Call
  fails : Kind → ℕ → Call
  succeeds shuts_down : Call
  reconfigures : Changes → ℕ → Call

-- Timers and signals exist only for promises that were made.
abbrev pub if_made : ℕ → Gate → Gate → Gate
if_made id g called = if ltb id g.next_id then called else g

unfoldable pub step : (ℕ → ℕ → ℕ → ℕ) → Gate → Call → Gate
step share g (acquires weight intention now) = acquire share g weight intention now
step share g (releases id) = record g { semaphore = Sem.release g.semaphore id }
step share g cools_down = record g { semaphore = Sem.release_timer_fires share g.semaphore }
step share g (times_out_at id now) = if_made id g (times_out g id now)
step share g (aborts_at id now) = if_made id g (aborts g id now)
step share g (resizes scaled) = record g { semaphore = (Sem.resize share g.semaphore scaled).0 }
step share g (sets_hard_cap x) = record g { semaphore = (Sem.set_hard_cap share g.semaphore x).0 }
step share g (sets_soft_limit x) = record g { semaphore = (Sem.set_soft_limit g.semaphore x).0 }
step share g (fails kind now) = record_429 g kind now
step share g succeeds = record_success g
step share g shuts_down = shutdown g
step share g (reconfigures c now) = reconfigure g c now

unfoldable pub run : (ℕ → ℕ → ℕ → ℕ) → Gate → List Call → Gate
run share g [] = g
run share g (c ∷ cs) = run share (step share g c) cs
