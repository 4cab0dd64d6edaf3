-- ===== src/Gate/Probe.antt =====
-- The breaker's probe inside the gate: what becomes of the caller that is let through.
use umans_gate.Base.{
  ℕ, suc, ◌+◌, ◌≤◌, ◌≡◌, true, false, none, some, String, arith, pos, lookup, nat_key, length,
}
use umans_gate.Breaker.{Breaker, opened, half_open, maybe_half_open, reset_half_open_probe}
use umans_gate.Gate.State.{Waiter, rejected, circuit_open, queue_full, timeout}
use umans_gate.Gate.Capacity.{can_grant}
use umans_gate.Gate.Semaphore.{enqueue, remove_waiter, find_waiter, without}
use umans_gate.Gate.Answers.{IsFresh, settled}
use umans_gate.Gate.Calls.{Gate, acquire, enter, enter_or_reject, times_out}

-- The first call after the cooldown.
pub record ProbeDue (b : Breaker) (now : ℕ) : Type 0 where
  pub open_state : b.state ≡ opened
  pub unprobed : b.half_open_probe_started ≡ false
  pub cooled : b.opened_at + b.cooldown_ms ≤ now

abbrev pub probing : Breaker → Breaker
probing b = record b { state = half_open; half_open_probe_started = true }

poll-due : (b : Breaker) (now : ℕ) → ProbeDue b now → maybe_half_open b now ≡ (probing b, half_open)
unfolding maybe_half_open
poll-due b now v = ground (arith, v.open_state, v.unprobed, v.cooled)

-- A probe that meets a full semaphore and a full queue is refused, and nothing takes the probe
-- back: the breaker stays half open with its probe out.
pub acquire-probe_refused :
    (share : ℕ → ℕ → ℕ → ℕ) (g : Gate) (n : ℕ) (intention : String) (now : ℕ)
    → IsFresh g
    → ProbeDue g.breaker now
    → can_grant share g.semaphore intention (suc n) ≡ false
    → g.semaphore.max_queue_depth ≤ length g.semaphore.waiters
    → (lookup g.next_id (acquire share g (pos (suc n)) intention now).semaphore.outcomes
        ≡ some (rejected queue_full))
      × ((acquire share g (pos (suc n)) intention now).breaker ≡ probing g.breaker)
unfolding acquire enter_or_reject enter enqueue
acquire-probe_refused share g n intention now f due full queue =
    let e = settled g.next_id (rejected queue_full) g.semaphore.outcomes f in
    rw (poll-due g.breaker now due) (ground (arith, full, queue, e), ground (arith, full, queue))

-- While a probe is out every caller is refused, and the breaker stays as it is.
pub acquire-probing :
    (share : ℕ → ℕ → ℕ → ℕ) (g : Gate) (n : ℕ) (intention : String) (now : ℕ)
    → IsFresh g
    → g.breaker.state ≡ half_open
    → g.breaker.half_open_probe_started ≡ true
    → (lookup g.next_id (acquire share g (pos (suc n)) intention now).semaphore.outcomes
        ≡ some (rejected circuit_open))
      × ((acquire share g (pos (suc n)) intention now).breaker ≡ g.breaker)
unfolding acquire enter_or_reject maybe_half_open
acquire-probing share g n intention now f h p =
    let e = settled g.next_id (rejected circuit_open) g.semaphore.outcomes f in
    (ground (arith, h, p, e), ground (arith, h, p))

-- A probe that waits in the queue and times out is taken back: the promise is rejected, the waiter
-- is gone, and the breaker is open for another cooldown.
pub times_out-probe :
    (g : Gate) (id now : ℕ) (w : Waiter)
    → find_waiter id g.semaphore.waiters ≡ some w
    → w.was_probe ≡ true
    → lookup id g.semaphore.outcomes ≡ none
    → g.breaker.state ≡ half_open
    → g.breaker.half_open_probe_started ≡ true
    → (lookup id (times_out g id now).semaphore.outcomes ≡ some (rejected timeout))
      × ((times_out g id now).semaphore.waiters ≡ without id g.semaphore.waiters)
      × ((times_out g id now).breaker
          ≡ record g.breaker { state = opened; half_open_probe_started = false; opened_at = now })
unfolding times_out remove_waiter reset_half_open_probe
times_out-probe g id now w q p f h s =
    let e = settled id (rejected timeout) g.semaphore.outcomes f in
    (ground (arith, q, e), ground (arith, q), ground (arith, q, p, h, s))
