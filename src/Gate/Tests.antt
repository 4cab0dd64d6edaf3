-- ===== src/Gate/Tests.antt =====
-- The concurrency gate at concrete inputs.
use mathlib.Core.List.{Memᴰ}
use umans_gate.Base.{
  ℕ, Bool, ◌*◌, ◌/◌, ◌≤◌, ◌≡◌, refl, true, false, List, [], ◌∷◌, arith, pos, nat_key, string_key,
  All,
}
use text.Mathlib.TextEquality.{eq_iff}
use umans_gate.Breaker.{Breaker, BreakerState, new, maybe_half_open, opened}
use umans_gate.Gate.State.{Semaphore, Waiter, Options}
use umans_gate.Gate.Capacity.{effective_reservations, can_grant}
use umans_gate.Gate.Semaphore.{
  shutdown, drain_waiters, grant, enqueue, release, release_timer_fires,
}
use umans_gate.Gate.Semaphore as Sem
use umans_gate.Gate.Calls.{Gate, Call, acquires, releases, cools_down, init, acquire, step, run}
use umans_gate.Gate.Ceiling.{peak_limit, run-active-le-peak}
use umans_gate.Gate.Accounts.{Booked}
use umans_gate.Gate.Accounts.History.{run-init-Booked, run-init-idle}
use umans_gate.Gate.Borrow.{borrow-leaves-reserve}
use umans_gate.Gate.Drain.{drain_complete}
use umans_gate.Gate.Answers.{Answered}
use umans_gate.Gate.Numbers.History.{run-acquire-Answered}
use umans_gate.Gate.Probe.{probing, acquire-probe_refused}

-- The shares without rounding.
abbrev exact_share : ℕ → ℕ → ℕ → ℕ
exact_share r sum limit = r * limit / sum

abbrev options : Options
options = record {
  hard_cap = 3;
  soft_limit = 2;
  release_cooldown_ms = 50;
  breaker_threshold = 2;
  breaker_window_ms = 100;
  breaker_cooldown_ms = 60;
  max_queue_depth = 1;
  queue_timeout_ms = 1000;
  intentions = ("main", 1) ∷ ("vision", 1) ∷ [];
}

-- Two permits, a caller that waits, one that finds the queue full; then a permit comes back.
abbrev history : List Call
history =
    acquires (pos 1000) "main" 1
    ∷ acquires (pos 1000) "main" 2
    ∷ acquires (pos 1000) "main" 3
    ∷ acquires (pos 1000) "main" 4
    ∷ releases 0
    ∷ releases 0
    ∷ cools_down
    ∷ []

run-active-le-peak_example :
    (run exact_share (init options) history).semaphore.active
    ≤ peak_limit exact_share (init options) history
run-active-le-peak_example = run-active-le-peak exact_share options history

run-init-Booked_example : Booked (run exact_share (init options) history).semaphore
run-init-Booked_example = run-init-Booked exact_share options history

abbrev finished : List Call
finished = acquires (pos 1000) "main" 1 ∷ releases 0 ∷ cools_down ∷ []

run-init-idle_example : (run exact_share (init options) finished).semaphore.active ≡ 0
unfolding run step init Sem.init acquire maybe_half_open can_grant effective_reservations grant
    release release_timer_fires drain_waiters new
run-init-idle_example = (run-init-idle exact_share options finished "main" (refl, tt) refl refl).0

-- One caller waits behind two permits.
abbrev crowd : List Call
crowd =
    acquires (pos 1000) "main" 1 ∷ acquires (pos 1000) "main" 2 ∷ acquires (pos 1000) "main" 3 ∷ []

drain_complete_example :
    All
      (λ (w : Waiter).
        can_grant exact_share
          (drain_waiters exact_share (run exact_share (init options) crowd).semaphore)
          w.intention
          w.weight
        ≡ false)
      (drain_waiters exact_share (run exact_share (init options) crowd).semaphore).waiters
unfolding run step init Sem.init acquire maybe_half_open can_grant effective_reservations grant
    enqueue new
drain_complete_example =
    drain_complete exact_share (run exact_share (init options) crowd).semaphore
      ((refl, tt), (tt, tt)) (run-init-Booked exact_share options crowd) (omega arith)

-- A semaphore of two permits, one of them with `vision`.
abbrev semaphore : ℕ → List Waiter → Semaphore
semaphore active waiters = record {
  active = active;
  limit = 3000;
  hard_cap = 3000;
  soft_limit = 3000;
  release_cooldown_ms = 50;
  max_queue_depth = 1;
  queue_timeout_ms = 1000;
  waiters = waiters;
  reservations = ("main", 1000) ∷ ("vision", 1500) ∷ [];
  active_by_intention = ("main", 1000) ∷ ("vision", 100) ∷ [];
  queued_by_intention = ("main", 0) ∷ ("vision", 0) ∷ [];
  pending_releases = [];
  release_timer = false;
  shutdown_requested = false;
  permits = [];
  outcomes = [];
}

borrow-leaves-reserve_example :
    can_grant exact_share (grant (semaphore 1100 []) 7 500 "main") "vision" 1400 ≡ true
unfolding can_grant effective_reservations
borrow-leaves-reserve_example =
    borrow-leaves-reserve exact_share (semaphore 1100 []) "main" "vision" 7 500 1400 refl
      (omega arith) refl (λ e. ground (arith, eq_iff "vision" "main")) (Memᴰ.tail (Memᴰ.head refl))
      (omega arith) (omega arith)

abbrev breaker : BreakerState → Bool → Breaker
breaker state started = record {
  state = state;
  concurrency_429s = [];
  opened_at = 20;
  threshold = 2;
  window_ms = 100;
  cooldown_ms = 60;
  half_open_probe_started = started;
}

abbrev waiter : ℕ → Waiter
waiter id = record {
  id = id;
  weight = 2500;
  intention = "main";
  enqueued_at = 10;
  was_probe = true;
}

abbrev gate : BreakerState → Bool → Gate
gate state started = record {
  semaphore = semaphore 1100 (waiter 3 ∷ []);
  breaker = breaker state started;
  next_id = 4;
}

run-acquire-Answered_example :
    Answered
      (run exact_share (init options) crowd).next_id
      (run exact_share (init options) crowd).semaphore
      (acquire exact_share (run exact_share (init options) crowd) (pos 2500) "main" 30).semaphore
run-acquire-Answered_example = run-acquire-Answered exact_share options crowd (pos 2500) "main" 30

acquire-probe_refused_example :
    (acquire exact_share (gate opened false) (pos 2500) "main" 80).breaker
    ≡ probing (breaker opened false)
unfolding can_grant effective_reservations
acquire-probe_refused_example =
    (acquire-probe_refused exact_share (gate opened false) 2499 "main" 80 refl
      (record { open_state = refl; unprobed = refl; cooled = omega arith }) refl (omega arith)).1
