-- ===== src/Breaker/Tests.antt =====
-- The circuit breaker at concrete inputs.
use umans_gate.Base.{ℕ, ◌≡◌, ◌≤◌, refl, true, false, List, [], ◌∷◌, Bool}
use umans_gate.Breaker.{
  Breaker, BreakerState, opened, half_open, Call, polls, fails, succeeds, concurrency, gateway, new,
  maybe_half_open, record_429, record_success, step, run,
}
use umans_gate.Breaker.Invariant.{probes, openings, probes-le-openings}
use umans_gate.Breaker.Trip.{run-probing}

-- Two 429s open the breaker at 20, the probe of 90 succeeds, and two more open it again.
abbrev history : List Call
history =
    fails concurrency 10
    ∷ fails concurrency 20
    ∷ polls 30
    ∷ polls 90
    ∷ polls 95
    ∷ succeeds
    ∷ fails concurrency 100
    ∷ fails concurrency 101
    ∷ []

history_opened : (run (new 2 100 60) history).state ≡ opened
unfolding run step new maybe_half_open record_429 record_success
history_opened = refl

history_counts : (probes (new 2 100 60) history ≡ 1) × (openings (new 2 100 60) history ≡ 2)
unfolding step new maybe_half_open record_429 record_success
history_counts = (refl, refl)

probes-le-openings_example : probes (new 2 100 60) history ≤ openings (new 2 100 60) history
probes-le-openings_example = probes-le-openings 2 100 60 history

abbrev breaker_with : BreakerState → List ℕ → Bool → Breaker
breaker_with state times probing = record {
  state = state;
  concurrency_429s = times;
  opened_at = 20;
  threshold = 2;
  window_ms = 100;
  cooldown_ms = 60;
  half_open_probe_started = probing;
}

let_through : (maybe_half_open (breaker_with opened [] false) 80).1 ≡ half_open
unfolding maybe_half_open
let_through = refl

run-probing_example :
    maybe_half_open (run (breaker_with half_open [] true) (fails gateway 9 ∷ polls 100 ∷ [])) 9000
    ≡ (run (breaker_with half_open [] true) (fails gateway 9 ∷ polls 100 ∷ []), opened)
run-probing_example =
    run-probing (breaker_with half_open [] true) (fails gateway 9 ∷ polls 100 ∷ []) 9000 refl refl
      (tt, (tt, tt))
