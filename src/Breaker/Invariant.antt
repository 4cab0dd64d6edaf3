-- ===== src/Breaker/Invariant.antt =====
-- What holds of the breaker between calls, and how often it lets a probe through.
use umans_gate.Base.{ℕ, ◌+◌, ◌≤◌, ◌≡◌, Bool, true, false, List, [], ◌∷◌, Option, some, arith}
use umans_gate.Breaker.{
  Breaker, BreakerState, opened, half_open, Call, polls, fails, succeeds, resets, reconfigures,
  concurrency, rate_limit, gateway, new, maybe_half_open, record_429, record_success,
  reset_half_open_probe, reconfigure, step, run, is_opened,
}

-- The probe flag is up exactly while the breaker is half open.
pub record Inv (b : Breaker) : Type 0 where
  pub probing : b.state ≡ half_open → b.half_open_probe_started ≡ true
  pub idle : b.half_open_probe_started ≡ true → b.state ≡ half_open

new-Inv : (t w c : ℕ) → Inv (new t w c)
unfolding new
new-Inv t w c = ground arith

pub step-Inv : (b : Breaker) (c : Call) → Inv b → Inv (step b c).0
unfolding step maybe_half_open record_429 record_success reset_half_open_probe reconfigure
step-Inv b (polls now) v = ground arith
step-Inv b (fails concurrency now) v = ground arith
step-Inv b (fails rate_limit now) v = v
step-Inv b (fails gateway now) v = v
step-Inv b succeeds v = ground arith
step-Inv b (resets now) v = ground arith
step-Inv b (reconfigures t w c now) v = ground arith

run-Inv : (b : Breaker) (cs : List Call) → Inv b → Inv (run b cs)
unfolding run
run-Inv b [] v = v
run-Inv b (c ∷ cs) v = run-Inv (step b c).0 cs (step-Inv b c v)

-- After any calls on a new breaker the probe flag is up exactly while the breaker is half open.
pub run-new-Inv : (t w c : ℕ) (cs : List Call) → Inv (run (new t w c) cs)
run-new-Inv t w c cs = run-Inv (new t w c) cs (new-Inv t w c)

abbrev is_probe : Option BreakerState → Bool
is_probe (some half_open) = true
is_probe _ = false

abbrev one_if : Bool → ℕ
one_if true = 1
one_if false = 0

-- How many calls of a history were told to go ahead as the probe.
abbrev pub probes : Breaker → List Call → ℕ
probes b [] = 0
probes b (c ∷ cs) = one_if (is_probe (step b c).1) + probes (step b c).0 cs

abbrev opens : BreakerState → BreakerState → ℕ
opens opened _ = 0
opens _ opened = 1
opens _ _ = 0

-- How often a history opened the breaker.
abbrev pub openings : Breaker → List Call → ℕ
openings b [] = 0
openings b (c ∷ cs) = opens b.state (step b c).0.state + openings (step b c).0 cs

step_accounts :
    (b : Breaker) (c : Call)
    → Inv b
    → one_if (is_probe (step b c).1) + one_if (is_opened (step b c).0.state)
      ≤ one_if (is_opened b.state) + opens b.state (step b c).0.state
unfolding step maybe_half_open record_429 record_success reset_half_open_probe reconfigure
step_accounts b (polls now) v = ground arith
step_accounts b (fails concurrency now) v = ground arith
step_accounts b (fails rate_limit now) v = ground arith
step_accounts b (fails gateway now) v = ground arith
step_accounts b succeeds v = ground arith
step_accounts b (resets now) v = ground arith
step_accounts b (reconfigures t w c now) v = ground arith

probes_accounted :
    (b : Breaker) (cs : List Call)
    → Inv b
    → probes b cs + one_if (is_opened (run b cs).state) ≤ one_if (is_opened b.state) + openings b cs
unfolding run
probes_accounted b [] v = ground arith
probes_accounted b (c ∷ cs) v =
    let rest = probes_accounted (step b c).0 cs (step-Inv b c v) in
    omega (arith, step_accounts b c v)

-- In any history of a new breaker, at most one caller is let through as the probe for each time
-- that the breaker opened.
pub probes-le-openings :
    (t w c : ℕ) (cs : List Call) → probes (new t w c) cs ≤ openings (new t w c) cs
unfolding new
probes-le-openings t w c cs = omega (arith, probes_accounted (new t w c) cs (new-Inv t w c))
