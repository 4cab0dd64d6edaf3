-- ===== src/Breaker/Trip.antt =====
-- When the breaker opens, and how it comes back.
use umans_gate.Base.{
  ℕ, suc, ◌+◌, ◌≤◌, ◌<◌, ◌≡◌, ◌≢◌, ◌↔◌, refl, true, false, List, [], ◌∷◌, ◌++◌, none, some, arith,
  if◌then◌else◌, ltb, length, All, length-append, length-keep-le,
}
use umans_gate.Breaker.{
  Breaker, closed, opened, half_open, Kind, Call, polls, fails, succeeds, resets, reconfigures,
  concurrency, rate_limit, gateway, maybe_half_open, record_429, record_success,
  reset_half_open_probe, reconfigure, step, run, fresh,
}

-- How many of the times lie less than `window` before `now`.
abbrev pub recent : ℕ → ℕ → List ℕ → ℕ
recent window now [] = 0
recent window now (t ∷ ts) =
    let r = recent window now ts in if ltb now (t + window) then suc r else r

length-fresh-push :
    (window now : ℕ) (ts : List ℕ)
    → 0 < window
    → length (fresh window now (ts ++ now ∷ [])) ≡ suc (recent window now ts)
length-fresh-push window now [] h = ground arith
length-fresh-push window now (t ∷ ts) h = ground (arith, length-fresh-push window now ts h)

-- A 429 opens a breaker that is not open exactly when it is a concurrency 429 and, with it,
-- `threshold` concurrency 429s lie in the window; any other 429 leaves the state alone.
pub record_429-opens :
    (b : Breaker) (kind : Kind) (now : ℕ)
    → 0 < b.window_ms
    → b.state ≢ opened
    → ((record_429 b kind now).state ≡ opened)
      ↔ ((kind ≡ concurrency) × (b.threshold ≤ suc (recent b.window_ms now b.concurrency_429s)))
unfolding record_429
record_429-opens b concurrency now h n =
    let e = length-fresh-push b.window_ms now b.concurrency_429s h in
    (λ o. (refl, ground arith), λ p. ground arith)
record_429-opens b rate_limit now h n = (λ o. absurd (n o), λ p. cc)
record_429-opens b gateway now h n = (λ o. absurd (n o), λ p. cc)

poll_probing :
    (b : Breaker) (now : ℕ)
    → b.state ≡ half_open
    → b.half_open_probe_started ≡ true
    → maybe_half_open b now ≡ (b, opened)
unfolding maybe_half_open
poll_probing b now s f = ground arith

-- An open breaker that has no probe out lets a caller through as the probe exactly when the
-- cooldown has passed.
pub poll-cooldown :
    (b : Breaker) (now : ℕ)
    → b.state ≡ opened
    → b.half_open_probe_started ≡ false
    → ((maybe_half_open b now).1 ≡ half_open) ↔ (b.opened_at + b.cooldown_ms ≤ now)
unfolding maybe_half_open
poll-cooldown b now s f = ((λ h. ground arith), (λ h. ground arith))

-- The calls that report no outcome of the probe.
abbrev pub IsSilent : Call → Type 0
IsSilent (polls now) = Unit
IsSilent (fails concurrency now) = ⊥
IsSilent (fails _ now) = Unit
IsSilent succeeds = ⊥
IsSilent (resets now) = ⊥
IsSilent (reconfigures t w c now) = Unit

step_silent :
    (b : Breaker) (c : Call)
    → b.state ≡ half_open
    → b.half_open_probe_started ≡ true
    → IsSilent c
    → ((step b c).0.state ≡ half_open) × ((step b c).0.half_open_probe_started ≡ true)
unfolding step maybe_half_open record_429 record_success reset_half_open_probe reconfigure
step_silent b (polls now) s f i = ground arith
step_silent b (fails concurrency now) s f i = absurd i
step_silent b (fails rate_limit now) s f i = (s, f)
step_silent b (fails gateway now) s f i = (s, f)
step_silent b succeeds s f i = absurd i
step_silent b (resets now) s f i = absurd i
step_silent b (reconfigures t w c now) s f i = (s, f)

-- While the probe is out and nothing reports its outcome, the breaker turns every caller away,
-- however much time passes and whatever settings are reloaded.
pub run-probing :
    (b : Breaker) (cs : List Call) (now : ℕ)
    → b.state ≡ half_open
    → b.half_open_probe_started ≡ true
    → All IsSilent cs
    → maybe_half_open (run b cs) now ≡ (run b cs, opened)
unfolding run
run-probing b [] now s f a = poll_probing b now s f
run-probing b (c ∷ cs) now s f a =
    let p = step_silent b c s f a.0 in run-probing (step b c).0 cs now p.0 p.1 a.1

-- How many concurrency 429s a history reports.
abbrev pub failures : List Call → ℕ
failures [] = 0
failures (fails concurrency now ∷ cs) = suc (failures cs)
failures (_ ∷ cs) = failures cs

abbrev pub KeepsThreshold : Call → Type 0
KeepsThreshold (reconfigures (some t) w c now) = ⊥
KeepsThreshold _ = Unit

length-trip : (w now : ℕ) (ts : List ℕ) → length (fresh w now (ts ++ now ∷ [])) ≤ suc (length ts)
length-trip w now ts =
    omega
      (arith, length-keep-le (λ t. ltb now (t + w)) (ts ++ now ∷ []), length-append ts (now ∷ []))

step_closed :
    (b : Breaker) (c : Call) (cs : List Call)
    → b.state ≡ closed
    → KeepsThreshold c
    → length b.concurrency_429s + failures (c ∷ cs) < b.threshold
    → ((step b c).0.state ≡ closed)
      × (length (step b c).0.concurrency_429s + failures cs < (step b c).0.threshold)
unfolding step maybe_half_open record_429 record_success reset_half_open_probe reconfigure
step_closed b (polls now) cs s k h = ground arith
step_closed b (fails concurrency now) cs s k h =
    ground (arith, length-trip b.window_ms now b.concurrency_429s)
step_closed b (fails rate_limit now) cs s k h = (s, h)
step_closed b (fails gateway now) cs s k h = (s, h)
step_closed b succeeds cs s k h = ground arith
step_closed b (resets now) cs s k h = ground arith
step_closed b (reconfigures (some t) w c now) cs s k h = absurd k
step_closed b (reconfigures none none c now) cs s k h =
    (s, omega (arith, length-keep-le (λ t. ltb now (t + b.window_ms)) b.concurrency_429s))
step_closed b (reconfigures none (some w) c now) cs s k h =
    (s, omega (arith, length-keep-le (λ t. ltb now (t + w)) b.concurrency_429s))

-- A closed breaker stays closed through any calls that keep its threshold and report, with the
-- 429s it already holds, fewer concurrency 429s than the threshold.
pub run-closed :
    (b : Breaker) (cs : List Call)
    → b.state ≡ closed
    → All KeepsThreshold cs
    → length b.concurrency_429s + failures cs < b.threshold
    → (run b cs).state ≡ closed
unfolding run
run-closed b [] s k h = s
run-closed b (c ∷ cs) s k h =
    let p = step_closed b c cs s k.0 h in run-closed (step b c).0 cs p.0 k.1 p.1
