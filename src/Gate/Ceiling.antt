-- ===== src/Gate/Ceiling.antt =====
-- The limit over whole histories of the gate.
use umans_gate.Base.{
  ℕ, suc, ◌≤◌, max, Bool, true, false, List, [], ◌∷◌, String, arith, ℤ, pos, negsuc,
}
use umans_gate.Breaker.{BreakerState, closed, opened, half_open}
use umans_gate.Breaker
use umans_gate.Gate.State.{Semaphore, Options}
use umans_gate.Gate.Semaphore.{
  grant, enqueue, release, release_timer_fires, resize, set_hard_cap, set_soft_limit, remove_waiter,
  find_waiter, find_permit, reject_all,
}
use umans_gate.Gate.Semaphore as Sem
use umans_gate.Gate.Calls.{
  Gate, Call, acquires, releases, cools_down, times_out_at, aborts_at, resizes, sets_hard_cap,
  sets_soft_limit, fails, succeeds, shuts_down, reconfigures, enter, enter_or_reject, acquire,
  times_out, aborts, step, run, init,
}
use umans_gate.Gate.Calls as Calls
use umans_gate.Gate.Bounds.{
  can_grant-fits, Limits, init-Limits, reject_all-limits, resize-active, set_hard_cap-active,
  timer-active,
}

-- An operation keeps the limits in order and raises the active weight only up to the limit.
record Kept (s t : Semaphore) : Type 0 where
  limits : Limits t
  bounded : t.active ≤ max s.active t.limit

module _ (share : ℕ → ℕ → ℕ → ℕ) where
  enter-Kept :
      (g : Gate) (id weight : ℕ) (intention : String) (was_probe : Bool) (now : ℕ)
      → Limits g.semaphore
      → Kept g.semaphore (enter share g id weight intention was_probe now).semaphore
  unfolding enter grant enqueue
  enter-Kept g id weight intention was_probe now v =
      ground (arith, can_grant-fits share g.semaphore intention weight)

  enter_or_reject-Kept :
      (g : Gate) (b : BreakerState) (id weight : ℕ) (intention : String) (now : ℕ)
      → Limits g.semaphore
      → Kept g.semaphore (enter_or_reject share g b id weight intention now).semaphore
  unfolding enter_or_reject
  enter_or_reject-Kept g opened id weight intention now v = ground arith
  enter_or_reject-Kept g half_open id weight intention now v =
      enter-Kept g id weight intention true now v
  enter_or_reject-Kept g closed id weight intention now v =
      enter-Kept g id weight intention false now v

  acquire-Kept :
      (g : Gate) (weight : ℤ) (intention : String) (now : ℕ)
      → Limits g.semaphore
      → Kept g.semaphore (acquire share g weight intention now).semaphore
  unfolding acquire
  acquire-Kept g (negsuc n) intention now v = ground arith
  acquire-Kept g (pos n) intention now v =
      let (b, state) = Breaker.maybe_half_open g.breaker now in
      ground (
        arith,
        enter_or_reject-Kept (record g { next_id = suc g.next_id; breaker = b }) state g.next_id n
            intention now v,
      )

  release-Kept : (s : Semaphore) (id : ℕ) → Limits s → Kept s (release s id)
  unfolding release
  release-Kept s id v = ground arith

  times_out-Kept :
      (g : Gate) (id now : ℕ)
      → Limits g.semaphore
      → Kept g.semaphore (times_out g id now).semaphore
        × Kept g.semaphore (aborts g id now).semaphore
  unfolding times_out aborts remove_waiter
  times_out-Kept g id now v = ground arith

  step-Kept :
      (g : Gate) (c : Call) → Limits g.semaphore → Kept g.semaphore (step share g c).semaphore
  unfolding step
  step-Kept g (acquires weight intention now) v = acquire-Kept g weight intention now v
  step-Kept g (releases id) v = release-Kept g.semaphore id v
  step-Kept g cools_down v =
      let p = timer-active share g.semaphore v in record { limits = p.0; bounded = p.1 }
  step-Kept g (times_out_at id now) v = ground (arith, (times_out-Kept g id now v).0)
  step-Kept g (aborts_at id now) v = ground (arith, (times_out-Kept g id now v).1)
  step-Kept g (resizes scaled) v =
      let p = resize-active share g.semaphore scaled v in record { limits = p.0; bounded = p.1 }
  step-Kept g (sets_hard_cap x) v =
      let p = set_hard_cap-active share g.semaphore x v in record { limits = p.0; bounded = p.1 }
  step-Kept g (sets_soft_limit x) v = unfold set_soft_limit in ground arith
  step-Kept g (fails kind now) v = unfold Calls.record_429 in ground arith
  step-Kept g succeeds v = unfold Calls.record_success in ground arith
  step-Kept g shuts_down v =
      unfold Calls.shutdown Sem.shutdown in
      ground (
        arith,
        reject_all-limits
            (record g.semaphore {
              shutdown_requested = true;
              release_timer = false;
              pending_releases = [];
            })
            g.semaphore.waiters,
      )
  step-Kept g (reconfigures c now) v = unfold Calls.reconfigure Sem.reconfigure in ground arith

  run-Limits : (g : Gate) (cs : List Call) → Limits g.semaphore → Limits (run share g cs).semaphore
  unfolding run
  run-Limits g [] v = v
  run-Limits g (c ∷ cs) v = run-Limits (step share g c) cs (step-Kept g c v).limits

  -- The highest limit of a history.
  abbrev pub peak_limit : Gate → List Call → ℕ
  peak_limit g [] = g.semaphore.limit
  peak_limit g (c ∷ cs) = max g.semaphore.limit (peak_limit (step share g c) cs)

  limit-le-peak : (g : Gate) (cs : List Call) → g.semaphore.limit ≤ peak_limit g cs
  limit-le-peak g [] = omega arith
  limit-le-peak g (c ∷ cs) = omega arith

  active_run :
      (g : Gate) (cs : List Call)
      → Limits g.semaphore
      → (run share g cs).semaphore.active ≤ max g.semaphore.active (peak_limit g cs)
  unfolding run
  active_run g [] v = omega arith
  active_run g (c ∷ cs) v =
      let k = step-Kept g c v in
      omega (
        arith,
        k.bounded,
        active_run (step share g c) cs k.limits,
        limit-le-peak (step share g c) cs,
      )

  -- After any calls on a new gate the limit lies between one permit and the hard cap.
  pub run-init-Limits : (o : Options) (cs : List Call) → Limits (run share (init o) cs).semaphore
  unfolding init
  run-init-Limits o cs = run-Limits (init o) cs (init-Limits o)

  -- After any calls on a new gate, however the shares are rounded, the weight that it counts as
  -- active is at most the highest limit that it ever had.
  pub run-active-le-peak :
      (o : Options) (cs : List Call)
      → (run share (init o) cs).semaphore.active ≤ peak_limit (init o) cs
  unfolding init Sem.init
  run-active-le-peak o cs =
      omega (arith, active_run (init o) cs (init-Limits o), limit-le-peak (init o) cs)
