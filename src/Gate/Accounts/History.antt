-- ===== src/Gate/Accounts/History.antt =====
-- The books over whole histories of the gate.
use umans_gate.Base.{
  ℕ, suc, ◌≡◌, refl, Bool, true, false, List, [], ◌∷◌, String, arith, if◌then◌else◌, get_or_zero,
  string_key, ℤ, pos, negsuc, All,
}
use umans_gate.Breaker
use umans_gate.Breaker.{BreakerState, closed, opened, half_open}
use umans_gate.Gate.State.{Permit, Options, Outcome}
use umans_gate.Gate.Semaphore.{remove_waiter}
use umans_gate.Gate.Calls
use umans_gate.Gate.Calls.{
  Gate, Call, acquires, releases, cools_down, times_out_at, aborts_at, resizes, sets_hard_cap,
  sets_soft_limit, fails, succeeds, shuts_down, reconfigures, enter, enter_or_reject, acquire,
  times_out, aborts, step, run, init,
}
use umans_gate.Gate.Accounts.{
  held, every_intention, is_intention, Booked, grant-Booked, enqueue-Booked, remove_waiter-Booked,
  release-Booked,
}
use umans_gate.Gate.Accounts.Loops.{
  timer-Booked, shutdown-Booked, resize-Booked, set_hard_cap-Booked, set_soft_limit-Booked,
  reconfigure-Booked, init-Booked,
}

-- The books do not mention the outcomes of promises.
abbrev BookedGate : Gate → Type 0
BookedGate g = Booked g.semaphore

BookedGate-choice :
    (b : Bool) (g h : Gate) → BookedGate g → BookedGate h → BookedGate (if b then g else h)
BookedGate-choice true g h v w = v
BookedGate-choice false g h v w = w

BookedGate-settled :
    (g : Gate) (outcomes : List (ℕ × Outcome))
    → BookedGate g
    → BookedGate (record g { semaphore = record g.semaphore { outcomes = outcomes } })
BookedGate-settled g outcomes v = record {
  active = v.active;
  by_intention = v.by_intention;
  queued = v.queued;
  timed = v.timed;
}

module _ (share : ℕ → ℕ → ℕ → ℕ) where
  enter-Booked :
      (g : Gate) (id weight : ℕ) (intention : String) (was_probe : Bool) (now : ℕ)
      → BookedGate g
      → BookedGate (enter share g id weight intention was_probe now)
  unfolding enter
  enter-Booked g id weight intention was_probe now v =
      BookedGate-choice _ _ _ (grant-Booked g.semaphore id weight intention v)
        (BookedGate-choice _ _ _ (enqueue-Booked g.semaphore _ v) (BookedGate-settled g _ v))

  enter_or_reject-Booked :
      (g : Gate) (b : BreakerState) (id weight : ℕ) (intention : String) (now : ℕ)
      → BookedGate g
      → BookedGate (enter_or_reject share g b id weight intention now)
  unfolding enter_or_reject
  enter_or_reject-Booked g opened id weight intention now v = BookedGate-settled g _ v
  enter_or_reject-Booked g half_open id weight intention now v =
      enter-Booked g id weight intention true now v
  enter_or_reject-Booked g closed id weight intention now v =
      enter-Booked g id weight intention false now v

  acquire-Booked :
      (g : Gate) (weight : ℤ) (intention : String) (now : ℕ)
      → BookedGate g
      → BookedGate (acquire share g weight intention now)
  unfolding acquire
  acquire-Booked g (negsuc n) intention now v = BookedGate-settled g _ v
  acquire-Booked g (pos n) intention now v =
      let (b, state) = Breaker.maybe_half_open g.breaker now in
      BookedGate-choice _ _ _ (BookedGate-settled g _ v) (
        enter_or_reject-Booked (record g { next_id = suc g.next_id; breaker = b }) state g.next_id n
          intention now v)

  leave-Booked :
      (g : Gate) (id now : ℕ)
      → BookedGate g
      → BookedGate (times_out g id now) × BookedGate (aborts g id now)
  unfolding times_out aborts
  leave-Booked g id now v =
      let g' = record g { semaphore = (remove_waiter g.semaphore id).0 } in
      let kept : BookedGate g' = remove_waiter-Booked g.semaphore id v in
      (BookedGate-settled g' _ kept, BookedGate-settled g' _ kept)

  step-Booked : (g : Gate) (c : Call) → BookedGate g → BookedGate (step share g c)
  unfolding step
  step-Booked g (acquires weight intention now) v = acquire-Booked g weight intention now v
  step-Booked g (releases id) v = release-Booked g.semaphore id v
  step-Booked g cools_down v = timer-Booked share g.semaphore v
  step-Booked g (times_out_at id now) v = BookedGate-choice _ _ _ (leave-Booked g id now v).0 v
  step-Booked g (aborts_at id now) v = BookedGate-choice _ _ _ (leave-Booked g id now v).1 v
  step-Booked g (resizes scaled) v = resize-Booked share g.semaphore v scaled
  step-Booked g (sets_hard_cap x) v = set_hard_cap-Booked share g.semaphore v x
  step-Booked g (sets_soft_limit x) v = set_soft_limit-Booked share g.semaphore v x
  step-Booked g (fails kind now) v = unfold Calls.record_429 in v
  step-Booked g succeeds v = unfold Calls.record_success in v
  step-Booked g shuts_down v = unfold Calls.shutdown in shutdown-Booked g.semaphore v
  step-Booked g (reconfigures c now) v =
      unfold Calls.reconfigure in reconfigure-Booked share g.semaphore v _ _ _ _

  run-Booked : (g : Gate) (cs : List Call) → BookedGate g → BookedGate (run share g cs)
  unfolding run
  run-Booked g [] v = v
  run-Booked g (c ∷ cs) v = run-Booked (step share g c) cs (step-Booked g c v)

  -- After any calls on a new gate the books are right: until shutdown the active weight, in all and
  -- for each intention, is that of the permits not yet released and of the releases that cool down;
  -- each intention's queue counter is the number of its waiters; a pending release has its timer.
  pub run-init-Booked : (o : Options) (cs : List Call) → Booked (run share (init o) cs).semaphore
  unfolding init
  run-init-Booked o cs = run-Booked (init o) cs (init-Booked o)

  held-released :
      (sel : String → Bool) (ps : List Permit)
      → All (λ (p : Permit). p.released ≡ true) ps
      → held sel ps ≡ 0
  held-released sel [] h = refl
  held-released sel (p ∷ ps) h = ground (arith, held-released sel ps h.1, h.0)

  -- Once every permit is released and no cooldown runs, a gate that is not shut down is idle again,
  -- in all and for each intention: no weight is lost.
  pub run-init-idle :
      (o : Options) (cs : List Call) (k : String)
      → All (λ (p : Permit). p.released ≡ true) (run share (init o) cs).semaphore.permits
      → (run share (init o) cs).semaphore.release_timer ≡ false
      → (run share (init o) cs).semaphore.shutdown_requested ≡ false
      → ((run share (init o) cs).semaphore.active ≡ 0)
        × (get_or_zero k (run share (init o) cs).semaphore.active_by_intention ≡ 0)
  run-init-idle o cs k released calm up =
      let s = (run share (init o) cs).semaphore in
      let v = run-init-Booked o cs in
      (
        ground (arith, v.active up, held-released every_intention s.permits released, v.timed calm),
        ground (
          arith,
          v.by_intention up k,
          held-released (is_intention k) s.permits released,
          v.timed calm,
        ),
      )
