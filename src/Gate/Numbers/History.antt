-- ===== src/Gate/Numbers/History.antt =====
-- The next number is free after any history of the gate.
use umans_gate.Base.{
  ℕ, suc, ◌<◌, ◌*◌, ◌≡◌, inl, inr, Bool-cases, ltb, min, Double, refl, sym, subst, Bool, true,
  false, List, [], ◌∷◌, ◌++◌, Option, none, some, String, arith, ℤ, pos, negsuc, nat_key,
  All-append, if◌then◌else◌, string_key,
}
use umans_gate.Breaker
use umans_gate.Breaker.{BreakerState, closed, opened, half_open}
use umans_gate.Gate.State.{Semaphore, Waiter, Options, Outcome, settle, scale}
use umans_gate.Gate.Semaphore.{
  grant, enqueue, admit, reject_all, reject_one, drain_loop, drain_waiters, apply_releases,
  apply_release, release_timer_fires, remove_waiter, find_waiter, without, release, find_permit,
  resize, set_hard_cap, set_soft_limit, one_less, floor_at_least_one,
}
use umans_gate.Gate.Semaphore as Sem
use umans_gate.Gate.Calls.{
  Gate, Call, acquires, releases, cools_down, times_out_at, aborts_at, resizes, sets_hard_cap,
  sets_soft_limit, fails, succeeds, shuts_down, reconfigures, enter, enter_or_reject, acquire,
  times_out, aborts, step, run, init, if_made,
}
use umans_gate.Gate.Calls as Calls
use umans_gate.Gate.Answers.{Answered, acquire-Answered}
use umans_gate.Gate.Numbers.{
  Numbered, Free-settle, Numbered-suc, reject_all-Free, remove_waiter-Numbered, release-Numbered,
  drain-Numbered, timer-Numbered,
}

abbrev NumberedGate : ℕ → Gate → Type 0
NumberedGate n g = Numbered n g.semaphore

NumberedGate-choice :
    (n : ℕ) (b : Bool) (g h : Gate)
    → NumberedGate n g
    → NumberedGate n h
    → NumberedGate n (if b then g else h)
NumberedGate-choice n true g h v w = v
NumberedGate-choice n false g h v w = w

NumberedGate-settled :
    (n : ℕ) (g : Gate) (id : ℕ) (o : Outcome)
    → id < n
    → NumberedGate n g
    → NumberedGate n (record g {
      semaphore = record g.semaphore { outcomes = settle id o g.semaphore.outcomes };
    })
NumberedGate-settled n g id o h v = record {
  free = Free-settle n id o g.semaphore.outcomes h v.free;
  below = v.below;
}

Numbered-if :
    (n : ℕ) (b : Bool) (x y : Semaphore × Bool)
    → Numbered n x.0
    → Numbered n y.0
    → Numbered n (if b then x else y).0
Numbered-if n true x y v w = v
Numbered-if n false x y v w = w

enqueue-Numbered :
    (n : ℕ) (s : Semaphore) (w : Waiter) → w.id < n → Numbered n s → Numbered n (enqueue s w).0
unfolding enqueue
enqueue-Numbered n s w h v =
    Numbered-if n _ (s, false)
      (record s { waiters = s.waiters ++ w ∷ []; queued_by_intention = _ }, true) v
      (record { free = v.free; below = All-append _ s.waiters (w ∷ []) v.below (h, tt) })

grant-Numbered :
    (n : ℕ) (s : Semaphore) (id weight : ℕ) (intention : String)
    → id < n
    → Numbered n s
    → Numbered n (grant s id weight intention)
unfolding grant
grant-Numbered n s id weight intention h v = record {
  free = Free-settle n id _ s.outcomes h v.free;
  below = v.below;
}

module _ (share : ℕ → ℕ → ℕ → ℕ) where
  enter-Numbered :
      (n : ℕ) (g : Gate) (id weight : ℕ) (intention : String) (was_probe : Bool) (now : ℕ)
      → id < n
      → NumberedGate n g
      → NumberedGate n (enter share g id weight intention was_probe now)
  unfolding enter
  enter-Numbered n g id weight intention was_probe now h v =
      NumberedGate-choice n _ _ _ (grant-Numbered n g.semaphore id weight intention h v) (
        NumberedGate-choice n _ _ _ (enqueue-Numbered n g.semaphore _ h v)
          (NumberedGate-settled n g id _ h v))

  enter_or_reject-Numbered :
      (n : ℕ) (g : Gate) (b : BreakerState) (id weight : ℕ) (intention : String) (now : ℕ)
      → id < n
      → NumberedGate n g
      → NumberedGate n (enter_or_reject share g b id weight intention now)
  unfolding enter_or_reject
  enter_or_reject-Numbered n g opened id weight intention now h v =
      NumberedGate-settled n g id _ h v
  enter_or_reject-Numbered n g half_open id weight intention now h v =
      enter-Numbered n g id weight intention true now h v
  enter_or_reject-Numbered n g closed id weight intention now h v =
      enter-Numbered n g id weight intention false now h v

  acquire-Numbered :
      (g : Gate) (weight : ℤ) (intention : String) (now : ℕ)
      → NumberedGate g.next_id g
      → NumberedGate (suc g.next_id) (acquire share g weight intention now)
  unfolding acquire
  acquire-Numbered g (negsuc n) intention now v =
      NumberedGate-settled _ g g.next_id _ (omega arith) (Numbered-suc g.next_id g.semaphore v)
  acquire-Numbered g (pos n) intention now v =
      let w = Numbered-suc g.next_id g.semaphore v in
      NumberedGate-choice _ _ _ _ (NumberedGate-settled _ g g.next_id _ (omega arith) w) (
        enter_or_reject-Numbered _ _ (Breaker.maybe_half_open g.breaker now).1 g.next_id n intention
          now (omega arith) w)

  enter-next_id :
      (g : Gate) (b : BreakerState) (id weight : ℕ) (intention : String) (now : ℕ)
      → (enter_or_reject share g b id weight intention now).next_id ≡ g.next_id
  unfolding enter_or_reject enter
  enter-next_id g opened id weight intention now = refl
  enter-next_id g half_open id weight intention now = ground arith
  enter-next_id g closed id weight intention now = ground arith

  -- `acquire` uses up one number.
  acquire-next_id :
      (g : Gate) (weight : ℤ) (intention : String) (now : ℕ)
      → (acquire share g weight intention now).next_id ≡ suc g.next_id
  unfolding acquire
  acquire-next_id g (negsuc n) intention now = refl
  acquire-next_id g (pos n) intention now =
      let (b, state) = Breaker.maybe_half_open g.breaker now in
      ground (
        arith,
        enter-next_id (record g { next_id = suc g.next_id; breaker = b }) state g.next_id n
            intention now,
      )

  leave-Numbered :
      (g : Gate) (id now : ℕ)
      → id < g.next_id
      → NumberedGate g.next_id g
      → NumberedGate (times_out g id now).next_id (times_out g id now)
        × NumberedGate (aborts g id now).next_id (aborts g id now)
  unfolding times_out aborts
  leave-Numbered g id now h v =
      let g' = record g { semaphore = (remove_waiter g.semaphore id).0 } in
      let kept : NumberedGate g.next_id g' = remove_waiter-Numbered g.next_id g.semaphore id v in
      (NumberedGate-settled g.next_id g' id _ h kept, NumberedGate-settled g.next_id g' id _ h kept)

  made-Numbered :
      (g h : Gate) (id : ℕ)
      → (id < g.next_id → NumberedGate h.next_id h)
      → NumberedGate g.next_id g
      → NumberedGate (if_made id g h).next_id (if_made id g h)
  made-Numbered g h id w v = elim (Bool-cases (ltb id g.next_id)) [
    | inl y ↦ rw y (w (ground (arith, y)))
    | inr n ↦ rw n v
  ]

  resize-Numbered :
      (n : ℕ) (s : Semaphore) (scaled : ℤ) → Numbered n s → Numbered n (resize share s scaled).0
  unfolding resize
  resize-Numbered n s scaled v =
      Numbered-if n _ (s, false) (drain_waiters share (record s { limit = _ }), true) v
        (drain-Numbered share n (record s { limit = _ })
          (record { free = v.free; below = v.below }))

  set_soft_limit-Numbered :
      (n : ℕ) (s : Semaphore) (x : Double) → Numbered n s → Numbered n (set_soft_limit s x).0
  unfolding set_soft_limit
  set_soft_limit-Numbered n s x v =
      Numbered-if n _ (s, false) (record s { soft_limit = _ }, true) v
        (record { free = v.free; below = v.below })

  shutdown-Numbered : (n : ℕ) (s : Semaphore) → Numbered n s → Numbered n (Sem.shutdown s)
  unfolding Sem.shutdown
  shutdown-Numbered n s v = record {
    free =
        reject_all-Free n
          (record s { shutdown_requested = true; release_timer = false; pending_releases = [] })
          s.waiters v.below v.free;
    below = tt;
  }

  reconfigure-Numbered :
      (n : ℕ) (s : Semaphore) (a b c : Option ℕ) (m : Option (List (String × ℕ)))
      → Numbered n s
      → Numbered n (Sem.reconfigure s a b c m)
  unfolding Sem.reconfigure
  reconfigure-Numbered n s a b c none v = record { free = v.free; below = v.below }
  reconfigure-Numbered n s a b c (some m) v = record { free = v.free; below = v.below }

  set_hard_cap-Numbered :
      (n : ℕ) (s : Semaphore) (x : Double) → Numbered n s → Numbered n (set_hard_cap share s x).0
  unfolding set_hard_cap
  set_hard_cap-Numbered n s x v =
      let cap = floor_at_least_one x * scale in
      let s' = record s { hard_cap = cap; soft_limit = min s.soft_limit cap } in
      Numbered-if n _ (s, false)
        (if ltb cap s.limit
          then (drain_waiters share (record s' { limit = cap }), true)
          else (s', true))
        v
        (Numbered-if n _ (drain_waiters share (record s' { limit = cap }), true) (s', true)
          (drain-Numbered share n (record s' { limit = cap })
            (record { free = v.free; below = v.below }))
          (record { free = v.free; below = v.below }))

  step-Numbered :
      (g : Gate) (c : Call)
      → NumberedGate g.next_id g
      → NumberedGate (step share g c).next_id (step share g c)
  unfolding step
  step-Numbered g (acquires weight intention now) v =
      subst (λ n. NumberedGate n (acquire share g weight intention now))
        (sym (acquire-next_id g weight intention now)) (acquire-Numbered g weight intention now v)
  step-Numbered g (releases id) v = release-Numbered g.next_id g.semaphore id v
  step-Numbered g cools_down v = timer-Numbered share g.next_id g.semaphore v
  step-Numbered g (times_out_at id now) v =
      made-Numbered g (times_out g id now) id (λ h. (leave-Numbered g id now h v).0) v
  step-Numbered g (aborts_at id now) v =
      made-Numbered g (aborts g id now) id (λ h. (leave-Numbered g id now h v).1) v
  step-Numbered g (resizes scaled) v = resize-Numbered g.next_id g.semaphore scaled v
  step-Numbered g (sets_hard_cap x) v = set_hard_cap-Numbered g.next_id g.semaphore x v
  step-Numbered g (sets_soft_limit x) v = set_soft_limit-Numbered g.next_id g.semaphore x v
  step-Numbered g (fails kind now) v = unfold Calls.record_429 in v
  step-Numbered g succeeds v = unfold Calls.record_success in v
  step-Numbered g shuts_down v = unfold Calls.shutdown in shutdown-Numbered g.next_id g.semaphore v
  step-Numbered g (reconfigures c now) v =
      unfold Calls.reconfigure in reconfigure-Numbered g.next_id g.semaphore _ _ _ _ v

  run-Numbered :
      (g : Gate) (cs : List Call)
      → NumberedGate g.next_id g
      → NumberedGate (run share g cs).next_id (run share g cs)
  unfolding run
  run-Numbered g [] v = v
  run-Numbered g (c ∷ cs) v = run-Numbered (step share g c) cs (step-Numbered g c v)

  -- After any calls on a new gate, the next call of `acquire` is answered: its promise is settled at
  -- once and the queue stays as it is, or its waiter joins the end of the queue.
  pub run-acquire-Answered :
      (o : Options) (cs : List Call) (weight : ℤ) (intention : String) (now : ℕ)
      → Answered
          (run share (init o) cs).next_id
          (run share (init o) cs).semaphore
          (acquire share (run share (init o) cs) weight intention now).semaphore
  unfolding init Sem.init
  run-acquire-Answered o cs weight intention now =
      acquire-Answered share (run share (init o) cs) weight intention now (
        (run-Numbered (init o) cs (record { free = λ id le. refl; below = tt })).free _
          (omega arith))
