-- ===== src/Gate/Answers.antt =====
-- Every promise of the gate gets its answer.
use umans_gate.Base.{
  ℕ, ◌≡◌, ◌⊎◌, inl, inr, refl, Bool, true, false, List, [], ◌∷◌, ◌++◌, none, some, String, arith, ℤ,
  pos, negsuc, lookup, nat_key, nat_beq, nat_beq_iff, length, leb, lookup-insert, Bool-cases, All,
}
use umans_gate.Breaker
use umans_gate.Breaker.{BreakerState, closed, opened, half_open}
use umans_gate.Gate.State.{
  Semaphore, Waiter, Outcome, granted, rejected, shut_down, circuit_open, queue_full,
  invalid_weight, settle,
}
use umans_gate.Gate.Capacity.{can_grant}
use umans_gate.Gate.Semaphore.{grant, enqueue, shutdown, reject_all, reject_one}
use umans_gate.Gate.Calls.{Gate, acquire, enter, enter_or_reject}
use umans_gate.Gate.Accounts.Loops.{reject_all-flags}

-- The promise of the next `acquire` is not settled yet.
abbrev pub IsFresh : Gate → Type 0
IsFresh g = lookup g.next_id g.semaphore.outcomes ≡ none

pub settled :
    (id : ℕ) (o : Outcome) (m : List (ℕ × Outcome))
    → lookup id m ≡ none
    → lookup id (settle id o m) ≡ some o
settled id o m h = ground (arith, h, lookup-insert id id o m, nat_beq_iff id id)

-- A promise is settled and the queue unchanged, or its waiter is the last of the queue.
abbrev pub Answered : ℕ → Semaphore → Semaphore → Type 0
Answered id s t =
    ((o : Outcome) × (lookup id t.outcomes ≡ some o) × (t.waiters ≡ s.waiters))
    ⊎ ((w : Waiter) × (w.id ≡ id) × (t.waiters ≡ s.waiters ++ w ∷ []))

module _ (share : ℕ → ℕ → ℕ → ℕ) where
  enter-Answered :
      (g : Gate) (id weight : ℕ) (intention : String) (was_probe : Bool) (now : ℕ)
      → lookup id g.semaphore.outcomes ≡ none
      → Answered id g.semaphore (enter share g id weight intention was_probe now).semaphore
  unfolding enter grant enqueue
  enter-Answered g id weight intention was_probe now f =
      elim (Bool-cases (can_grant share g.semaphore intention weight)) [
        | inl fits ↦
            rw (fits, enter) (inl (granted, settled id granted g.semaphore.outcomes f, refl))
        | inr full ↦
            rw (full, enter)
              (elim (Bool-cases (leb g.semaphore.max_queue_depth (length g.semaphore.waiters))) [
                | inl over ↦
                    rw (over, enqueue)
                      (inl (
                        rejected queue_full,
                        settled id (rejected queue_full) g.semaphore.outcomes f,
                        refl,
                      ))
                | inr room ↦
                    rw (room, enqueue)
                      (inr (
                        record {
                          id = id;
                          weight = weight;
                          intention = intention;
                          enqueued_at = now;
                          was_probe = was_probe;
                        },
                        refl,
                        refl,
                      ))
              ])
      ]

  enter_or_reject-Answered :
      (g : Gate) (b : BreakerState) (id weight : ℕ) (intention : String) (now : ℕ)
      → lookup id g.semaphore.outcomes ≡ none
      → Answered id g.semaphore (enter_or_reject share g b id weight intention now).semaphore
  unfolding enter_or_reject
  enter_or_reject-Answered g opened id weight intention now f =
      inl (rejected circuit_open, settled id (rejected circuit_open) g.semaphore.outcomes f, refl)
  enter_or_reject-Answered g half_open id weight intention now f =
      enter-Answered g id weight intention true now f
  enter_or_reject-Answered g closed id weight intention now f =
      enter-Answered g id weight intention false now f

  -- Every call of `acquire` is answered: its promise is settled at once and the queue stays as it
  -- is, or its waiter joins the end of the queue.
  pub acquire-Answered :
      (g : Gate) (weight : ℤ) (intention : String) (now : ℕ)
      → IsFresh g
      → Answered g.next_id g.semaphore (acquire share g weight intention now).semaphore
  unfolding acquire
  acquire-Answered g (negsuc n) intention now f = inl (
    rejected invalid_weight,
    settled g.next_id (rejected invalid_weight) g.semaphore.outcomes f,
    refl,
  )
  acquire-Answered g (pos n) intention now f = elim (Bool-cases (nat_beq n 0)) [
    | inl z ↦
        rw (z, acquire)
          (inl (
            rejected invalid_weight,
            settled g.next_id (rejected invalid_weight) g.semaphore.outcomes f,
            refl,
          ))
    | inr p ↦
        rw (p, acquire)
          (enter_or_reject-Answered _ (Breaker.maybe_half_open g.breaker now).1 g.next_id n
            intention now f)
  ]

-- Not settled, or rejected for the shutdown.
abbrev Settling : List (ℕ × Outcome) → Waiter → Type 0
Settling m w = (lookup w.id m ≡ none) ⊎ (lookup w.id m ≡ some (rejected shut_down))

Settling-settle :
    (m : List (ℕ × Outcome)) (id : ℕ) (ws : List Waiter)
    → All (Settling m) ws
    → All (Settling (settle id (rejected shut_down) m)) ws
Settling-settle m id [] a = tt
Settling-settle m id (w ∷ ws) a = (
  ground (arith, a.0, lookup-insert id w.id (rejected shut_down) m, nat_beq_iff id w.id),
  Settling-settle m id ws a.1,
)

abbrev Refused : List (ℕ × Outcome) → Waiter → Type 0
Refused m w = lookup w.id m ≡ some (rejected shut_down)

settle_keeps :
    (m : List (ℕ × Outcome)) (w : Waiter) (v : Waiter)
    → Refused m w
    → Refused (settle v.id (rejected shut_down) m) w
settle_keeps m w v h =
    ground (arith, h, lookup-insert v.id w.id (rejected shut_down) m, nat_beq_iff v.id w.id)

reject_all-keeps :
    (s : Semaphore) (ws : List Waiter) (w : Waiter)
    → Refused s.outcomes w
    → Refused (reject_all s ws).outcomes w
unfolding reject_all
reject_all-keeps s [] w h = h
reject_all-keeps s (v ∷ ws) w h =
    reject_all-keeps (reject_one s v) ws w (settle_keeps s.outcomes w v h)

reject_all-Refused :
    (s : Semaphore) (ws : List Waiter)
    → All (Settling s.outcomes) ws
    → All (Refused (reject_all s ws).outcomes) ws
unfolding reject_all
reject_all-Refused s [] a = tt
reject_all-Refused s (w ∷ ws) a = (
  reject_all-keeps (reject_one s w) ws w
      (ground (arith, a.0, settled w.id (rejected shut_down) s.outcomes)),
  reject_all-Refused (reject_one s w) ws (Settling-settle s.outcomes w.id ws a.1),
)

Settling-fresh :
    (m : List (ℕ × Outcome)) (ws : List Waiter)
    → All (λ (w : Waiter). lookup w.id m ≡ none) ws
    → All (Settling m) ws
Settling-fresh m [] a = tt
Settling-fresh m (w ∷ ws) a = (inl a.0, Settling-fresh m ws a.1)

-- Shutdown rejects the promise of every waiter, and leaves no waiter, no active weight and no
-- pending release.
pub shutdown_rejects :
    (s : Semaphore)
    → All (λ (w : Waiter). lookup w.id s.outcomes ≡ none) s.waiters
    → All (λ (w : Waiter). lookup w.id (shutdown s).outcomes ≡ some (rejected shut_down)) s.waiters
      × ((shutdown s).waiters ≡ [])
      × ((shutdown s).active ≡ 0)
      × ((shutdown s).pending_releases ≡ [])
unfolding shutdown
shutdown_rejects s a =
    let s₀ = record s { shutdown_requested = true; release_timer = false; pending_releases = [] } in
    (
      reject_all-Refused s₀ s.waiters (Settling-fresh s.outcomes s.waiters a),
      refl,
      refl,
      (reject_all-flags s₀ s.waiters).1,
    )
