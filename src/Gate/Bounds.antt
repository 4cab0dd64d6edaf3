-- ===== src/Gate/Bounds.antt =====
-- How much the semaphore gives out: never more than its limit.
use umans_gate.Base.{
  ℕ, ◌+◌, ◌-◌, ◌*◌, ◌≤◌, ◌≡◌, refl, min, max, true, false, List, [], ◌∷◌, ◌++◌, String, arith,
  total, ℤ, pos, negsuc, Double, non_finite, ratio, clamp_zero,
}
use umans_gate.Gate.State.{Semaphore, Waiter, Release, Options, scale}
use umans_gate.Gate.Capacity.{split, effective_reservations, can_grant}
use umans_gate.Gate.Semaphore.{
  init, admit, drain_loop, drain_waiters, release_timer_fires, resize, set_hard_cap, apply_release,
  apply_releases, reject_all, reject_one, floor_at_least_one,
}

module _ (share : ℕ → ℕ → ℕ → ℕ) where
  total-split :
      (sum limit remaining : ℕ) (m : List (String × ℕ))
      → total (split share sum limit remaining m) ≤ remaining
  total-split sum limit remaining [] = omega arith
  total-split sum limit remaining ((k, r) ∷ m) =
      omega (arith, total-split sum limit (remaining - min (share r sum limit) remaining) m)

  -- However the shares are rounded, the effective reservations fit in the limit together.
  pub effective-within-limit :
      (limit : ℕ) (m : List (String × ℕ)) → total (effective_reservations share limit m) ≤ limit
  unfolding effective_reservations
  effective-within-limit limit m = ground (arith, total-split (total m) limit limit m)

  pub can_grant-fits :
      (s : Semaphore) (intention : String) (weight : ℕ)
      → can_grant share s intention weight ≡ true
      → s.active + weight ≤ s.limit
  unfolding can_grant
  can_grant-fits s intention weight h = ground arith

module _ (share : ℕ → ℕ → ℕ → ℕ) where
  drain_loop-active :
      (s : Semaphore) (remaining ws : List Waiter)
      → ((drain_loop share s remaining ws).limit ≡ s.limit)
        × ((drain_loop share s remaining ws).hard_cap ≡ s.hard_cap)
        × ((drain_loop share s remaining ws).active ≤ max s.active s.limit)
  unfolding drain_loop admit
  drain_loop-active s remaining [] = (refl, refl, omega arith)
  drain_loop-active s remaining (w ∷ ws) = ground (
    arith,
    can_grant-fits share s w.intention w.weight,
    drain_loop-active (admit s w) remaining ws,
    drain_loop-active s (remaining ++ w ∷ []) ws,
  )

  pub drain-active :
      (s : Semaphore)
      → ((drain_waiters share s).limit ≡ s.limit)
        × ((drain_waiters share s).hard_cap ≡ s.hard_cap)
        × ((drain_waiters share s).active ≤ max s.active s.limit)
  unfolding drain_waiters
  drain-active s = drain_loop-active s [] s.waiters

  apply_releases-active :
      (s : Semaphore) (rs : List Release)
      → ((apply_releases s rs).limit ≡ s.limit)
        × ((apply_releases s rs).hard_cap ≡ s.hard_cap)
        × ((apply_releases s rs).active ≤ s.active)
  apply_releases-active s [] = (refl, refl, omega arith)
  apply_releases-active s (r ∷ rs) =
      let ih = apply_releases-active (apply_release s r) rs in (ih.0, ih.1, omega (arith, ih.2))

-- `SCALE <= limit <= hardCap`, the invariant that the class asserts after each change.
pub record Limits (s : Semaphore) : Type 0 where
  pub at_least_one : scale ≤ s.limit
  pub capped : s.limit ≤ s.hard_cap

pub init-Limits : (o : Options) → Limits (init o)
unfolding init
init-Limits o = record { at_least_one = omega arith; capped = omega arith }

pub reject_all-limits :
    (s : Semaphore) (ws : List Waiter)
    → ((reject_all s ws).limit ≡ s.limit) × ((reject_all s ws).hard_cap ≡ s.hard_cap)
unfolding reject_all
reject_all-limits s [] = (refl, refl)
reject_all-limits s (w ∷ ws) = reject_all-limits (reject_one s w) ws

floor-pos : (x : Double) → 1 ≤ floor_at_least_one x
unfolding floor_at_least_one
floor-pos non_finite = omega arith
floor-pos (ratio (pos n) d) = omega arith
floor-pos (ratio (negsuc n) d) = omega arith

module _ (share : ℕ → ℕ → ℕ → ℕ) (s : Semaphore) where
  pub resize-active :
      (scaled : ℤ)
      → Limits s
      → Limits (resize share s scaled).0
        × ((resize share s scaled).0.active ≤ max s.active (resize share s scaled).0.limit)
  unfolding resize
  resize-active scaled v =
      let clamped = max scale (min (clamp_zero scaled) s.hard_cap) in
      ground (arith, drain-active share (record s { limit = clamped }))

  pub set_hard_cap-active :
      (x : Double)
      → Limits s
      → Limits (set_hard_cap share s x).0
        × ((set_hard_cap share s x).0.active ≤ max s.active (set_hard_cap share s x).0.limit)
  unfolding set_hard_cap
  set_hard_cap-active x v =
      let cap = floor_at_least_one x * scale in
      ground (
        arith,
        floor-pos x,
        drain-active share
            (record s { hard_cap = cap; soft_limit = min s.soft_limit cap; limit = cap }),
      )

  pub timer-active :
      Limits s
      → Limits (release_timer_fires share s)
        × ((release_timer_fires share s).active ≤ max s.active (release_timer_fires share s).limit)
  unfolding release_timer_fires
  timer-active v =
      let s' = record s { release_timer = false; pending_releases = [] } in
      ground (
        arith,
        apply_releases-active share s' s.pending_releases,
        drain-active share (apply_releases s' s.pending_releases),
      )
