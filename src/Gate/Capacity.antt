-- ===== src/Gate/Capacity.antt =====
-- Who may have a permit now (src/limiter/gate.ts: canGrant, effectiveReservations, capacity).
-- `share r sum limit` is `Math.floor((r / sum) * limit)`, computed in doubles: a parameter.
use umans_gate.Base.{
  ℕ, ◌+◌, ◌-◌, min, Bool, true, false, List, [], ◌∷◌, String, ltb, leb, nat_beq, if◌then◌else◌, any,
  ◌==◌, string_key, keys, total, get_or_zero,
}
use umans_gate.Gate.State.{Semaphore}

module _ (share : ℕ → ℕ → ℕ → ℕ) where
  -- Each key in turn gets its share of the limit, and no more than what remains.
  abbrev pub split : ℕ → ℕ → ℕ → List (String × ℕ) → List (String × ℕ)
  split sum limit remaining [] = []
  split sum limit remaining ((k, r) ∷ m) =
      let v = min (share r sum limit) remaining in (k, v) ∷ split sum limit (remaining - v) m

  unfoldable pub effective_reservations : ℕ → List (String × ℕ) → List (String × ℕ)
  effective_reservations limit reservations =
      if leb (total reservations) limit
      then reservations
      else split (total reservations) limit limit reservations

-- What `capacity` takes off the limit: the unfilled reservations of the other intentions that
-- have permits or waiters.
abbrev pub held_back :
    String → List (String × ℕ) → List (String × ℕ) → List (String × ℕ) → List String → ℕ
held_back intention eff active queued [] = 0
held_back intention eff active queued (k ∷ ks) =
    let rest = held_back intention eff active queued ks in
    if k == intention
    then rest
    else if nat_beq (get_or_zero k active + get_or_zero k queued) 0
    then rest
    else (get_or_zero k eff - get_or_zero k active) + rest

abbrev pub over_subscribed : List (String × ℕ) → List (String × ℕ) → Bool
over_subscribed reservations eff =
    any (λ k. ltb (get_or_zero k eff) (get_or_zero k reservations)) (keys reservations)

module _ (share : ℕ → ℕ → ℕ → ℕ) where
  abbrev pub effective : Semaphore → List (String × ℕ)
  effective s = effective_reservations share s.limit s.reservations

  -- The last test is `active + weight <= limit - reserved`, written without subtraction.
  unfoldable pub can_grant : Semaphore → String → ℕ → Bool
  can_grant s intention weight =
      let eff = effective s in
      if ltb s.limit (s.active + weight)
      then false
      else if leb (get_or_zero intention s.active_by_intention + weight) (get_or_zero intention eff)
      then true
      else if over_subscribed s.reservations eff
      then leb (s.active + weight) s.limit
      else leb
          (s.active
            + weight
            + held_back intention eff s.active_by_intention s.queued_by_intention (keys eff))
          s.limit
