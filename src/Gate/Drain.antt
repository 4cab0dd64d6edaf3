-- ===== src/Gate/Drain.antt =====
-- No lost wake-ups: draining leaves no waiter that could have a permit.
use umans_gate.Base.{
  ℕ, ◌+◌, ◌-◌, ◌≤◌, ◌<◌, ◌≡◌, refl, sym, ap, subst, false, List, [], ◌∷◌, ◌++◌, String, arith, ◌==◌,
  string_key, get_or_zero, get_or_zero-add, get_or_zero-sub, insert, keys, All, All-append,
  Bool-cases, inl, inr, append_assoc, min, total,
}
use umans_gate.Gate.State.{Semaphore, Waiter}
use umans_gate.Gate.Capacity.{split, effective_reservations, effective, held_back, can_grant}
use umans_gate.Gate.Semaphore.{admit, drain_loop, drain_waiters, one_less}
use umans_gate.Gate.Accounts.{Booked, waiting, waiting-append}
use umans_gate.Gate.Accounts.Loops.{admit-Booked}

-- The keys of an object are distinct.
abbrev pub Distinct : List String → Type 0
Distinct [] = Unit
Distinct (k ∷ ks) = All (λ j. (j == k) ≡ false) ks × Distinct ks

module _ (intention k : String) (w : ℕ) (eff active queued : List (String × ℕ)) where
  abbrev active' : List (String × ℕ)
  active' = insert k (get_or_zero k active + w) active

  held_back-absent :
      (ks : List String)
      → All (λ j. (j == k) ≡ false) ks
      → held_back intention eff active' (one_less k queued) ks
        ≡ held_back intention eff active queued ks
  held_back-absent [] a = refl
  held_back-absent (j ∷ ks) a = ground (
    arith,
    a.0,
    string_key.agree_iff j k,
    string_key.agree_iff k j,
    held_back-absent ks a.1,
    get_or_zero-add k j w active,
    get_or_zero-sub k j 1 queued,
  )

  -- Admitting a waiter of `k` lowers what is held back by its weight at most.
  held_back-admit :
      (ks : List String)
      → 0 < w
      → 0 < get_or_zero k queued
      → Distinct ks
      → held_back intention eff active queued ks
        ≤ held_back intention eff active' (one_less k queued) ks + w
  held_back-admit [] p q d = omega arith
  held_back-admit (j ∷ ks) p q d = ground (
    arith,
    string_key.agree_iff j k,
    string_key.agree_iff k j,
    held_back-admit ks p q d.1,
    held_back-absent ks,
    get_or_zero-add k j w active,
    get_or_zero-sub k j 1 queued,
  )

module _ (share : ℕ → ℕ → ℕ → ℕ) where
  keys-split :
      (sum limit remaining : ℕ) (m : List (String × ℕ))
      → keys (split share sum limit remaining m) ≡ keys m
  keys-split sum limit remaining [] = refl
  keys-split sum limit remaining ((k, r) ∷ m) =
      ap (◌∷◌ k) (keys-split sum limit (remaining - min (share r sum limit) remaining) m)

  keys-effective :
      (limit : ℕ) (m : List (String × ℕ)) → keys (effective_reservations share limit m) ≡ keys m
  unfolding effective_reservations
  keys-effective limit m = ground (arith, keys-split (total m) limit limit m)

  -- Who could not have a permit cannot have one after another waiter was admitted.
  can_grant-admit :
      (s : Semaphore) (v : Waiter) (intention : String) (weight : ℕ)
      → Distinct (keys s.reservations)
      → 0 < v.weight
      → 0 < get_or_zero v.intention s.queued_by_intention
      → can_grant share s intention weight ≡ false
      → can_grant share (admit s v) intention weight ≡ false
  unfolding can_grant admit
  can_grant-admit s v intention weight d p q h =
      let eff = effective share s in
      ground (
        arith,
        get_or_zero-add v.intention intention v.weight s.active_by_intention,
        held_back-admit intention v.intention v.weight eff s.active_by_intention
            s.queued_by_intention (keys eff) p q
            (subst Distinct (sym (keys-effective s.limit s.reservations)) d),
      )

  abbrev Stuck : Semaphore → Waiter → Type 0
  Stuck s w = can_grant share s w.intention w.weight ≡ false

  All-Stuck-admit :
      (s : Semaphore) (v : Waiter) (ws : List Waiter)
      → Distinct (keys s.reservations)
      → 0 < v.weight
      → 0 < get_or_zero v.intention s.queued_by_intention
      → All (Stuck s) ws
      → All (Stuck (admit s v)) ws
  All-Stuck-admit s v [] d p q a = tt
  All-Stuck-admit s v (w ∷ ws) d p q a =
      (can_grant-admit s v w.intention w.weight d p q a.0, All-Stuck-admit s v ws d p q a.1)

  waiting-pos :
      (w : Waiter) (before after : List Waiter) → 0 < waiting w.intention (before ++ w ∷ after)
  waiting-pos w before after = ground (
    arith,
    string_key.agree_iff w.intention w.intention,
    waiting-append w.intention before (w ∷ after),
  )

  Stuck-queue :
      (s : Semaphore) (queue ws : List Waiter)
      → All (Stuck s) ws
      → All (Stuck (record s { waiters = queue })) ws
  unfolding can_grant
  Stuck-queue s queue ws a = a

  drain_loop-Stuck :
      (s : Semaphore) (remaining ws : List Waiter)
      → Distinct (keys s.reservations)
      → Booked (record s { waiters = remaining ++ ws })
      → All (λ (w : Waiter). 0 < w.weight) ws
      → All (Stuck s) remaining
      → All (Stuck (drain_loop share s remaining ws)) (drain_loop share s remaining ws).waiters
  unfolding drain_loop
  drain_loop-Stuck s remaining [] d b p a = Stuck-queue s remaining remaining a
  drain_loop-Stuck s remaining (w ∷ ws) d b p a =
      elim (Bool-cases (can_grant share s w.intention w.weight)) [
        | inl fits ↦
            rw (fits, drain_loop)
              (drain_loop-Stuck (admit s w) remaining ws (unfold admit in d)
                (admit-Booked s w remaining ws b) p.1
                (All-Stuck-admit s w remaining d p.0
                  (rw (b.queued w.intention) (waiting-pos w remaining ws)) a))
        | inr full ↦
            rw (full, drain_loop)
              (drain_loop-Stuck s (remaining ++ w ∷ []) ws d
                (subst (λ l. Booked (record s { waiters = l }))
                  (sym (append_assoc remaining (w ∷ []) ws)) b)
                p.1 (All-append (Stuck s) remaining (w ∷ []) a (full, tt)))
      ]

  -- After the queue is drained no waiter that is left could have a permit: none is passed over that
  -- fits the limit and the reservations as they stand in the end.
  pub drain_complete :
      (s : Semaphore)
      → Distinct (keys s.reservations)
      → Booked s
      → All (λ (w : Waiter). 0 < w.weight) s.waiters
      → All
          (λ (w : Waiter). can_grant share (drain_waiters share s) w.intention w.weight ≡ false)
          (drain_waiters share s).waiters
  unfolding drain_waiters
  drain_complete s d b p = drain_loop-Stuck s [] s.waiters d b p tt
