-- ===== src/Cooldowns/Display.antt =====
-- How captures are shown while they cool down (src/in-flight-cooldowns.ts, enrich).
use umans_gate.Base.{
  ℕ, ◌<◌, ◌≡◌, ◌⊎◌, inl, inr, refl, sym, subst, true, false, List, [], ◌∷◌, some, arith, leb, map,
  lookup, nat_key, Option-cases, Bool-cases,
}
use umans_gate.Cooldowns.{
  CaptureState, enqueued, streaming, cooling_down, done, failed, InFlightCooldown,
  InFlightCooldowns, Summary, waits_or_streams, enrich, shown, enrich-shown,
}

waits : (c : CaptureState) → waits_or_streams c ≡ true → (c ≡ enqueued) ⊎ (c ≡ streaming)
waits enqueued h = inl refl
waits streaming h = inr refl
waits cooling_down h = cc
waits done h = cc
waits failed h = cc

module _ {R : Type 0} (m : InFlightCooldowns) (now : ℕ) where
  -- The capture waits or streams, and has a cooldown that has not ended.
  abbrev pub Cools : Summary R → InFlightCooldown → Type 0
  Cools s cd =
      (lookup s.id m ≡ some cd)
      × (now < cd.cooldown_ends_at)
      × ((s.state ≡ enqueued) ⊎ (s.state ≡ streaming))

  -- A capture that cools is shown as cooling down, with its cooldown; any other one as it is.
  abbrev pub ShownAs : Summary R → Summary R → Type 0
  ShownAs s t =
      ((cd : InFlightCooldown)
        → Cools s cd
        → t ≡ record s { state = cooling_down; cooldown = some cd })
      × (((cd : InFlightCooldown) → ¬ (Cools s cd)) → t ≡ s)

  abbrev pub AllShownAs : List (Summary R) → List (Summary R) → Type 0
  AllShownAs [] [] = true ≡ true
  AllShownAs (s ∷ ss) (t ∷ ts) = ShownAs s t × AllShownAs ss ts
  AllShownAs _ _ = true ≡ false

  Cools-shown :
      (s : Summary R) (cd : InFlightCooldown)
      → Cools s cd
      → shown m now s ≡ record s { state = cooling_down; cooldown = some cd }
  Cools-shown s cd (e, h, inl st) = ground (arith, e, h, st)
  Cools-shown s cd (e, h, inr st) = ground (arith, e, h, st)

  rests-shown : (s : Summary R) → ((cd : InFlightCooldown) → ¬ (Cools s cd)) → shown m now s ≡ s
  rests-shown s n = elim (Option-cases (lookup s.id m)) [
    | inl e ↦ rw (e, shown) refl
    | inr (cd, e) ↦ elim (Bool-cases (leb cd.cooldown_ends_at now)) [
      | inl l ↦ rw (e, shown, l) refl
      | inr l ↦ elim (Bool-cases (waits_or_streams s.state)) [
        | inl w ↦ absurd (n cd (e, ground (arith, l), waits s.state w))
        | inr w ↦ rw (e, shown, l, w) refl
      ]
    ]
  ]

  map-AllShownAs : (ss : List (Summary R)) → AllShownAs ss (map (shown m now) ss)
  map-AllShownAs [] = refl
  map-AllShownAs (s ∷ ss) = ((Cools-shown s, rests-shown s), map-AllShownAs ss)

-- Each capture that waits or streams and has a cooldown that has not ended is shown as cooling down, with the cooldown
-- that the tracker had before the call, and every other one as it is, in the same order, although the call forgets
-- cooldowns as it goes.
pub enrich-AllShownAs :
    {R : Type 0} (m : InFlightCooldowns) (now : ℕ) (ss : List (Summary R))
    → AllShownAs m now ss (enrich m now ss).1
enrich-AllShownAs m now ss =
    subst (AllShownAs m now ss) (sym (enrich-shown m now ss)) (map-AllShownAs m now ss)
