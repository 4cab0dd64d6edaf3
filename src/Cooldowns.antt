-- ===== src/Cooldowns.antt =====
-- Live cooldowns (src/in-flight-cooldowns.ts, class InFlightCooldowns).
-- `R` stands for what else a summary holds; the three fields that `enrich` adds are one option.
pub mod Display
mod Tests
use umans_gate.Base.{
  ℕ, ◌+◌, ◌≤◌, ◌<◌, ◌≡◌, ◌↔◌, ◌≢◌, refl, ap, sym, Bool, true, false, List, [], ◌∷◌, Option, none,
  some, arith, leb, if◌then◌else◌, map, lookup, insert, erase, lookup-insert, lookup-erase, length,
  nat_key, ◌||◌, nat_beq_iff,
}

pub data CaptureState : Type 0 where
  enqueued streaming cooling_down done failed : CaptureState

pub record InFlightCooldown : Type 0 where
  pub retry_attempt : ℕ
  pub cooldown_ends_at : ℕ
  pub threshold : Option ℕ

abbrev pub InFlightCooldowns : Type 0
InFlightCooldowns = List (ℕ × InFlightCooldown)

pub record Summary (R : Type 0) : Type 0 where
  pub id : ℕ
  pub state : CaptureState
  pub cooldown : Option InFlightCooldown
  pub rest : R

unfoldable pub start : InFlightCooldowns → ℕ → ℕ → ℕ → Option ℕ → InFlightCooldowns
start m id retry_attempt cooldown_ends_at threshold =
    insert id
      (record {
        retry_attempt = retry_attempt;
        cooldown_ends_at = cooldown_ends_at;
        threshold = threshold;
      })
      m

unfoldable pub clear : InFlightCooldowns → ℕ → InFlightCooldowns
clear m id = erase id m

-- The cooldowns that have ended and were shown are forgotten.
abbrev pub forget : ℕ → ℕ → Option InFlightCooldown → InFlightCooldowns → InFlightCooldowns
forget now id none m = m
forget now id (some cd) m = if leb cd.cooldown_ends_at now then erase id m else m

abbrev pub waits_or_streams : CaptureState → Bool
waits_or_streams streaming = true
waits_or_streams enqueued = true
waits_or_streams _ = false

lookup-forget :
    (m : InFlightCooldowns) (now j id : ℕ) (cd : InFlightCooldown)
    → lookup id m ≡ some cd
    → now < cd.cooldown_ends_at
    → lookup id (forget now j (lookup j m) m) ≡ some cd
lookup-forget m now j id cd f h = ground (arith, f, h, lookup-erase j id m, nat_beq_iff j id)

module _ {R : Type 0} where
  -- The summary that is shown for one, and whether it was changed.
  abbrev pub enrich_one : ℕ → Option InFlightCooldown → Summary R → Summary R × Bool
  enrich_one now none s = (s, false)
  enrich_one now (some cd) s =
      if leb cd.cooldown_ends_at now
      then (s, false)
      else if waits_or_streams s.state
      then (record s { state = cooling_down; cooldown = some cd }, true)
      else (s, false)

  unfoldable pub enrich_all :
      ℕ → InFlightCooldowns → List (Summary R) → InFlightCooldowns × (List (Summary R) × Bool)
  enrich_all now m [] = (m, ([], false))
  enrich_all now m (s ∷ ss) =
      let found = lookup s.id m in
      let (s', changed) = enrich_one now found s in
      let (m', rest) = enrich_all now (forget now s.id found m) ss in
      (m', (s' ∷ rest.0, changed || rest.1))

  -- With no cooldown at all, and where nothing changed, the summaries are handed back.
  unfoldable pub enrich :
      InFlightCooldowns → ℕ → List (Summary R) → InFlightCooldowns × List (Summary R)
  unfolding enrich_all
  enrich [] now ss = ([], ss)
  enrich (c ∷ m) now ss =
      let (m', result) = enrich_all now (c ∷ m) ss in (m', if result.1 then result.0 else ss)

  -- A summary as it should be shown: with the cooldown it has, if it has not ended and the capture
  -- waits or streams.
  abbrev pub shown : InFlightCooldowns → ℕ → Summary R → Summary R
  shown m now s = (enrich_one now (lookup s.id m) s).0

  -- Forgetting one capture's cooldown does not change how any is shown.
  shown-forget :
      (m : InFlightCooldowns) (now id : ℕ) (s : Summary R)
      → shown (forget now id (lookup id m) m) now s ≡ shown m now s
  shown-forget m now id s = ground (arith, lookup-erase id s.id m, nat_beq_iff id s.id)

  map-shown :
      (m : InFlightCooldowns) (now id : ℕ) (ss : List (Summary R))
      → map (shown (forget now id (lookup id m) m) now) ss ≡ map (shown m now) ss
  map-shown m now id [] = refl
  map-shown m now id (s ∷ ss) = rw (shown-forget m now id s, map-shown m now id ss) refl

  enrich_all-shown :
      (m : InFlightCooldowns) (now : ℕ) (ss : List (Summary R))
      → (enrich_all now m ss).1.0 ≡ map (shown m now) ss
  unfolding enrich_all
  enrich_all-shown m now [] = refl
  enrich_all-shown m now (s ∷ ss) =
      rw (enrich_all-shown (forget now s.id (lookup s.id m) m) now ss, map-shown m now s.id ss) refl

  enrich_one-same :
      (now : ℕ) (found : Option InFlightCooldown) (s : Summary R)
      → (enrich_one now found s).1 ≡ false
      → (enrich_one now found s).0 ≡ s
  enrich_one-same now none s h = refl
  enrich_one-same now (some cd) s h = ground (arith, h)

  enrich_all-same :
      (m : InFlightCooldowns) (now : ℕ) (ss : List (Summary R))
      → (enrich_all now m ss).1.1 ≡ false
      → (enrich_all now m ss).1.0 ≡ ss
  unfolding enrich_all
  enrich_all-same m now [] h = refl
  enrich_all-same m now (s ∷ ss) h = ground (
    arith,
    h,
    enrich_one-same now (lookup s.id m) s,
    enrich_all-same (forget now s.id (lookup s.id m) m) now ss,
  )

  map-shown_none : (now : ℕ) (ss : List (Summary R)) → map (shown [] now) ss ≡ ss
  map-shown_none now [] = refl
  map-shown_none now (s ∷ ss) = ap (◌∷◌ s) (map-shown_none now ss)

  -- Each summary is shown with the live cooldown of its capture as the tracker had it before the
  -- call, although the call forgets cooldowns that have ended as it goes; all else is kept.
  pub enrich-shown :
      (m : InFlightCooldowns) (now : ℕ) (ss : List (Summary R))
      → (enrich m now ss).1 ≡ map (shown m now) ss
  unfolding enrich
  enrich-shown [] now ss = sym (map-shown_none now ss)
  enrich-shown (c ∷ m) now ss =
      ground (arith, enrich_all-shown (c ∷ m) now ss, enrich_all-same (c ∷ m) now ss)

  lookup-enrich_all :
      (m : InFlightCooldowns) (now id : ℕ) (ss : List (Summary R)) (cd : InFlightCooldown)
      → lookup id m ≡ some cd
      → now < cd.cooldown_ends_at
      → lookup id (enrich_all now m ss).0 ≡ some cd
  unfolding enrich_all
  lookup-enrich_all m now id [] cd f h = f
  lookup-enrich_all m now id (s ∷ ss) cd f h =
      lookup-enrich_all (forget now s.id (lookup s.id m) m) now id ss cd
        (lookup-forget m now s.id id cd f h) h

  -- A cooldown that has not ended is never forgotten by showing captures.
  pub lookup-enrich :
      (m : InFlightCooldowns) (now id : ℕ) (ss : List (Summary R)) (cd : InFlightCooldown)
      → lookup id m ≡ some cd
      → now < cd.cooldown_ends_at
      → lookup id (enrich m now ss).0 ≡ some cd
  unfolding enrich
  lookup-enrich [] now id ss cd f h = f
  lookup-enrich (c ∷ m) now id ss cd f h = lookup-enrich_all (c ∷ m) now id ss cd f h
