-- ===== src/Cooldowns/Tests.antt =====
-- Cooldowns at concrete inputs.
use umans_gate.Base.{ℕ, ◌≡◌, refl, [], ◌∷◌, none, some, nat_key}
use umans_gate.Cooldowns.{
  InFlightCooldown, InFlightCooldowns, Summary, enrich, enrich_all, cooling_down, streaming,
}
use umans_gate.Cooldowns.Display.{AllShownAs, enrich-AllShownAs}

abbrev cooldown : InFlightCooldown
cooldown = record { retry_attempt = 1; cooldown_ends_at = 500; threshold = none }

abbrev ended : InFlightCooldown
ended = record { retry_attempt = 2; cooldown_ends_at = 50; threshold = some 3 }

abbrev tracker : InFlightCooldowns
tracker = (1, ended) ∷ (2, cooldown) ∷ []

abbrev summary : ℕ → Summary ℕ
summary id = record { id = id; state = streaming; cooldown = none; rest = 0 }

-- The first capture is shown as it is, and its cooldown, which has ended, is forgotten.
enriched : enrich tracker 100 (summary 1 ∷ summary 2 ∷ []) ≡ (
  (2, cooldown) ∷ [],
  summary 1 ∷ record (summary 2) { state = cooling_down; cooldown = some cooldown } ∷ [],
)
unfolding enrich enrich_all
enriched = refl

enrich-AllShownAs_example :
    AllShownAs tracker 100
      (summary 1 ∷ summary 2 ∷ [])
      (enrich tracker 100 (summary 1 ∷ summary 2 ∷ [])).1
enrich-AllShownAs_example = enrich-AllShownAs tracker 100 (summary 1 ∷ summary 2 ∷ [])
