-- ===== src/Stamp/TopK.antt =====
-- The `top_k` of a body (src/stamp-topk.ts).
use umans_gate.Base.{ℕ, Bool, true, false, ◌∷◌, Option, none, some, string_key, Text, lookup, erase}
use umans_gate.Json.{Json, str, whole}
use umans_gate.Stamp.{StampPolicy, Fields}

-- `extractModelName`
abbrev pub model_of : Option Json → Option Text
model_of (some (str t)) = some t
model_of _ = none

-- The model first, then `top_k`, then the rest in its order.
abbrev pub rebuilt : Text → ℕ → Fields → Fields
rebuilt model top_k b =
    ("model", str model) ∷ ("top_k", whole top_k) ∷ erase "top_k" (erase "model" b)

-- What is done where the policy has a `top_k`, by the model and the `top_k` of the body.
abbrev pub place_top_k : Option Text → Option Json → ℕ → Fields → Fields × Bool
place_top_k (some model) none top_k b = (rebuilt model top_k b, true)
place_top_k _ _ top_k b = (b, false)

unfoldable pub stamp_top_k : ℕ → StampPolicy → Fields → Fields × Bool
stamp_top_k top_k policy b = elim policy.top_k [
  | none ↦ (b, false)
  | some k ↦ place_top_k (model_of (lookup "model" b)) (lookup "top_k" b) top_k b
]
