-- ===== src/Stamp/Catalog.antt =====
-- Policies and rules by model (src/stamp-catalog.ts).
use umans_gate.Base.{
  ℕ, Bool, true, false, List, [], ◌∷◌, Option, none, some, if◌then◌else◌, String, Text, codes,
  text_eq, after_prefix, nat_beq,
}
use umans_gate.Json.{Json}
use umans_gate.Stamp.{StampPolicy, ThinkingConfig, adaptive, enabled, high, max}

abbrev pub policy_32k : Bool → ThinkingConfig → StampPolicy
policy_32k can_disable shape = record {
  max_tokens = 32767;
  effort = high;
  thinking = true;
  top_k = none;
  can_disable_thinking = can_disable;
  thinking_shape = shape;
}

abbrev pub policy_131k : Option ℕ → StampPolicy
policy_131k top_k = record {
  max_tokens = 131071;
  effort = max;
  thinking = true;
  top_k = top_k;
  can_disable_thinking = true;
  thinking_shape = adaptive;
}

abbrev pub fallback_policy : StampPolicy
fallback_policy = policy_32k true adaptive

unfoldable pub stamp_overlay : List (Text × StampPolicy)
stamp_overlay =
    (codes "umans-glm*", policy_131k (some 20))
    ∷ (codes "umans-coder", policy_32k false adaptive)
    ∷ (codes "umans-flash", policy_32k true adaptive)
    ∷ (codes "umans-deepseek-v4-flash-0731", policy_32k true enabled)
    ∷ (codes "umans-kimi-k3", policy_131k none)
    ∷ (codes "umans-kimi*", policy_32k false adaptive)
    ∷ (codes "umans-qwen*", policy_32k true adaptive)
    ∷ (codes "*", fallback_policy)
    ∷ []

-- `slice(0, -1)` where the text ends with a star.
abbrev pub before_star : Text → Option Text
before_star [] = none
before_star (c ∷ []) = if nat_beq c 42 then some [] else none
before_star (c ∷ d ∷ s) = elim (before_star (d ∷ s)) [ none ↦ none | some t ↦ some (c ∷ t) ]

abbrev pub is_prefix : Text → Text → Bool
is_prefix p s = elim (after_prefix p s) [ none ↦ false | some rest ↦ true ]

-- Whether a pattern takes a model name; the pattern `*` alone takes every one.
unfoldable pub takes : Text → Text → Bool
takes pattern name = elim (before_star pattern) [
  | some prefix ↦ is_prefix prefix name
  | none ↦ text_eq name pattern
]

-- The two loops over patterns.
abbrev pub first_match : {A : Type 0} → (A → Text) → Text → List A → Option A
first_match pattern name [] = none
first_match pattern name (a ∷ more) =
    let rest = first_match pattern name more in if takes (pattern a) name then some a else rest

abbrev pub chosen : Option (Text × StampPolicy) → StampPolicy
chosen none = fallback_policy
chosen (some e) = e.1

unfoldable pub match_stamp_overlay : Text → StampPolicy
match_stamp_overlay name = chosen (first_match (λ e. e.0) name stamp_overlay)

-- `catalog` gives the `stamps` of an entry.
unfoldable pub resolve_stamp_policy : Option Text → (Text → Option StampPolicy) → StampPolicy
resolve_stamp_policy none catalog = fallback_policy
resolve_stamp_policy (some name) catalog = elim (catalog name) [
  | none ↦ match_stamp_overlay name
  | some policy ↦ policy
]

pub record PerModelRule : Type 0 where
  pub pattern : Text
  pub anthropic_thinking_shape : Option ThinkingConfig
  pub openai_thinking_shape : Option ThinkingConfig
  pub openai_extra_body : Option (List (String × Json))
  pub openai_veto_reasoning_effort : Bool
  pub force_thinking_when_absent : Bool

unfoldable pub resolve_per_model_rule : Option Text → List PerModelRule → Option PerModelRule
resolve_per_model_rule none rules = none
resolve_per_model_rule (some name) rules = first_match (λ (r : PerModelRule). r.pattern) name rules
