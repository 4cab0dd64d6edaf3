-- ===== src/Stamp/Overlay.antt =====
-- What the policies of src/stamp-catalog.ts amount to.
use umans_gate.Base.{
  Bool, true, false, ◌||◌, ◌≡◌, refl, sym, ◌∙◌, subst, Option, none, some, Bool-cases, inl, inr,
  if◌then◌else◌, Text, codes, text_eq, text_eq_iff,
}
use umans_gate.Stamp.{StampPolicy, adaptive, enabled}
use umans_gate.Stamp.Catalog.{
  stamp_overlay, takes, chosen, match_stamp_overlay, is_prefix, fallback_policy, policy_131k,
  policy_32k,
}

-- The policy of a model by its family, in an order of its own.
abbrev pub meant_policy : Text → StampPolicy
meant_policy name =
    if is_prefix (codes "umans-glm") name
    then policy_131k (some 20)
    else if text_eq name (codes "umans-kimi-k3")
    then policy_131k none
    else if text_eq name (codes "umans-coder") || is_prefix (codes "umans-kimi") name
    then policy_32k false adaptive
    else if text_eq name (codes "umans-deepseek-v4-flash-0731")
    then policy_32k true enabled
    else policy_32k true adaptive

chosen-if :
    (c : Bool) (e : Text × StampPolicy) (r : Option (Text × StampPolicy))
    → chosen (if c then some e else r) ≡ (if c then e.1 else chosen r)
chosen-if true e r = refl
chosen-if false e r = refl

-- The loop, entry by entry.
abbrev in_order : Text → StampPolicy
in_order name =
    if is_prefix (codes "umans-glm") name
    then policy_131k (some 20)
    else if text_eq name (codes "umans-coder")
    then policy_32k false adaptive
    else if text_eq name (codes "umans-flash")
    then policy_32k true adaptive
    else if text_eq name (codes "umans-deepseek-v4-flash-0731")
    then policy_32k true enabled
    else if text_eq name (codes "umans-kimi-k3")
    then policy_131k none
    else if is_prefix (codes "umans-kimi") name
    then policy_32k false adaptive
    else if is_prefix (codes "umans-qwen") name
    then policy_32k true adaptive
    else fallback_policy

match_stamp_overlay_lem : (name : Text) → match_stamp_overlay name ≡ in_order name
unfolding match_stamp_overlay stamp_overlay takes
match_stamp_overlay_lem name =
    rw (chosen-if, chosen-if, chosen-if, chosen-if, chosen-if, chosen-if, chosen-if) refl

-- At a name that is written out both sides compute.
at_name :
    (name text : Text)
    → text_eq name text ≡ true
    → in_order text ≡ meant_policy text
    → in_order name ≡ meant_policy name
at_name name text h e =
    subst (λ n. in_order n ≡ meant_policy n) (sym ((text_eq_iff name text).0 h)) e

in_order-meant : (name : Text) → in_order name ≡ meant_policy name
in_order-meant name = elim (Bool-cases (is_prefix (codes "umans-glm") name)) [
  | inl e ↦ rw e refl
  | inr glm ↦ elim (Bool-cases (text_eq name (codes "umans-coder"))) [
    | inl e ↦ at_name name (codes "umans-coder") e refl
    | inr coder ↦ elim (Bool-cases (text_eq name (codes "umans-flash"))) [
      | inl e ↦ at_name name (codes "umans-flash") e refl
      | inr flash ↦ elim (Bool-cases (text_eq name (codes "umans-deepseek-v4-flash-0731"))) [
        | inl e ↦ at_name name (codes "umans-deepseek-v4-flash-0731") e refl
        | inr deepseek ↦ elim (Bool-cases (text_eq name (codes "umans-kimi-k3"))) [
          | inl e ↦ at_name name (codes "umans-kimi-k3") e refl
          | inr k3 ↦ elim (Bool-cases (is_prefix (codes "umans-kimi") name)) [
            | inl e ↦ rw (glm, coder, flash, deepseek, k3, e) refl
            | inr e ↦ elim (Bool-cases (is_prefix (codes "umans-qwen") name)) [
              | inl q ↦ rw (glm, coder, flash, deepseek, k3, e, q) refl
              | inr q ↦ rw (glm, coder, flash, deepseek, k3, e, q) refl
            ]
          ]
        ]
      ]
    ]
  ]
]

-- The first pattern of the overlay that takes a name gives the policy of the name's family: 131071 tokens and the effort
-- `max` for the GLM models and umans-kimi-k3, `top_k` for the GLM models alone, the shape `enabled` for
-- umans-deepseek-v4-flash-0731 alone, and thinking that may not be off for umans-coder and the Kimi models but
-- umans-kimi-k3.
pub match_stamp_overlay-meant : (name : Text) → match_stamp_overlay name ≡ meant_policy name
match_stamp_overlay-meant name = match_stamp_overlay_lem name ∙ in_order-meant name
