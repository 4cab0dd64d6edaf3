-- ===== src/Stamp/Rules.antt =====
-- The rules by model of the configuration (src/stamp-pipeline.ts, PerModelRuleStep).
-- The members of a rule's extra body are neither `system` nor `messages`.
use umans_gate.Base.{
  Bool, true, false, not, ◌&&◌, ◌||◌, List, [], ◌∷◌, Option, none, some, if◌then◌else◌, String,
  string_key, lookup, insert,
}
use umans_gate.Json.{Json, whole}
use umans_gate.Stamp.{ThinkingConfig, config_json, output_config_json, StampPolicy, Fields}
use umans_gate.Stamp.Catalog.{PerModelRule}
use umans_gate.Stamp.Context.{StampContext, policy_of}
use umans_gate.Stamp.Thinking.{is_thinking_enabled, is_nullish}
use umans_gate.Stamp.Reasoning.{is_reasoning_effort_disabled}

-- The shape that a rule forces on an OpenAI body.
abbrev pub force_openai_shape : PerModelRule → ThinkingConfig → Fields → Fields × Bool
force_openai_shape rule shape b =
    let existing = lookup "thinking" b in
    let effort = lookup "reasoning_effort" b in
    let active = is_thinking_enabled existing || not (is_reasoning_effort_disabled effort) in
    let truly_absent = is_nullish effort && is_nullish existing in
    if active || (rule.force_thinking_when_absent && truly_absent)
    then (insert "thinking" (config_json shape) b, true)
    else (b, false)

-- The limit and the output configuration where thinking was not enabled.
abbrev pub revive : StampPolicy → Bool → Fields → Fields
revive policy was_enabled b =
    if was_enabled
    then b
    else insert "output_config" (output_config_json policy.effort)
        (insert "max_tokens" (whole policy.max_tokens) b)

-- The shape that a rule forces on an Anthropic body.
abbrev pub force_anthropic_shape :
    PerModelRule → StampPolicy → ThinkingConfig → Fields → Fields × Bool
force_anthropic_shape rule policy shape b =
    let existing = lookup "thinking" b in
    if is_thinking_enabled existing
      || not policy.can_disable_thinking
      || (rule.force_thinking_when_absent && is_nullish existing)
    then (
      revive policy (is_thinking_enabled existing) (insert "thinking" (config_json shape) b),
      true,
    )
    else (b, false)

abbrev pub rule_shape : StampContext → PerModelRule → Fields → Fields × Bool
rule_shape ctx rule b =
    if ctx.is_openai
    then (elim rule.openai_thinking_shape [
      | none ↦ (b, false)
      | some shape ↦ force_openai_shape rule shape b
    ])
    else (elim rule.anthropic_thinking_shape [
      | none ↦ (b, false)
      | some shape ↦ force_anthropic_shape rule (policy_of ctx) shape b
    ])

-- `for (const [k, v] of Object.entries(extra)) b[k] = v`
abbrev pub merge : List (String × Json) → Fields → Fields
merge [] b = b
merge ((k, v) ∷ extra) b = merge extra (insert k v b)

abbrev pub merge_extra : Option (List (String × Json)) → Fields → Fields × Bool
merge_extra none b = (b, false)
merge_extra (some extra) b = (merge extra b, true)

abbrev pub apply_rule : StampContext → Option PerModelRule → Fields → Fields × Bool
apply_rule ctx none b = (b, false)
apply_rule ctx (some rule) b =
    let (b₁, c₁) = rule_shape ctx rule b in
    let (b₂, c₂) = merge_extra rule.openai_extra_body b₁ in (b₂, c₁ || c₂)

abbrev pub vetoes : Option PerModelRule → Bool
vetoes none = false
vetoes (some rule) = rule.openai_veto_reasoning_effort
