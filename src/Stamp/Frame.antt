-- ===== src/Stamp/Frame.antt =====
-- Which fields of a body the pipeline may write (src/stamp-pipeline.ts).
use umans_gate.Base.{
  ℕ, Bool, true, false, ◌||◌, ◌≡◌, refl, sym, ap, ◌∙◌, List, [], ◌∷◌, Option, none, some,
  Option-cases, Bool-cases, inl, inr, lookup, insert, erase, String, string_key, ◌==◌, Text,
}
use umans_gate.Json.{Json, whole}
use umans_gate.Breakpoints.System.{restamp_breakpoints-rest}
use umans_gate.Stamp.{Fields, StampPolicy, config_json, output_config_json, effort_json}
use umans_gate.Stamp.Catalog.{PerModelRule}
use umans_gate.Stamp.Thinking.{
  StampOptions, stamp_thinking, stamp_max_tokens, stamp_shape, stamp_output_config,
  is_thinking_enabled,
}
use umans_gate.Stamp.Reasoning.{
  remove, stamp_temperature, has_temperature, strip_anthropic, stamp_effort, stamp_reasoning,
}
use umans_gate.Stamp.TopK.{place_top_k, stamp_top_k, model_of, rebuilt}
use umans_gate.Stamp.Context.{StampContext, Body, policy_of, rule_of, effort_is_set}
use umans_gate.Stamp.Rules.{rule_shape, apply_rule, revive, vetoes}
use umans_gate.Stamp.Pipeline.{stamp}
use umans_gate.Stamp.Pipeline
use umans_gate.Stamp.Blocks.{stamp_cache_ttl, strip_omo_reminder}
use umans_gate.Stamp.Parts.{SameParts, stamp-SameParts}
use umans_gate.Stamp.Run.{AllKeep, run_steps-keeps}
use umans_gate.Stamp.Keeps.{
  rule_writes, or-false, lookup-insert_other, lookup-erase_other, model_of-str, Keeps, Keeps-if,
  Keeps-put, merge_extra-Keeps, remove-Keeps, when-Keeps, unless-Keeps,
}

-- The fields that steps write or remove.
abbrev pub stamped_fields : List String
stamped_fields =
    "max_tokens" ∷ "thinking" ∷ "output_config" ∷ "reasoning_effort" ∷ "context_management"
    ∷ "temperature" ∷ "top_k" ∷ "stream_options" ∷ []

abbrev pub is_one_of : String → List String → Bool
is_one_of j [] = false
is_one_of j (k ∷ ks) = (k == j) || is_one_of j ks

-- A field that no step writes.
module _ (j : String) (max : ("max_tokens" == j) ≡ false) (thinking : ("thinking" == j) ≡ false)
    (output : ("output_config" == j) ≡ false) (effort : ("reasoning_effort" == j) ≡ false)
    (management : ("context_management" == j) ≡ false) (temperature : ("temperature" == j) ≡ false)
    (top_k : ("top_k" == j) ≡ false) (options : ("stream_options" == j) ≡ false) where
  stamp_shape-Keeps :
      (o : StampOptions) (p : StampPolicy) (b : Fields) → Keeps j b (stamp_shape o p b)
  stamp_shape-Keeps o p b = elim (Bool-cases o.thinking) [
    | inl e ↦ rw e (Keeps-put j _ "thinking" (config_json p.thinking_shape) b thinking)
    | inr e ↦ rw e refl
  ]

  stamp_output_config-Keeps :
      (o : StampOptions) (p : StampPolicy) (b : Fields) → Keeps j b (stamp_output_config o p b)
  stamp_output_config-Keeps o p b = elim (Option-cases o.output_config) [
    | inl e ↦ rw (e, stamp_output_config) refl
    | inr (x, e) ↦
        rw (e, stamp_output_config) (Keeps-put j _ "output_config" (output_config_json x) b output)
  ]

  stamp_thinking-Keeps :
      (o : StampOptions) (p : StampPolicy) (b : Fields) → Keeps j b (stamp_thinking o p b)
  unfolding stamp_thinking
  stamp_thinking-Keeps o p b =
      let r₁ = stamp_max_tokens o p b in
      let r₂ = stamp_shape o p r₁.0 in
      stamp_output_config-Keeps o p r₂.0
      ∙ (stamp_shape-Keeps o p r₁.0 ∙ Keeps-put j _ "max_tokens" (whole p.max_tokens) b max)

  stamp_temperature-Keeps : (n : ℕ) (b : Fields) → Keeps j b (stamp_temperature n b)
  unfolding stamp_temperature
  stamp_temperature-Keeps n b = elim (Bool-cases (has_temperature n (lookup "temperature" b))) [
    | inl e ↦ rw e refl
    | inr e ↦ rw e (lookup-insert_other "temperature" j (whole n) b temperature)
  ]

  strip_anthropic-Keeps : (changed : Bool) (b : Fields) → Keeps j b (strip_anthropic changed b)
  strip_anthropic-Keeps changed b =
      let r₁ = remove "output_config" b in
      let r₂ = remove "context_management" r₁.0 in
      stamp_temperature-Keeps 1 r₂.0
      ∙ (remove-Keeps j "context_management" r₁.0 management
          ∙ remove-Keeps j "output_config" b output)

  forced-Keeps :
      (p : StampPolicy) (b : Fields)
      → Keeps j b (strip_anthropic true (insert "reasoning_effort" (effort_json p.effort) b))
  forced-Keeps p b =
      strip_anthropic-Keeps true (insert "reasoning_effort" (effort_json p.effort) b)
      ∙ lookup-insert_other "reasoning_effort" j (effort_json p.effort) b effort

  stamp_effort-Keeps :
      (veto : Bool) (p : StampPolicy) (r t : Option Json) (b : Fields)
      → Keeps j b (stamp_effort veto p r t b)
  stamp_effort-Keeps true p none none b = refl
  stamp_effort-Keeps false p none none b = refl
  stamp_effort-Keeps true p (some r) none b = refl
  stamp_effort-Keeps true p none (some v) b = unless-Keeps j _ b _ (strip_anthropic-Keeps false b)
  stamp_effort-Keeps true p (some r) (some v) b =
      unless-Keeps j _ b _ (strip_anthropic-Keeps false b)
  stamp_effort-Keeps false p none (some v) b = unless-Keeps j _ b _ (forced-Keeps p b)
  stamp_effort-Keeps false p (some r) t b = unless-Keeps j _ b _ (forced-Keeps p b)

  stamp_reasoning-Keeps :
      (on veto : Bool) (p : StampPolicy) (b : Fields) → Keeps j b (stamp_reasoning on veto p b)
  unfolding stamp_reasoning
  stamp_reasoning-Keeps true veto p b =
      stamp_effort-Keeps veto p (lookup "reasoning_effort" b) (lookup "thinking" b) b
  stamp_reasoning-Keeps false veto p b = refl

  rebuilt-keeps :
      (m : Text) (n : ℕ) (b : Fields)
      → model_of (lookup "model" b) ≡ some m
      → lookup j (rebuilt m n b) ≡ lookup j b
  rebuilt-keeps m n b h = elim (Bool-cases ("model" == j)) [
    | inl e ↦ rw e (
        sym (model_of-str (lookup "model" b) m h)
        ∙ ap (λ k. lookup k b) ((string_key.agree_iff "model" j).0 e))
    | inr e ↦
        rw (e, top_k)
          (lookup-erase_other "top_k" j (erase "model" b) top_k ∙ lookup-erase_other "model" j b e)
  ]

  place_top_k-Keeps :
      (o : Option Text) (t : Option Json) (n : ℕ) (b : Fields)
      → model_of (lookup "model" b) ≡ o
      → Keeps j b (place_top_k o t n b)
  place_top_k-Keeps none t n b h = refl
  place_top_k-Keeps (some m) none n b h = rebuilt-keeps m n b h
  place_top_k-Keeps (some m) (some v) n b h = refl

  stamp_top_k-Keeps : (n : ℕ) (p : StampPolicy) (b : Fields) → Keeps j b (stamp_top_k n p b)
  unfolding stamp_top_k
  stamp_top_k-Keeps n p b = elim (Option-cases p.top_k) [
    | inl e ↦ rw e refl
    | inr (k, e) ↦
        rw e (place_top_k-Keeps (model_of (lookup "model" b)) (lookup "top_k" b) n b refl)
  ]

  revive-keeps : (p : StampPolicy) (c : Bool) (b : Fields) → lookup j (revive p c b) ≡ lookup j b
  revive-keeps p true b = refl
  revive-keeps p false b =
      lookup-insert_other "output_config" j (output_config_json p.effort)
        (insert "max_tokens" (whole p.max_tokens) b) output
      ∙ lookup-insert_other "max_tokens" j (whole p.max_tokens) b max

  rule_shape-Keeps :
      (ctx : StampContext) (rule : PerModelRule) (b : Fields) → Keeps j b (rule_shape ctx rule b)
  rule_shape-Keeps ctx rule b = elim (Bool-cases ctx.is_openai) [
    | inl o ↦ elim (Option-cases rule.openai_thinking_shape) [
      | inl e ↦ rw (o, e, rule_shape) refl
      | inr (shape, e) ↦
          rw (o, e, rule_shape) (Keeps-put j _ "thinking" (config_json shape) b thinking)
    ]
    | inr o ↦ elim (Option-cases rule.anthropic_thinking_shape) [
      | inl e ↦ rw (o, e, rule_shape) refl
      | inr (shape, e) ↦
          rw (o, e, rule_shape)
            (Keeps-if j _ b _ (
              revive-keeps (policy_of ctx) (is_thinking_enabled (lookup "thinking" b))
                (insert "thinking" (config_json shape) b)
              ∙ lookup-insert_other "thinking" j (config_json shape) b thinking))
    ]
  ]

  apply_rule-Keeps :
      (ctx : StampContext) (rule : Option PerModelRule) (b : Fields)
      → rule_writes j rule ≡ false
      → Keeps j b (apply_rule ctx rule b)
  apply_rule-Keeps ctx none b h = refl
  apply_rule-Keeps ctx (some rule) b h =
      merge_extra-Keeps j rule.openai_extra_body (rule_shape ctx rule b).0 h
      ∙ rule_shape-Keeps ctx rule b

  anthropic_body-Keeps :
      (ctx : StampContext) (b : Fields) → Keeps j b (Pipeline.apply_anthropic_body ctx b)
  anthropic_body-Keeps ctx b =
      let policy = policy_of ctx in
      let o : StampOptions = record {
        max_tokens = true;
        thinking = true;
        output_config = some policy.effort;
      } in
      remove-Keeps j "reasoning_effort" (stamp_thinking o policy b).0 effort
      ∙ stamp_thinking-Keeps o policy b

  -- Every step of the pipeline.
  steps_keep :
      (ctx : StampContext) (body : Body)
      → rule_writes j (rule_of ctx) ≡ false
      → AllKeep ctx (λ b. lookup j b.rest ≡ lookup j body.rest) Pipeline.stamp_pipeline
  unfolding stamp_cache_ttl strip_omo_reminder
  steps_keep ctx body extra = (
    (λ b on h. ap (λ r. lookup j r) (restamp_breakpoints-rest b) ∙ h),
    (
      (λ b on h. h),
      (
        (λ b on h. anthropic_body-Keeps ctx b.rest ∙ h),
        (
          (λ b on h. apply_rule-Keeps ctx (rule_of ctx) b.rest extra ∙ h),
          (
            (λ b on h.
                Keeps-put j (is_thinking_enabled (lookup "thinking" b.rest)) "context_management" _
                  b.rest management
                ∙ h),
            (
              (λ b on h.
                  stamp_reasoning-Keeps (effort_is_set ctx) (vetoes (rule_of ctx)) (policy_of ctx)
                    b.rest
                  ∙ h),
              (
                (λ b on h. Keeps-put j _ "stream_options" _ b.rest options ∙ h),
                (
                  (λ b on h.
                      when-Keeps j _ b.rest _
                        (stamp_top_k-Keeps Pipeline.stamp_top_k_value (policy_of ctx) b.rest)
                      ∙ h),
                  (
                    (λ b on h.
                        when-Keeps j _ b.rest _
                          (stamp_temperature-Keeps Pipeline.stamp_temperature_value b.rest)
                        ∙ h),
                    ((λ b on h. h), refl),
                  ),
                ),
              ),
            ),
          ),
        ),
      ),
    ),
  )

pub lookup-stamp :
    (ctx : StampContext) (body : Body) (j : String)
    → is_one_of j stamped_fields ≡ false
    → rule_writes j (rule_of ctx) ≡ false
    → (lookup j (stamp ctx body).0.rest ≡ lookup j body.rest) × SameParts body (stamp ctx body).0
unfolding stamp
lookup-stamp ctx body j h extra =
    let (e₁, h₁) = or-false ("max_tokens" == j) _ h in
    let (e₂, h₂) = or-false ("thinking" == j) _ h₁ in
    let (e₃, h₃) = or-false ("output_config" == j) _ h₂ in
    let (e₄, h₄) = or-false ("reasoning_effort" == j) _ h₃ in
    let (e₅, h₅) = or-false ("context_management" == j) _ h₄ in
    let (e₆, h₆) = or-false ("temperature" == j) _ h₅ in
    let (e₇, h₇) = or-false ("top_k" == j) _ h₆ in
    let (e₈, h₈) = or-false ("stream_options" == j) _ h₇ in
    (
      run_steps-keeps ctx (λ b. lookup j b.rest ≡ lookup j body.rest) Pipeline.stamp_pipeline body
          (steps_keep j e₁ e₂ e₃ e₄ e₅ e₆ e₇ e₈ ctx body extra) refl,
      stamp-SameParts ctx body,
    )
