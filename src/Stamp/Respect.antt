-- ===== src/Stamp/Respect.antt =====
-- A client that turned thinking off, or asked for none, is left alone (src/stamp-pipeline.ts,
-- src/stamp-thinking.ts).
use umans_gate.Base.{
  Bool, true, false, not, ◌&&◌, ◌≡◌, refl, ap, ◌∙◌, Option, none, some, Option-cases, Bool-cases,
  inl, inr, lookup, String, string_key, ◌==◌, arith,
}
use umans_gate.Json.{Json}
use mathlib.Core.Bool.{true≢false}
use umans_gate.Breakpoints.{restamp_breakpoints}
use umans_gate.Breakpoints.System.{restamp_breakpoints-rest}
use umans_gate.Stamp.{Fields, StampPolicy}
use umans_gate.Stamp.Catalog.{PerModelRule}
use umans_gate.Stamp.Thinking.{
  StampOptions, stamp_thinking, is_thinking_enabled, is_nullish, is_thinking_disabled,
  stamp_max_tokens, stamp_shape, stamp_output_config, should_force, equals_shape,
}
use umans_gate.Stamp.Context.{StampContext, Body, policy_of, rule_of, on_openai_effort}
use umans_gate.Stamp.Rules.{rule_shape, apply_rule}
use umans_gate.Stamp.Blocks.{stamp_cache_ttl, strip_omo_reminder}
use umans_gate.Stamp.Pipeline.{stamp}
use umans_gate.Stamp.Pipeline
use umans_gate.Stamp.Parts.{SameParts, stamp-SameParts}
use umans_gate.Stamp.Run.{AllKeep, run_steps-keeps}
use umans_gate.Stamp.Keeps.{rule_writes, remove-Keeps, merge_extra-Keeps}

and-false : (a : Bool) → (a && false) ≡ false
and-false true = refl
and-false false = refl

-- There is nothing to force on.
no_force :
    (p : StampPolicy) (v : Option Json) (c : Bool)
    → is_thinking_enabled v ≡ false
    → p.can_disable_thinking ≡ true
    → (not (is_nullish v) && should_force p v && c) ≡ false
unfolding is_thinking_enabled
no_force p v c h k = elim (Bool-cases (is_nullish v)) [
  | inl e ↦ rw e refl
  | inr e ↦ elim (Bool-cases (is_thinking_disabled v)) [
    | inl d ↦ rw (e, d, k) refl
    | inr d ↦ ground (arith, h, e, d)
  ]
]

module _ (o : StampOptions) (p : StampPolicy) (b : Fields)
    (off : is_thinking_enabled (lookup "thinking" b) ≡ false) where
  stamp_max_tokens-off : stamp_max_tokens o p b ≡ (b, false)
  stamp_max_tokens-off = rw (off, and-false o.max_tokens) refl

  stamp_output_config-off : stamp_output_config o p b ≡ (b, false)
  stamp_output_config-off = elim (Option-cases o.output_config) [
    | inl e ↦ rw (e, stamp_output_config) refl
    | inr (x, e) ↦ rw (e, stamp_output_config, off) refl
  ]

  stamp_shape-off : p.can_disable_thinking ≡ true → stamp_shape o p b ≡ (b, false)
  stamp_shape-off k = elim (Bool-cases o.thinking) [
    | inl e ↦
        rw
          (
            e,
            no_force p (lookup "thinking" b)
                (not (equals_shape p.thinking_shape (lookup "thinking" b))) off k,
          )
          refl
    | inr e ↦ rw e refl
  ]

  -- Where thinking is not enabled and the model can do without, nothing is stamped for it.
  pub stamp_thinking-off : p.can_disable_thinking ≡ true → stamp_thinking o p b ≡ (b, false)
  unfolding stamp_thinking
  stamp_thinking-off k = rw (stamp_max_tokens-off, stamp_shape-off k, stamp_output_config-off) refl

abbrev pub forces : Option PerModelRule → Bool
forces none = false
forces (some rule) = rule.force_thinking_when_absent

module _ (ctx : StampContext) (claude : ctx.is_openai ≡ false)
    (can : (policy_of ctx).can_disable_thinking ≡ true) where
  rule_shape-off :
      (rule : PerModelRule) (b : Fields)
      → is_thinking_enabled (lookup "thinking" b) ≡ false
      → (rule.force_thinking_when_absent && is_nullish (lookup "thinking" b)) ≡ false
      → rule_shape ctx rule b ≡ (b, false)
  rule_shape-off rule b off absent = elim (Option-cases rule.anthropic_thinking_shape) [
    | inl e ↦ rw (claude, e, rule_shape) refl
    | inr (shape, e) ↦ rw (claude, e, rule_shape, off, can, absent) refl
  ]

  apply_rule-off :
      (j : String) (rule : Option PerModelRule) (b : Fields)
      → is_thinking_enabled (lookup "thinking" b) ≡ false
      → (forces rule && is_nullish (lookup "thinking" b)) ≡ false
      → rule_writes j rule ≡ false
      → lookup j (apply_rule ctx rule b).0 ≡ lookup j b
  apply_rule-off j none b off absent h = refl
  apply_rule-off j (some rule) b off absent h =
      rw (rule_shape-off rule b off absent) (merge_extra-Keeps j rule.openai_extra_body b h)

  -- The thinking block and the field `j` are what they were.
  abbrev Still : String → Option Json → Option Json → Body → Type 0
  Still j t w b = (lookup "thinking" b.rest ≡ t) × (lookup j b.rest ≡ w)

  module _ (j : String) (t w : Option Json) (off : is_thinking_enabled t ≡ false)
      (absent : (forces (rule_of ctx) && is_nullish t) ≡ false)
      (extra : rule_writes "thinking" (rule_of ctx) ≡ false)
      (extra_j : rule_writes j (rule_of ctx) ≡ false)
      (other : ("reasoning_effort" == j) ≡ false) where
    -- A part that writes nothing.
    on_rest-Still :
        (f : StampContext → Fields → Fields × Bool) (b : Body)
        → (f ctx b.rest).0 ≡ b.rest
        → Still j t w b
        → Still j t w (Pipeline.on_rest f ctx b).0
    on_rest-Still f b e (h, k) = (ap (lookup "thinking") e ∙ h, ap (lookup j) e ∙ k)

    restamp-Still : (b : Body) → Still j t w b → Still j t w (restamp_breakpoints b).0
    restamp-Still b (h, k) =
        let same = restamp_breakpoints-rest b in
        (ap (lookup "thinking") same ∙ h, ap (lookup j) same ∙ k)

    anthropic_body-Still :
        (b : Body)
        → Still j t w b
        → Still j t w (Pipeline.on_rest Pipeline.apply_anthropic_body ctx b).0
    anthropic_body-Still b (h, k) =
        let policy = policy_of ctx in
        let o : StampOptions = record {
          max_tokens = true;
          thinking = true;
          output_config = some policy.effort;
        } in
        let same =
          ap (λ r. r.0) (stamp_thinking-off o policy b.rest (ap is_thinking_enabled h ∙ off) can) in
        (
          remove-Keeps "thinking" "reasoning_effort" (stamp_thinking o policy b.rest).0 refl
              ∙ (ap (lookup "thinking") same ∙ h),
          remove-Keeps j "reasoning_effort" (stamp_thinking o policy b.rest).0 other
              ∙ (ap (lookup j) same ∙ k),
        )

    rule-Still :
        (b : Body)
        → Still j t w b
        → Still j t w (Pipeline.on_rest (λ c r. apply_rule c (rule_of c) r) ctx b).0
    rule-Still b (h, k) =
        let still = ap is_thinking_enabled h ∙ off in
        let known = ap (λ v. forces (rule_of ctx) && is_nullish v) h ∙ absent in
        (
          apply_rule-off "thinking" (rule_of ctx) b.rest still known extra ∙ h,
          apply_rule-off j (rule_of ctx) b.rest still known extra_j ∙ k,
        )

    top_k-same :
        (b : Fields)
        → is_thinking_enabled (lookup "thinking" b) ≡ false
        → (Pipeline.apply_top_k ctx b).0 ≡ b
    top_k-same b h = rw (claude, h) refl

    not_openai : on_openai_effort ctx ≡ true → true ≡ false
    not_openai h = ground (arith, h, claude)

    -- Every step keeps the thinking block and the field `j`.
    steps_respect : AllKeep ctx (Still j t w) Pipeline.stamp_pipeline
    unfolding stamp_cache_ttl strip_omo_reminder
    steps_respect = (
      (λ b on h. restamp-Still b h),
      (
        (λ b on h. h),
        (
          (λ b on h. anthropic_body-Still b h),
          (
            (λ b on h. rule-Still b h),
            (
              (λ b on h.
                  on_rest-Still Pipeline.apply_context_management b
                    (rw (ap is_thinking_enabled h.0 ∙ off) refl) h),
              (
                (λ b on h. absurd (true≢false (not_openai on))),
                (
                  (λ b on h. absurd (true≢false (not_openai on))),
                  (
                    (λ b on h.
                        on_rest-Still Pipeline.apply_top_k b
                          (top_k-same b.rest (ap is_thinking_enabled h.0 ∙ off)) h),
                    (
                      (λ b on h.
                          on_rest-Still Pipeline.apply_temperature b
                            (rw (ap is_thinking_enabled h.0 ∙ off) refl) h),
                      ((λ b on h. h), refl),
                    ),
                  ),
                ),
              ),
            ),
          ),
        ),
      ),
    )

pub lookup-stamp_off :
    (ctx : StampContext) (body : Body) (j : String)
    → ctx.is_openai ≡ false
    → (policy_of ctx).can_disable_thinking ≡ true
    → is_thinking_enabled (lookup "thinking" body.rest) ≡ false
    → (forces (rule_of ctx) && is_nullish (lookup "thinking" body.rest)) ≡ false
    → rule_writes "thinking" (rule_of ctx) ≡ false
    → rule_writes j (rule_of ctx) ≡ false
    → ("reasoning_effort" == j) ≡ false
    → (lookup j (stamp ctx body).0.rest ≡ lookup j body.rest) × SameParts body (stamp ctx body).0
unfolding stamp
lookup-stamp_off ctx body j claude can off absent extra extra_j other =
    let t = lookup "thinking" body.rest in
    let w = lookup j body.rest in
    (
      (run_steps-keeps ctx (Still ctx claude can j t w) Pipeline.stamp_pipeline body
          (steps_respect ctx claude can j t w off absent extra extra_j other) (refl, refl)).1,
      stamp-SameParts ctx body,
    )
