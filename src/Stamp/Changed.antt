-- ===== src/Stamp/Changed.antt =====
-- A body that no step says it changed is the body that came (src/stamp-pipeline.ts, src/proxy.ts).
use umans_gate.Base.{
  ℕ, Bool, true, false, not, ◌&&◌, ◌||◌, refl, Option, none, some, Option-cases, Bool-cases, inl,
  inr, if◌then◌else◌, lookup, insert, String, string_key, erase, Text, arith, ltb→ge,
}
use umans_gate.Json.{Json, whole}
use umans_gate.Stamp.{Fields, StampPolicy, config_json, output_config_json, effort_json}
use umans_gate.Stamp.Thinking.{
  StampOptions, stamp_thinking, stamp_max_tokens, stamp_shape, stamp_output_config,
  is_thinking_enabled, should_force, equals_shape, is_nullish, is_thinking_disabled,
}
use umans_gate.Stamp.Reasoning.{
  remove, present, stamp_temperature, has_temperature, strip_anthropic, stamp_effort,
  stamp_reasoning, is_reasoning_effort_disabled,
}
use umans_gate.Stamp.TopK.{place_top_k, stamp_top_k, model_of, rebuilt}
use umans_gate.Stamp.Catalog.{PerModelRule}
use umans_gate.Stamp.Context.{StampContext, Body, policy_of, rule_of, effort_is_set}
use umans_gate.Stamp.Blocks.{stamp_cache_ttl}
use umans_gate.Breakpoints.System.{restamp_breakpoints-same}
use umans_gate.Stamp.Marks.{stamp_cache_ttl-zero, strip_omo_reminder-Honest}
use umans_gate.Stamp.Rules.{rule_shape, merge_extra, apply_rule, revive, merge, vetoes}
use umans_gate.Stamp.Pipeline.{stamp}
use umans_gate.Stamp.Pipeline
use umans_gate.Stamp.Run.{Honest, Honest-same, Honest-if, Honest-then, run_steps-Honest}

-- Three parts one after another.
Honest-chain :
    {A : Type 0} (a : A) (r₁ r₂ r₃ : A × Bool)
    → Honest a r₁
    → Honest r₁.0 r₂
    → Honest r₂.0 r₃
    → Honest a (r₃.0, r₁.1 || r₂.1 || r₃.1)
Honest-chain a r₁ r₂ r₃ h₁ h₂ h₃ =
    Honest-then a (r₂.0, r₁.1 || r₂.1) r₃ (Honest-then a r₁ r₂ h₁ h₂) h₃

stamp_shape-Honest :
    (o : StampOptions) (p : StampPolicy) (b : Fields) → Honest b (stamp_shape o p b)
stamp_shape-Honest o p b = elim (Bool-cases o.thinking) [
  | inl e ↦ rw e (
      Honest-if
        (not (is_nullish (lookup "thinking" b))
          && should_force p (lookup "thinking" b)
          && not (equals_shape p.thinking_shape (lookup "thinking" b)))
        b (insert "thinking" (config_json p.thinking_shape) b))
  | inr e ↦ rw e (Honest-same b)
]

stamp_output_config-Honest :
    (o : StampOptions) (p : StampPolicy) (b : Fields) → Honest b (stamp_output_config o p b)
stamp_output_config-Honest o p b = elim (Option-cases o.output_config) [
  | inl e ↦ rw (e, stamp_output_config) (Honest-same b)
  | inr (effort, e) ↦
      rw (e, stamp_output_config)
        (Honest-if (is_thinking_enabled (lookup "thinking" b) && p.thinking) b
          (insert "output_config" (output_config_json effort) b))
]

stamp_thinking-Honest :
    (o : StampOptions) (p : StampPolicy) (b : Fields) → Honest b (stamp_thinking o p b)
unfolding stamp_thinking
stamp_thinking-Honest o p b =
    let r₁ = stamp_max_tokens o p b in
    let r₂ = stamp_shape o p r₁.0 in
    Honest-chain b r₁ r₂ (stamp_output_config o p r₂.0)
      (Honest-if (o.max_tokens && is_thinking_enabled (lookup "thinking" b)) b
        (insert "max_tokens" (whole p.max_tokens) b))
      (stamp_shape-Honest o p r₁.0) (stamp_output_config-Honest o p r₂.0)

true-Honest : {A : Type 0} (a b : A) → Honest a (b, true)
true-Honest a b h = cc

remove-Honest : (k : String) (b : Fields) → Honest b (remove k b)
remove-Honest k b = Honest-if (present (lookup k b)) b (erase k b)

stamp_temperature-Honest : (n : ℕ) (b : Fields) → Honest b (stamp_temperature n b)
unfolding stamp_temperature
stamp_temperature-Honest n b = elim (Bool-cases (has_temperature n (lookup "temperature" b))) [
  | inl e ↦ rw e (Honest-same b)
  | inr e ↦ rw e (true-Honest b (insert "temperature" (whole n) b))
]

-- `changed` is said of the body that the caller wrote, which is `a` where it is false.
strip_anthropic-Honest :
    (a b : Fields) (changed : Bool) → Honest a (b, changed) → Honest a (strip_anthropic changed b)
strip_anthropic-Honest a b changed h =
    let r₁ = remove "output_config" b in
    let r₂ = remove "context_management" r₁.0 in
    let r₃ = stamp_temperature 1 r₂.0 in
    Honest-then a (r₂.0, changed || r₁.1 || r₂.1) r₃
      (Honest-chain a (b, changed) r₁ r₂ h (remove-Honest "output_config" b)
        (remove-Honest "context_management" r₁.0))
      (stamp_temperature-Honest 1 r₂.0)

unless-Honest :
    {A : Type 0} (c : Bool) (a : A) (r : A × Bool)
    → Honest a r
    → Honest a (if c then (a, false) else r)
unless-Honest true a r h = Honest-same a
unless-Honest false a r h = h

stamp_effort-Honest :
    (veto : Bool) (p : StampPolicy) (r t : Option Json) (b : Fields)
    → Honest b (stamp_effort veto p r t b)
stamp_effort-Honest true p none none b = Honest-same b
stamp_effort-Honest false p none none b = Honest-same b
stamp_effort-Honest true p (some r) none b = Honest-same b
stamp_effort-Honest true p none (some v) b =
    unless-Honest (is_thinking_disabled (some v)) b (strip_anthropic false b)
      (strip_anthropic-Honest b b false (Honest-same b))
stamp_effort-Honest true p (some r) (some v) b =
    unless-Honest (is_thinking_disabled (some v)) b (strip_anthropic false b)
      (strip_anthropic-Honest b b false (Honest-same b))
stamp_effort-Honest false p none (some v) b =
    let b' = insert "reasoning_effort" (effort_json p.effort) b in
    unless-Honest (is_thinking_disabled (some v) || not p.thinking) b (strip_anthropic true b')
      (strip_anthropic-Honest b b' true (true-Honest b b'))
stamp_effort-Honest false p (some r) t b =
    let b' = insert "reasoning_effort" (effort_json p.effort) b in
    unless-Honest (is_reasoning_effort_disabled (some r) && p.can_disable_thinking) b
      (strip_anthropic true b') (strip_anthropic-Honest b b' true (true-Honest b b'))

stamp_reasoning-Honest :
    (on veto : Bool) (p : StampPolicy) (b : Fields) → Honest b (stamp_reasoning on veto p b)
unfolding stamp_reasoning
stamp_reasoning-Honest true veto p b =
    stamp_effort-Honest veto p (lookup "reasoning_effort" b) (lookup "thinking" b) b
stamp_reasoning-Honest false veto p b = Honest-same b

place_top_k-Honest :
    (m : Option Text) (t : Option Json) (n : ℕ) (b : Fields) → Honest b (place_top_k m t n b)
place_top_k-Honest none t n b = Honest-same b
place_top_k-Honest (some m) none n b = true-Honest b (rebuilt m n b)
place_top_k-Honest (some m) (some v) n b = Honest-same b

stamp_top_k-Honest : (n : ℕ) (p : StampPolicy) (b : Fields) → Honest b (stamp_top_k n p b)
unfolding stamp_top_k
stamp_top_k-Honest n p b = elim (Option-cases p.top_k) [
  | inl e ↦ rw e (Honest-same b)
  | inr (k, e) ↦ rw e (place_top_k-Honest (model_of (lookup "model" b)) (lookup "top_k" b) n b)
]

rule_shape-Honest :
    (ctx : StampContext) (rule : PerModelRule) (b : Fields) → Honest b (rule_shape ctx rule b)
rule_shape-Honest ctx rule b = elim (Bool-cases ctx.is_openai) [
  | inl o ↦ elim (Option-cases rule.openai_thinking_shape) [
    | inl e ↦ rw (o, e, rule_shape) (Honest-same b)
    | inr (shape, e) ↦
        rw (o, e, rule_shape) (Honest-if _ b (insert "thinking" (config_json shape) b))
  ]
  | inr o ↦ elim (Option-cases rule.anthropic_thinking_shape) [
    | inl e ↦ rw (o, e, rule_shape) (Honest-same b)
    | inr (shape, e) ↦
        rw (o, e, rule_shape)
          (Honest-if _ b (
            revive (policy_of ctx) (is_thinking_enabled (lookup "thinking" b))
              (insert "thinking" (config_json shape) b)))
  ]
]

apply_rule-Honest :
    (ctx : StampContext) (rule : Option PerModelRule) (b : Fields)
    → Honest b (apply_rule ctx rule b)
apply_rule-Honest ctx none b = Honest-same b
apply_rule-Honest ctx (some rule) b =
    let r = rule_shape ctx rule b in
    Honest-then b r (merge_extra rule.openai_extra_body r.0) (rule_shape-Honest ctx rule b)
      (elim (Option-cases rule.openai_extra_body) [
        | inl e ↦ rw e (Honest-same r.0)
        | inr (extra, e) ↦ rw e (true-Honest r.0 (merge extra r.0))
      ])

-- A step on the other fields.
on_rest-Honest :
    (f : StampContext → Fields → Fields × Bool) (ctx : StampContext) (body : Body)
    → Honest body.rest (f ctx body.rest)
    → Honest body (Pipeline.on_rest f ctx body)
on_rest-Honest f ctx body h e = rw (h e) refl

cache_ttl-Honest : (body : Body) → Honest body (Pipeline.apply_cache_ttl body)
cache_ttl-Honest body h =
    stamp_cache_ttl-zero Pipeline.stamp_cache_ttl_value body
      (omega (arith, ltb→ge 0 (stamp_cache_ttl Pipeline.stamp_cache_ttl_value body).1 h))

anthropic_body-Honest :
    (ctx : StampContext) (b : Fields) → Honest b (Pipeline.apply_anthropic_body ctx b)
anthropic_body-Honest ctx b =
    let policy = policy_of ctx in
    let o : StampOptions = record {
      max_tokens = true;
      thinking = true;
      output_config = some policy.effort;
    } in
    let r = stamp_thinking o policy b in
    Honest-then b r (remove "reasoning_effort" r.0) (stamp_thinking-Honest o policy b)
      (remove-Honest "reasoning_effort" r.0)

when-Honest :
    {A : Type 0} (c : Bool) (a : A) (r : A × Bool)
    → Honest a r
    → Honest a (if c then r else (a, false))
when-Honest true a r h = h
when-Honest false a r h = Honest-same a

-- A body that the pipeline does not say it changed is the body that came: what the proxy then sends on as it came
-- is what the pipeline made of it.
pub stamp-Honest : (ctx : StampContext) (body : Body) → Honest body (stamp ctx body)
unfolding stamp
stamp-Honest ctx body = run_steps-Honest ctx Pipeline.stamp_pipeline body (
  (λ b. restamp_breakpoints-same b),
  (
    cache_ttl-Honest,
    (
      (λ b. on_rest-Honest Pipeline.apply_anthropic_body ctx b (anthropic_body-Honest ctx b.rest)),
      (
        (λ b.
            on_rest-Honest (λ c r. apply_rule c (rule_of c) r) ctx b
              (apply_rule-Honest ctx (rule_of ctx) b.rest)),
        (
          (λ b.
              on_rest-Honest Pipeline.apply_context_management ctx b
                (Honest-if (is_thinking_enabled (lookup "thinking" b.rest)) b.rest _)),
          (
            (λ b. on_rest-Honest Pipeline.apply_openai_reasoning ctx b (
                stamp_reasoning-Honest (effort_is_set ctx) (vetoes (rule_of ctx)) (policy_of ctx)
                  b.rest)),
            (
              (λ b. on_rest-Honest Pipeline.apply_stream_usage ctx b (Honest-if _ b.rest _)),
              (
                (λ b. on_rest-Honest Pipeline.apply_top_k ctx b (
                    when-Honest _ b.rest _
                      (stamp_top_k-Honest Pipeline.stamp_top_k_value (policy_of ctx) b.rest))),
                (
                  (λ b. on_rest-Honest Pipeline.apply_temperature ctx b (
                      when-Honest (is_thinking_enabled (lookup "thinking" b.rest)) b.rest _
                        (stamp_temperature-Honest Pipeline.stamp_temperature_value b.rest))),
                  (strip_omo_reminder-Honest, (refl)),
                ),
              ),
            ),
          ),
        ),
      ),
    ),
  ),
)
