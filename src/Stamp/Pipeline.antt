-- ===== src/Stamp/Pipeline.antt =====
-- The steps and their order (src/stamp-pipeline.ts), and the loop over them (src/proxy.ts).
use umans_gate.Base.{
  ℕ, Bool, true, false, not, ◌&&◌, ◌||◌, List, [], ◌∷◌, Option, none, some, if◌then◌else◌, String,
  string_key, codes, lookup, insert, is_nil, ltb,
}
use umans_gate.Json.{
  Json, bool, str, array, object, item, no_items, member, no_members, field, is_bool,
}
use umans_gate.Breakpoints.{restamp_breakpoints}
use umans_gate.Stamp.{StampPolicy, Fields}
use umans_gate.Stamp.Thinking.{is_thinking_enabled, stamp_thinking}
use umans_gate.Stamp.Reasoning.{present, remove, stamp_temperature, stamp_reasoning}
use umans_gate.Stamp.TopK.{stamp_top_k}
use umans_gate.Stamp.Context.{
  StampContext, Body, policy_of, rule_of, on_claude_code, effort_is_set, on_openai_effort,
}
use umans_gate.Stamp.Rules.{apply_rule, vetoes}
use umans_gate.Stamp.Blocks.{stamp_cache_ttl, strip_omo_reminder}

pub record StampStep : Type 0 where
  pub applies : StampContext → Bool
  pub apply : StampContext → Body → Body × Bool

-- A step on the other fields alone.
abbrev pub on_rest : (StampContext → Fields → Fields × Bool) → StampContext → Body → Body × Bool
on_rest f ctx body = let (rest, changed) = f ctx body.rest in (record body { rest = rest }, changed)

abbrev pub restamp_breakpoints_step : StampStep
restamp_breakpoints_step = record {
  applies = on_claude_code;
  apply = λ ctx body. restamp_breakpoints body;
}

abbrev pub stamp_cache_ttl_value : String
stamp_cache_ttl_value = "1h"

abbrev pub apply_cache_ttl : Body → Body × Bool
apply_cache_ttl body = let (b, n) = stamp_cache_ttl stamp_cache_ttl_value body in (b, ltb 0 n)

abbrev pub cache_ttl_step : StampStep
cache_ttl_step = record { applies = on_claude_code; apply = λ ctx body. apply_cache_ttl body }

abbrev pub apply_anthropic_body : StampContext → Fields → Fields × Bool
apply_anthropic_body ctx b =
    let policy = policy_of ctx in
    let (b₁, c₁) =
      stamp_thinking
        (record { max_tokens = true; thinking = true; output_config = some policy.effort }) policy
        b in
    let (b₂, c₂) = remove "reasoning_effort" b₁ in (b₂, c₁ || c₂)

abbrev pub anthropic_body_step : StampStep
anthropic_body_step = record { applies = on_claude_code; apply = on_rest apply_anthropic_body }

abbrev pub stamp_context_management_value : Json
stamp_context_management_value = object (
    member "edits"
      (array (
        item
          (object (
            member "type" (str (codes "clear_thinking_20251015"))
              (member "keep" (str (codes "all")) no_members)))
          no_items))
      no_members)

abbrev pub apply_context_management : StampContext → Fields → Fields × Bool
apply_context_management ctx b =
    if is_thinking_enabled (lookup "thinking" b)
    then (insert "context_management" stamp_context_management_value b, true)
    else (b, false)

abbrev pub context_management_step : StampStep
context_management_step = record {
  applies = on_claude_code;
  apply = on_rest apply_context_management;
}

abbrev pub per_model_rule_step : StampStep
per_model_rule_step = record {
  applies = λ ctx.
      not (is_nil ctx.stamp_model_rules) && (elim (rule_of ctx) [ none ↦ false | some r ↦ true ]);
  apply = on_rest (λ ctx b. apply_rule ctx (rule_of ctx) b);
}

abbrev pub apply_openai_reasoning : StampContext → Fields → Fields × Bool
apply_openai_reasoning ctx b =
    stamp_reasoning (effort_is_set ctx) (vetoes (rule_of ctx)) (policy_of ctx) b

abbrev pub openai_reasoning_step : StampStep
openai_reasoning_step = record {
  applies = on_openai_effort;
  apply = on_rest apply_openai_reasoning;
}

abbrev pub is_true : Option Json → Bool
is_true none = false
is_true (some v) = is_bool true v

-- `b.stream_options?.include_usage === true`
abbrev pub includes_usage : Option Json → Bool
includes_usage none = false
includes_usage (some v) = is_true (field "include_usage" v)

abbrev pub apply_stream_usage : StampContext → Fields → Fields × Bool
apply_stream_usage ctx b =
    if is_true (lookup "stream" b) && not (includes_usage (lookup "stream_options" b))
    then (insert "stream_options" (object (member "include_usage" (bool true) no_members)) b, true)
    else (b, false)

abbrev pub openai_stream_usage_step : StampStep
openai_stream_usage_step = record { applies = on_openai_effort; apply = on_rest apply_stream_usage }

abbrev pub stamp_top_k_value : ℕ
stamp_top_k_value = 20

abbrev pub has_top_k : StampPolicy → Bool
has_top_k policy = elim policy.top_k [ none ↦ false | some k ↦ true ]

abbrev pub apply_top_k : StampContext → Fields → Fields × Bool
apply_top_k ctx b =
    let reasons =
      if ctx.is_openai
      then present (lookup "reasoning_effort" b)
      else is_thinking_enabled (lookup "thinking" b) in
    if reasons then stamp_top_k stamp_top_k_value (policy_of ctx) b else (b, false)

abbrev pub top_k_step : StampStep
top_k_step = record {
  applies = λ ctx.
      (if ctx.is_openai then effort_is_set ctx else ctx.stamp_claude_code)
      && has_top_k (policy_of ctx);
  apply = on_rest apply_top_k;
}

abbrev pub stamp_temperature_value : ℕ
stamp_temperature_value = 1

abbrev pub apply_temperature : StampContext → Fields → Fields × Bool
apply_temperature ctx b =
    if is_thinking_enabled (lookup "thinking" b)
    then stamp_temperature stamp_temperature_value b
    else (b, false)

abbrev pub temperature_step : StampStep
temperature_step = record { applies = on_claude_code; apply = on_rest apply_temperature }

abbrev pub strip_omo_reminder_step : StampStep
strip_omo_reminder_step = record {
  applies = λ ctx. ctx.experiment_strip_omo_reminder && not ctx.is_openai;
  apply = λ ctx body. strip_omo_reminder body;
}

abbrev pub stamp_pipeline : List StampStep
stamp_pipeline =
    restamp_breakpoints_step ∷ cache_ttl_step ∷ anthropic_body_step ∷ per_model_rule_step
    ∷ context_management_step ∷ openai_reasoning_step ∷ openai_stream_usage_step ∷ top_k_step
    ∷ temperature_step ∷ strip_omo_reminder_step ∷ []

abbrev pub run_step : StampStep → StampContext → Body → Body × Bool
run_step step ctx body = if step.applies ctx then step.apply ctx body else (body, false)

-- The loop over the steps, and whether the body is to be written out again.
abbrev pub run_steps : List StampStep → StampContext → Body → Body × Bool
run_steps [] ctx body = (body, false)
run_steps (step ∷ steps) ctx body =
    let (b₁, c₁) = run_step step ctx body in let (b₂, c₂) = run_steps steps ctx b₁ in (b₂, c₁ || c₂)

unfoldable pub stamp : StampContext → Body → Body × Bool
stamp ctx body = run_steps stamp_pipeline ctx body
