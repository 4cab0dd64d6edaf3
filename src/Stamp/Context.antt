-- ===== src/Stamp/Context.antt =====
-- What every step is given (src/stamp-pipeline.ts, StampContext).
use umans_gate.Base.{Bool, true, false, not, ◌&&◌, List, Option, none, some, string_key, Text}
use umans_gate.Breakpoints.{AnthropicBody}
use umans_gate.Stamp.{Effort, StampPolicy, Fields}
use umans_gate.Stamp.Catalog.{PerModelRule, resolve_stamp_policy, resolve_per_model_rule}

pub record StampContext : Type 0 where
  pub stamp_claude_code : Bool
  pub stamp_reasoning_effort : Option Effort
  pub stamp_model_rules : List PerModelRule
  pub experiment_strip_omo_reminder : Bool
  pub is_openai : Bool
  pub model_name : Option Text
  pub catalog : Text → Option StampPolicy

abbrev pub Body : Type 0
Body = AnthropicBody Fields

abbrev pub policy_of : StampContext → StampPolicy
policy_of ctx = resolve_stamp_policy ctx.model_name ctx.catalog

abbrev pub rule_of : StampContext → Option PerModelRule
rule_of ctx = resolve_per_model_rule ctx.model_name ctx.stamp_model_rules

-- `ctx.config.stampClaudeCode && !ctx.isOpenAi`
abbrev pub on_claude_code : StampContext → Bool
on_claude_code ctx = ctx.stamp_claude_code && not ctx.is_openai

-- `ctx.config.stampReasoningEffort !== null`
abbrev pub effort_is_set : StampContext → Bool
effort_is_set ctx = elim ctx.stamp_reasoning_effort [ none ↦ false | some e ↦ true ]

abbrev pub on_openai_effort : StampContext → Bool
on_openai_effort ctx = ctx.is_openai && effort_is_set ctx
