-- ===== src/Stamp/Tests.antt =====
-- Stamping at concrete inputs.
use umans_gate.Base.{
  ◌≡◌, ◌⊎◌, refl, true, false, [], ◌∷◌, none, some, String, string_key, ◌&&◌, Text, codes, lookup,
}
use umans_gate.Json.{Json, str, object, member, no_members, whole, bool}
use umans_gate.Breakpoints.{
  ContentBlock, text, blocks, breakpoint, restamp_breakpoints, last_user, restamp_messages,
  restamp_system,
}
use umans_gate.Stamp.{Fields, StampPolicy, adaptive}
use umans_gate.Stamp.Catalog.{
  PerModelRule, policy_32k, match_stamp_overlay, resolve_stamp_policy, resolve_per_model_rule,
  takes, stamp_overlay,
}
use umans_gate.Stamp.Thinking.{
  stamp_thinking, is_thinking_enabled, is_nullish, should_force, thinking_equals,
  is_thinking_disabled,
}
use umans_gate.Stamp.Reasoning.{stamp_reasoning, stamp_temperature}
use umans_gate.Stamp.TopK.{stamp_top_k}
use umans_gate.Stamp.Blocks.{stamp_cache_ttl, strip_omo_reminder}
use umans_gate.Stamp.Context.{StampContext, Body, policy_of, rule_of}
use umans_gate.Stamp.Pipeline.{stamp, stamp_context_management_value}
use umans_gate.Stamp.Changed.{stamp-Honest}
use umans_gate.Stamp.Parts.{SameParts}
use umans_gate.Stamp.Frame.{lookup-stamp}
use umans_gate.Stamp.Keeps.{rule_writes}
use umans_gate.Stamp.Respect.{forces, lookup-stamp_off}
use umans_gate.Stamp.Enforce.{
  all_options, Forced, stamp_thinking-Forced, ForOpenAi, effort_left, stamp_reasoning-cases,
}
use umans_gate.Stamp.Overlay.{meant_policy, match_stamp_overlay-meant}

-- A rule that adds a field to the bodies of all models of the vendor.
abbrev rule : PerModelRule
rule = record {
  pattern = codes "umans-*";
  anthropic_thinking_shape = none;
  openai_thinking_shape = none;
  openai_extra_body = some (("enable_thinking", bool true) ∷ []);
  openai_veto_reasoning_effort = false;
  force_thinking_when_absent = false;
}

abbrev context : Text → StampContext
context name = record {
  stamp_claude_code = true;
  stamp_reasoning_effort = none;
  stamp_model_rules = rule ∷ [];
  experiment_strip_omo_reminder = false;
  is_openai = false;
  model_name = some name;
  catalog = λ t. none;
}

abbrev thinking : String → Json
thinking kind = object (member "type" (str (codes kind)) no_members)

abbrev block : ContentBlock Fields
block = record {
  kind = some "text";
  cache_control = some breakpoint;
  rest = ("text", str (codes "hello")) ∷ [];
}

abbrev body : Fields → Body
body rest = record {
  messages = some (record { role = "user"; content = blocks (block ∷ []); rest = [] } ∷ []);
  system = text "be brief";
  rest = rest;
}

-- A request to a GLM model that thinks.
abbrev glm : Body
glm = body (
    ("max_tokens", whole 9)
    ∷ ("model", str (codes "umans-glm-5"))
    ∷ ("thinking", thinking "enabled")
    ∷ [])

-- One whose thinking is off.
abbrev quiet : Body
quiet = body (("model", str (codes "umans-flash")) ∷ ("thinking", thinking "Disabled") ∷ [])

-- The model comes first, `top_k` second.
stamped_glm :
    (stamp (context (codes "umans-glm-5")) glm).0.rest
    ≡ ("model", str (codes "umans-glm-5"))
      ∷ ("top_k", whole 20)
      ∷ ("max_tokens", whole 131071)
      ∷ ("thinking", thinking "adaptive")
      ∷ ("output_config", object (member "effort" (str (codes "max")) no_members))
      ∷ ("enable_thinking", bool true)
      ∷ ("context_management", stamp_context_management_value)
      ∷ ("temperature", whole 1)
      ∷ []
unfolding stamp restamp_breakpoints stamp_cache_ttl strip_omo_reminder stamp_thinking
    is_thinking_enabled thinking_equals stamp_top_k stamp_temperature resolve_stamp_policy
    resolve_per_model_rule match_stamp_overlay takes stamp_overlay is_thinking_disabled
    stamp_reasoning last_user restamp_messages restamp_system
stamped_glm = refl

writes_no_model : rule_writes "model" (rule_of (context (codes "umans-glm-5"))) ≡ false
unfolding resolve_per_model_rule takes
writes_no_model = refl

lookup-stamp_example :
    (lookup "model" (stamp (context (codes "umans-glm-5")) glm).0.rest ≡ lookup "model" glm.rest)
    × SameParts glm (stamp (context (codes "umans-glm-5")) glm).0
lookup-stamp_example = lookup-stamp (context (codes "umans-glm-5")) glm "model" refl writes_no_model

abbrev flash : StampContext
flash = context (codes "umans-flash")

flash_can : (policy_of flash).can_disable_thinking ≡ true
unfolding resolve_stamp_policy match_stamp_overlay stamp_overlay takes
flash_can = refl

quiet_off : is_thinking_enabled (lookup "thinking" quiet.rest) ≡ false
unfolding is_thinking_enabled is_thinking_disabled
quiet_off = refl

quiet_there : (forces (rule_of flash) && is_nullish (lookup "thinking" quiet.rest)) ≡ false
unfolding resolve_per_model_rule takes
quiet_there = refl

writes_neither :
    (rule_writes "thinking" (rule_of flash) ≡ false)
    × (rule_writes "temperature" (rule_of flash) ≡ false)
unfolding resolve_per_model_rule takes
writes_neither = (refl, refl)

lookup-stamp_off_example :
    (lookup "temperature" (stamp flash quiet).0.rest ≡ lookup "temperature" quiet.rest)
    × SameParts quiet (stamp flash quiet).0
lookup-stamp_off_example =
    lookup-stamp_off flash quiet "temperature" refl flash_can quiet_off quiet_there writes_neither.0
      writes_neither.1 refl

-- A context in which no step applies.
abbrev idle : StampContext
idle = record flash { stamp_claude_code = false; stamp_model_rules = [] }

idle_unchanged : (stamp idle glm).1 ≡ false
unfolding stamp
idle_unchanged = refl

stamp-Honest_example : (stamp idle glm).0 ≡ glm
stamp-Honest_example = stamp-Honest idle glm idle_unchanged

-- The policy of umans-coder, where thinking may not be off, and a body that turns it off.
abbrev coder : StampPolicy
coder = policy_32k false adaptive

coder_forces : should_force coder (lookup "thinking" quiet.rest) ≡ true
unfolding is_thinking_disabled
coder_forces = refl

stamp_thinking-Forced_example :
    Forced coder quiet.rest (stamp_thinking (all_options coder) coder quiet.rest).0
stamp_thinking-Forced_example = stamp_thinking-Forced coder quiet.rest refl coder_forces

-- The token limit is not written, although the thinking is forced on.
forced_without_limit :
    (stamp_thinking (all_options coder) coder quiet.rest).0
    ≡ ("model", str (codes "umans-flash"))
      ∷ ("thinking", thinking "adaptive")
      ∷ ("output_config", object (member "effort" (str (codes "high")) no_members))
      ∷ []
unfolding stamp_thinking is_thinking_enabled is_thinking_disabled thinking_equals
forced_without_limit = refl

-- A block of the policy's type that is off by its flag stays off, although thinking may not be off.
abbrev flag_off : Fields
flag_off =
    (
      "thinking",
      object (member "type" (str (codes "adaptive")) (member "enabled" (bool false) no_members)),
    )
    ∷ []

flag_stays_off : stamp_thinking (all_options coder) coder flag_off ≡ (flag_off, false)
unfolding stamp_thinking is_thinking_enabled is_thinking_disabled thinking_equals
flag_stays_off = refl

abbrev openai_body : Fields
openai_body =
    ("reasoning_effort", str (codes "low"))
    ∷ ("output_config", bool true)
    ∷ ("temperature", whole 0)
    ∷ []

stamp_reasoning-cases_example :
    (stamp_reasoning true false coder openai_body ≡ (openai_body, false))
    ⊎ ForOpenAi
        (effort_left false coder (lookup "reasoning_effort" openai_body))
        (stamp_reasoning true false coder openai_body).0
stamp_reasoning-cases_example = stamp_reasoning-cases true false coder openai_body

match_stamp_overlay-meant_example :
    match_stamp_overlay (codes "umans-kimi-k2") ≡ meant_policy (codes "umans-kimi-k2")
match_stamp_overlay-meant_example = match_stamp_overlay-meant (codes "umans-kimi-k2")
