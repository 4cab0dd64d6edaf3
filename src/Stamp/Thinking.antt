-- ===== src/Stamp/Thinking.antt =====
-- Thinking, the token limit and the output configuration (src/stamp-thinking.ts).
use umans_gate.Base.{
  Bool, true, false, not, ◌&&◌, ◌||◌, Option, none, some, if◌then◌else◌, String, string_key, Text,
  codes, text_eq, lookup, insert,
}
use umans_gate.Json.{Json, null, str, is_str, is_bool, field, has_field, whole}
use umans_gate.Stamp.{
  Effort, ThinkingConfig, adaptive, enabled, enabled_keep_all, enabled_clear, config_json,
  output_config_json, StampPolicy, Fields, lower,
}

-- `DISABLED_THINKING_TYPES.has(type.toLowerCase())`, false where it is no string.
abbrev pub is_disabled_type : Option Json → Bool
is_disabled_type (some (str t)) =
    text_eq (lower t) (codes "disabled")
    || text_eq (lower t) (codes "off")
    || text_eq (lower t) (codes "none")
is_disabled_type _ = false

abbrev pub is_false : Option Json → Bool
is_false (some v) = is_bool false v
is_false none = false

unfoldable pub is_thinking_disabled : Option Json → Bool
is_thinking_disabled none = false
is_thinking_disabled (some v) = is_disabled_type (field "type" v) || is_false (field "enabled" v)

-- `v == null`
abbrev pub is_nullish : Option Json → Bool
is_nullish none = true
is_nullish (some null) = true
is_nullish _ = false

unfoldable pub is_thinking_enabled : Option Json → Bool
unfolding is_thinking_disabled
is_thinking_enabled v = not (is_nullish v) && not (is_thinking_disabled v)

-- `v.k === s` on a text, false where it is undefined.
abbrev pub field_is : String → Text → Json → Bool
field_is k s v = elim (field k v) [ none ↦ false | some w ↦ is_str s w ]

-- `"keep" in a` fails where `b` has no such member, and so on: the comparison with each shape of a policy.
unfoldable pub thinking_equals : Json → ThinkingConfig → Bool
thinking_equals a adaptive = field_is "type" (codes "adaptive") a
thinking_equals a enabled =
    field_is "type" (codes "enabled") a
    && not (has_field "keep" a)
    && not (has_field "clear_thinking" a)
thinking_equals a enabled_keep_all =
    field_is "type" (codes "enabled") a && field_is "keep" (codes "all") a
thinking_equals a (enabled_clear b) =
    field_is "type" (codes "enabled") a
    && (elim (field "clear_thinking" a) [ none ↦ false | some w ↦ is_bool b w ])

-- The options of `stampThinking` as the pipeline gives them; each `false` leaves its part out.
pub record StampOptions : Type 0 where
  pub max_tokens : Bool
  pub thinking : Bool
  pub output_config : Option Effort

abbrev pub stamp_max_tokens : StampOptions → StampPolicy → Fields → Fields × Bool
stamp_max_tokens o policy b =
    if o.max_tokens && is_thinking_enabled (lookup "thinking" b)
    then (insert "max_tokens" (whole policy.max_tokens) b, true)
    else (b, false)

-- Whether the policy's shape is to be forced on the block that is there.
abbrev pub should_force : StampPolicy → Option Json → Bool
should_force policy thinking =
    not (is_thinking_disabled thinking) || not policy.can_disable_thinking

abbrev pub equals_shape : ThinkingConfig → Option Json → Bool
equals_shape shape none = false
equals_shape shape (some v) = thinking_equals v shape

abbrev pub force_shape : StampPolicy → Option Json → Fields → Fields × Bool
force_shape policy thinking b =
    if not (is_nullish thinking)
      && should_force policy thinking
      && not (equals_shape policy.thinking_shape thinking)
    then (insert "thinking" (config_json policy.thinking_shape) b, true)
    else (b, false)

abbrev pub stamp_shape : StampOptions → StampPolicy → Fields → Fields × Bool
stamp_shape o policy b =
    if o.thinking then force_shape policy (lookup "thinking" b) b else (b, false)

abbrev pub stamp_output_config : StampOptions → StampPolicy → Fields → Fields × Bool
stamp_output_config o policy b = elim o.output_config [
  | none ↦ (b, false)
  | some effort ↦
      if is_thinking_enabled (lookup "thinking" b) && policy.thinking
      then (insert "output_config" (output_config_json effort) b, true)
      else (b, false)
]

unfoldable pub stamp_thinking : StampOptions → StampPolicy → Fields → Fields × Bool
stamp_thinking o policy b =
    let (b₁, c₁) = stamp_max_tokens o policy b in
    let (b₂, c₂) = stamp_shape o policy b₁ in
    let (b₃, c₃) = stamp_output_config o policy b₂ in (b₃, c₁ || c₂ || c₃)
