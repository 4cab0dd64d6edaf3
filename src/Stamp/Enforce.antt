-- ===== src/Stamp/Enforce.antt =====
-- What stamping puts into a body (src/stamp-thinking.ts, src/stamp-reasoning.ts).
use umans_gate.Base.{
  ℕ, Bool, true, false, not, ◌&&◌, ◌||◌, ◌≡◌, refl, ap, ◌∙◌, Option, none, some, Option-cases,
  Bool-cases, inl, inr, ◌⊎◌, subst, if◌then◌else◌, lookup, insert, lookup-insert, lookup-erase,
  String, string_key, ◌==◌, arith, Text, codes, text_eq_iff,
}
use umans_gate.Json.{
  Json, null, bool, number, str, array, object, whole, field, has_field, is_str, is_bool,
}
use umans_gate.Stamp.{
  Fields, StampPolicy, ThinkingConfig, adaptive, enabled, enabled_keep_all, enabled_clear,
  config_json, output_config_json, effort_json,
}
use umans_gate.Stamp.Thinking.{
  StampOptions, stamp_thinking, is_thinking_enabled, is_nullish, is_thinking_disabled,
  stamp_max_tokens, stamp_shape, stamp_output_config, should_force, equals_shape, thinking_equals,
  field_is,
}
use umans_gate.Stamp.Reasoning.{
  remove, stamp_temperature, has_temperature, strip_anthropic, stamp_effort, stamp_reasoning,
  is_reasoning_effort_disabled,
}
use umans_gate.Stamp.Keeps.{lookup-insert_other, Keeps, Keeps-put, remove-Keeps}

lookup-insert_same : (k : String) (v : Json) (b : Fields) → lookup k (insert k v b) ≡ some v
lookup-insert_same k v b = lookup-insert k k v b ∙ rw ((string_key.agree_iff k k).1 refl) refl

-- The configuration of a policy is equal to itself.
thinking_equals-config : (s : ThinkingConfig) → thinking_equals (config_json s) s ≡ true
unfolding thinking_equals
thinking_equals-config adaptive = refl
thinking_equals-config enabled = refl
thinking_equals-config enabled_keep_all = refl
thinking_equals-config (enabled_clear true) = refl
thinking_equals-config (enabled_clear false) = refl

-- The member `k` of a value is a text.
abbrev pub Says : String → String → Json → Type 0
Says k s v = field k v ≡ some (str (codes s))

-- A block has a shape where it has its members; that of the bare shape has no others of these.
abbrev pub HasShape : ThinkingConfig → Option Json → Type 0
HasShape s none = true ≡ false
HasShape adaptive (some v) = Says "type" "adaptive" v
HasShape enabled (some v) =
    Says "type" "enabled" v × (field "keep" v ≡ none) × (field "clear_thinking" v ≡ none)
HasShape enabled_keep_all (some v) = Says "type" "enabled" v × Says "keep" "all" v
HasShape (enabled_clear b) (some v) =
    Says "type" "enabled" v × (field "clear_thinking" v ≡ some (bool b))

is_str-Says : (s : Text) (w : Json) → is_str s w ≡ true → w ≡ str s
is_str-Says s (str t) h = ap str ((text_eq_iff t s).0 h)
is_str-Says s null h = cc
is_str-Says s (bool b) h = cc
is_str-Says s (number d) h = cc
is_str-Says s (array xs) h = cc
is_str-Says s (object ms) h = cc

is_bool-same : (b : Bool) (w : Json) → is_bool b w ≡ true → w ≡ bool b
is_bool-same true (bool c) h = ap bool h
is_bool-same false (bool true) h = cc
is_bool-same false (bool false) h = refl
is_bool-same true null h = cc
is_bool-same true (number d) h = cc
is_bool-same true (str t) h = cc
is_bool-same true (array xs) h = cc
is_bool-same true (object ms) h = cc
is_bool-same false null h = cc
is_bool-same false (number d) h = cc
is_bool-same false (str t) h = cc
is_bool-same false (array xs) h = cc
is_bool-same false (object ms) h = cc

text_of :
    (s : Text) (o : Option Json)
    → (elim o [ none ↦ false | some w ↦ is_str s w ]) ≡ true
    → o ≡ some (str s)
text_of s none h = cc
text_of s (some w) h = ap some (is_str-Says s w h)

flag_of :
    (b : Bool) (o : Option Json)
    → (elim o [ none ↦ false | some w ↦ is_bool b w ]) ≡ true
    → o ≡ some (bool b)
flag_of b none h = cc
flag_of b (some w) h = ap some (is_bool-same b w h)

none_of : (o : Option Json) → not (elim o [ none ↦ false | some w ↦ true ]) ≡ true → o ≡ none
none_of none h = refl
none_of (some w) h = cc

and-true : (a b : Bool) → (a && b) ≡ true → (a ≡ true) × (b ≡ true)
and-true true b h = (refl, h)
and-true false b h = cc

thinking_equals-HasShape :
    (v : Json) (s : ThinkingConfig) → thinking_equals v s ≡ true → HasShape s (some v)
unfolding thinking_equals
thinking_equals-HasShape v adaptive h = text_of (codes "adaptive") (field "type" v) h
thinking_equals-HasShape v enabled h =
    let (both, c) =
      and-true (field_is "type" (codes "enabled") v && not (has_field "keep" v))
        (not (has_field "clear_thinking" v)) h in
    let (t, k) = and-true (field_is "type" (codes "enabled") v) (not (has_field "keep" v)) both in
    (
      text_of (codes "enabled") (field "type" v) t,
      none_of (field "keep" v) k,
      none_of (field "clear_thinking" v) c,
    )
thinking_equals-HasShape v enabled_keep_all h =
    let (t, k) =
      and-true (field_is "type" (codes "enabled") v) (field_is "keep" (codes "all") v) h in
    (text_of (codes "enabled") (field "type" v) t, text_of (codes "all") (field "keep" v) k)
thinking_equals-HasShape v (enabled_clear b) h =
    let (t, c) =
      and-true (field_is "type" (codes "enabled") v)
        (elim (field "clear_thinking" v) [ none ↦ false | some w ↦ is_bool b w ]) h in
    (text_of (codes "enabled") (field "type" v) t, flag_of b (field "clear_thinking" v) c)

equals_shape-HasShape :
    (s : ThinkingConfig) (o : Option Json) → equals_shape s o ≡ true → HasShape s o
equals_shape-HasShape s none h = cc
equals_shape-HasShape s (some v) h = thinking_equals-HasShape v s h

-- The options that the pipeline gives.
abbrev pub all_options : StampPolicy → StampOptions
all_options p = record { max_tokens = true; thinking = true; output_config = some p.effort }

module _ (p : StampPolicy) (b : Fields) where
  stamp_max_tokens-lookup : lookup "max_tokens" (stamp_max_tokens (all_options p) p b).0 ≡ (
      if is_thinking_enabled (lookup "thinking" b)
      then some (whole p.max_tokens)
      else lookup "max_tokens" b)
  stamp_max_tokens-lookup = elim (Bool-cases (is_thinking_enabled (lookup "thinking" b))) [
    | inl e ↦ rw e (lookup-insert_same "max_tokens" (whole p.max_tokens) b)
    | inr e ↦ rw e refl
  ]

  -- The shape is there after it was forced.
  stamp_shape-lookup :
      is_nullish (lookup "thinking" b) ≡ false
      → should_force p (lookup "thinking" b) ≡ true
      → equals_shape p.thinking_shape (lookup "thinking" (stamp_shape (all_options p) p b).0) ≡ true
  stamp_shape-lookup h k = elim (Bool-cases (equals_shape p.thinking_shape (lookup "thinking" b))) [
    | inl e ↦ rw (h, k, e) e
    | inr e ↦
        rw (h, k, e, lookup-insert_same "thinking" (config_json p.thinking_shape) b)
          (thinking_equals-config p.thinking_shape)
  ]

  stamp_output_config-lookup :
      lookup "output_config" (stamp_output_config (all_options p) p b).0 ≡ (
        if is_thinking_enabled (lookup "thinking" b) && p.thinking
        then some (output_config_json p.effort)
        else lookup "output_config" b)
  stamp_output_config-lookup =
      elim (Bool-cases (is_thinking_enabled (lookup "thinking" b) && p.thinking)) [
        | inl e ↦ rw e (lookup-insert_same "output_config" (output_config_json p.effort) b)
        | inr e ↦ rw e refl
      ]

  stamp_shape-Keeps :
      (j : String) → ("thinking" == j) ≡ false → Keeps j b (stamp_shape (all_options p) p b)
  stamp_shape-Keeps j h = Keeps-put j _ "thinking" (config_json p.thinking_shape) b h

  stamp_max_tokens-Keeps :
      (j : String) → ("max_tokens" == j) ≡ false → Keeps j b (stamp_max_tokens (all_options p) p b)
  stamp_max_tokens-Keeps j h = Keeps-put j _ "max_tokens" (whole p.max_tokens) b h

  stamp_output_config-Keeps :
      (j : String)
      → ("output_config" == j) ≡ false
      → Keeps j b (stamp_output_config (all_options p) p b)
  stamp_output_config-Keeps j h = Keeps-put j _ "output_config" (output_config_json p.effort) b h

-- What is left of a body whose thinking block is to be forced: the block has the members of the policy's shape; the token limit is
-- the policy's if the block was enabled before, else what it was; the output configuration is the policy's if the
-- block is enabled now and the policy thinks, else what it was.
abbrev pub Forced : StampPolicy → (before after : Fields) → Type 0
Forced p before after =
    HasShape p.thinking_shape (lookup "thinking" after)
    × (lookup "max_tokens" after ≡ (
        if is_thinking_enabled (lookup "thinking" before)
        then some (whole p.max_tokens)
        else lookup "max_tokens" before))
    × (lookup "output_config" after ≡ (
        if is_thinking_enabled (lookup "thinking" after) && p.thinking
        then some (output_config_json p.effort)
        else lookup "output_config" before))

pub stamp_thinking-Forced :
    (p : StampPolicy) (b : Fields)
    → is_nullish (lookup "thinking" b) ≡ false
    → should_force p (lookup "thinking" b) ≡ true
    → Forced p b (stamp_thinking (all_options p) p b).0
unfolding stamp_thinking
stamp_thinking-Forced p b h k =
    let o = all_options p in
    let b₁ = (stamp_max_tokens o p b).0 in
    let b₂ = (stamp_shape o p b₁).0 in
    let t = stamp_max_tokens-Keeps p b "thinking" refl in
    let t₃ = stamp_output_config-Keeps p b₂ "thinking" refl in
    (
      equals_shape-HasShape p.thinking_shape (lookup "thinking" (stamp_output_config o p b₂).0) (
          ap (equals_shape p.thinking_shape) t₃
          ∙ stamp_shape-lookup p b₁ (ap is_nullish t ∙ h) (ap (should_force p) t ∙ k)),
      stamp_output_config-Keeps p b₂ "max_tokens" refl
          ∙ (stamp_shape-Keeps p b₁ "max_tokens" refl ∙ stamp_max_tokens-lookup p b),
      rw
          (
            t₃,
            stamp_output_config-lookup p b₂,
            stamp_shape-Keeps p b₁ "output_config" refl,
            stamp_max_tokens-Keeps p b "output_config" refl,
          )
          refl,
    )

has_temperature-set :
    (n : ℕ) (b : Fields) → has_temperature n (lookup "temperature" (stamp_temperature n b).0) ≡ true
unfolding stamp_temperature
has_temperature-set n b = elim (Bool-cases (has_temperature n (lookup "temperature" b))) [
  | inl e ↦ rw (e, e) refl
  | inr e ↦ rw (e, lookup-insert_same "temperature" (whole n) b) (ground arith)
]

lookup-remove : (k : String) (b : Fields) → lookup k (remove k b).0 ≡ none
lookup-remove k b = elim (Option-cases (lookup k b)) [
  | inl e ↦ rw (e, e) refl
  | inr (v, e) ↦ rw e (lookup-erase k k b ∙ rw ((string_key.agree_iff k k).1 refl) refl)
]

stamp_temperature-Keeps :
    (j : String) (n : ℕ) (b : Fields)
    → ("temperature" == j) ≡ false
    → Keeps j b (stamp_temperature n b)
unfolding stamp_temperature
stamp_temperature-Keeps j n b h = elim (Bool-cases (has_temperature n (lookup "temperature" b))) [
  | inl e ↦ rw e refl
  | inr e ↦ rw e (lookup-insert_other "temperature" j (whole n) b h)
]

-- An OpenAI body whose reasoning is on: no field of an Anthropic body, the temperature 1, and the effort.
abbrev pub ForOpenAi : Option Json → Fields → Type 0
ForOpenAi effort b =
    (lookup "output_config" b ≡ none)
    × (lookup "context_management" b ≡ none)
    × (has_temperature 1 (lookup "temperature" b) ≡ true)
    × (lookup "reasoning_effort" b ≡ effort)

strip_anthropic-ForOpenAi :
    (changed : Bool) (b : Fields)
    → ForOpenAi (lookup "reasoning_effort" b) (strip_anthropic changed b).0
strip_anthropic-ForOpenAi changed b =
    let b₁ = (remove "output_config" b).0 in
    let b₂ = (remove "context_management" b₁).0 in
    (
      stamp_temperature-Keeps "output_config" 1 b₂ refl
          ∙ (remove-Keeps "output_config" "context_management" b₁ refl
              ∙ lookup-remove "output_config" b),
      stamp_temperature-Keeps "context_management" 1 b₂ refl
          ∙ lookup-remove "context_management" b₁,
      has_temperature-set 1 b₂,
      stamp_temperature-Keeps "reasoning_effort" 1 b₂ refl
          ∙ (remove-Keeps "reasoning_effort" "context_management" b₁ refl
              ∙ remove-Keeps "reasoning_effort" "output_config" b refl),
    )

forced-ForOpenAi :
    (p : StampPolicy) (b : Fields)
    → ForOpenAi
        (some (effort_json p.effort))
        (strip_anthropic true (insert "reasoning_effort" (effort_json p.effort) b)).0
forced-ForOpenAi p b =
    let b' = insert "reasoning_effort" (effort_json p.effort) b in
    let (o, c, t, e) = strip_anthropic-ForOpenAi true b' in
    (o, c, t, e ∙ lookup-insert_same "reasoning_effort" (effort_json p.effort) b)

unless-either :
    (P : Fields → Type 0) (c : Bool) (b : Fields) (r : Fields × Bool)
    → P r.0
    → (if c then (b, false) else r) ≡ (b, false) ⊎ P (if c then (b, false) else r).0
unless-either P true b r h = inl refl
unless-either P false b r h = inr h

-- The effort that is left: the client's where the rule vetoes, else the policy's.
abbrev pub effort_left : Bool → StampPolicy → Option Json → Option Json
effort_left true p effort = effort
effort_left false p effort = some (effort_json p.effort)

stamp_effort-cases :
    (veto : Bool) (p : StampPolicy) (r t : Option Json) (b : Fields)
    → lookup "reasoning_effort" b ≡ r
    → (stamp_effort veto p r t b ≡ (b, false))
      ⊎ ForOpenAi (effort_left veto p r) (stamp_effort veto p r t b).0
stamp_effort-cases true p none none b h = inl refl
stamp_effort-cases false p none none b h = inl refl
stamp_effort-cases true p (some r) none b h = inl refl
stamp_effort-cases true p none (some v) b h =
    unless-either (ForOpenAi none) (is_thinking_disabled (some v)) b (strip_anthropic false b)
      (subst (λ e. ForOpenAi e (strip_anthropic false b).0) h (strip_anthropic-ForOpenAi false b))
stamp_effort-cases true p (some r) (some v) b h =
    unless-either (ForOpenAi (some r)) (is_thinking_disabled (some v)) b (strip_anthropic false b)
      (subst (λ e. ForOpenAi e (strip_anthropic false b).0) h (strip_anthropic-ForOpenAi false b))
stamp_effort-cases false p none (some v) b h =
    unless-either (ForOpenAi (some (effort_json p.effort)))
      (is_thinking_disabled (some v) || not p.thinking) b _ (forced-ForOpenAi p b)
stamp_effort-cases false p (some r) t b h =
    unless-either (ForOpenAi (some (effort_json p.effort)))
      (is_reasoning_effort_disabled (some r) && p.can_disable_thinking) b _ (forced-ForOpenAi p b)

-- The OpenAI step leaves a body as it is and says so, or leaves one without the Anthropic fields, at temperature 1, with
-- the effort of the policy, or where the rule vetoes with the effort that came.
pub stamp_reasoning-cases :
    (on veto : Bool) (p : StampPolicy) (b : Fields)
    → (stamp_reasoning on veto p b ≡ (b, false))
      ⊎ ForOpenAi (effort_left veto p (lookup "reasoning_effort" b)) (stamp_reasoning on veto p b).0
unfolding stamp_reasoning
stamp_reasoning-cases false veto p b = inl refl
stamp_reasoning-cases true veto p b =
    stamp_effort-cases veto p (lookup "reasoning_effort" b) (lookup "thinking" b) b refl
