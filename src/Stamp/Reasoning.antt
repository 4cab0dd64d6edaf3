-- ===== src/Stamp/Reasoning.antt =====
-- The reasoning effort of an OpenAI body, and the temperature of either (src/stamp-reasoning.ts,
-- src/stamp-temperature.ts).
use umans_gate.Base.{
  ℕ, Bool, true, false, not, ◌&&◌, ◌||◌, Option, none, some, if◌then◌else◌, String, string_key,
  codes, text_eq, lookup, insert, erase,
}
use umans_gate.Json.{Json, null, str, whole, is_whole}
use umans_gate.Stamp.{effort_json, StampPolicy, Fields, lower}
use umans_gate.Stamp.Thinking.{is_thinking_disabled}

-- `"k" in body`
abbrev pub present : Option Json → Bool
present none = false
present (some v) = true

unfoldable pub is_reasoning_effort_disabled : Option Json → Bool
is_reasoning_effort_disabled none = true
is_reasoning_effort_disabled (some null) = true
is_reasoning_effort_disabled (some (str t)) =
    text_eq (lower t) (codes "off")
    || text_eq (lower t) (codes "none")
    || text_eq (lower t) (codes "null")
is_reasoning_effort_disabled (some _) = false

abbrev pub remove : String → Fields → Fields × Bool
remove k b = if present (lookup k b) then (erase k b, true) else (b, false)

abbrev pub has_temperature : ℕ → Option Json → Bool
has_temperature n none = false
has_temperature n (some v) = is_whole n v

unfoldable pub stamp_temperature : ℕ → Fields → Fields × Bool
stamp_temperature n b =
    if has_temperature n (lookup "temperature" b)
    then (b, false)
    else (insert "temperature" (whole n) b, true)

-- `if (reasoningActive)`; `changed` is whether the effort was written.
abbrev pub strip_anthropic : Bool → Fields → Fields × Bool
strip_anthropic changed b =
    let (b₁, c₁) = remove "output_config" b in
    let (b₂, c₂) = remove "context_management" b₁ in
    let (b₃, c₃) = stamp_temperature 1 b₂ in (b₃, changed || c₁ || c₂ || c₃)

-- The three ways on, by whether the rule vetoes, and whether an effort and a thinking block are there.
abbrev pub stamp_effort : Bool → StampPolicy → Option Json → Option Json → Fields → Fields × Bool
stamp_effort veto policy none none b = (b, false)
stamp_effort true policy (some r) none b = (b, false)
stamp_effort true policy none (some v) b =
    if is_thinking_disabled (some v) then (b, false) else strip_anthropic false b
stamp_effort true policy (some r) (some v) b =
    if is_thinking_disabled (some v) then (b, false) else strip_anthropic false b
stamp_effort false policy none (some v) b =
    if is_thinking_disabled (some v) || not policy.thinking
    then (b, false)
    else strip_anthropic true (insert "reasoning_effort" (effort_json policy.effort) b)
stamp_effort false policy (some r) thinking b =
    if is_reasoning_effort_disabled (some r) && policy.can_disable_thinking
    then (b, false)
    else strip_anthropic true (insert "reasoning_effort" (effort_json policy.effort) b)

-- `on` is whether `options.reasoningEffort` is set.
unfoldable pub stamp_reasoning : Bool → Bool → StampPolicy → Fields → Fields × Bool
stamp_reasoning on veto policy b =
    if on
    then stamp_effort veto policy (lookup "reasoning_effort" b) (lookup "thinking" b) b
    else (b, false)
