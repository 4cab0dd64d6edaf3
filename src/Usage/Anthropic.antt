-- ===== src/Usage/Anthropic.antt =====
-- Usage of an Anthropic response (src/usage/extract.ts, extractAnthropicNonStreaming and
-- extractAnthropicStreaming).
use umans_gate.Base.{
  ℕ, ◌+◌, Bool, true, false, not, List, Option, none, some, if◌then◌else◌, ℤ, Text, codes, text_eq,
}
use umans_gate.Sse.{Received, AnthropicSseEvent}
use umans_gate.Usage.{
  Field, null, present, num, num_or, or_null, floor_duration, compute_tps, anthropic, UsageMetrics,
  empty_metrics, truthy_time, since, scan, next_ttft,
}

pub record AnthropicUsage : Type 0 where
  pub input_tokens : Field
  pub output_tokens : Field
  pub cache_creation_input_tokens : Field
  pub cache_read_input_tokens : Field
  pub thinking_tokens : Field

-- The two places where an event may carry usage; none where the field there is falsy.
pub record EventBody : Type 0 where
  pub message_usage : Option AnthropicUsage
  pub usage : Option AnthropicUsage

-- The tests of the event's type.
pub data EventKind : Type 0 where
  message_start : EventKind
  message_delta : EventKind
  content_block_delta : EventKind
  other_kind : EventKind

abbrev pub kind_of : Text → EventKind
kind_of t =
    if text_eq t (codes "message_start")
    then message_start
    else if text_eq t (codes "message_delta")
    then message_delta
    else if text_eq t (codes "content_block_delta")
    then content_block_delta
    else other_kind

unfoldable pub extract_anthropic_non_streaming : Option AnthropicUsage → Option ℤ → UsageMetrics
extract_anthropic_non_streaming none duration = empty_metrics anthropic false duration
extract_anthropic_non_streaming (some u) duration =
    let input = num u.input_tokens in
    let output = num u.output_tokens in
    let cache_create = num_or u.cache_creation_input_tokens 0 in
    let cache_read = num_or u.cache_read_input_tokens 0 in
    record {
      provider = anthropic;
      streaming = false;
      input_tokens = some input;
      output_tokens = some output;
      cache_creation_tokens = some cache_create;
      cache_read_tokens = some cache_read;
      total_input_tokens = some (input + cache_create + cache_read);
      total_output_tokens = some output;
      thinking_tokens = or_null u.thinking_tokens;
      thinking_block_count = none;
      ttft_ms = none;
      duration_ms = duration;
      tps = compute_tps (some output) duration none;
      usage_missing = false;
      model = none;
    }

-- The variables of the loop over the events.
pub record Scan : Type 0 where
  pub input : Option ℕ
  pub output : Option ℕ
  pub cache_create : ℕ
  pub cache_read : ℕ
  pub thinking : Field
  pub ttft_ms : Option ℤ
  pub last_event_at : Option ℕ
  pub saw_usage : Bool

abbrev pub scan_start : Scan
scan_start = record {
  input = none;
  output = none;
  cache_create = 0;
  cache_read = 0;
  thinking = null;
  ttft_ms = none;
  last_event_at = none;
  saw_usage = false;
}

abbrev pub note_time : Option ℕ → Scan → Scan
note_time at s = elim (truthy_time at) [ none ↦ s | some t ↦ record s { last_event_at = some t } ]

abbrev pub seed_usage : Option AnthropicUsage → Scan → Scan
seed_usage none s = s
seed_usage (some u) s = record s {
  input = some (num u.input_tokens);
  cache_create = num_or u.cache_creation_input_tokens 0;
  cache_read = num_or u.cache_read_input_tokens 0;
  saw_usage = true;
}

abbrev pub delta_usage : Option AnthropicUsage → Scan → Scan
delta_usage none s = s
delta_usage (some u) s = record s {
  output = if present u.output_tokens then some (num u.output_tokens) else s.output;
  saw_usage = if present u.output_tokens then true else s.saw_usage;
  input = if present u.input_tokens then some (num u.input_tokens) else s.input;
  cache_create =
      if present u.cache_creation_input_tokens
      then num u.cache_creation_input_tokens
      else s.cache_create;
  cache_read =
      if present u.cache_read_input_tokens then num u.cache_read_input_tokens else s.cache_read;
  thinking = if present u.thinking_tokens then u.thinking_tokens else s.thinking;
}

abbrev pub first_delta : ℕ → Option ℕ → Scan → Scan
first_delta started at s = record s { ttft_ms = next_ttft started at true s.ttft_ms }

abbrev pub scan_kind : ℕ → Option ℕ → EventBody → EventKind → Scan → Scan
scan_kind started at body message_start s = seed_usage body.message_usage s
scan_kind started at body message_delta s = delta_usage body.usage s
scan_kind started at body content_block_delta s = first_delta started at s
scan_kind started at body other_kind s = s

abbrev pub scan_event : ℕ → Received (AnthropicSseEvent EventBody) → Scan → Scan
scan_event started e s =
    scan_kind started e.received_at e.value.body (kind_of e.value.kind) (note_time e.received_at s)

abbrev pub total_input : Option ℕ → ℕ → ℕ → Option ℕ
total_input none create read = none
total_input (some input) create read = some (input + create + read)

abbrev pub scan_metrics : ℕ → Option ℕ → Scan → UsageMetrics
scan_metrics started wall s =
    let duration = floor_duration (since s.last_event_at started) wall in
    record {
      provider = anthropic;
      streaming = true;
      input_tokens = s.input;
      output_tokens = s.output;
      cache_creation_tokens = some s.cache_create;
      cache_read_tokens = some s.cache_read;
      total_input_tokens = total_input s.input s.cache_create s.cache_read;
      total_output_tokens = s.output;
      thinking_tokens = s.thinking;
      thinking_block_count = none;
      ttft_ms = s.ttft_ms;
      duration_ms = duration;
      tps = compute_tps s.output duration s.ttft_ms;
      usage_missing = not s.saw_usage;
      model = none;
    }

unfoldable pub extract_anthropic_streaming :
    List (Received (AnthropicSseEvent EventBody)) → ℕ → Option ℕ → UsageMetrics
extract_anthropic_streaming events started wall =
    scan_metrics started wall (scan (scan_event started) events scan_start)
