-- ===== src/Usage/OpenAi.antt =====
-- Usage of an OpenAI response (src/usage/extract.ts, extractOpenAiNonStreaming and extractOpenAiStreaming).
use umans_gate.Base.{ℕ, Bool, true, false, ◌&&◌, ◌||◌, List, Option, none, some, if◌then◌else◌, ℤ}
use umans_gate.Sse.{Received}
use umans_gate.Usage.{
  Field, num, num_or, or_null, floor_duration, compute_tps, openai, UsageMetrics, empty_metrics,
  truthy_time, since, scan, next_ttft,
}

pub record OpenAiUsage : Type 0 where
  pub prompt_tokens : Field
  pub completion_tokens : Field
  pub cached_tokens : Field
  pub reasoning_tokens : Field

-- What the code asks of a response that is not streamed. `reasons` is whether the first choice's message has a
-- `reasoning_content` that is a string and not empty.
pub record OpenAiBody : Type 0 where
  pub usage : Option OpenAiUsage
  pub reasons : Bool

-- Which of its fields are truthy.
pub record Delta : Type 0 where
  pub content : Bool
  pub reasoning_content : Bool
  pub tool_calls : Bool

pub data UsageField : Type 0 where
  no_usage : UsageField
  falsy_usage : UsageField
  usage_object : OpenAiUsage → UsageField

-- `has_choices` is `Array.isArray(choices) && choices.length > 0`, `delta` is `choices?.[0]?.delta` where truthy.
pub record StreamChunk : Type 0 where
  pub has_choices : Bool
  pub delta : Option Delta
  pub usage : UsageField

abbrev pub bit : Bool → ℕ
bit b = if b then 1 else 0

abbrev pub usage_metrics : OpenAiUsage → Bool → Bool → Option ℤ → Option ℤ → UsageMetrics
usage_metrics u streaming reasons ttft duration =
    let prompt = num u.prompt_tokens in
    let completion = num u.completion_tokens in
    record {
      provider = openai;
      streaming = streaming;
      input_tokens = some prompt;
      output_tokens = some completion;
      cache_creation_tokens = none;
      cache_read_tokens = some (num_or u.cached_tokens 0);
      total_input_tokens = some prompt;
      total_output_tokens = some completion;
      thinking_tokens = or_null u.reasoning_tokens;
      thinking_block_count = some (bit reasons);
      ttft_ms = ttft;
      duration_ms = duration;
      tps = compute_tps (some completion) duration ttft;
      usage_missing = false;
      model = none;
    }

unfoldable pub extract_openai_non_streaming : OpenAiBody → Option ℤ → UsageMetrics
extract_openai_non_streaming body duration = elim body.usage [
  | none ↦ empty_metrics openai false duration
  | some u ↦ usage_metrics u false body.reasons none duration
]

-- The variables of the loop over the chunks.
pub record Scan : Type 0 where
  pub usage : Option OpenAiUsage
  pub ttft_ms : Option ℤ
  pub last_chunk_at : Option ℕ
  pub saw_reasoning : Bool

abbrev pub scan_start : Scan
scan_start = record { usage = none; ttft_ms = none; last_chunk_at = none; saw_reasoning = false }

-- Whether the chunk brings a part of the answer.
abbrev pub brings_delta : StreamChunk → Bool
brings_delta ch = elim ch.delta [
  | none ↦ false
  | some d ↦ ch.has_choices && (d.content || d.reasoning_content || d.tool_calls)
]

abbrev pub brings_reasoning : StreamChunk → Bool
brings_reasoning ch = elim ch.delta [ none ↦ false | some d ↦ d.reasoning_content ]

abbrev pub next_usage : UsageField → Option OpenAiUsage → Option OpenAiUsage
next_usage no_usage u = u
next_usage falsy_usage u = none
next_usage (usage_object new) u = some new

abbrev pub scan_chunk : ℕ → Received StreamChunk → Scan → Scan
scan_chunk started ch s = record {
  usage = next_usage ch.value.usage s.usage;
  ttft_ms = next_ttft started ch.received_at (brings_delta ch.value) s.ttft_ms;
  last_chunk_at = elim (truthy_time ch.received_at) [ none ↦ s.last_chunk_at | some t ↦ some t ];
  saw_reasoning = if brings_reasoning ch.value then true else s.saw_reasoning;
}

-- The report after the loop.
abbrev pub stream_report : Option OpenAiUsage → Bool → Option ℤ → Option ℤ → UsageMetrics
stream_report none reasons ttft duration = record (empty_metrics openai true duration) {
  ttft_ms = ttft;
  tps = compute_tps none duration ttft;
  thinking_block_count = some (bit reasons);
  usage_missing = true;
}
stream_report (some u) reasons ttft duration = usage_metrics u true reasons ttft duration

abbrev pub scan_metrics : ℕ → Option ℕ → Scan → UsageMetrics
scan_metrics started wall s =
    stream_report s.usage s.saw_reasoning s.ttft_ms
      (floor_duration (since s.last_chunk_at started) wall)

unfoldable pub extract_openai_streaming : List (Received StreamChunk) → ℕ → Option ℕ → UsageMetrics
extract_openai_streaming chunks started wall =
    scan_metrics started wall (scan (scan_chunk started) chunks scan_start)
