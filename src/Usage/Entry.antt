-- ===== src/Usage/Entry.antt =====
-- The one entry point (src/usage/extract.ts, extractModel and extractUsage; src/models/name.ts).
use umans_gate.Base.{
  ℕ, Bool, true, false, List, Option, none, some, if◌then◌else◌, pos, Text, codes, is_nil,
}
use umans_gate.Sse.{TimedChunk, Parsed, parse_anthropic_sse, parse_openai_sse}
use umans_gate.Usage.{Provider, anthropic, openai, UsageMetrics}
use umans_gate.Usage.Anthropic.{
  AnthropicUsage, EventBody, extract_anthropic_non_streaming, extract_anthropic_streaming,
}
use umans_gate.Usage.OpenAi.{
  OpenAiBody, StreamChunk, extract_openai_non_streaming, extract_openai_streaming,
}

-- A parsed request body: whether it is an object, and what its `model` is.
pub data RequestBody : Type 0 where
  not_object : RequestBody
  model_missing : RequestBody
  model_text : Text → RequestBody

abbrev pub extract_model_name : RequestBody → Option Text
extract_model_name not_object = none
extract_model_name model_missing = none
extract_model_name (model_text t) = some t

abbrev pub extract_model : RequestBody → Text
extract_model body = elim (extract_model_name body) [
  | none ↦ codes "unknown"
  | some t ↦ if is_nil t then codes "unknown" else t
]

-- What `JSON.parse` gives for the texts the extractors read, with the casts behind it; none where it throws.
pub record Parsers : Type 0 where
  pub request : Text → Option RequestBody
  pub anthropic_event : Text → Option (Parsed EventBody)
  pub anthropic_body : Text → Option (Option AnthropicUsage)
  pub openai_chunk : Text → Option StreamChunk
  pub openai_body : Text → Option OpenAiBody

pub record Options : Type 0 where
  pub provider : Provider
  pub streaming : Bool
  pub request_body : Text
  pub response_body : Text
  pub duration_ms : ℕ
  pub request_started_at : ℕ
  pub chunks : List TimedChunk

-- The table EXTRACTORS; none where `JSON.parse` throws.
abbrev pub extractor : Parsers → Provider → Bool → Options → Option UsageMetrics
extractor p anthropic true o = some (
    extract_anthropic_streaming (parse_anthropic_sse p.anthropic_event o.chunks)
      o.request_started_at (some o.duration_ms))
extractor p anthropic false o = elim (p.anthropic_body o.response_body) [
  | none ↦ none
  | some usage ↦ some (extract_anthropic_non_streaming usage (some (pos o.duration_ms)))
]
extractor p openai true o = some (
    extract_openai_streaming (parse_openai_sse p.openai_chunk o.chunks) o.request_started_at
      (some o.duration_ms))
extractor p openai false o = elim (p.openai_body o.response_body) [
  | none ↦ none
  | some body ↦ some (extract_openai_non_streaming body (some (pos o.duration_ms)))
]

-- `{ model, metrics }`; none where either parse throws.
abbrev pub answer : Option RequestBody → Option UsageMetrics → Option (Text × UsageMetrics)
answer (some body) (some metrics) =
    some (extract_model body, record metrics { model = some (extract_model body) })
answer _ _ = none

unfoldable pub extract_usage : Parsers → Options → Option (Text × UsageMetrics)
extract_usage p o = answer (p.request o.request_body) (extractor p o.provider o.streaming o)
