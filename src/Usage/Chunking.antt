-- ===== src/Usage/Chunking.antt =====
-- The counts that extractUsage (src/usage/extract.ts) reports of a stream do not depend on how its text was cut
-- into chunks, nor on when these came.
use umans_gate.Base.{
  ℕ, ◌≡◌, refl, sym, ap, ◌∙◌, Bool, true, false, List, Option, none, if◌then◌else◌, some, ℤ, Text,
}
use umans_gate.Sse.{TimedChunk, Received, parse_anthropic_sse, parse_openai_sse}
use umans_gate.Sse.Chunks.{all_text}
use umans_gate.Sse.Values.{values, parse_anthropic_sse-cut, parse_openai_sse-cut}
use umans_gate.Usage.{UsageMetrics, Provider, anthropic, openai, scan, floor_duration, since}
use umans_gate.Usage.Anthropic.{extract_anthropic_streaming}
use umans_gate.Usage.OpenAi.{
  OpenAiUsage, UsageField, no_usage, falsy_usage, usage_object, StreamChunk, brings_reasoning,
  extract_openai_streaming, scan_chunk,
}
use umans_gate.Usage.OpenAi
use umans_gate.Usage.Latest.{last_of, settle, scan-last}
use umans_gate.Usage.Tokens.{Counts, counts, meant_counts, extract_anthropic_streaming-counts}
use umans_gate.Usage.Entry.{
  Parsers, Options, extract_usage, extractor, extract_model, answer, RequestBody,
}

-- What a chunk makes of the usage.
abbrev pub chunk_usage : StreamChunk → Option (Option OpenAiUsage)
chunk_usage ch = elim ch.usage [
  | no_usage ↦ none
  | falsy_usage ↦ some none
  | usage_object u ↦ some (some u)
]

abbrev pub chunk_reasoning : StreamChunk → Option Bool
chunk_reasoning ch = if brings_reasoning ch then some true else none

-- The counts of a report and its number of thinking blocks.
abbrev pub tallies : UsageMetrics → Counts × Option ℕ
tallies m = (counts m, m.thinking_block_count)

-- Those that a stream of chunks means: the counts of the last usage given, and whether any chunk reasons.
abbrev pub meant_tallies : List StreamChunk → Counts × Option ℕ
meant_tallies chunks = tallies (
    OpenAi.stream_report (settle (λ u. u) (last_of chunk_usage chunks) none)
      (settle (λ b. b) (last_of chunk_reasoning chunks) false) none none)

next_usage-settles :
    (u : UsageField) (old : Option OpenAiUsage)
    → OpenAi.next_usage u old
      ≡ settle
          (λ x. x)
          (elim u as (λ x. Option (Option OpenAiUsage)) [
            | no_usage ↦ none
            | falsy_usage ↦ some none
            | usage_object new ↦ some (some new)
          ])
          old
next_usage-settles no_usage old = refl
next_usage-settles falsy_usage old = refl
next_usage-settles (usage_object new) old = refl

if-settles :
    (b c : Bool) → (if b then true else c) ≡ settle (λ x. x) (if b then some true else none) c
if-settles true c = refl
if-settles false c = refl

stream_report-tallies :
    (usage : Option OpenAiUsage) (reasons : Bool) (ttft duration : Option ℤ)
    → tallies (OpenAi.stream_report usage reasons ttft duration)
      ≡ tallies (OpenAi.stream_report usage reasons none none)
stream_report-tallies none reasons ttft duration = refl
stream_report-tallies (some u) reasons ttft duration = refl

-- The counts an OpenAI stream reports are those its chunks mean: the last usage given, whatever the times.
pub extract_openai_streaming-tallies :
    (chunks : List (Received StreamChunk)) (started : ℕ) (wall : Option ℕ)
    → tallies (extract_openai_streaming chunks started wall) ≡ meant_tallies (values chunks)
unfolding extract_openai_streaming
extract_openai_streaming-tallies chunks started wall =
    let s = scan (scan_chunk started) chunks OpenAi.scan_start in
    let usage =
      scan-last (scan_chunk started) (λ s. s.usage) (λ u. u) chunk_usage
        (λ e s. next_usage-settles e.value.usage s.usage) chunks OpenAi.scan_start in
    let reasons =
      scan-last (scan_chunk started) (λ s. s.saw_reasoning) (λ b. b) chunk_reasoning
        (λ e s. if-settles (brings_reasoning e.value) s.saw_reasoning) chunks OpenAi.scan_start in
    stream_report-tallies s.usage s.saw_reasoning s.ttft_ms
      (floor_duration (since s.last_chunk_at started) wall)
    ∙ (ap (λ u. tallies (OpenAi.stream_report u s.saw_reasoning none none)) usage
        ∙ ap
            (λ b. tallies (
              OpenAi.stream_report (settle (λ u. u) (last_of chunk_usage (values chunks)) none) b
                none none))
            reasons)

-- What an entry answers, without the times.
abbrev pub timeless : Option (Text × UsageMetrics) → Option (Text × (Counts × Option ℕ))
timeless none = none
timeless (some (model, m)) = some (model, tallies m)

answer-timeless :
    (body : Option RequestBody) (m n : UsageMetrics)
    → tallies m ≡ tallies n
    → timeless (answer body (some m)) ≡ timeless (answer body (some n))
answer-timeless none m n h = refl
answer-timeless (some body) m n h = ap (λ z. some (extract_model body, z)) h

module _ (p : Parsers) (o : Options) (cs : List TimedChunk) (started duration : ℕ)
    (same : all_text cs ≡ all_text o.chunks) where
  abbrev recut : Options
  recut = record o { chunks = cs; request_started_at = started; duration_ms = duration }

  stream-tallies :
      (provider : Provider)
      → (m n : UsageMetrics) × (extractor p provider true recut ≡ some m)
        × (extractor p provider true o ≡ some n)
        × (tallies m ≡ tallies n)
  unfolding extract_anthropic_streaming
  stream-tallies anthropic =
      let new = parse_anthropic_sse p.anthropic_event cs in
      let old = parse_anthropic_sse p.anthropic_event o.chunks in
      (
        extract_anthropic_streaming new started (some duration),
        extract_anthropic_streaming old o.request_started_at (some o.duration_ms),
        refl,
        refl,
        ap (λ (c : Counts). (c, none))
            (extract_anthropic_streaming-counts started new (some duration)
              ∙ (ap meant_counts (parse_anthropic_sse-cut p.anthropic_event cs o.chunks same)
                  ∙ sym (
                      extract_anthropic_streaming-counts o.request_started_at old
                        (some o.duration_ms)))),
      )
  stream-tallies openai =
      let new = parse_openai_sse p.openai_chunk cs in
      let old = parse_openai_sse p.openai_chunk o.chunks in
      (
        extract_openai_streaming new started (some duration),
        extract_openai_streaming old o.request_started_at (some o.duration_ms),
        refl,
        refl,
        extract_openai_streaming-tallies new started (some duration)
            ∙ (ap meant_tallies (parse_openai_sse-cut p.openai_chunk cs o.chunks same)
                ∙ sym (
                    extract_openai_streaming-tallies old o.request_started_at
                      (some o.duration_ms))),
      )

  -- Of a stream, the model, the counts and the thinking blocks that are reported depend on the text alone: not on
  -- how it was cut into chunks, nor on when they came, when the request started or how long it took.
  pub extract_usage-cut :
      o.streaming ≡ true → timeless (extract_usage p recut) ≡ timeless (extract_usage p o)
  unfolding extract_usage
  extract_usage-cut h =
      let (m, n, e, f, t) = stream-tallies o.provider in
      rw
        (ap (λ b. extractor p o.provider b recut) h ∙ e, ap (λ b. extractor p o.provider b o) h ∙ f)
        (answer-timeless (p.request o.request_body) m n t)
