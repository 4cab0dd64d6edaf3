-- ===== src/Usage/Durations.antt =====
-- Durations, times to the first token and rates (src/usage/extract.ts, src/usage/helpers.ts).
use umans_gate.Base.{
  ℕ, ◌≤◌, ◌≡◌, refl, ap, Bool, List, Option, none, some, max, arith, ℤ, pos, negsuc,
}
use umans_gate.Sse.{Received, AnthropicSseEvent}
use umans_gate.Usage.{at_least, scan, since, UsageMetrics}
use umans_gate.Usage.Anthropic.{EventBody, extract_anthropic_streaming, scan_event, scan_start}
use umans_gate.Usage.OpenAi.{StreamChunk, brings_delta, extract_openai_streaming, scan_chunk}
use umans_gate.Usage.OpenAi

at_least-bounds :
    (event : Option ℤ) (wall : ℕ) → (d : ℕ) × (at_least event wall ≡ pos d) × (wall ≤ d)
at_least-bounds none wall = (wall, refl, omega arith)
at_least-bounds (some (pos n)) wall = (max n wall, refl, omega arith)
at_least-bounds (some (negsuc n)) wall = (wall, refl, omega arith)

abbrev pub LastsFrom : ℕ → UsageMetrics → Type 0
LastsFrom wall m = (d : ℕ) × (m.duration_ms ≡ some (pos d)) × (wall ≤ d)

some-at_least :
    (event : Option ℤ) (wall : ℕ)
    → (d : ℕ) × (some (at_least event wall) ≡ some (pos d)) × (wall ≤ d)
some-at_least event wall = let (d, e, h) = at_least-bounds event wall in (d, ap some e, h)

scan_metrics-LastsFrom :
    (started wall : ℕ) (usage : Option OpenAi.OpenAiUsage) (ttft : Option ℤ) (last : Option ℕ)
    (saw : Bool)
    → LastsFrom wall (
        OpenAi.scan_metrics started
          (some wall)
          (record { usage = usage; ttft_ms = ttft; last_chunk_at = last; saw_reasoning = saw }))
scan_metrics-LastsFrom started wall none ttft last saw = some-at_least (since last started) wall
scan_metrics-LastsFrom started wall (some u) ttft last saw = some-at_least (since last started) wall

-- The duration that either stream reports is never negative and no shorter than the wall clock's.
pub extract_streaming-LastsFrom :
    (events : List (Received (AnthropicSseEvent EventBody))) (chunks : List (Received StreamChunk))
    (started wall : ℕ)
    → LastsFrom wall (extract_anthropic_streaming events started (some wall))
      × LastsFrom wall (extract_openai_streaming chunks started (some wall))
unfolding extract_anthropic_streaming extract_openai_streaming
extract_streaming-LastsFrom events chunks started wall =
    let s = scan (scan_event started) events scan_start in
    let t = scan (scan_chunk started) chunks OpenAi.scan_start in
    (
      some-at_least (since s.last_event_at started) wall,
      scan_metrics-LastsFrom started wall t.usage t.ttft_ms t.last_chunk_at t.saw_reasoning,
    )
