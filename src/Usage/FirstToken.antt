-- ===== src/Usage/FirstToken.antt =====
-- The time to the first token that the two loops of src/usage/extract.ts report.
use umans_gate.Base.{
  ℕ, zero, suc, ◌≡◌, refl, sym, ap, ◌∙◌, Bool, true, false, List, Option, none, some, if◌then◌else◌,
  ℤ,
}
use umans_gate.Sse.{Received, AnthropicSseEvent}
use umans_gate.Usage.{scan, truthy_time, difference, next_ttft}
use umans_gate.Usage.Anthropic.{
  EventBody, AnthropicUsage, EventKind, message_start, message_delta, content_block_delta,
  other_kind, kind_of, extract_anthropic_streaming, scan_event, scan_start, scan_kind,
}
use umans_gate.Usage.OpenAi.{StreamChunk, brings_delta, extract_openai_streaming, scan_chunk}
use umans_gate.Usage.Anthropic
use umans_gate.Usage.OpenAi
use umans_gate.Usage.Latest.{first_of, scan-first}

-- The time since the start at which something came, where that time is truthy and `brings` holds.
abbrev pub elapsed : ℕ → Option ℕ → Bool → Option ℤ
elapsed started at brings = elim (truthy_time at) [
  | none ↦ none
  | some t ↦ if brings then some (difference t started) else none
]

abbrev pub is_content_delta : EventKind → Bool
is_content_delta content_block_delta = true
is_content_delta _ = false

abbrev pub delta_time : ℕ → Received (AnthropicSseEvent EventBody) → Option ℤ
delta_time started e = elapsed started e.received_at (is_content_delta (kind_of e.value.kind))

abbrev pub chunk_time : ℕ → Received StreamChunk → Option ℤ
chunk_time started ch = elapsed started ch.received_at (brings_delta ch.value)

elapsed-false : (started : ℕ) (at : Option ℕ) → elapsed started at false ≡ none
elapsed-false started none = refl
elapsed-false started (some zero) = refl
elapsed-false started (some (suc t)) = refl

note_time-ttft :
    (at : Option ℕ) (s : Anthropic.Scan) → (Anthropic.note_time at s).ttft_ms ≡ s.ttft_ms
note_time-ttft none s = refl
note_time-ttft (some zero) s = refl
note_time-ttft (some (suc t)) s = refl

seed_usage-ttft :
    (u : Option AnthropicUsage) (s : Anthropic.Scan)
    → (Anthropic.seed_usage u s).ttft_ms ≡ s.ttft_ms
seed_usage-ttft none s = refl
seed_usage-ttft (some u) s = refl

delta_usage-ttft :
    (u : Option AnthropicUsage) (s : Anthropic.Scan)
    → (Anthropic.delta_usage u s).ttft_ms ≡ s.ttft_ms
delta_usage-ttft none s = refl
delta_usage-ttft (some u) s = refl

module _ (started : ℕ) (at : Option ℕ) (body : EventBody) (s : Anthropic.Scan) where
  scan_kind-keeps :
      (kind : EventKind) (ms : ℤ)
      → s.ttft_ms ≡ some ms
      → (scan_kind started at body kind s).ttft_ms ≡ some ms
  scan_kind-keeps message_start ms h = seed_usage-ttft body.message_usage s ∙ h
  scan_kind-keeps message_delta ms h = delta_usage-ttft body.usage s ∙ h
  scan_kind-keeps content_block_delta ms h = rw h refl
  scan_kind-keeps other_kind ms h = h

  scan_kind-fills :
      (kind : EventKind)
      → s.ttft_ms ≡ none
      → (scan_kind started at body kind s).ttft_ms ≡ elapsed started at (is_content_delta kind)
  scan_kind-fills message_start h =
      seed_usage-ttft body.message_usage s ∙ (h ∙ sym (elapsed-false started at))
  scan_kind-fills message_delta h =
      delta_usage-ttft body.usage s ∙ (h ∙ sym (elapsed-false started at))
  scan_kind-fills content_block_delta h = rw h refl
  scan_kind-fills other_kind h = h ∙ sym (elapsed-false started at)

-- An Anthropic stream reports the time to its first content delta whose time is known, and none without one.
pub extract_anthropic_streaming-ttft :
    (events : List (Received (AnthropicSseEvent EventBody))) (started : ℕ) (wall : Option ℕ)
    → (extract_anthropic_streaming events started wall).ttft_ms
      ≡ first_of (delta_time started) events
unfolding extract_anthropic_streaming
extract_anthropic_streaming-ttft events started wall =
    scan-first (scan_event started) (λ s. s.ttft_ms) (delta_time started)
      (λ e s a h.
        scan_kind-keeps started e.received_at e.value.body (Anthropic.note_time e.received_at s)
          (kind_of e.value.kind) a (note_time-ttft e.received_at s ∙ h))
      (λ e s h.
        scan_kind-fills started e.received_at e.value.body (Anthropic.note_time e.received_at s)
          (kind_of e.value.kind) (note_time-ttft e.received_at s ∙ h))
      events scan_start refl

scan_metrics-ttft :
    (started : ℕ) (wall : Option ℕ) (usage : Option OpenAi.OpenAiUsage) (ttft : Option ℤ)
    (last : Option ℕ) (saw : Bool)
    → (OpenAi.scan_metrics started wall (record {
      usage = usage;
      ttft_ms = ttft;
      last_chunk_at = last;
      saw_reasoning = saw;
    })).ttft_ms
      ≡ ttft
scan_metrics-ttft started wall none ttft last saw = refl
scan_metrics-ttft started wall (some u) ttft last saw = refl

-- An OpenAI stream reports the time to the first chunk that brings a part of the answer and whose time is known.
pub extract_openai_streaming-ttft :
    (chunks : List (Received StreamChunk)) (started : ℕ) (wall : Option ℕ)
    → (extract_openai_streaming chunks started wall).ttft_ms ≡ first_of (chunk_time started) chunks
unfolding extract_openai_streaming
extract_openai_streaming-ttft chunks started wall =
    let s = scan (scan_chunk started) chunks OpenAi.scan_start in
    scan_metrics-ttft started wall s.usage s.ttft_ms s.last_chunk_at s.saw_reasoning
    ∙ scan-first (scan_chunk started) (λ s. s.ttft_ms) (chunk_time started)
        (λ e s a h. ap (next_ttft started e.received_at (brings_delta e.value)) h)
        (λ e s h. ap (next_ttft started e.received_at (brings_delta e.value)) h) chunks
        OpenAi.scan_start refl
