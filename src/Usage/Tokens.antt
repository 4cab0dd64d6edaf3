-- ===== src/Usage/Tokens.antt =====
-- The counts of tokens that extractAnthropicStreaming and extractOpenAiStreaming (src/usage/extract.ts) report.
use umans_gate.Base.{
  ℕ, ◌+◌, ◌≡◌, refl, ap, ◌∙◌, Bool, true, false, not, List, Option, none, some, if◌then◌else◌,
  arith, zero, suc, ℤ,
}
use umans_gate.Sse.{Received, AnthropicSseEvent}
use umans_gate.Sse.Values.{values}
use umans_gate.Usage.{
  Field, absent, null, other, count, present, num, num_or, scan, next_ttft, UsageMetrics,
}
use umans_gate.Usage.Anthropic.{
  AnthropicUsage, EventBody, EventKind, message_start, message_delta, content_block_delta,
  other_kind, kind_of, note_time, scan_kind, first_delta, scan_event, scan_start,
  extract_anthropic_streaming,
}
use umans_gate.Usage.Anthropic
use umans_gate.Usage.Latest.{last_of, settle, scan-last}

-- What an event of a given kind brings, where only a count that is present counts.
abbrev pub given : Field → Option ℕ
given v = if present v then some (num v) else none

abbrev pub of_usage : {B : Type 0} → (AnthropicUsage → Option B) → Option AnthropicUsage → Option B
of_usage f none = none
of_usage f (some u) = f u

abbrev pub by_kind :
    {B : Type 0}
    → (AnthropicUsage → Option B)
    → (AnthropicUsage → Option B)
    → AnthropicSseEvent EventBody
    → Option B
by_kind at_start at_delta e = elim (kind_of e.kind) [
  | message_start ↦ of_usage at_start e.body.message_usage
  | message_delta ↦ of_usage at_delta e.body.usage
  | content_block_delta ↦ none
  | other_kind ↦ none
]

abbrev pub output_of : AnthropicSseEvent EventBody → Option ℕ
output_of = by_kind (λ u. none) (λ u. given u.output_tokens)

abbrev pub input_of : AnthropicSseEvent EventBody → Option ℕ
input_of = by_kind (λ u. some (num u.input_tokens)) (λ u. given u.input_tokens)

abbrev pub cache_create_of : AnthropicSseEvent EventBody → Option ℕ
cache_create_of =
    by_kind (λ u. some (num_or u.cache_creation_input_tokens 0))
      (λ u. given u.cache_creation_input_tokens)

abbrev pub cache_read_of : AnthropicSseEvent EventBody → Option ℕ
cache_read_of =
    by_kind (λ u. some (num_or u.cache_read_input_tokens 0)) (λ u. given u.cache_read_input_tokens)

abbrev pub thinking_of : AnthropicSseEvent EventBody → Option Field
thinking_of =
    by_kind (λ u. none) (λ u. if present u.thinking_tokens then some u.thinking_tokens else none)

abbrev pub usage_of : AnthropicSseEvent EventBody → Option Bool
usage_of = by_kind (λ u. some true) (λ u. if present u.output_tokens then some true else none)

-- Steps that the time of an event does not touch.
module _ {A B : Type 0} (variable : Anthropic.Scan → A) (inject : B → A)
    (at_start at_delta : AnthropicUsage → Option B)
    (timeless : (t : ℕ) (s : Anthropic.Scan)
      → variable (record s { last_event_at = some t }) ≡ variable s)
    (by_delta : (ms : Option ℤ) (s : Anthropic.Scan)
      → variable (record s { ttft_ms = ms }) ≡ variable s)
    (starts : (u : AnthropicUsage) (s : Anthropic.Scan)
      → variable (Anthropic.seed_usage (some u) s) ≡ settle inject (at_start u) (variable s))
    (deltas : (u : AnthropicUsage) (s : Anthropic.Scan)
      → variable (Anthropic.delta_usage (some u) s) ≡ settle inject (at_delta u) (variable s)) where
  note_time-keeps : (at : Option ℕ) (s : Anthropic.Scan) → variable (note_time at s) ≡ variable s
  note_time-keeps none s = refl
  note_time-keeps (some zero) s = refl
  note_time-keeps (some (suc t)) s = timeless (suc t) s

  first_delta-keeps :
      (started : ℕ) (at : Option ℕ) (s : Anthropic.Scan)
      → variable (first_delta started at s) ≡ variable s
  first_delta-keeps started at s = by_delta (next_ttft started at true s.ttft_ms) s

  scan_kind-sets :
      (started : ℕ) (at : Option ℕ) (mu u : Option AnthropicUsage) (kind : EventKind)
      (s : Anthropic.Scan)
      → variable (scan_kind started at (record { message_usage = mu; usage = u }) kind s)
        ≡ settle inject
            (elim kind [
              | message_start ↦ of_usage at_start mu
              | message_delta ↦ of_usage at_delta u
              | content_block_delta ↦ none
              | other_kind ↦ none
            ])
            (variable s)
  scan_kind-sets started at none u message_start s = refl
  scan_kind-sets started at (some m) u message_start s = starts m s
  scan_kind-sets started at mu none message_delta s = refl
  scan_kind-sets started at mu (some u) message_delta s = deltas u s
  scan_kind-sets started at mu u content_block_delta s = first_delta-keeps started at s
  scan_kind-sets started at mu u other_kind s = refl

  scan_event-sets :
      (started : ℕ) (e : Received (AnthropicSseEvent EventBody)) (s : Anthropic.Scan)
      → variable (scan_event started e s)
        ≡ settle inject (by_kind at_start at_delta e.value) (variable s)
  scan_event-sets started e s =
      scan_kind-sets started e.received_at e.value.body.message_usage e.value.body.usage
        (kind_of e.value.kind) (note_time e.received_at s)
      ∙ ap (settle inject (by_kind at_start at_delta e.value)) (note_time-keeps e.received_at s)

  pub scan_events-last :
      (started : ℕ) (es : List (Received (AnthropicSseEvent EventBody))) (s : Anthropic.Scan)
      → variable (scan (scan_event started) es s)
        ≡ settle inject (last_of (by_kind at_start at_delta) (values es)) (variable s)
  scan_events-last started =
      scan-last (scan_event started) variable inject (by_kind at_start at_delta)
        (scan_event-sets started)

given-settles :
    {A : Type 0} (inject : ℕ → A) (v : Field) (a : A)
    → (if present v then inject (num v) else a) ≡ settle inject (given v) a
given-settles inject absent a = refl
given-settles inject null a = refl
given-settles inject other a = refl
given-settles inject (count n) a = refl

present-settles :
    {A : Type 0} (b : A) (v : Field) (a : A)
    → (if present v then b else a) ≡ settle (λ x. x) (if present v then some b else none) a
present-settles b absent a = refl
present-settles b null a = refl
present-settles b other a = refl
present-settles b (count n) a = refl

-- The counts of a report.
pub record Counts : Type 0 where
  pub input_tokens : Option ℕ
  pub output_tokens : Option ℕ
  pub cache_creation_tokens : Option ℕ
  pub cache_read_tokens : Option ℕ
  pub total_input_tokens : Option ℕ
  pub total_output_tokens : Option ℕ
  pub thinking_tokens : Field
  pub usage_missing : Bool

abbrev pub counts : UsageMetrics → Counts
counts m = record {
  input_tokens = m.input_tokens;
  output_tokens = m.output_tokens;
  cache_creation_tokens = m.cache_creation_tokens;
  cache_read_tokens = m.cache_read_tokens;
  total_input_tokens = m.total_input_tokens;
  total_output_tokens = m.total_output_tokens;
  thinking_tokens = m.thinking_tokens;
  usage_missing = m.usage_missing;
}

-- The counts that a stream of events means: of each, the last one given.
abbrev pub meant_counts : List (AnthropicSseEvent EventBody) → Counts
meant_counts events =
    let input = last_of input_of events in
    let create = settle (λ n. n) (last_of cache_create_of events) 0 in
    let read = settle (λ n. n) (last_of cache_read_of events) 0 in
    record {
      input_tokens = input;
      output_tokens = last_of output_of events;
      cache_creation_tokens = some create;
      cache_read_tokens = some read;
      total_input_tokens = elim input [ none ↦ none | some n ↦ some (n + (create + read)) ];
      total_output_tokens = last_of output_of events;
      thinking_tokens = settle (λ v. v) (last_of thinking_of events) null;
      usage_missing = not (settle (λ b. b) (last_of usage_of events) false);
    }

total_input-sum :
    (input : Option ℕ) (create read : ℕ)
    → Anthropic.total_input input create read
      ≡ elim input as (λ o. Option ℕ) [ none ↦ none | some n ↦ some (n + (create + read)) ]
total_input-sum none create read = refl
total_input-sum (some n) create read = ap some (omega arith)

settle-some : {A : Type 0} (o : Option A) → settle some o none ≡ o
settle-some none = refl
settle-some (some a) = refl

module _ (started : ℕ) (es : List (Received (AnthropicSseEvent EventBody))) where
  abbrev final : Anthropic.Scan
  final = scan (scan_event started) es scan_start

  output_last : final.output ≡ last_of output_of (values es)
  output_last =
      scan_events-last (λ s. s.output) some (λ u. none) (λ u. given u.output_tokens) (λ t s. refl)
        (λ ms s. refl) (λ u s. refl) (λ u s. given-settles some u.output_tokens s.output) started es
        scan_start
      ∙ settle-some (last_of output_of (values es))

  input_last : final.input ≡ last_of input_of (values es)
  input_last =
      scan_events-last (λ s. s.input) some (λ u. some (num u.input_tokens))
        (λ u. given u.input_tokens) (λ t s. refl) (λ ms s. refl) (λ u s. refl)
        (λ u s. given-settles some u.input_tokens s.input) started es scan_start
      ∙ settle-some (last_of input_of (values es))

  cache_create_last : final.cache_create ≡ settle (λ n. n) (last_of cache_create_of (values es)) 0
  cache_create_last =
      scan_events-last (λ s. s.cache_create) (λ n. n)
        (λ u. some (num_or u.cache_creation_input_tokens 0))
        (λ u. given u.cache_creation_input_tokens) (λ t s. refl) (λ ms s. refl) (λ u s. refl)
        (λ u s. given-settles (λ n. n) u.cache_creation_input_tokens s.cache_create) started es
        scan_start

  cache_read_last : final.cache_read ≡ settle (λ n. n) (last_of cache_read_of (values es)) 0
  cache_read_last =
      scan_events-last (λ s. s.cache_read) (λ n. n) (λ u. some (num_or u.cache_read_input_tokens 0))
        (λ u. given u.cache_read_input_tokens) (λ t s. refl) (λ ms s. refl) (λ u s. refl)
        (λ u s. given-settles (λ n. n) u.cache_read_input_tokens s.cache_read) started es scan_start

  thinking_last : final.thinking ≡ settle (λ v. v) (last_of thinking_of (values es)) null
  thinking_last =
      scan_events-last (λ s. s.thinking) (λ v. v) (λ u. none)
        (λ u. if present u.thinking_tokens then some u.thinking_tokens else none) (λ t s. refl)
        (λ ms s. refl) (λ u s. refl)
        (λ u s. present-settles u.thinking_tokens u.thinking_tokens s.thinking) started es
        scan_start

  usage_last : final.saw_usage ≡ settle (λ b. b) (last_of usage_of (values es)) false
  usage_last =
      scan_events-last (λ s. s.saw_usage) (λ b. b) (λ u. some true)
        (λ u. if present u.output_tokens then some true else none) (λ t s. refl) (λ ms s. refl)
        (λ u s. refl) (λ u s. present-settles true u.output_tokens s.saw_usage) started es
        scan_start

  -- The counts an Anthropic stream reports are those its events mean: each count is the last one given, and
  -- the total of the input is the sum of the input and of what the cache wrote and read.
  pub extract_anthropic_streaming-counts :
      (wall : Option ℕ)
      → counts (extract_anthropic_streaming es started wall) ≡ meant_counts (values es)
  unfolding extract_anthropic_streaming
  extract_anthropic_streaming-counts wall =
      let create = settle (λ n. n) (last_of cache_create_of (values es)) 0 in
      let read = settle (λ n. n) (last_of cache_read_of (values es)) 0 in
      rw
        (
          output_last,
          input_last,
          cache_create_last,
          cache_read_last,
          thinking_last,
          usage_last,
          total_input-sum (last_of input_of (values es)) create read,
        )
        refl
