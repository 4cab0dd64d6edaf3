-- ===== src/Usage/Tests.antt =====
-- Usage extraction at concrete inputs.
use umans_gate.Base.{ℕ, ◌≡◌, refl, true, false, List, [], ◌∷◌, Option, none, some, pos, Text, codes}
use umans_gate.Sse.{TimedChunk, Received, AnthropicSseEvent}
use umans_gate.Sse.Values.{values}
use umans_gate.Usage.{Field, absent, null, count, Tps, compute_tps, anthropic}
use umans_gate.Usage.Anthropic.{AnthropicUsage, EventBody, extract_anthropic_streaming}
use umans_gate.Usage.OpenAi.{StreamChunk, no_usage}
use umans_gate.Usage.Entry.{model_text, Parsers, Options, extract_usage}
use umans_gate.Usage.Latest.{first_of}
use umans_gate.Usage.Tokens.{counts, meant_counts, extract_anthropic_streaming-counts}
use umans_gate.Usage.FirstToken.{delta_time, extract_anthropic_streaming-ttft}
use umans_gate.Usage.Chunking.{timeless, extract_usage-cut}

abbrev usage : Field → Field → Field → AnthropicUsage
usage input output read = record {
  input_tokens = input;
  output_tokens = output;
  cache_creation_input_tokens = null;
  cache_read_input_tokens = read;
  thinking_tokens = absent;
}

abbrev event :
    Text
    → Option AnthropicUsage
    → Option AnthropicUsage
    → ℕ
    → Received (AnthropicSseEvent EventBody)
event kind at_start at_delta time = record {
  value = record { kind = kind; body = record { message_usage = at_start; usage = at_delta } };
  received_at = some time;
}

-- The counts of the second delta are the ones that stay.
abbrev events : List (Received (AnthropicSseEvent EventBody))
events =
    event (codes "message_start") (some (usage (count 10) (count 1) (count 90))) none 1100
    ∷ event (codes "content_block_delta") none none 1200
    ∷ event (codes "message_delta") none (some (usage absent (count 5) absent)) 1300
    ∷ event (codes "message_delta") none (some (usage absent (count 700) absent)) 2400
    ∷ []

total_of_events :
    (extract_anthropic_streaming events 1000 (some 1450)).total_input_tokens ≡ some 100
unfolding extract_anthropic_streaming
total_of_events = refl

-- 700 tokens in the 1250 milliseconds after the first.
rate_of_events :
    (extract_anthropic_streaming events 1000 (some 1450)).tps
    ≡ some (record { scaled_tokens = 700000; gen_ms = 1250 })
unfolding extract_anthropic_streaming compute_tps
rate_of_events = refl

extract_anthropic_streaming-counts_example :
    counts (extract_anthropic_streaming events 1000 none) ≡ meant_counts (values events)
extract_anthropic_streaming-counts_example = extract_anthropic_streaming-counts 1000 events none

extract_anthropic_streaming-ttft_example :
    (extract_anthropic_streaming events 1000 none).ttft_ms ≡ first_of (delta_time 1000) events
extract_anthropic_streaming-ttft_example = extract_anthropic_streaming-ttft events 1000 none

abbrev rate : Tps
rate = record { scaled_tokens = 700000; gen_ms = 1250 }

rate_of : compute_tps (some 700) (some (pos 1450)) (some (pos 200)) ≡ some rate
unfolding compute_tps
rate_of = refl

abbrev chunks : List (Received StreamChunk)
chunks =
    record {
      value = record {
        has_choices = true;
        delta = some (record { content = true; reasoning_content = false; tool_calls = false });
        usage = no_usage;
      };
      received_at = some 1500;
    }
    ∷ []

-- Parsers that make one thing of every text.
abbrev parsers : Parsers
parsers = record {
  request = λ t. some (model_text (codes "umans-coder"));
  anthropic_event = λ t. some (record {
    own_type = none;
    body = record { message_usage = none; usage = some (usage (count 3) (count 4) absent) };
  });
  anthropic_body = λ t. none;
  openai_chunk = λ t. none;
  openai_body = λ t. none;
}

abbrev chunk : Text → ℕ → TimedChunk
chunk t time = record { text = t; time = time }

abbrev options : Options
options = record {
  provider = anthropic;
  streaming = true;
  request_body = [];
  response_body = [];
  duration_ms = 50;
  request_started_at = 100;
  chunks = chunk (codes "event: message_delta\ndata: {}\n\n") 120 ∷ [];
}

abbrev cut : List TimedChunk
cut = chunk (codes "event: message_delta\nda") 300 ∷ chunk (codes "ta: {}\n\n") 400 ∷ []

extract_usage-cut_example :
    timeless (
      extract_usage parsers
        (record options { chunks = cut; request_started_at = 290; duration_ms = 9 }))
    ≡ timeless (extract_usage parsers options)
extract_usage-cut_example = extract_usage-cut parsers options cut 290 9 refl refl
