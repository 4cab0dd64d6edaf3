-- ===== src/Usage.antt =====
-- Token usage of a response (src/usage/types.ts, src/usage/helpers.ts, src/usage/extract.ts).
-- Counts of tokens and times are natural numbers. A duration may be negative, since a clock may be set back.
pub mod Anthropic
pub mod OpenAi
pub mod Entry
pub mod Latest
pub mod Tokens
pub mod Durations
pub mod FirstToken
pub mod Chunking
mod Tests
use umans_gate.Base.{
  ℕ, suc, zero, ◌+◌, ◌-◌, ◌*◌, max, Bool, true, false, Option, none, some, if◌then◌else◌, ltb, ℤ,
  pos, negsuc, Text, List, [], ◌∷◌,
}
use umans_gate.Sse.{Received}

-- A field of parsed JSON where a number is expected; `other` is no finite number.
pub data Field : Type 0 where
  absent : Field
  null : Field
  other : Field
  count : ℕ → Field

-- `v != null`
abbrev pub present : Field → Bool
present absent = false
present null = false
present other = true
present (count n) = true

abbrev pub num : Field → ℕ
num (count n) = n
num _ = 0

abbrev pub num_or : Field → ℕ → ℕ
num_or (count n) fallback = n
num_or _ fallback = fallback

-- `v ?? null`
abbrev pub or_null : Field → Field
or_null absent = null
or_null v = v

-- `a - b`
abbrev pub difference : ℕ → ℕ → ℤ
difference a b = if ltb a b then negsuc (b - suc a) else pos (a - b)

abbrev pub subtract : ℤ → ℕ → ℤ
subtract (pos a) b = difference a b
subtract (negsuc a) b = negsuc (a + b)

-- `Math.max(eventDurationMs ?? 0, wallClockDurationMs)`, or the first where the second is absent.
abbrev pub at_least : Option ℤ → ℕ → ℤ
at_least none wall = pos wall
at_least (some (pos n)) wall = pos (max n wall)
at_least (some (negsuc n)) wall = pos wall

abbrev pub floor_duration : Option ℤ → Option ℕ → Option ℤ
floor_duration event none = event
floor_duration event (some wall) = some (at_least event wall)

-- A rate of tokens in a second, as the tokens times 1000 and the milliseconds they took.
pub record Tps : Type 0 where
  pub scaled_tokens : ℕ
  pub gen_ms : ℕ

abbrev pub generation_ms : ℤ → Option ℤ → ℤ
generation_ms duration (some (pos (suc ttft))) = subtract duration (suc ttft)
generation_ms duration _ = duration

abbrev pub rate_over : ℕ → ℤ → Option Tps
rate_over output (negsuc n) = none
rate_over output (pos gen) =
    if ltb gen 1000 then none else some (record { scaled_tokens = output * 1000; gen_ms = gen })

unfoldable pub compute_tps : Option ℕ → Option ℤ → Option ℤ → Option Tps
compute_tps none duration ttft = none
compute_tps (some zero) duration ttft = none
compute_tps (some (suc output)) none ttft = none
compute_tps (some (suc output)) (some duration) ttft =
    rate_over (suc output) (generation_ms duration ttft)

pub data Provider : Type 0 where
  anthropic : Provider
  openai : Provider

pub record UsageMetrics : Type 0 where
  pub provider : Provider
  pub streaming : Bool
  pub input_tokens : Option ℕ
  pub output_tokens : Option ℕ
  pub cache_creation_tokens : Option ℕ
  pub cache_read_tokens : Option ℕ
  pub total_input_tokens : Option ℕ
  pub total_output_tokens : Option ℕ
  pub thinking_tokens : Field
  pub thinking_block_count : Option ℕ
  pub ttft_ms : Option ℤ
  pub duration_ms : Option ℤ
  pub tps : Option Tps
  pub usage_missing : Bool
  pub model : Option Text

abbrev pub empty_metrics : Provider → Bool → Option ℤ → UsageMetrics
empty_metrics provider streaming duration = record {
  provider = provider;
  streaming = streaming;
  input_tokens = none;
  output_tokens = none;
  cache_creation_tokens = none;
  cache_read_tokens = none;
  total_input_tokens = none;
  total_output_tokens = none;
  thinking_tokens = null;
  thinking_block_count = none;
  ttft_ms = none;
  duration_ms = duration;
  tps = none;
  usage_missing = true;
  model = none;
}

-- `if (received_at)`, which 0 fails.
abbrev pub truthy_time : Option ℕ → Option ℕ
truthy_time (some (suc t)) = some (suc t)
truthy_time _ = none

-- `last ? last - requestStartedAt : null`
abbrev pub since : Option ℕ → ℕ → Option ℤ
since none started = none
since (some t) started = some (difference t started)

-- A loop over what was read.
abbrev pub scan : {E S : Type 0} → (Received E → S → S) → List (Received E) → S → S
scan step [] s = s
scan step (e ∷ es) s = scan step es (step e s)

-- The time to the first part of the answer: set once, by a part whose time is truthy.
abbrev pub next_ttft : ℕ → Option ℕ → Bool → Option ℤ → Option ℤ
next_ttft started at brings (some ms) = some ms
next_ttft started at brings none = elim (truthy_time at) [
  | none ↦ none
  | some t ↦ if brings then some (difference t started) else none
]
