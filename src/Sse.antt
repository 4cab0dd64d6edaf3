-- ===== src/Sse.antt =====
-- Reading server-sent events (src/usage/sse-parse.ts).
-- A parser keeps `buf`, the text that belongs to no complete block yet, and what it has read so far.
-- `parse` stands for `JSON.parse` and the cast behind it, none where that throws or gives a value that is not kept:
-- null, and for OpenAI anything that is falsy. Other values are objects here: on a number, a text or `true` the OpenAI
-- parser would throw where it sets `received_at`.
pub mod Chunks
pub mod Values
mod Tests
use umans_gate.Base.{
  ℕ, suc, zero, ◌+◌, Bool, true, false, List, [], ◌∷◌, ◌++◌, Option, none, some, if◌then◌else◌,
  nat_beq, length, ◌&&◌, Text, codes, text_eq, after_prefix, split_lines, trim, map, is_nil,
}

pub record TimedChunk : Type 0 where
  pub text : Text
  pub time : ℕ

-- `indexOf("\n\n")` and the two slices.
unfoldable pub find_break : Text → Option (Text × Text)
find_break [] = none
find_break (c ∷ []) = none
find_break (c ∷ d ∷ s) =
    let rest : Option (Text × Text) = elim (find_break (d ∷ s)) [
      | none ↦ none
      | some (block, after) ↦ some (c ∷ block, after)
    ] in
    if nat_beq c 10 && nat_beq d 10 then some ([], s) else rest

-- The loop over the complete blocks in the buffer. Fuel: one more than its length is enough
-- (Sse.Chunks).
module _ {S : Type 0} (handle : ℕ → Text → S → S) where
  unfoldable pub drain : ℕ → ℕ → Text → S → Text × S
  drain zero time buf s = (buf, s)
  drain (suc fuel) time buf s = elim (find_break buf) [
    | none ↦ (buf, s)
    | some (block, rest) ↦ drain fuel time rest (handle time block s)
  ]

  unfoldable pub feed : TimedChunk → Text → S → Text × S
  unfolding drain
  feed chunk buf s = let grown = buf ++ chunk.text in drain (suc (length grown)) chunk.time grown s

  unfoldable pub feed_all : List TimedChunk → Text → S → Text × S
  unfolding feed
  feed_all [] buf s = (buf, s)
  feed_all (chunk ∷ chunks) buf s = let (buf', s') = feed chunk buf s in feed_all chunks buf' s'

-- `chunks[chunks.length - 1]?.time`
abbrev pub last_time : List TimedChunk → Option ℕ
last_time [] = none
last_time (c ∷ []) = some c.time
last_time (c ∷ d ∷ cs) = last_time (d ∷ cs)

-- A value read from the stream, and when it came.
pub record Received (J : Type 0) : Type 0 where
  pub value : J
  pub received_at : Option ℕ

abbrev pub push_received :
    {J : Type 0} → Option J → Option ℕ → List (Received J) → List (Received J)
push_received none time out = out
push_received (some j) time out = out ++ record { value = j; received_at = time } ∷ []

module _ {J : Type 0} (parse : Text → Option J) where
  abbrev pub parse_data_line : Text → Option J
  parse_data_line data_text = if text_eq data_text (codes "[DONE]") then none else parse data_text

  -- The loop over the lines of a block.
  abbrev pub openai_lines : Option ℕ → List Text → List (Received J) → List (Received J)
  openai_lines time [] out = out
  openai_lines time (line ∷ lines) out =
      openai_lines time lines (elim (after_prefix (codes "data: ") line) [
        | none ↦ out
        | some data_text ↦ push_received (parse_data_line data_text) time out
      ])

  abbrev pub openai_block : ℕ → Text → List (Received J) → List (Received J)
  openai_block time block out = openai_lines (some time) (split_lines block) out

  unfoldable pub parse_openai_sse : List TimedChunk → List (Received J)
  unfolding feed_all
  parse_openai_sse chunks =
      let (buf, out) = feed_all openai_block chunks [] [] in
      if is_nil (trim buf) then out else openai_lines (last_time chunks) (split_lines buf) out

-- What `JSON.parse` gives for an Anthropic event: its own property `type`, and the rest. A property that is there
-- without being a text is left out.
pub record Parsed (J : Type 0) : Type 0 where
  pub own_type : Option Text
  pub body : J

pub record AnthropicSseEvent (J : Type 0) : Type 0 where
  pub kind : Text
  pub body : J

-- The two variables of the loop over the lines of a block.
pub record BlockLines : Type 0 where
  pub kind : Text
  pub data_line : Option Text

abbrev pub event_name : Text → Text → Text
event_name line kind = elim (after_prefix (codes "event: ") line) [
  | none ↦ kind
  | some name ↦ trim name
]

abbrev pub read_line : Text → BlockLines → BlockLines
read_line line b = elim (after_prefix (codes "event: ") line) [
  | some name ↦ record b { kind = trim name }
  | none ↦ elim (after_prefix (codes "data: ") line) [
    | some data_text ↦ record b { data_line = some data_text }
    | none ↦ b
  ]
]

abbrev pub read_lines : List Text → BlockLines → BlockLines
read_lines [] b = b
read_lines (line ∷ lines) b = read_lines lines (read_line line b)

-- The event type that the parser remembers across blocks.
abbrev pub last_name : List Text → Text → Text
last_name [] kind = kind
last_name (line ∷ lines) kind = last_name lines (event_name line kind)

pub record AnthropicState (J : Type 0) : Type 0 where
  pub ev_type : Text
  pub events : List (Received (AnthropicSseEvent J))

module _ {J : Type 0} (parse : Text → Option (Parsed J)) where
  -- `{ type: parsed.type ?? type, ...parsed }`
  abbrev pub event_of : Text → Parsed J → AnthropicSseEvent J
  event_of kind p = record { kind = elim p.own_type [ none ↦ kind | some t ↦ t ]; body = p.body }

  abbrev pub parse_event_block : Text → Text → Option (AnthropicSseEvent J)
  parse_event_block block ev_type =
      let b = read_lines (split_lines block) (record { kind = ev_type; data_line = none }) in
      elim b.data_line [
        | none ↦ none
        | some data_text ↦
            if text_eq data_text (codes "[DONE]")
            then none
            else elim (parse data_text) [ none ↦ none | some p ↦ some (event_of b.kind p) ]
      ]

  abbrev pub anthropic_block : ℕ → Text → AnthropicState J → AnthropicState J
  anthropic_block time block s =
      let ev_type = last_name (split_lines block) s.ev_type in
      record {
        ev_type = ev_type;
        events = push_received (parse_event_block block ev_type) (some time) s.events;
      }

  unfoldable pub parse_anthropic_sse : List TimedChunk → List (Received (AnthropicSseEvent J))
  unfolding feed_all
  parse_anthropic_sse chunks =
      let (buf, s) = feed_all anthropic_block chunks [] (record { ev_type = []; events = [] }) in
      if is_nil (trim buf)
      then s.events
      else push_received (parse_event_block buf s.ev_type) (last_time chunks) s.events
