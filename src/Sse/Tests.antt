-- ===== src/Sse/Tests.antt =====
-- Server-sent events at concrete inputs.
use umans_gate.Base.{ℕ, ◌≡◌, refl, List, [], ◌∷◌, Option, none, some, Text, codes}
use umans_gate.Sse.{
  TimedChunk, Parsed, parse_openai_sse, parse_anthropic_sse, find_break, drain, feed, feed_all,
}
use umans_gate.Sse.Values.{values, parse_anthropic_sse-cut}

-- Every data line is its own value.
abbrev verbatim : Text → Option Text
verbatim s = some s

-- An event without a type of its own.
abbrev untyped : Text → Option (Parsed Text)
untyped s = some (record { own_type = none; body = s })

abbrev chunk : Text → ℕ → TimedChunk
chunk t time = record { text = t; time = time }

-- The first event is cut within its closing line ends.
abbrev stream : List TimedChunk
stream =
    chunk (codes "data: a\n") 1
    ∷ chunk (codes "\ndata: b\n\nda") 2
    ∷ chunk (codes "ta: [DONE]\n\n") 3
    ∷ chunk (codes "data: c") 4
    ∷ []

read_stream :
    parse_openai_sse verbatim stream
    ≡ record { value = codes "a"; received_at = some 2 }
      ∷ record { value = codes "b"; received_at = some 2 }
      ∷ record { value = codes "c"; received_at = some 4 }
      ∷ []
unfolding parse_openai_sse find_break drain feed feed_all
read_stream = refl

-- A block without an event line has the type of the block before.
abbrev events : List TimedChunk
events = chunk (codes "event: ping\ndata: a\n\ndata: b\n\n") 5 ∷ []

read_events :
    values (parse_anthropic_sse untyped events)
    ≡ record { kind = codes "ping"; body = codes "a" }
      ∷ record { kind = codes "ping"; body = codes "b" }
      ∷ []
unfolding parse_anthropic_sse find_break drain feed feed_all
read_events = refl

-- The same text, cut within a line.
abbrev events_cut : List TimedChunk
events_cut =
    chunk (codes "event: pi") 1
    ∷ chunk (codes "ng\ndata: a\n\ndata: b\n") 2
    ∷ chunk (codes "\n") 9
    ∷ []

parse_anthropic_sse-cut_example :
    values (parse_anthropic_sse untyped events) ≡ values (parse_anthropic_sse untyped events_cut)
parse_anthropic_sse-cut_example = parse_anthropic_sse-cut untyped events events_cut refl
