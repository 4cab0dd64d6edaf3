-- ===== src/Breakpoints/Tests.antt =====
-- Cache breakpoints at concrete inputs.
use umans_gate.Base.{ℕ, ◌≡◌, refl, false, List, [], ◌∷◌, Option, none, some, String}
use umans_gate.Breakpoints.{
  CacheControl, ContentBlock, text, blocks, Message, AnthropicBody, breakpoint, restamp_breakpoints,
  restamp_messages, restamp_content, restamp_blocks, restamp_block, restamp_system,
  strip_breakpoint, with_breakpoint, last_user,
}
use umans_gate.Breakpoints.System.{body_marks, restamp_breakpoints_idem, restamp_breakpoints-marks}
use umans_gate.Breakpoints.Unchanged.{bare, bare-restamp_breakpoints}

abbrev block : Option CacheControl → ContentBlock ℕ
block c = record { kind = some "text"; cache_control = c; rest = 0 }

abbrev message : String → List (ContentBlock ℕ) → Message ℕ
message role bs = record { role = role; content = blocks bs; rest = 0 }

-- A breakpoint rides on the tool use of the assistant, and none on the last user message.
abbrev asked : Message ℕ
asked = message "user" (block none ∷ [])

abbrev rolling : List (Message ℕ)
rolling =
    message "assistant" (block (some breakpoint) ∷ [])
    ∷ message "user" (block none ∷ block none ∷ [])
    ∷ []

abbrev body : AnthropicBody ℕ
body = record { messages = some (asked ∷ rolling); system = text "be brief"; rest = 0 }

restamped :
    (restamp_breakpoints body).0.messages
    ≡ some (
        asked
        ∷ message "assistant" (block none ∷ [])
        ∷ message "user" (block none ∷ block (some breakpoint) ∷ [])
        ∷ [])
unfolding restamp_breakpoints restamp_messages restamp_content restamp_blocks restamp_block
    restamp_system strip_breakpoint with_breakpoint last_user
restamped = refl

restamp_breakpoints_idem_example :
    restamp_breakpoints (restamp_breakpoints body).0 ≡ ((restamp_breakpoints body).0, false)
restamp_breakpoints_idem_example = restamp_breakpoints_idem body

restamp_breakpoints-marks_example : body_marks (restamp_breakpoints body).0 ≡ 1
restamp_breakpoints-marks_example = (restamp_breakpoints-marks body asked rolling refl).0

bare-restamp_breakpoints_example : bare (restamp_breakpoints body).0 ≡ bare body
bare-restamp_breakpoints_example = bare-restamp_breakpoints body
