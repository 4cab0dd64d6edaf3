-- ===== src/Stamp/Blocks.antt =====
-- The steps on the blocks of a body: the time to live of its breakpoints (src/stamp.ts) and the reminder of an
-- agent in its first message (src/experiments/strip-omo-reminder.ts).
use umans_gate.Base.{
  ℕ, ◌+◌, Bool, true, false, not, ◌&&◌, List, [], ◌∷◌, Option, none, some, if◌then◌else◌, String,
  ◌==◌, string_key, Text, codes, lookup,
}
use umans_gate.Json.{Json, str}
use umans_gate.Breakpoints.{CacheControl, ContentBlock, Content, blocks, Message, AnthropicBody}
use umans_gate.Stamp.{Fields}
use umans_gate.Stamp.Catalog.{is_prefix}

abbrev pub has_ttl : CacheControl → Bool
has_ttl c = elim c.ttl [ none ↦ false | some t ↦ not (t == "") ]

-- `cc?.type === "ephemeral" && !cc.ttl`
abbrev pub lacks_ttl : Option CacheControl → Bool
lacks_ttl none = false
lacks_ttl (some c) = (c.kind == "ephemeral") && not (has_ttl c)

abbrev pub set_ttl : String → Option CacheControl → Option CacheControl
set_ttl ttl none = none
set_ttl ttl (some c) = some (record c { ttl = some ttl })

module _ {R : Type 0} (ttl : String) where
  abbrev pub ttl_block : ContentBlock R → ContentBlock R × ℕ
  ttl_block b =
      if lacks_ttl b.cache_control
      then (record b { cache_control = set_ttl ttl b.cache_control }, 1)
      else (b, 0)

  abbrev pub ttl_blocks : List (ContentBlock R) → List (ContentBlock R) × ℕ
  ttl_blocks [] = ([], 0)
  ttl_blocks (b ∷ bs) =
      let (b', n) = ttl_block b in let (bs', more) = ttl_blocks bs in (b' ∷ bs', n + more)

  abbrev pub ttl_content : Content R → Content R × ℕ
  ttl_content (blocks bs) = let (bs', n) = ttl_blocks bs in (blocks bs', n)
  ttl_content c = (c, 0)

  abbrev pub ttl_messages : List (Message R) → List (Message R) × ℕ
  ttl_messages [] = ([], 0)
  ttl_messages (m ∷ ms) =
      let (c, n) = ttl_content m.content in
      let (ms', more) = ttl_messages ms in (record m { content = c } ∷ ms', n + more)

  abbrev pub ttl_all : Option (List (Message R)) → Option (List (Message R)) × ℕ
  ttl_all none = (none, 0)
  ttl_all (some ms) = let (ms', n) = ttl_messages ms in (some ms', n)

  -- The number of blocks that were stamped comes with the body.
  unfoldable pub stamp_cache_ttl : AnthropicBody R → AnthropicBody R × ℕ
  stamp_cache_ttl body =
      let (system, n) = ttl_content body.system in
      let (messages, more) = ttl_all body.messages in
      (record body { system = system; messages = messages }, n + more)

abbrev pub omo_reminder_marker : Text
omo_reminder_marker = codes "\n[Category+Skill Reminder]"

abbrev pub starts_with_marker : Option Json → Bool
starts_with_marker (some (str t)) = is_prefix omo_reminder_marker t
starts_with_marker _ = false

abbrev pub is_omo_reminder_block : ContentBlock Fields → Bool
is_omo_reminder_block b = starts_with_marker (lookup "text" b.rest)

-- The blocks without the reminder, and whether one was removed.
abbrev pub drop_reminders : List (ContentBlock Fields) → List (ContentBlock Fields) × Bool
drop_reminders [] = ([], false)
drop_reminders (b ∷ bs) =
    let (bs', removed) = drop_reminders bs in
    if is_omo_reminder_block b then (bs', true) else (b ∷ bs', removed)

abbrev pub drop_from_content : Content Fields → Content Fields × Bool
drop_from_content (blocks bs) =
    let (bs', removed) = drop_reminders bs in
    if removed then (blocks bs', true) else (blocks bs, false)
drop_from_content c = (c, false)

abbrev pub drop_from_first : Option (List (Message Fields)) → Option (List (Message Fields)) × Bool
drop_from_first (some (m ∷ ms)) =
    let (c, removed) = drop_from_content m.content in
    (some (record m { content = c } ∷ ms), removed)
drop_from_first messages = (messages, false)

unfoldable pub strip_omo_reminder : AnthropicBody Fields → AnthropicBody Fields × Bool
strip_omo_reminder body =
    let (messages, removed) = drop_from_first body.messages in
    (record body { messages = messages }, removed)
