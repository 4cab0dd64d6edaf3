-- ===== src/Breakpoints.antt =====
-- Cache breakpoints of a request body (src/restamp-breakpoints.ts).
-- `R` stands for what else a block, a message or a body holds. A content or a system prompt is a
-- text or an array of blocks; `messages` is none where it is no array. Elements that are null are
-- left out. The second result tells whether something changed, which the source tells by returning
-- another object than it was given.
pub mod Layout
pub mod System
pub mod Unchanged
mod Tests
use umans_gate.Base.{
  ℕ, suc, Bool, true, false, List, [], ◌∷◌, Option, none, some, String, ◌&&◌, ◌||◌, not, nat_beq,
  ◌==◌, string_key, if◌then◌else◌,
}

pub record CacheControl : Type 0 where
  pub kind : String
  pub ttl : Option String

pub record ContentBlock (R : Type 0) : Type 0 where
  pub kind : Option String
  pub cache_control : Option CacheControl
  pub rest : R

pub data Content (R : Type 0) : Type 0 where
  absent : Content R
  text : String → Content R
  blocks : List (ContentBlock R) → Content R

pub record Message (R : Type 0) : Type 0 where
  pub role : String
  pub content : Content R
  pub rest : R

pub record AnthropicBody (R : Type 0) : Type 0 where
  pub messages : Option (List (Message R))
  pub system : Content R
  pub rest : R

abbrev pub breakpoint : CacheControl
breakpoint = record { kind = "ephemeral"; ttl = none }

abbrev pub is_ephemeral : Option CacheControl → Bool
is_ephemeral none = false
is_ephemeral (some c) = c.kind == "ephemeral"

-- A missing type counts as text.
abbrev pub text_kind : Option String → Bool
text_kind none = true
text_kind (some k) = k == "text"

-- `mi === lastUserIdx`.
abbrev pub is_target : Option ℕ → ℕ → Bool
is_target none i = false
is_target (some j) i = nat_beq i j

module _ {R : Type 0} where
  abbrev pub is_text_block : ContentBlock R → Bool
  is_text_block b = text_kind b.kind

  abbrev pub has_breakpoint : ContentBlock R → Bool
  has_breakpoint b = is_ephemeral b.cache_control

  unfoldable pub strip_breakpoint : ContentBlock R → ContentBlock R
  strip_breakpoint b = if has_breakpoint b then record b { cache_control = none } else b

  unfoldable pub with_breakpoint : ContentBlock R → ContentBlock R
  with_breakpoint b = if has_breakpoint b then b else record b { cache_control = some breakpoint }

  abbrev pub has_blocks : Content R → Bool
  has_blocks (blocks (b ∷ bs)) = true
  has_blocks _ = false

  -- A user message that has blocks.
  abbrev pub can_hold : Message R → Bool
  can_hold m = (m.role == "user") && has_blocks m.content

  -- The loop that looks for the last such message; `i` is the index of the first message.
  unfoldable pub last_user : ℕ → List (Message R) → Option ℕ
  last_user i [] = none
  last_user i (m ∷ ms) = elim (last_user (suc i) ms) [
    | none ↦ if can_hold m then some i else none
    | some j ↦ some j
  ]

  unfoldable pub restamp_block : Bool → ContentBlock R → ContentBlock R × Bool
  unfolding with_breakpoint strip_breakpoint
  restamp_block should_have b =
      if should_have && not (has_breakpoint b)
      then (with_breakpoint b, true)
      else if not should_have && has_breakpoint b
      then (strip_breakpoint b, true)
      else (b, false)

  abbrev pub is_last : List (ContentBlock R) → Bool
  is_last [] = true
  is_last (b ∷ bs) = false

  unfoldable pub restamp_blocks : Bool → List (ContentBlock R) → List (ContentBlock R) × Bool
  unfolding restamp_block
  restamp_blocks last_message [] = ([], false)
  restamp_blocks last_message (b ∷ bs) =
      let (b', changed) = restamp_block (last_message && is_last bs) b in
      let (bs', others) = restamp_blocks last_message bs in (b' ∷ bs', changed || others)

  unfoldable pub restamp_content : Bool → Content R → Content R × Bool
  unfolding restamp_blocks
  restamp_content last_message (blocks bs) =
      let (bs', changed) = restamp_blocks last_message bs in
      if changed then (blocks bs', true) else (blocks bs, false)
  restamp_content last_message c = (c, false)

  unfoldable pub restamp_messages : Option ℕ → ℕ → List (Message R) → List (Message R) × Bool
  unfolding restamp_content
  restamp_messages target i [] = ([], false)
  restamp_messages target i (m ∷ ms) =
      let (c, changed) = restamp_content (is_target target i) m.content in
      let (ms', others) = restamp_messages target (suc i) ms in
      (record m { content = c } ∷ ms', changed || others)

  -- The blocks of the system prompt after the first.
  unfoldable pub strip_all : List (ContentBlock R) → List (ContentBlock R) × Bool
  unfolding strip_breakpoint
  strip_all [] = ([], false)
  strip_all (b ∷ bs) =
      let (bs', others) = strip_all bs in
      if has_breakpoint b then (strip_breakpoint b ∷ bs', true) else (b ∷ bs', others)

  -- The first block gets a breakpoint if it is a text block.
  unfoldable pub restamp_first : ContentBlock R → ContentBlock R × Bool
  unfolding with_breakpoint
  restamp_first b =
      if is_text_block b
      then (if has_breakpoint b then (b, false) else (with_breakpoint b, true))
      else (b, false)

  unfoldable pub restamp_system : Content R → Content R × Bool
  unfolding restamp_first strip_all
  restamp_system (blocks (b ∷ bs)) =
      let (b', first) = restamp_first b in
      let (bs', others) = strip_all bs in
      if first || others then (blocks (b' ∷ bs'), true) else (blocks (b ∷ bs), false)
  restamp_system c = (c, false)

  unfoldable pub restamp_breakpoints : AnthropicBody R → AnthropicBody R × Bool
  unfolding last_user restamp_messages restamp_system
  restamp_breakpoints body = elim body.messages [
    | none ↦ (body, false)
    | some [] ↦ (body, false)
    | some (m ∷ ms) ↦
        let (messages, changed) = restamp_messages (last_user 0 (m ∷ ms)) 0 (m ∷ ms) in
        let (system, others) = restamp_system body.system in
        if changed || others
        then (record body { messages = some messages; system = system }, true)
        else (body, false)
  ]
