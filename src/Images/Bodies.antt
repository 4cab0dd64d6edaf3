-- ===== src/Images/Bodies.antt =====
-- The walk over the messages of a body, and the images beyond the cap (src/vision/wrapper.ts).
use umans_gate.Base.{
  ℕ, ◌+◌, suc, not, ◌&&◌, List, [], ◌∷◌, ◌++◌, Option, if◌then◌else◌, ◌==◌, string_key, Text, codes,
  length, is_nil, take, drop, ltb, leb,
}
use umans_gate.Json.{Json, array, object, Items, no_items, item, Members, no_members, member}
use umans_gate.Images.{
  ApiKind, openai, Position, count_content, digits, text_block, replace_in_content_array,
}

abbrev pub placeholder : ℕ → Text
placeholder n =
    codes "[Image omitted: not delivered to model — do not describe or reference it. (overflow "
    ++ digits (suc n) n
    ++ codes ")]"

-- One for each part, numbered from `n`.
abbrev pub placeholders {ℓ} : {A : Type ℓ} → ℕ → List A → List Text
placeholders n [] = []
placeholders n (p ∷ ps) = placeholder n ∷ placeholders (suc n) ps

-- The parts that are kept, and the placeholders of the others.
abbrev pub apply_max_images_policy {ℓ} : {A : Type ℓ} → List A → ℕ → List A × List Text
apply_max_images_policy parts max_images =
    (take max_images parts, placeholders 1 (drop max_images parts))

-- `join("\n")`
abbrev pub join_lines : List Text → Text
join_lines [] = []
join_lines (line ∷ []) = line
join_lines (line ∷ (next ∷ lines)) = line ++ codes "\n" ++ join_lines (next ∷ lines)

-- `content.push(block)`
abbrev pub push_item : Items → Json → Items
push_item no_items block = item block no_items
push_item (item x xs) block = item x (push_item xs block)

pub record Cursor : Type 0 where
  pub desc_idx : ℕ
  pub overflow_idx : ℕ

module _ (kind : ApiKind) (descriptions overflow : List Text)
    (positions : Option (List Position)) where
  -- The overflow goes to the end of the first content at which the descriptions are used up.
  abbrev pub push_overflow : Items → Cursor → Items × Cursor
  push_overflow content cursor =
      if not (is_nil (join_lines overflow))
        && leb (length descriptions) cursor.desc_idx
        && ltb cursor.overflow_idx (length overflow)
      then (
        push_item content (text_block openai (join_lines overflow)),
        record cursor { overflow_idx = length overflow },
      )
      else (content, cursor)

  abbrev pub replace_message_content : Json → Cursor → Json × Cursor
  replace_message_content (array content) cursor =
      let (replaced, i) =
        replace_in_content_array kind descriptions positions content cursor.desc_idx in
      let (pushed, cursor') = push_overflow replaced (record cursor { desc_idx = i }) in
      (array pushed, cursor')
  replace_message_content v cursor = (v, cursor)

  -- `msg.content`
  abbrev pub replace_message_members : Members → Cursor → Members × Cursor
  replace_message_members no_members cursor = (no_members, cursor)
  replace_message_members (member k v ms) cursor =
      let (v', c) = replace_message_content v cursor in
      let (ms', d) = replace_message_members ms cursor in
      if k == "content" then (member k v' ms, c) else (member k v ms', d)

  abbrev pub replace_message : Json → Cursor → Json × Cursor
  replace_message (object ms) cursor =
      let (ms', c) = replace_message_members ms cursor in (object ms', c)
  replace_message v cursor = (v, cursor)

  -- The loop over the messages.
  abbrev pub replace_messages : Items → Cursor → Items × Cursor
  replace_messages no_items cursor = (no_items, cursor)
  replace_messages (item m ms) cursor =
      let (m', c) = replace_message m cursor in
      let (ms', d) = replace_messages ms c in (item m' ms', d)

  abbrev pub replace_list : Json → Json
  replace_list (array ms) =
      array (replace_messages ms (record { desc_idx = 0; overflow_idx = 0 })).0
  replace_list v = v

  -- `body.messages`
  abbrev pub replace_body_members : Members → Members
  replace_body_members no_members = no_members
  replace_body_members (member k v ms) =
      let rest = replace_body_members ms in
      if k == "messages" then member k (replace_list v) ms else member k v rest

  unfoldable pub replace_image_blocks : Json → Json
  replace_image_blocks (object ms) = object (replace_body_members ms)
  replace_image_blocks v = v

-- The images that the two finders of parts count, message by message.
module _ (kind : ApiKind) where
  abbrev pub count_message : Json → ℕ
  count_message (object ms) = count_content kind ms
  count_message _ = 0

  abbrev pub count_messages : Items → ℕ
  count_messages no_items = 0
  count_messages (item m ms) = count_message m + count_messages ms

  abbrev pub count_list : Json → ℕ
  count_list (array ms) = count_messages ms
  count_list _ = 0

  abbrev pub count_body_members : Members → ℕ
  count_body_members no_members = 0
  count_body_members (member k v ms) =
      let rest = count_body_members ms in if k == "messages" then count_list v else rest

  unfoldable pub count_body : Json → ℕ
  count_body (object ms) = count_body_members ms
  count_body _ = 0
