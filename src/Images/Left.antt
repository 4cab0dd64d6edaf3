-- ===== src/Images/Left.antt =====
-- The images that a body still has after the replacement (src/vision/wrapper.ts).
use umans_gate.Base.{
  ℕ, ◌-◌, ◌≤◌, zero, ◌≡◌, inl, inr, refl, List, [], ◌∷◌, Option, Text, length, suc, take, arith,
  ◌==◌, string_key, Bool-cases,
}
use umans_gate.Json.{
  Json, null, bool, number, str, array, object, Items, no_items, item, Members, no_members, member,
}
use umans_gate.Images.{
  ApiKind, openai, anthropic, Position, count_images, count_part, count_content, count_array,
  text_block, replace_in_content_array,
}
use umans_gate.Images.Bodies.{
  apply_max_images_policy, push_item, Cursor, join_lines, push_overflow, replace_message_content,
  replace_message_members, replace_message, replace_messages, replace_list, replace_body_members,
  replace_image_blocks, count_message, count_messages, count_list, count_body_members, count_body,
}
use umans_gate.Images.Count.{Taken, count-replace_in_content_array}

text_block-no_image : (kind : ApiKind) (text : Text) → count_part kind (text_block openai text) ≡ 0
unfolding count_images
text_block-no_image openai text = refl
text_block-no_image anthropic text = refl

count-push_item :
    (kind : ApiKind) (xs : Items) (text : Text)
    → count_images kind (push_item xs (text_block openai text)) ≡ count_images kind xs
unfolding count_images
count-push_item kind no_items text = omega (arith, text_block-no_image kind text)
count-push_item kind (item x xs) text = omega (arith, count-push_item kind xs text)

module _ (kind : ApiKind) (descriptions overflow : List Text)
    (positions : Option (List Position)) where
  push_overflow-keeps :
      (xs : Items) (c : Cursor)
      → (let (ys, d) = push_overflow kind descriptions overflow positions xs c in
          (count_images kind ys ≡ count_images kind xs) × (d.desc_idx ≡ c.desc_idx))
  push_overflow-keeps xs c = ground (arith, count-push_item kind xs (join_lines overflow))

  count-replace_message_content :
      (v : Json) (c : Cursor)
      → c.desc_idx ≤ length descriptions
      → (let (w, d) = replace_message_content kind descriptions overflow positions v c in
          Taken
            (length descriptions)
            (count_array kind v)
            c.desc_idx
            (count_array kind w)
            d.desc_idx)
  unfolding count_images
  count-replace_message_content (array xs) c le =
      let replaced = replace_in_content_array kind descriptions positions xs c.desc_idx in
      let (same, cursor) = push_overflow-keeps replaced.0 (record c { desc_idx = replaced.1 }) in
      let taken = count-replace_in_content_array kind descriptions positions xs c.desc_idx le in
      omega (arith, same, cursor, taken)
  count-replace_message_content null c le = omega (arith, le)
  count-replace_message_content (bool b) c le = omega (arith, le)
  count-replace_message_content (number d) c le = omega (arith, le)
  count-replace_message_content (str t) c le = omega (arith, le)
  count-replace_message_content (object p) c le = omega (arith, le)

  count-replace_message_members :
      (ms : Members) (c : Cursor)
      → c.desc_idx ≤ length descriptions
      → (let (ms', d) = replace_message_members kind descriptions overflow positions ms c in
          Taken
            (length descriptions)
            (count_content kind ms)
            c.desc_idx
            (count_content kind ms')
            d.desc_idx)
  unfolding count_images
  count-replace_message_members no_members c le = omega (arith, le)
  count-replace_message_members (member k v ms) c le = elim (Bool-cases (k == "content")) [
    | inl h ↦ ground (arith, h, count-replace_message_content v c le)
    | inr h ↦ ground (arith, h, count-replace_message_members ms c le)
  ]

  count-replace_message :
      (m : Json) (c : Cursor)
      → c.desc_idx ≤ length descriptions
      → (let (m', d) = replace_message kind descriptions overflow positions m c in
          Taken
            (length descriptions)
            (count_message kind m)
            c.desc_idx
            (count_message kind m')
            d.desc_idx)
  count-replace_message (object ms) c le = count-replace_message_members ms c le
  count-replace_message null c le = omega (arith, le)
  count-replace_message (bool b) c le = omega (arith, le)
  count-replace_message (number d) c le = omega (arith, le)
  count-replace_message (str t) c le = omega (arith, le)
  count-replace_message (array xs) c le = omega (arith, le)

  count-replace_messages :
      (ms : Items) (c : Cursor)
      → c.desc_idx ≤ length descriptions
      → (let (ms', d) = replace_messages kind descriptions overflow positions ms c in
          Taken
            (length descriptions)
            (count_messages kind ms)
            c.desc_idx
            (count_messages kind ms')
            d.desc_idx)
  count-replace_messages no_items c le = omega (arith, le)
  count-replace_messages (item m ms) c le =
      let (a, b) = count-replace_message m c le in
      let d = (replace_message kind descriptions overflow positions m c).1 in
      let (e, f) = count-replace_messages ms d (omega (arith, a, b, le)) in
      omega (arith, a, b, e, f, le)

  count-replace_list :
      (v : Json)
      → count_list kind (replace_list kind descriptions overflow positions v)
        ≡ count_list kind v - length descriptions
  count-replace_list (array ms) =
      omega
        (arith, count-replace_messages ms (record { desc_idx = 0; overflow_idx = 0 }) (omega arith))
  count-replace_list null = omega arith
  count-replace_list (bool b) = omega arith
  count-replace_list (number d) = omega arith
  count-replace_list (str t) = omega arith
  count-replace_list (object p) = omega arith

  count-replace_body_members :
      (ms : Members)
      → count_body_members kind (replace_body_members kind descriptions overflow positions ms)
        ≡ count_body_members kind ms - length descriptions
  count-replace_body_members no_members = omega arith
  count-replace_body_members (member k v ms) = elim (Bool-cases (k == "messages")) [
    | inl h ↦ ground (arith, h, count-replace_list v)
    | inr h ↦ ground (arith, h, count-replace_body_members ms)
  ]

  -- Of the images of a body, as many as there are descriptions are taken, or all where there are fewer images, and the
  -- others stay, whatever the overflow texts and the positions are.
  pub count-replace_image_blocks :
      (body : Json)
      → count_body kind (replace_image_blocks kind descriptions overflow positions body)
        ≡ count_body kind body - length descriptions
  unfolding replace_image_blocks count_body
  count-replace_image_blocks (object ms) = count-replace_body_members ms
  count-replace_image_blocks null = omega arith
  count-replace_image_blocks (bool b) = omega arith
  count-replace_image_blocks (number d) = omega arith
  count-replace_image_blocks (str t) = omega arith
  count-replace_image_blocks (array xs) = omega arith

length-take-le : {A : Type 0} (n : ℕ) (xs : List A) → length xs - length (take n xs) ≡ length xs - n
length-take-le zero xs = omega arith
length-take-le (suc n) [] = omega arith
length-take-le (suc n) (x ∷ xs) = omega (arith, length-take-le n xs)

-- With one part for each image and one description for each part that is kept, the images beyond the cap stay.
pub capped-replace_image_blocks :
    {A : Type 0} (kind : ApiKind) (parts : List A) (cap : ℕ) (descriptions : List Text)
    (positions : Option (List Position)) (body : Json)
    → length parts ≡ count_body kind body
    → length descriptions ≡ length (apply_max_images_policy parts cap).0
    → count_body kind (
        replace_image_blocks kind descriptions (apply_max_images_policy parts cap).1 positions body)
      ≡ count_body kind body - cap
capped-replace_image_blocks kind parts cap descriptions positions body all kept = omega (
  arith,
  all,
  kept,
  length-take-le cap parts,
  count-replace_image_blocks kind descriptions (apply_max_images_policy parts cap).1 positions body,
)
