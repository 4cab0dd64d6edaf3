-- ===== src/Images/Tests.antt =====
-- Runs on a body with two images, of which one is in the result of a tool.
use umans_gate.Base.{ℕ, ◌≡◌, ◌-◌, refl, List, [], ◌∷◌, none, String, Text, codes}
use umans_gate.Json.{Json, str, array, object, Items, no_items, item, Members, no_members, member}
use umans_gate.Images.{anthropic, count_images, replace_in_content_array}
use umans_gate.Images.Bodies.{count_body, replace_image_blocks, apply_max_images_policy}
use umans_gate.Images.Left.{count-replace_image_blocks}

abbrev typed : String → Members → Json
typed t ms = object (member "type" (str (codes t)) ms)

abbrev image : Json
image = typed "image" no_members

abbrev body_of : Items → Json
body_of content = object (
    member "messages" (array (item (object (member "content" (array content) no_members)) no_items))
      no_members)

abbrev two_images : Json
two_images = body_of (
    item image (
      item (typed "tool_result" (member "content" (array (item image no_items)) no_members))
        no_items))

abbrev two_parts : List ℕ
two_parts = 1 ∷ 2 ∷ []

-- The cap is 1: the second image stays, with a text that it is omitted.
one_stays :
    count_body anthropic (
      replace_image_blocks anthropic
        (codes "a cat" ∷ [])
        (apply_max_images_policy two_parts 1).1
        none
        two_images)
    ≡ 1
unfolding replace_image_blocks count_body count_images replace_in_content_array
one_stays = refl

abbrev no_texts : List Text
no_texts = []

count-replace_image_blocks_example :
    count_body anthropic
      (replace_image_blocks anthropic (codes "a cat" ∷ []) no_texts none two_images)
    ≡ count_body anthropic two_images - 1
count-replace_image_blocks_example =
    count-replace_image_blocks anthropic (codes "a cat" ∷ []) no_texts none two_images
