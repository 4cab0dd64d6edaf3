-- ===== src/Images.antt =====
-- The image blocks of a body and the texts put in their place (src/vision/wrapper.ts, and their count in
-- src/vision/detect.ts). A body is parsed JSON, whose objects have each member once.
pub mod Count
pub mod Bodies
pub mod Left
mod Tests
use umans_gate.Base.{
  ℕ, ◌+◌, ◌/◌, ◌%◌, suc, zero, Bool, true, false, ◌&&◌, List, [], ◌∷◌, ◌++◌, Option, none, some,
  if◌then◌else◌, String, ◌==◌, string_key, Text, codes, length, get_elem?, take, drop, ltb, leb,
}
use umans_gate.Json.{
  Json, null, bool, number, str, array, object, Items, no_items, item, Members, no_members, member,
  find_member, is_str,
}

pub data ApiKind : Type 0 where
  openai : ApiKind
  anthropic : ApiKind

pub record Position : Type 0 where
  pub position_in_batch : ℕ
  pub batch_size : ℕ

-- `p.type === "..."`
abbrev pub has_type : Text → Members → Bool
has_type t p = elim (find_member "type" p) [ none ↦ false | some v ↦ is_str t v ]

abbrev pub is_image : ApiKind → Members → Bool
is_image openai p = has_type (codes "image_url") p
is_image anthropic p = has_type (codes "image") p

-- The blocks whose content is walked too.
abbrev pub is_nested : ApiKind → Members → Bool
is_nested openai p = false
is_nested anthropic p = has_type (codes "tool_result") p

-- `countAnthropicImages`, and for `openai` the first pass of `findOpenAIImageParts`.
module _ (kind : ApiKind) where
  unfoldable mutual
    pub count_images : Items → ℕ
    count_images no_items = 0
    count_images (item p ps) = count_part p + count_images ps

    pub count_part : Json → ℕ
    count_part (object p) =
        let nested = count_content p in
        if is_image kind p then 1 else if is_nested kind p then nested else 0
    count_part _ = 0

    pub count_content : Members → ℕ
    count_content no_members = 0
    count_content (member k v ms) =
        let here = count_array v in
        let rest = count_content ms in if k == "content" then here else rest

    pub count_array : Json → ℕ
    count_array (array xs) = count_images xs
    count_array _ = 0

-- A number in a template, in decimal digits; on fuel.
abbrev pub digits : ℕ → ℕ → Text
digits zero n = []
digits (suc fuel) n =
    let front = digits fuel (n / 10) in
    if ltb n 10 then (48 + n) ∷ [] else front ++ (48 + n % 10) ∷ []

abbrev pub label : ℕ → Text → Text
label n desc = codes "[Image " ++ digits (suc n) n ++ codes ":\n" ++ desc ++ codes "]"

abbrev pub wrap_at : Option Position → Text → Text
wrap_at none desc = desc
wrap_at (some pos) desc = if ltb 1 pos.batch_size then label pos.position_in_batch desc else desc

-- The positions are optional.
abbrev pub wrap_with_position : Option (List Position) → ℕ → Text → Text
wrap_with_position none i desc = desc
wrap_with_position (some positions) i desc = wrap_at (get_elem? positions i) desc

abbrev pub cache_mark : Members
cache_mark =
    member "cache_control" (object (member "type" (str (codes "ephemeral")) no_members)) no_members

abbrev pub text_block : ApiKind → Text → Json
text_block openai text =
    object (member "type" (str (codes "text")) (member "text" (str text) no_members))
text_block anthropic text =
    object (member "type" (str (codes "text")) (member "text" (str text) cache_mark))

module _ (kind : ApiKind) (descriptions : List Text) (positions : Option (List Position)) where
  -- An image block at the cursor, which stays where the descriptions are used up.
  abbrev pub replace_image : Members → ℕ → Json × ℕ
  replace_image p i = elim (get_elem? descriptions i) [
    | none ↦ (object p, i)
    | some desc ↦ (text_block kind (wrap_with_position positions i desc), suc i)
  ]

  -- The number carried along is `cursor.descIdx`.
  unfoldable mutual
    pub replace_in_content_array : Items → ℕ → Items × ℕ
    replace_in_content_array no_items i = (no_items, i)
    replace_in_content_array (item p ps) i =
        let (p', j) = replace_part p i in
        let (ps', k) = replace_in_content_array ps j in (item p' ps', k)

    pub replace_part : Json → ℕ → Json × ℕ
    replace_part (object p) i =
        let (p', j) = replace_content p i in
        if is_image kind p
        then replace_image p i
        else if is_nested kind p
        then (object p', j)
        else (object p, i)
    replace_part v i = (v, i)

    pub replace_content : Members → ℕ → Members × ℕ
    replace_content no_members i = (no_members, i)
    replace_content (member k v ms) i =
        let (v', j) = replace_array v i in
        let (ms', l) = replace_content ms i in
        if k == "content" then (member k v' ms, j) else (member k v ms', l)

    pub replace_array : Json → ℕ → Json × ℕ
    replace_array (array xs) i = let (ys, j) = replace_in_content_array xs i in (array ys, j)
    replace_array v i = (v, i)
