-- ===== src/Images/Count.antt =====
-- How many image blocks a walk over a content leaves (src/vision/wrapper.ts).
use umans_gate.Base.{
  ℕ, ◌+◌, ◌-◌, ◌≤◌, ◌<◌, suc, zero, ◌≡◌, inl, inr, refl, List, [], ◌∷◌, Option, none, some, Text,
  codes, length, get_elem?, arith, true, false, String, ◌==◌, string_key, ap, Option-cases,
  Bool-cases,
}
use umans_gate.Json.{
  Json, null, bool, number, str, array, object, Items, no_items, item, Members, no_members, member,
  find_member, is_str,
}
use umans_gate.Images.{
  ApiKind, openai, anthropic, Position, is_image, is_nested, has_type, count_images, count_part,
  count_content, count_array, wrap_with_position, text_block, replace_image,
  replace_in_content_array, replace_part, replace_content, replace_array,
}

module _ {ℓ} {A : Type ℓ} where
  get_elem?-some-lt : (xs : List A) (i : ℕ) (x : A) → get_elem? xs i ≡ some x → i < length xs
  get_elem?-some-lt [] i x h = cc
  get_elem?-some-lt (y ∷ ys) zero x h = omega arith
  get_elem?-some-lt (y ∷ ys) (suc i) x h = omega (arith, get_elem?-some-lt ys i x h)

  get_elem?-none-le : (xs : List A) (i : ℕ) → get_elem? xs i ≡ none → length xs ≤ i
  get_elem?-none-le [] i h = omega arith
  get_elem?-none-le (y ∷ ys) zero h = cc
  get_elem?-none-le (y ∷ ys) (suc i) h = omega (arith, get_elem?-none-le ys i h)

-- Of `n` images from cursor `i` of `len` descriptions on, `left` are left, and the cursor is at `j`.
abbrev pub Taken : (len n i left j : ℕ) → Type 0
Taken len n i left j = (left ≡ n - (len - i)) × (left + j ≡ n + i)

text_block-count : (kind : ApiKind) (text : Text) → count_part kind (text_block kind text) ≡ 0
unfolding count_images
text_block-count openai text = refl
text_block-count anthropic text = refl

type_not_content : (k : String) → (k == "content") ≡ true → (k == "type") ≡ false
type_not_content k h = ap (λ s. s == "type") ((string_key.agree_iff k "content").0 h)

has_type_cong :
    (t : Text) (p q : Members)
    → find_member "type" p ≡ find_member "type" q
    → has_type t p ≡ has_type t q
has_type_cong t p q h = ap (λ o. elim o [ none ↦ false | some v ↦ is_str t v ]) h

-- Both tests read the member `type` alone.
is_image_cong :
    (kind : ApiKind) (p q : Members)
    → find_member "type" p ≡ find_member "type" q
    → is_image kind p ≡ is_image kind q
is_image_cong openai p q h = has_type_cong (codes "image_url") p q h
is_image_cong anthropic p q h = has_type_cong (codes "image") p q h

is_nested_cong :
    (kind : ApiKind) (p q : Members)
    → find_member "type" p ≡ find_member "type" q
    → is_nested kind p ≡ is_nested kind q
is_nested_cong openai p q h = refl
is_nested_cong anthropic p q h = has_type_cong (codes "tool_result") p q h

module _ (kind : ApiKind) (descriptions : List Text) (positions : Option (List Position)) where
  type-replace_content :
      (p : Members) (i : ℕ)
      → find_member "type" (replace_content kind descriptions positions p i).0
        ≡ find_member "type" p
  unfolding replace_in_content_array
  type-replace_content no_members i = refl
  type-replace_content (member k v ms) i = elim (Bool-cases (k == "content")) [
    | inl h ↦ ground (arith, h, type_not_content k h)
    | inr h ↦ ground (arith, h, type-replace_content ms i)
  ]

  count-replace_image :
      (p : Members) (i : ℕ)
      → is_image kind p ≡ true
      → i ≤ length descriptions
      → (let (v, j) = replace_image kind descriptions positions p i in
          Taken (length descriptions) 1 i (count_part kind v) j)
  unfolding count_images
  count-replace_image p i h le = elim (Option-cases (get_elem? descriptions i)) [
    | inl e ↦ ground (arith, e, h, get_elem?-none-le descriptions i e)
    | inr (desc, e) ↦ ground (
      arith,
      e,
      text_block-count kind (wrap_with_position positions i desc),
      get_elem?-some-lt descriptions i desc e,
    )
  ]

  mutual
    unfolding replace_in_content_array count_images

    pub count-replace_in_content_array :
        (xs : Items) (i : ℕ)
        → i ≤ length descriptions
        → (let (ys, j) = replace_in_content_array kind descriptions positions xs i in
            Taken (length descriptions) (count_images kind xs) i (count_images kind ys) j)
    count-replace_in_content_array no_items i le = omega (arith, le)
    count-replace_in_content_array (item p ps) i le =
        let (a, b) = count-replace_part p i le in
        let j = (replace_part kind descriptions positions p i).1 in
        let (c, d) = count-replace_in_content_array ps j (omega (arith, a, b, le)) in
        omega (arith, a, b, c, d, le)

    count-replace_part :
        (v : Json) (i : ℕ)
        → i ≤ length descriptions
        → (let (w, j) = replace_part kind descriptions positions v i in
            Taken (length descriptions) (count_part kind v) i (count_part kind w) j)
    count-replace_part (object p) i le = elim (Bool-cases (is_image kind p)) [
      | inl h ↦ ground (arith, h, count-replace_image p i h le)
      | inr h ↦ elim (Bool-cases (is_nested kind p)) [
        | inl g ↦
            let same = type-replace_content p i in
            let image =
              is_image_cong kind (replace_content kind descriptions positions p i).0 p same in
            let nested =
              is_nested_cong kind (replace_content kind descriptions positions p i).0 p same in
            ground (arith, h, g, count-replace_content p i le, image, nested)
        | inr g ↦ ground (arith, h, g, le)
      ]
    ]
    count-replace_part null i le = omega (arith, le)
    count-replace_part (bool b) i le = omega (arith, le)
    count-replace_part (number d) i le = omega (arith, le)
    count-replace_part (str t) i le = omega (arith, le)
    count-replace_part (array xs) i le = omega (arith, le)

    count-replace_content :
        (ms : Members) (i : ℕ)
        → i ≤ length descriptions
        → (let (ms', j) = replace_content kind descriptions positions ms i in
            Taken (length descriptions) (count_content kind ms) i (count_content kind ms') j)
    count-replace_content no_members i le = omega (arith, le)
    count-replace_content (member k v ms) i le = elim (Bool-cases (k == "content")) [
      | inl h ↦ ground (arith, h, count-replace_array v i le)
      | inr h ↦ ground (arith, h, count-replace_content ms i le)
    ]

    count-replace_array :
        (v : Json) (i : ℕ)
        → i ≤ length descriptions
        → (let (w, j) = replace_array kind descriptions positions v i in
            Taken (length descriptions) (count_array kind v) i (count_array kind w) j)
    count-replace_array (array xs) i le = count-replace_in_content_array xs i le
    count-replace_array null i le = omega (arith, le)
    count-replace_array (bool b) i le = omega (arith, le)
    count-replace_array (number d) i le = omega (arith, le)
    count-replace_array (str t) i le = omega (arith, le)
    count-replace_array (object p) i le = omega (arith, le)
