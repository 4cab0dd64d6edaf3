-- ===== src/Json.antt =====
-- Parsed JSON, as the program reads and writes it. The members of an object are in insertion order.
use umans_gate.Base.{
  ℕ, suc, ◌*◌, Bool, true, false, Option, none, some, if◌then◌else◌, String, ◌==◌, string_key,
  nat_beq, Text, text_eq, Double, ratio, pos,
}

mutual
  pub data Json : Type 0 where
    null : Json
    bool : Bool → Json
    number : Double → Json
    str : Text → Json
    array : Items → Json
    object : Members → Json

  pub data Items : Type 0 where
    no_items : Items
    item : Json → Items → Items

  pub data Members : Type 0 where
    no_members : Members
    member : String → Json → Members → Members

abbrev pub whole : ℕ → Json
whole n = number (ratio (pos n) 0)

-- `v === n`
abbrev pub is_whole : ℕ → Json → Bool
is_whole n (number (ratio (pos m) d)) = nat_beq m (n * suc d)
is_whole n _ = false

-- `v === "..."`
abbrev pub is_str : Text → Json → Bool
is_str s (str t) = text_eq t s
is_str s _ = false

-- `v === b`
abbrev pub is_bool : Bool → Json → Bool
is_bool true (bool b) = b
is_bool false (bool b) = if b then false else true
is_bool c _ = false

abbrev pub find_member : String → Members → Option Json
find_member k no_members = none
find_member k (member j v ms) = if j == k then some v else find_member k ms

-- `v.k`, none where it is undefined.
abbrev pub field : String → Json → Option Json
field k (object ms) = find_member k ms
field k _ = none

-- `"k" in v`
abbrev pub has_field : String → Json → Bool
has_field k v = elim (field k v) [ none ↦ false | some w ↦ true ]
