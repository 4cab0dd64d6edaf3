-- ===== src/Stamp.antt =====
-- Stamping a request body: the pipeline of src/stamp-pipeline.ts and the steps it calls.
-- A body's `system` and `messages` are those of Breakpoints; its other fields are the members of `rest`, in
-- insertion order. A field is undefined exactly where it is absent.
pub mod Catalog
pub mod Thinking
pub mod Reasoning
pub mod TopK
pub mod Blocks
pub mod Context
pub mod Rules
pub mod Pipeline
pub mod Run
pub mod Marks
pub mod Keeps
pub mod Parts
pub mod Frame
pub mod Respect
pub mod Enforce
pub mod Overlay
pub mod Changed
mod Tests
use umans_gate.Base.{
  ℕ, Bool, true, false, List, [], ◌∷◌, Option, none, some, String, Text, codes, lookup, insert,
  string_key, to_lower_unit, map,
}
use umans_gate.Json.{Json, null, bool, str, object, member, no_members}

pub data Effort : Type 0 where
  high : Effort
  max : Effort

abbrev pub effort_json : Effort → Json
effort_json high = str (codes "high")
effort_json max = str (codes "max")

-- `ThinkingConfig`
pub data ThinkingConfig : Type 0 where
  adaptive : ThinkingConfig
  enabled : ThinkingConfig
  enabled_keep_all : ThinkingConfig
  enabled_clear : Bool → ThinkingConfig

-- `{ ...shape }`
abbrev pub config_json : ThinkingConfig → Json
config_json adaptive = object (member "type" (str (codes "adaptive")) no_members)
config_json enabled = object (member "type" (str (codes "enabled")) no_members)
config_json enabled_keep_all =
    object (member "type" (str (codes "enabled")) (member "keep" (str (codes "all")) no_members))
config_json (enabled_clear b) =
    object (member "type" (str (codes "enabled")) (member "clear_thinking" (bool b) no_members))

-- `{ effort }`
abbrev pub output_config_json : Effort → Json
output_config_json e = object (member "effort" (effort_json e) no_members)

pub record StampPolicy : Type 0 where
  pub max_tokens : ℕ
  pub effort : Effort
  pub thinking : Bool
  pub top_k : Option ℕ
  pub can_disable_thinking : Bool
  pub thinking_shape : ThinkingConfig

-- The members of a body other than `system` and `messages`.
abbrev pub Fields : Type 0
Fields = List (String × Json)

abbrev pub lower : Text → Text
lower s = map to_lower_unit s
