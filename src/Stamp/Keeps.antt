-- ===== src/Stamp/Keeps.antt =====
-- A field that a part of a step keeps (src/stamp-pipeline.ts).
use umans_gate.Base.{
  Bool, true, false, ◌||◌, ◌≡◌, refl, ◌∙◌, List, [], ◌∷◌, Option, none, some, if◌then◌else◌, lookup,
  insert, erase, lookup-insert, lookup-erase, String, string_key, ◌==◌, Text,
}
use umans_gate.Json.{Json, str}
use umans_gate.Stamp.{Fields}
use umans_gate.Stamp.Catalog.{PerModelRule}
use umans_gate.Stamp.Reasoning.{remove, present}
use umans_gate.Stamp.TopK.{model_of}
use umans_gate.Stamp.Rules.{merge, merge_extra}

abbrev pub extra_writes : String → List (String × Json) → Bool
extra_writes j [] = false
extra_writes j ((k, v) ∷ extra) = (k == j) || extra_writes j extra

-- Whether the extra body of the rule that applies has the field.
abbrev pub rule_writes : String → Option PerModelRule → Bool
rule_writes j none = false
rule_writes j (some rule) = elim rule.openai_extra_body [
  | none ↦ false
  | some extra ↦ extra_writes j extra
]

pub or-false : (a b : Bool) → (a || b) ≡ false → (a ≡ false) × (b ≡ false)
or-false true b h = cc
or-false false b h = (refl, h)

pub lookup-insert_other :
    (k j : String) (v : Json) (b : Fields) → (k == j) ≡ false → lookup j (insert k v b) ≡ lookup j b
lookup-insert_other k j v b h = lookup-insert k j v b ∙ rw h refl

pub lookup-erase_other :
    (k j : String) (b : Fields) → (k == j) ≡ false → lookup j (erase k b) ≡ lookup j b
lookup-erase_other k j b h = lookup-erase k j b ∙ rw h refl

pub model_of-str : (v : Option Json) (m : Text) → model_of v ≡ some m → v ≡ some (str m)
model_of-str none m h = cc
model_of-str (some (str t)) m h = cc
model_of-str (some _) m h = cc

-- The field `j` stays.
module _ (j : String) where
  abbrev pub Keeps : Fields → Fields × Bool → Type 0
  Keeps b r = lookup j r.0 ≡ lookup j b

  pub Keeps-if :
      (c : Bool) (b b' : Fields)
      → lookup j b' ≡ lookup j b
      → Keeps b (if c then (b', true) else (b, false))
  Keeps-if true b b' h = h
  Keeps-if false b b' h = refl

  pub Keeps-put :
      (c : Bool) (k : String) (v : Json) (b : Fields)
      → (k == j) ≡ false
      → Keeps b (if c then (insert k v b, true) else (b, false))
  Keeps-put c k v b h = Keeps-if c b (insert k v b) (lookup-insert_other k j v b h)

  pub merge-keeps :
      (extra : List (String × Json)) (b : Fields)
      → extra_writes j extra ≡ false
      → lookup j (merge extra b) ≡ lookup j b
  merge-keeps [] b h = refl
  merge-keeps ((k, v) ∷ extra) b h =
      let (e, h') = or-false (k == j) (extra_writes j extra) h in
      merge-keeps extra (insert k v b) h' ∙ lookup-insert_other k j v b e

  pub remove-Keeps : (k : String) (b : Fields) → (k == j) ≡ false → Keeps b (remove k b)
  remove-Keeps k b h = Keeps-if (present (lookup k b)) b (erase k b) (lookup-erase_other k j b h)

  pub merge_extra-Keeps :
      (extra : Option (List (String × Json))) (b : Fields)
      → (elim extra as (λ o. Bool) [ none ↦ false | some e ↦ extra_writes j e ]) ≡ false
      → Keeps b (merge_extra extra b)
  merge_extra-Keeps none b h = refl
  merge_extra-Keeps (some extra) b h = merge-keeps extra b h

  pub when-Keeps :
      (c : Bool) (b : Fields) (r : Fields × Bool)
      → Keeps b r
      → Keeps b (if c then r else (b, false))
  when-Keeps true b r h = h
  when-Keeps false b r h = refl

  pub unless-Keeps :
      (c : Bool) (b : Fields) (r : Fields × Bool)
      → Keeps b r
      → Keeps b (if c then (b, false) else r)
  unless-Keeps true b r h = refl
  unless-Keeps false b r h = h
