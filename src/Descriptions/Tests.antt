-- ===== src/Descriptions/Tests.antt =====
-- The description cache over association lists.
use umans_gate.Base.{
  ℕ, suc, arith, ◌+◌, ◌≡◌, refl, sym, ◌∙◌, ◌⊎◌, inl, inr, Bool, true, false, Bool-cases, List, [],
  ◌∷◌, Option, none, some, Text, codes, lookup, insert, lookup-insert, nat_key, ◌==◌,
}
use umans_gate.Descriptions.{
  Hasher, LruCache, PersistentStore, DescriptionCache, new, get_or_compute, get_image_only,
  store_dual,
}
use umans_gate.Descriptions.Sound.{LruLaws, StoreLaws}
use umans_gate.Descriptions.Faithful.{NoCollision, AllFit, get_or_compute-AllFit}

abbrev Map : Type 0
Map = List (ℕ × Text)

abbrev hasher : Hasher ℕ ℕ
hasher = record { image_hash = λ i. i; image_key = λ i. i + i; context_key = λ i c. suc (i + i) }

abbrev holds : Option Text → Bool
holds none = false
holds (some v) = true

abbrev lru : LruCache ℕ Map
lru = record {
  get = λ k c. (lookup k c, c);
  has = λ k c. holds (lookup k c);
  set = λ k v c. insert k v c;
}

abbrev store : PersistentStore ℕ ℕ Map
store = record { get = λ k p. lookup k p; set = λ e p. insert e.key e.description p }

some_inj : (v w : Text) → some v ≡ some w → v ≡ w
some_inj v w h = cc

insert_adds :
    (j k : ℕ) (v : Text) (m : Map) (w : Text)
    → lookup j (insert k v m) ≡ some w
    → ((k ≡ j) × (v ≡ w)) ⊎ (lookup j m ≡ some w)
insert_adds j k v m w h = elim (Bool-cases (k == j)) [
  | inl e ↦
      inl ((nat_key.agree_iff k j).0 e, some_inj v w (sym (lookup-insert k j v m ∙ rw e refl) ∙ h))
  | inr e ↦ inr (sym (lookup-insert k j v m ∙ rw e refl) ∙ h)
]

lru_laws : LruLaws lru
lru_laws = record { get-get = λ j k c w h. h; get-set = λ j k v c w h. insert_adds j k v c w h }

store_laws : StoreLaws store
store_laws = record { get-set = λ j e p w h. insert_adds j e.key e.description p w h }

abbrev cat : Text
cat = codes "a cat"

-- Every image here is of a cat.
abbrev OfCat : ℕ → Text → Type 0
OfCat k v = v ≡ cat

abbrev empty : DescriptionCache Map Map
empty = new [] (some [])

-- In a context: a miss, which fills both keys of both tiers.
abbrev first : Text × DescriptionCache Map Map
first = get_or_compute hasher lru store 7 (some "who is it?") cat true empty

filled : first.1.persistent ≡ some ((15, cat) ∷ (14, cat) ∷ [])
unfolding get_or_compute get_image_only store_dual
filled = refl

-- Without the context the image alone is found.
second_hits : (get_or_compute hasher lru store 7 none [] true first.1).0 ≡ cat
unfolding get_or_compute get_image_only store_dual
second_hits = refl

-- Keys are even for an image and odd for one in a context.
distinct : NoCollision hasher
distinct k i j (inl a) (inl b) = omega (arith, a, b)
distinct k i j (inl a) (inr (c, b)) = absurd (omega (arith, a, b))
distinct k i j (inr (c, a)) (inl b) = absurd (omega (arith, a, b))
distinct k i j (inr (c, a)) (inr (d, b)) = omega (arith, a, b)

get_or_compute-AllFit_example :
    (let r = get_or_compute hasher lru store 7 (some "who is it?") cat true empty in
      ((r.0 ≡ cat) ⊎ OfCat 7 r.0) × AllFit hasher lru store lru_laws store_laws distinct OfCat r.1)
get_or_compute-AllFit_example =
    get_or_compute-AllFit hasher lru store lru_laws store_laws distinct OfCat 7 cat true
      (some "who is it?") empty (λ e. refl) ((λ j w h. cc), (λ j w h. cc))
