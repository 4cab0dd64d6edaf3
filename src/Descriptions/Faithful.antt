-- ===== src/Descriptions/Faithful.antt =====
-- What the description cache answers fits the image it is asked about (src/vision/cache.ts).
use umans_gate.Base.{◌≡◌, refl, subst, ◌⊎◌, inl, inr, Bool, true, Option, none, some, String, Text}
use umans_gate.Descriptions.{
  Hasher, LruCache, PersistentStore, DescriptionCache, key_of, get_or_compute,
}
use umans_gate.Descriptions.Sound.{LruLaws, StoreLaws, Sound, get_or_compute-Answer}

module _ {Image K : Type 0} (hasher : Hasher Image K) where
  -- A key of an image: its own, or one of it in a context.
  abbrev pub IsKeyOf : K → Image → Type 0
  IsKeyOf k image =
      (hasher.image_key image ≡ k) ⊎ ((context : String) × (hasher.context_key image context ≡ k))

  -- No two images share a key, which the program relies on of SHA-256.
  abbrev pub NoCollision : Type 0
  NoCollision = (k : K) (i j : Image) → IsKeyOf k i → IsKeyOf k j → i ≡ j

  -- A text under a key fits the images that the key is of.
  abbrev pub FitsKey : (Image → Text → Type 0) → K → Text → Type 0
  FitsKey Fits k v = (image : Image) → IsKeyOf k image → Fits image v

module _ {Image K C P : Type 0} (hasher : Hasher Image K) (lru : LruCache K C)
    (store : PersistentStore Image K P) (lru_laws : LruLaws lru) (store_laws : StoreLaws store)
    (distinct : NoCollision hasher) (Fits : Image → Text → Type 0) where
  pub lift_key :
      (image : Image) (context : String) (v : Text)
      → FitsKey hasher Fits (hasher.image_key image) v
      → FitsKey hasher Fits (hasher.context_key image context) v
  lift_key image context v h other k =
      let same = distinct (hasher.context_key image context) image other (inr (context, refl)) k in
      subst (λ i. Fits i v) same (h image (inl refl))

  -- Every text in both tiers fits the images that its key is of.
  abbrev pub AllFit : DescriptionCache C P → Type 0
  AllFit = Sound hasher lru store lru_laws store_laws (FitsKey hasher Fits) lift_key

  asked-IsKeyOf :
      (image : Image) (context : Option String)
      → IsKeyOf hasher (key_of hasher lru store image context) image
  asked-IsKeyOf image none = inl refl
  asked-IsKeyOf image (some context) = inr (context, refl)

  pub get_or_compute-AllFit :
      (image : Image) (value : Text) (cacheable : Bool) (context : Option String)
      (d : DescriptionCache C P)
      → (cacheable ≡ true → Fits image value)
      → AllFit d
      → (let r = get_or_compute hasher lru store image context value cacheable d in
          ((r.0 ≡ value) ⊎ Fits image r.0) × AllFit r.1)
  get_or_compute-AllFit image value cacheable context d good fit =
      let kept : cacheable ≡ true → FitsKey hasher Fits (hasher.image_key image) value =
        λ e other k.
          subst (λ i. Fits i value) (distinct (hasher.image_key image) image other (inl refl) k)
            (good e) in
      let (answer, after) =
        get_or_compute-Answer hasher lru store lru_laws store_laws (FitsKey hasher Fits) lift_key
          image value cacheable kept context d fit in
      (elim answer [ inl e ↦ inl e | inr f ↦ inr (f image (asked-IsKeyOf image context)) ], after)
