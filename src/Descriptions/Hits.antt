-- ===== src/Descriptions/Hits.antt =====
-- What the description cache counts and keeps (src/vision/cache.ts).
use umans_gate.Base.{
  ℕ, suc, ◌+◌, ◌≡◌, refl, ap, ◌∙◌, inl, inr, Bool, true, false, Option, none, some, Option-cases,
  String, Text, arith,
}
use umans_gate.Descriptions.{
  Hasher, LruCache, Entry, PersistentStore, DescriptionCache, get_cached, get_persisted, key_of,
  promote, after_memory, get_image_only, entry, persist, store_dual, keep, compute_and_keep,
  try_image, try_persisted, get_or_compute,
}

module _ {Image K C P : Type 0} (hasher : Hasher Image K) (lru : LruCache K C)
    (store : PersistentStore Image K P) where
  -- What a call counts.
  abbrev pub count : DescriptionCache C P → ℕ
  count d = d.hits + d.misses

  persist-count :
      (e : Entry Image K) (d : DescriptionCache C P)
      → count (persist hasher lru store e d) ≡ count d
  persist-count e d = elim (Option-cases d.persistent) [
    | inl h ↦ rw (h, persist) refl
    | inr (p, h) ↦ rw (h, persist) refl
  ]

  keep-count :
      (image : Image) (context : Option String) (value : Text) (d : DescriptionCache C P)
      → count (keep hasher lru store image context value d) ≡ count d
  unfolding store_dual
  keep-count image none value d =
      let key = hasher.image_key image in
      persist-count (entry hasher lru store key image value)
        (record d { cache = lru.set key value d.cache })
  keep-count image (some context) value d =
      let context_key = hasher.context_key image context in
      let image_key = hasher.image_key image in
      let filled = record d {
        cache = lru.set image_key value (lru.set context_key value d.cache);
      } in
      let e = entry hasher lru store context_key image value in
      persist-count (entry hasher lru store image_key image value)
        (persist hasher lru store e filled)
      ∙ persist-count e filled

  compute-count :
      (image : Image) (context : Option String) (value : Text) (cacheable : Bool)
      (d : DescriptionCache C P)
      → count (compute_and_keep hasher lru store image context value cacheable d).1 ≡ suc (count d)
  compute-count image context value true d =
      keep-count image context value (record d { misses = suc d.misses }) ∙ omega arith
  compute-count image context value false d = omega arith

  promote-count :
      (key : K) (o : Option Text) (d : DescriptionCache C P)
      → count (promote hasher lru store key o d).1 ≡ count d
  promote-count key none d = refl
  promote-count key (some v) d = refl

  after_memory-count :
      (key : K) (r : Option Text × C) (d : DescriptionCache C P)
      → count (after_memory hasher lru store key r d).1 ≡ count d
  after_memory-count key (some v, c) d = refl
  after_memory-count key (none, c) d =
      promote-count key (get_persisted hasher lru store key d.persistent) (record d { cache = c })

  image_only-count :
      (image : Image) (d : DescriptionCache C P)
      → count (get_image_only hasher lru store image d).1 ≡ count d
  unfolding get_image_only
  image_only-count image d =
      after_memory-count (hasher.image_key image) (lru.get (hasher.image_key image) d.cache) d

  try_image-count :
      (image : Image) (context : Option String) (value : Text) (cacheable : Bool)
      (d : DescriptionCache C P)
      → count (try_image hasher lru store image context value cacheable d).1 ≡ suc (count d)
  try_image-count image none value cacheable d = compute-count image none value cacheable d
  try_image-count image (some context) value cacheable d =
      let same = image_only-count image d in
      elim (Option-cases (get_image_only hasher lru store image d).0) [
        | inl h ↦
            rw (h, try_image)
              (compute-count image (some context) value cacheable
                  (get_image_only hasher lru store image d).1
                ∙ ap suc same)
        | inr (v, h) ↦ rw (h, try_image) (omega (arith, same))
      ]

  try_persisted-count :
      (image : Image) (context : Option String) (value : Text) (cacheable : Bool)
      (d : DescriptionCache C P)
      → count (try_persisted hasher lru store image context value cacheable d).1 ≡ suc (count d)
  try_persisted-count image context value cacheable d =
      elim (Option-cases
        (get_persisted hasher lru store (key_of hasher lru store image context) d.persistent)) [
          | inl h ↦ rw (h, try_persisted) (try_image-count image context value cacheable d)
          | inr (v, h) ↦ rw (h, try_persisted) (omega arith)
        ]

  -- Every call counts as one hit or one miss.
  pub get_or_compute-count :
      (image : Image) (context : Option String) (value : Text) (cacheable : Bool)
      (d : DescriptionCache C P)
      → count (get_or_compute hasher lru store image context value cacheable d).1 ≡ suc (count d)
  unfolding get_or_compute
  get_or_compute-count image context value cacheable d =
      elim (Option-cases
        (get_cached hasher lru store (key_of hasher lru store image context) d.cache).0) [
          | inl h ↦
              rw (h, get_or_compute)
                (try_persisted-count image context value cacheable (record d {
                  cache =
                      (get_cached hasher lru store (key_of hasher lru store image context)
                        d.cache).1;
                }))
          | inr (v, h) ↦ rw (h, get_or_compute) (omega arith)
        ]
