-- ===== src/Descriptions/Sound.antt =====
-- What the description cache answers is a description of the image it is asked about (src/vision/cache.ts).
use umans_gate.Base.{
  suc, ◌≡◌, refl, subst, ◌⊎◌, inl, inr, Bool, true, Option, none, some, Option-cases, Bool-cases,
  String, Text,
}
use umans_gate.Descriptions.{
  Hasher, LruCache, Entry, PersistentStore, DescriptionCache, get_cached, get_persisted, key_of,
  promote, after_memory, get_image_only, entry, persist, store_dual, keep, compute_and_keep,
  try_image, try_persisted, get_or_compute,
}

-- What lru-cache and a table with unique keys promise: a reading adds nothing, a writing adds what is written.
pub record LruLaws {K C : Type 0} (lru : LruCache K C) : Type 0 where
  pub get-get :
      (j k : K) (c : C) (w : Text)
      → (lru.get j (lru.get k c).1).0 ≡ some w
      → (lru.get j c).0 ≡ some w
  pub get-set :
      (j k : K) (v : Text) (c : C) (w : Text)
      → (lru.get j (lru.set k v c)).0 ≡ some w
      → ((k ≡ j) × (v ≡ w)) ⊎ ((lru.get j c).0 ≡ some w)

pub record StoreLaws {Image K P : Type 0} (store : PersistentStore Image K P) : Type 0 where
  pub get-set :
      (j : K) (e : Entry Image K) (p : P) (w : Text)
      → store.get j (store.set e p) ≡ some w
      → ((e.key ≡ j) × (e.description ≡ w)) ⊎ (store.get j p ≡ some w)

module _ {Image K C P : Type 0} (hasher : Hasher Image K) (lru : LruCache K C)
    (store : PersistentStore Image K P) (lru_laws : LruLaws lru) (store_laws : StoreLaws store)
    (Describes : K → Text → Type 0)
    (lifts : (image : Image) (context : String) (v : Text)
      → Describes (hasher.image_key image) v
      → Describes (hasher.context_key image context) v) where
  abbrev SoundCache : C → Type 0
  SoundCache c = (j : K) (w : Text) → (lru.get j c).0 ≡ some w → Describes j w

  abbrev SoundStore : Option P → Type 0
  SoundStore p = (j : K) (w : Text) → get_persisted hasher lru store j p ≡ some w → Describes j w

  -- Both tiers hold descriptions of what their keys stand for.
  abbrev pub Sound : DescriptionCache C P → Type 0
  Sound d = SoundCache d.cache × SoundStore d.persistent

  set-SoundCache :
      (k : K) (v : Text) (c : C) → Describes k v → SoundCache c → SoundCache (lru.set k v c)
  set-SoundCache k v c good sound j w h = elim (lru_laws.get-set j k v c w h) [
    | inl (e, f) ↦ subst (λ i. Describes i w) e (subst (Describes k) f good)
    | inr g ↦ sound j w g
  ]

  get-SoundCache : (k : K) (c : C) → SoundCache c → SoundCache (lru.get k c).1
  get-SoundCache k c sound j w h = sound j w (lru_laws.get-get j k c w h)

  set-SoundStore :
      (e : Entry Image K) (p : P)
      → Describes e.key e.description
      → SoundStore (some p)
      → SoundStore (some (store.set e p))
  set-SoundStore e p good sound j w h = elim (store_laws.get-set j e p w h) [
    | inl (f, g) ↦ subst (λ i. Describes i w) f (subst (Describes e.key) g good)
    | inr g ↦ sound j w g
  ]

  persist-Sound :
      (e : Entry Image K) (d : DescriptionCache C P)
      → Describes e.key e.description
      → Sound d
      → Sound (persist hasher lru store e d)
  persist-Sound e d good (c, s) = elim (Option-cases d.persistent) [
    | inl h ↦ rw (h, persist) (c, s)
    | inr (p, h) ↦ rw (h, persist) (c, set-SoundStore e p good (subst SoundStore h s))
  ]

  keep-Sound :
      (image : Image) (context : Option String) (value : Text) (d : DescriptionCache C P)
      → Describes (hasher.image_key image) value
      → Sound d
      → Sound (keep hasher lru store image context value d)
  unfolding store_dual
  keep-Sound image none value d good (c, s) =
      let key = hasher.image_key image in
      persist-Sound (entry hasher lru store key image value)
        (record d { cache = lru.set key value d.cache }) good
        (set-SoundCache key value d.cache good c, s)
  keep-Sound image (some context) value d good (c, s) =
      let context_key = hasher.context_key image context in
      let image_key = hasher.image_key image in
      let filled = record d {
        cache = lru.set image_key value (lru.set context_key value d.cache);
      } in
      let e = entry hasher lru store context_key image value in
      persist-Sound (entry hasher lru store image_key image value)
        (persist hasher lru store e filled) good
        (persist-Sound e filled (lifts image context value good) (
          set-SoundCache image_key value (lru.set context_key value d.cache) good
              (set-SoundCache context_key value d.cache (lifts image context value good) c),
          s,
        ))

  -- What was found is a description of its key.
  abbrev Found : K → Option Text × DescriptionCache C P → Type 0
  Found k r = ((v : Text) → r.0 ≡ some v → Describes k v) × Sound r.1

  promote-Found :
      (k : K) (o : Option Text) (d : DescriptionCache C P)
      → ((v : Text) → o ≡ some v → Describes k v)
      → Sound d
      → Found k (promote hasher lru store k o d)
  promote-Found k none d good sound = (good, sound)
  promote-Found k (some v) d good (c, s) = (good, (set-SoundCache k v d.cache (good v refl) c, s))

  after_memory-Found :
      (k : K) (r : Option Text × C) (d : DescriptionCache C P)
      → ((v : Text) → r.0 ≡ some v → Describes k v)
      → SoundCache r.1
      → SoundStore d.persistent
      → Found k (after_memory hasher lru store k r d)
  after_memory-Found k (some v, c) d good sound s = (good, (sound, s))
  after_memory-Found k (none, c) d good sound s =
      promote-Found k (get_persisted hasher lru store k d.persistent) (record d { cache = c }) (s k)
        (sound, s)

  image_only-Found :
      (image : Image) (d : DescriptionCache C P)
      → Sound d
      → Found (hasher.image_key image) (get_image_only hasher lru store image d)
  unfolding get_image_only
  image_only-Found image d (c, s) =
      let k = hasher.image_key image in
      after_memory-Found k (lru.get k d.cache) d (c k) (get-SoundCache k d.cache c) s

  cached-Found :
      (k : K) (d : DescriptionCache C P)
      → Sound d
      → Found k (
        (get_cached hasher lru store k d.cache).0,
        record d { cache = (get_cached hasher lru store k d.cache).1 },
      )
  cached-Found k d (c, s) = elim (Bool-cases (lru.has k d.cache)) [
    | inl e ↦ rw e (c k, (get-SoundCache k d.cache c, s))
    | inr e ↦ rw e ((λ v h. cc), (c, s))
  ]

  -- An answer, with the tiers after it: a description of the key, or the value that was computed.
  abbrev pub Answer : K → Text → Text × DescriptionCache C P → Type 0
  Answer key value r = ((r.0 ≡ value) ⊎ Describes key r.0) × Sound r.1

  module _ (image : Image) (context : Option String) (value : Text) (cacheable : Bool)
      (good : cacheable ≡ true → Describes (hasher.image_key image) value) where
    abbrev key : K
    key = key_of hasher lru store image context

    compute-Answer :
        (d : DescriptionCache C P)
        → Sound d
        → Answer key value (compute_and_keep hasher lru store image context value cacheable d)
    compute-Answer d sound = elim (Bool-cases cacheable) [
      | inl e ↦ rw e (
        inl refl,
        keep-Sound image context value (record d { misses = suc d.misses }) (good e) sound,
      )
      | inr e ↦ rw e (inl refl, sound)
    ]

    try_persisted-Answer :
        (d : DescriptionCache C P)
        → ((d : DescriptionCache C P)
            → Sound d
            → Answer key value (try_image hasher lru store image context value cacheable d))
        → Sound d
        → Answer key value (try_persisted hasher lru store image context value cacheable d)
    try_persisted-Answer d next (c, s) =
        elim (Option-cases (get_persisted hasher lru store key d.persistent)) [
          | inl h ↦ rw (h, try_persisted) (next d (c, s))
          | inr (v, h) ↦
              rw (h, try_persisted)
                (inr (s key v h), (set-SoundCache key v d.cache (s key v h) c, s))
        ]

  module _ (image : Image) (value : Text) (cacheable : Bool)
      (good : cacheable ≡ true → Describes (hasher.image_key image) value) where
    try_image-Answer :
        (context : Option String) (d : DescriptionCache C P)
        → Sound d
        → Answer
            (key_of hasher lru store image context)
            value
            (try_image hasher lru store image context value cacheable d)
    try_image-Answer none d sound = compute-Answer image none value cacheable good d sound
    try_image-Answer (some context) d sound =
        let (found, sound') = image_only-Found image d sound in
        let d' = (get_image_only hasher lru store image d).1 in
        elim (Option-cases (get_image_only hasher lru store image d).0) [
          | inl h ↦
              rw (h, try_image) (compute-Answer image (some context) value cacheable good d' sound')
          | inr (v, h) ↦
              let described = lifts image context v (found v h) in
              rw (h, try_image)
                (
                  inr described,
                  (
                    set-SoundCache (hasher.context_key image context) v d'.cache described sound'.0,
                    sound'.1,
                  ),
                )
        ]

    -- While both tiers hold descriptions of what their keys stand for, and a value that may be kept describes the image,
    -- an answer is the value computed or a description of what was asked, and the tiers stay so.
    pub get_or_compute-Answer :
        (context : Option String) (d : DescriptionCache C P)
        → Sound d
        → Answer
            (key_of hasher lru store image context)
            value
            (get_or_compute hasher lru store image context value cacheable d)
    unfolding get_or_compute
    get_or_compute-Answer context d sound =
        let k = key_of hasher lru store image context in
        let (found, sound') = cached-Found k d sound in
        elim (Option-cases (get_cached hasher lru store k d.cache).0) [
          | inl h ↦
              rw (h, get_or_compute)
                (try_persisted-Answer image context value cacheable good
                  (record d { cache = (get_cached hasher lru store k d.cache).1 })
                  (try_image-Answer context) sound')
          | inr (v, h) ↦ rw (h, get_or_compute) (inr (found v h), sound')
        ]
