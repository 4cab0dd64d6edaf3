-- ===== src/Descriptions.antt =====
-- The cache of image descriptions (src/vision/cache.ts), in memory before a store on disk.
-- An `Image` is the bytes with the recipe, the encoder's version, the model and the prompt's version; an empty
-- context is none. Keys are what the hasher gives; both tiers are given by their operations. `compute` is the value it gives.
pub mod Hits
pub mod Sound
pub mod Faithful
mod Tests
use umans_gate.Base.{
  ℕ, suc, ◌+◌, Bool, true, false, Option, none, some, if◌then◌else◌, String, Text,
}

-- The hashes of an image, of its key, and of its key in a context: what `Bun.CryptoHasher` gives.
pub record Hasher (Image K : Type 0) : Type 0 where
  pub image_hash : Image → K
  pub image_key : Image → K
  pub context_key : Image → String → K

-- The operations of the LRU cache that are called; a reading may move what it reads.
pub record LruCache (K C : Type 0) : Type 0 where
  pub get : K → C → Option Text × C
  pub has : K → C → Bool
  pub set : K → Text → C → C

pub record Entry (Image K : Type 0) : Type 0 where
  pub key : K
  pub description : Text
  pub image_hash : K
  pub source : Image

pub record PersistentStore (Image K P : Type 0) : Type 0 where
  pub get : K → P → Option Text
  pub set : Entry Image K → P → P

-- `persistent` is none where there is no store.
pub record DescriptionCache (C P : Type 0) : Type 0 where
  pub cache : C
  pub persistent : Option P
  pub hits : ℕ
  pub misses : ℕ
  pub persistent_hits : ℕ
  pub persistent_writes : ℕ

abbrev pub new : {C P : Type 0} → C → Option P → DescriptionCache C P
new cache persistent = record {
  cache = cache;
  persistent = persistent;
  hits = 0;
  misses = 0;
  persistent_hits = 0;
  persistent_writes = 0;
}

module _ {Image K C P : Type 0} (hasher : Hasher Image K) (lru : LruCache K C)
    (store : PersistentStore Image K P) where
  abbrev pub warm : K → Text → DescriptionCache C P → DescriptionCache C P
  warm key description d = record d { cache = lru.set key description d.cache }

  -- The first tier of getOrCompute: `has`, then `get`.
  abbrev pub get_cached : K → C → Option Text × C
  get_cached key c = if lru.has key c then lru.get key c else (none, c)

  abbrev pub get_persisted : K → Option P → Option Text
  get_persisted key none = none
  get_persisted key (some p) = store.get key p

  abbrev pub hit : DescriptionCache C P → DescriptionCache C P
  hit d = record d { hits = suc d.hits }

  abbrev pub key_of : Image → Option String → K
  key_of image none = hasher.image_key image
  key_of image (some context) = hasher.context_key image context

  -- On disk after a miss in memory; what is found is kept in memory.
  abbrev pub promote : K → Option Text → DescriptionCache C P → Option Text × DescriptionCache C P
  promote key none d = (none, d)
  promote key (some v) d = (some v, record d { cache = lru.set key v d.cache })

  abbrev pub after_memory :
      K → Option Text × C → DescriptionCache C P → Option Text × DescriptionCache C P
  after_memory key (some v, c) d = (some v, record d { cache = c })
  after_memory key (none, c) d =
      promote key (get_persisted key d.persistent) (record d { cache = c })

  unfoldable pub get_image_only : Image → DescriptionCache C P → Option Text × DescriptionCache C P
  get_image_only image d =
      let key = hasher.image_key image in after_memory key (lru.get key d.cache) d

  abbrev pub entry : K → Image → Text → Entry Image K
  entry key image description = record {
    key = key;
    description = description;
    image_hash = hasher.image_hash image;
    source = image;
  }

  abbrev pub persist : Entry Image K → DescriptionCache C P → DescriptionCache C P
  persist e d = elim d.persistent [
    | none ↦ d
    | some p ↦ record d {
      persistent = some (store.set e p);
      persistent_writes = suc d.persistent_writes;
    }
  ]

  unfoldable pub store_dual : Image → String → Text → DescriptionCache C P → DescriptionCache C P
  store_dual image context description d =
      let context_key = hasher.context_key image context in
      let image_key = hasher.image_key image in
      let filled = record d {
        cache = lru.set image_key description (lru.set context_key description d.cache);
      } in
      persist (entry image_key image description)
        (persist (entry context_key image description) filled)

  abbrev pub keep : Image → Option String → Text → DescriptionCache C P → DescriptionCache C P
  keep image (some context) value d = store_dual image context value d
  keep image none value d =
      let key = hasher.image_key image in
      persist (entry key image value) (record d { cache = lru.set key value d.cache })

  -- Nothing was found: the value is computed.
  abbrev pub compute_and_keep :
      Image → Option String → Text → Bool → DescriptionCache C P → Text × DescriptionCache C P
  compute_and_keep image context value cacheable d =
      let missed = record d { misses = suc d.misses } in
      (value, if cacheable then keep image context value missed else missed)

  -- The image alone, where there is a context; what is found is kept for the context.
  abbrev pub try_image :
      Image → Option String → Text → Bool → DescriptionCache C P → Text × DescriptionCache C P
  try_image image none value cacheable d = compute_and_keep image none value cacheable d
  try_image image (some context) value cacheable d = elim (get_image_only image d).0 [
    | none ↦ compute_and_keep image (some context) value cacheable (get_image_only image d).1
    | some v ↦
        let found = (get_image_only image d).1 in
        (v, hit (record found { cache = lru.set (hasher.context_key image context) v found.cache }))
  ]

  abbrev pub try_persisted :
      Image → Option String → Text → Bool → DescriptionCache C P → Text × DescriptionCache C P
  try_persisted image context value cacheable d =
      elim (get_persisted (key_of image context) d.persistent) [
        | none ↦ try_image image context value cacheable d
        | some v ↦ (
          v,
          hit (record d {
            persistent_hits = suc d.persistent_hits;
            cache = lru.set (key_of image context) v d.cache;
          }),
        )
      ]

  unfoldable pub get_or_compute :
      Image → Option String → Text → Bool → DescriptionCache C P → Text × DescriptionCache C P
  unfolding get_image_only store_dual
  get_or_compute image context value cacheable d =
      let looked = get_cached (key_of image context) d.cache in
      elim looked.0 [
        | some v ↦ (v, hit (record d { cache = looked.1 }))
        | none ↦ try_persisted image context value cacheable (record d { cache = looked.1 })
      ]
