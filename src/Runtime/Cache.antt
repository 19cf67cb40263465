-- ===== src/Runtime/Cache.antt =====
-- src/cats_py/services/decision_runtime.py: `_get_cached_payload`. Other tasks run while a request is
-- waited for, so what comes before and what comes after it are two functions.
use Prim.Native.Nat.{◌+◌}
use nofx_cats_py.Prelude.{
  ℕ, ◌≡◌, ◌≤◌, ◌<◌, refl, true, ◌&&◌, Option, none, some, String, [], ◌∷◌, inl, inr, length, leb,
  ltb, is_some, ◌==◌, string_eq, pair_eq, arith, Bool-cases, if◌then◌else◌,
}
use nofx_cats_py.Prelude.Int.{ℤ, pos, ltb_ℤ}
use nofx_cats_py.Result.{Result, ok, raise}
use nofx_cats_py.Dict.{Dict, lookup, insert, remove, lookup-insert_self}
use nofx_cats_py.Num.{Number, Float, ◌<?◌, elapsed, of_int}
use nofx_cats_py.Json.{Json}

pub record CachedPayload (F : Type 0) : Type 0 where
  pub payload : Json F
  pub fetched_at : ℕ

-- `dict[tuple[str, str], CachedPayload]`, by endpoint and key.
abbrev pub Cache : Type 0 → Type 0
Cache F = Dict (String × String) (CachedPayload F)

pub record NofxRequestStats : Type 0 where
  pub api_requests : ℕ
  pub cache_hits : ℕ

-- `self._cache_max_size`
abbrev pub cache_max_size : ℕ
cache_max_size = 256

module _ {F : Type 0} ⦃n : Number F⦄ ⦃f : Float F⦄ where
  -- What the cache answers at the time `now`.
  unfoldable pub cached_at :
      String × String → (ttl_seconds : ℤ) → (now : ℕ) → Cache F → Option (CachedPayload F)
  cached_at key ttl now cache = elim (lookup key cache) [
    | none ↦ none
    | some cached ↦
        let age : F = elapsed now cached.fetched_at in
        if ltb_ℤ (pos 0) ttl && (age <? of_int ttl) then some cached else none
  ]

module _ {F : Type 0} where
  -- `min(cache, key=…fetched_at)`: the first of the oldest entries, behind the one that leads so far.
  unfoldable pub oldest_from : String × String → (at : ℕ) → Cache F → String × String
  oldest_from key at [] = key
  oldest_from key at ((j, cached) ∷ rest) =
      let older = ltb cached.fetched_at at in
      oldest_from (if older then j else key) (if older then cached.fetched_at else at) rest

  unfoldable pub evict_oldest : Cache F → Cache F
  unfolding oldest_from
  evict_oldest [] = []
  evict_oldest ((key, cached) ∷ rest) =
      remove (oldest_from key cached.fetched_at rest) ((key, cached) ∷ rest)

  -- The entry of an answer, with room made for it.
  unfoldable pub store : String × String → CachedPayload F → Cache F → Cache F
  unfolding evict_oldest
  store key cached cache =
      insert key cached (if leb cache_max_size (length cache) then evict_oldest cache else cache)

module _ {F : Type 0} ⦃n : Number F⦄ ⦃f : Float F⦄ where
  -- The whole call where no other task runs in between; an answer that raises changes nothing.
  unfoldable pub get_cached_payload :
      String × String
      → (ttl_seconds : ℤ) → (now : ℕ) → (answer : Result (Json F)) → Cache F × NofxRequestStats
      → (Cache F × NofxRequestStats) × Result (CachedPayload F)
  unfolding cached_at store
  get_cached_payload key ttl now answer (cache, stats) = elim (cached_at key ttl now cache) [
    | some cached ↦ ((cache, record stats { cache_hits = stats.cache_hits + 1 }), ok cached)
    | none ↦ elim answer [
      | raise e ↦ ((cache, stats), raise e)
      | ok payload ↦
          let cached : CachedPayload F = record { payload = payload; fetched_at = now } in
          (
            (store key cached cache, record stats { api_requests = stats.api_requests + 1 }),
            ok cached,
          )
    ]
  ]

module _ {V : Type 0} where
  length-insert :
      (k : String × String) (v : V) (d : Dict (String × String) V)
      → length (insert k v d) ≤ length d + 1
  unfolding insert
  length-insert k v [] = ground arith
  length-insert k v ((j, w) ∷ d) = ground (arith, length-insert k v d)

  length-remove_le :
      (k : String × String) (d : Dict (String × String) V) → length (remove k d) ≤ length d
  unfolding remove
  length-remove_le k [] = ground arith
  length-remove_le k ((j, w) ∷ d) = ground (arith, length-remove_le k d)

  length-remove :
      (k : String × String) (d : Dict (String × String) V)
      → is_some (lookup k d) ≡ true
      → length (remove k d) + 1 ≤ length d
  unfolding remove lookup
  length-remove k [] h = ground arith
  length-remove k ((j, w) ∷ d) h = elim (Bool-cases (j == k)) [
    | inl here ↦ ground (arith, length-remove_le k d)
    | inr later ↦ ground (arith, length-remove k d (ground arith))
  ]

  contains-first :
      (j : String × String) (v : V) (rest : Dict (String × String) V)
      → is_some (lookup j ((j, v) ∷ rest)) ≡ true
  unfolding lookup
  contains-first j v rest =
      let same : (j == j) ≡ true = (pair_eq.beq_iff j j).1 refl in rw (same, lookup) refl

  contains-later :
      (j : String × String) (v : V) (rest : Dict (String × String) V) (i : String × String)
      → is_some (lookup i rest) ≡ true
      → is_some (lookup i ((j, v) ∷ rest)) ≡ true
  unfolding lookup
  contains-later j v rest i h = ground arith

module _ {F : Type 0} where
  contains-oldest_from :
      (key : String × String) (at : ℕ) (rest whole : Cache F)
      → is_some (lookup key whole) ≡ true
      → ((j : String × String) → is_some (lookup j rest) ≡ true → is_some (lookup j whole) ≡ true)
      → is_some (lookup (oldest_from key at rest) whole) ≡ true
  unfolding oldest_from
  contains-oldest_from key at [] whole here more = here
  contains-oldest_from key at ((j, cached) ∷ rest) whole here more =
      let later = λ (i : String × String) (h : is_some (lookup i rest) ≡ true).
        more i (contains-later j cached rest i h) in
      elim (Bool-cases (ltb cached.fetched_at at)) [
        | inl older ↦ rw older (
            contains-oldest_from j cached.fetched_at rest whole
              (more j (contains-first j cached rest)) later)
        | inr newer ↦ rw newer (contains-oldest_from key at rest whole here later)
      ]

  length-evict_oldest :
      (cache : Cache F)
      → leb 1 (length cache) ≡ true
      → length (evict_oldest cache) + 1 ≤ length cache
  unfolding evict_oldest
  length-evict_oldest [] h = ground arith
  length-evict_oldest ((key, cached) ∷ rest) h =
      length-remove (oldest_from key cached.fetched_at rest) ((key, cached) ∷ rest) (
        contains-oldest_from key cached.fetched_at rest ((key, cached) ∷ rest)
          (contains-first key cached rest) (λ j found. contains-later key cached rest j found))

  -- No store takes the cache past its maximal size, and what is stored is found, whatever other tasks
  -- stored before it.
  pub length-store :
      (key : String × String) (cached : CachedPayload F) (cache : Cache F)
      → length cache ≤ cache_max_size
      → (length (store key cached cache) ≤ cache_max_size)
        × (lookup key (store key cached cache) ≡ some cached)
  unfolding store
  length-store key cached cache small = elim (Bool-cases (leb cache_max_size (length cache))) [
    | inl full ↦
        let room = length-evict_oldest cache (ground arith) in
        let grown = length-insert key cached (evict_oldest cache) in
        rw full
          (omega (arith, room, grown, small), lookup-insert_self key cached (evict_oldest cache))
    | inr free ↦
        let grown = length-insert key cached cache in
        let below : length cache < cache_max_size = ground arith in
        rw free (omega (arith, grown, below), lookup-insert_self key cached cache)
  ]
