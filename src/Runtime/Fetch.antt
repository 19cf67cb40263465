-- ===== src/Runtime/Fetch.antt =====
-- src/cats_py/services/decision_runtime.py: `_build_feature`, which asks the cache three times, and the
-- table of the features that a cycle gathers.
use nofx_cats_py.Prelude.{
  ℕ, ◌≡◌, ◌≤◌, refl, false, Option, none, some, String, List, [], ◌∷◌, inl, inr, ◌⊎◌, length, ltb,
  or_else, string_eq, pair_eq, arith, subst, Option-cases, if◌then◌else◌,
}
use nofx_cats_py.Prelude.Int.{ℤ}
use nofx_cats_py.Result.{Result, ok, raise, ok-injective, Result-cases}
use nofx_cats_py.Raise.{◌>>=◌, >>=-eq-ok}
use nofx_cats_py.Dict.{Dict, lookup, insert}
use nofx_cats_py.Num.{Number, Float, IsStrictOrder, ◌<?◌, num, max, elapsed}
use nofx_cats_py.Json.{Json}
use nofx_cats_py.Domain.Signals.{FeatureVector}
use nofx_cats_py.User.Values.{Timing}
use nofx_cats_py.Nofx.Values.{without_usdt}
use nofx_cats_py.Nofx.Snapshot.{normalize_coin_snapshot}
use nofx_cats_py.Runtime.Cache.{
  Cache, CachedPayload, NofxRequestStats, cache_max_size, cached_at, get_cached_payload,
  length-store,
}

-- One call of the cache: the clock's reading, and the answer if it is asked for.
pub record Call (F : Type 0) : Type 0 where
  pub at : ℕ
  pub answer : Result (Json F)

-- The calls of one feature, and the lifetimes of their payloads.
pub record Calls (F : Type 0) : Type 0 where
  pub coin : Call F
  pub funding : Call F
  pub heatmap : Call F
  pub coin_ttl_seconds : ℤ
  pub funding_ttl_seconds : ℤ
  pub heatmap_ttl_seconds : ℤ

abbrev pub Requests : Type 0 → Type 0
Requests F = Cache F × NofxRequestStats

module _ {F : Type 0} ⦃n : Number F⦄ ⦃f : Float F⦄ where
  -- A payload is asked for, and the statements that need it follow if there is one.
  unfoldable pub ask :
      {B : Type 0}
      → String × String
      → (ttl_seconds : ℤ) → Call F
      → (CachedPayload F → Requests F → Requests F × Result B)
      → Requests F
      → Requests F × Result B
  unfolding get_cached_payload
  ask key ttl call rest s =
      let (s', got) = get_cached_payload key ttl call.at call.answer s in
      elim got [ raise e ↦ (s', raise e) | ok cached ↦ rest cached s' ]

abbrev later : ℕ → ℕ → ℕ
later a b = if ltb a b then b else a

module _ {F : Type 0} ⦃n : Number F⦄ ⦃f : Float F⦄ ⦃t : Timing F⦄ where
  -- The feature from the three payloads; `clock` is the time now where the payloads have none.
  unfoldable pub feature_of :
      (symbol : String) (now clock : ℕ) (query_rank_map : Dict String ℤ)
      (ai300_level_map : Dict String F) (coin funding heatmap : CachedPayload F)
      → Result (FeatureVector F)
  unfolding normalize_coin_snapshot
  feature_of symbol now clock ranks levels coin funding heatmap = do
    feature ←
        normalize_coin_snapshot clock symbol coin.payload funding.payload heatmap.payload
          (lookup symbol ranks) (or_else (lookup symbol levels) (num 0))
    let fetched = later (later coin.fetched_at funding.fetched_at) heatmap.fetched_at
    ok (record feature {
      source_ts = some feature.ts;
      ts = fetched;
      stale_seconds = max (elapsed now fetched) (num 0);
      source_lag_seconds = max (elapsed now feature.ts) (num 0);
    })

  unfoldable pub build_feature :
      (symbol : String) (now clock : ℕ)
      → Calls F
      → (query_rank_map : Dict String ℤ) (ai300_level_map : Dict String F) → Requests F
      → Requests F × Result (FeatureVector F)
  unfolding ask feature_of
  build_feature symbol now clock calls ranks levels =
      let base = without_usdt symbol in
      ask ("coin", symbol) calls.coin_ttl_seconds calls.coin
        (λ coin.
          ask ("funding_rate", base) calls.funding_ttl_seconds calls.funding
            (λ funding.
              ask ("heatmap_future", base) calls.heatmap_ttl_seconds calls.heatmap
                (λ heatmap s. (s, feature_of symbol now clock ranks levels coin funding heatmap))))

  -- `features[sym] = fv` for each task that ended with a feature.
  unfoldable pub gathered :
      List (String × Option (FeatureVector F))
      → Dict String (FeatureVector F)
      → Dict String (FeatureVector F)
  gathered [] features = features
  gathered ((symbol, none) ∷ rest) features = gathered rest features
  gathered ((symbol, some fv) ∷ rest) features = gathered rest (insert symbol fv features)

module _ {F : Type 0} ⦃n : Number F⦄ (order : IsStrictOrder F) where
  max_zero : (a : F) → (max a (num 0) <? num 0) ≡ false
  max_zero a = ground (arith, order.irrefl (num 0))

module _ {F : Type 0} ⦃n : Number F⦄ ⦃f : Float F⦄ where
  -- The cache of the requests is within its bound.
  abbrev pub IsBounded : Requests F → Type 0
  IsBounded (cache, stats) = length cache ≤ cache_max_size

  get_cached_payload-IsBounded :
      (key : String × String) (ttl : ℤ) (at : ℕ) (answer : Result (Json F)) (s : Requests F)
      → IsBounded s
      → IsBounded (get_cached_payload key ttl at answer s).0
  unfolding get_cached_payload
  get_cached_payload-IsBounded key ttl at (raise e) (cache, stats) small =
      elim (Option-cases (cached_at key ttl at cache)) [
        | inl missed ↦ rw (missed, get_cached_payload) small
        | inr (cached, hit) ↦ rw (hit, get_cached_payload) small
      ]
  get_cached_payload-IsBounded key ttl at (ok payload) (cache, stats) small =
      elim (Option-cases (cached_at key ttl at cache)) [
        | inl missed ↦
            rw (missed, get_cached_payload)
              ((length-store key (record { payload = payload; fetched_at = at }) cache small).0)
        | inr (cached, hit) ↦ rw (hit, get_cached_payload) small
      ]

  ask-IsBounded :
      {B : Type 0} (key : String × String) (ttl : ℤ) (call : Call F)
      (rest : CachedPayload F → Requests F → Requests F × Result B) (s : Requests F)
      → IsBounded s
      → ((cached : CachedPayload F) (s : Requests F) → IsBounded s → IsBounded (rest cached s).0)
      → IsBounded (ask key ttl call rest s).0
  unfolding ask
  ask-IsBounded key ttl call rest s small more =
      let held = get_cached_payload-IsBounded key ttl call.at call.answer s small in
      let outcome = get_cached_payload key ttl call.at call.answer s in
      elim (Result-cases outcome.1) [
        | inr (e, failed) ↦ rw (failed, ask) held
        | inl (cached, got) ↦ rw (got, ask) (more cached outcome.0 held)
      ]

module _ {F : Type 0} ⦃n : Number F⦄ ⦃f : Float F⦄ ⦃t : Timing F⦄ where
  -- The requests for a feature, in whichever way they end, keep the cache within its bound.
  pub build_feature-IsBounded :
      (symbol : String) (now clock : ℕ) (calls : Calls F) (ranks : Dict String ℤ)
      (levels : Dict String F) (s : Requests F)
      → IsBounded s
      → IsBounded (build_feature symbol now clock calls ranks levels s).0
  unfolding build_feature
  build_feature-IsBounded symbol now clock calls ranks levels s small =
      let base = without_usdt symbol in
      let third : CachedPayload F
          → CachedPayload F
          → CachedPayload F
          → Requests F
          → Requests F × Result (FeatureVector F) =
        λ coin funding heatmap s.
          (s, feature_of symbol now clock ranks levels coin funding heatmap) in
      let second = λ (coin funding : CachedPayload F).
        ask ("heatmap_future", base) calls.heatmap_ttl_seconds calls.heatmap (third coin funding) in
      let first = λ (coin : CachedPayload F).
        ask ("funding_rate", base) calls.funding_ttl_seconds calls.funding (second coin) in
      ask-IsBounded ("coin", symbol) calls.coin_ttl_seconds calls.coin first s small
        (λ coin s1 small1.
          ask-IsBounded ("funding_rate", base) calls.funding_ttl_seconds calls.funding (second coin)
            s1 small1
            (λ funding s2 small2.
              ask-IsBounded ("heatmap_future", base) calls.heatmap_ttl_seconds calls.heatmap
                (third coin funding) s2 small2 (λ heatmap s3 small3. small3)))

  -- The time is that of the last of the three fetches.
  abbrev pub IsLastFetch : (coin funding heatmap : CachedPayload F) → ℕ → Type 0
  IsLastFetch coin funding heatmap at =
      (coin.fetched_at ≤ at)
      × (funding.fetched_at ≤ at)
      × (heatmap.fetched_at ≤ at)
      × ((at ≡ coin.fetched_at) ⊎ (at ≡ funding.fetched_at) ⊎ (at ≡ heatmap.fetched_at))

  later-IsLastFetch :
      (coin funding heatmap : CachedPayload F)
      → IsLastFetch coin funding heatmap
          (later (later coin.fetched_at funding.fetched_at) heatmap.fetched_at)
  later-IsLastFetch coin funding heatmap = (ground arith, ground arith, ground arith, ground arith)

  -- The snapshot of the three payloads.
  abbrev pub snapshot_of :
      (symbol : String) (clock : ℕ) (ranks : Dict String ℤ) (levels : Dict String F)
      (coin funding heatmap : CachedPayload F)
      → Result (FeatureVector F)
  snapshot_of symbol clock ranks levels coin funding heatmap =
      normalize_coin_snapshot clock symbol coin.payload funding.payload heatmap.payload
        (lookup symbol ranks) (or_else (lookup symbol levels) (num 0))

  -- A feature is as old as the last fetch of its three payloads, and its lag is the age of the snapshot
  -- that they make; both are times up to `now`, and zero where they would be negative.
  pub feature_of-age :
      (order : IsStrictOrder F) (symbol : String) (now clock : ℕ) (ranks : Dict String ℤ)
      (levels : Dict String F) (coin funding heatmap : CachedPayload F) {fv : FeatureVector F}
      → feature_of symbol now clock ranks levels coin funding heatmap ≡ ok fv
      → IsLastFetch coin funding heatmap fv.ts
        × (fv.stale_seconds ≡ max (elapsed now fv.ts) (num 0))
        × ((made : FeatureVector F) × (snapshot_of symbol clock ranks levels coin funding heatmap
              ≡ ok made)
            × (fv.source_ts ≡ some made.ts)
            × (fv.source_lag_seconds ≡ max (elapsed now made.ts) (num 0)))
        × ((fv.stale_seconds <? num 0) ≡ false)
        × ((fv.source_lag_seconds <? num 0) ≡ false)
  unfolding feature_of
  feature_of-age order symbol now clock ranks levels coin funding heatmap h =
      let (made, found, same) =
        >>=-eq-ok (snapshot_of symbol clock ranks levels coin funding heatmap) _ h in
      let fetched = later (later coin.fetched_at funding.fetched_at) heatmap.fetched_at in
      subst
        (λ (fv : FeatureVector F).
          IsLastFetch coin funding heatmap fv.ts
          × (fv.stale_seconds ≡ max (elapsed now fv.ts) (num 0))
          × ((made : FeatureVector F) × (snapshot_of symbol clock ranks levels coin funding heatmap
                ≡ ok made)
              × (fv.source_ts ≡ some made.ts)
              × (fv.source_lag_seconds ≡ max (elapsed now made.ts) (num 0)))
          × ((fv.stale_seconds <? num 0) ≡ false)
          × ((fv.source_lag_seconds <? num 0) ≡ false))
        (ok-injective same)
        (
          later-IsLastFetch coin funding heatmap,
          refl,
          (made, found, refl, refl),
          max_zero order (elapsed now fetched),
          max_zero order (elapsed now made.ts),
        )
