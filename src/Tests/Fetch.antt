-- ===== src/Tests/Fetch.antt =====
-- The data source's answers, the cache and a feature, on concrete payloads.
use nofx_cats_py.Prelude.{
  ◌≡◌, ◌≤◌, ◌||◌, refl, false, true, some, String, List, [], ◌∷◌, All, length, concat, string_eq,
  pair_eq, arith,
}
use nofx_cats_py.Prelude.Int.{ℤ, pos}
use nofx_cats_py.Result.{ok}
use nofx_cats_py.Dict.{Dict, keys, lookup, insert}
use nofx_cats_py.Num.{fixed, fixed_float, fixed-IsStrictOrder, ◌<?◌, num, max, elapsed}
use nofx_cats_py.Json.{
  Json, Items, int, text, array, object, nil, cons, end, field, get, find, truth,
}
use nofx_cats_py.Domain.Signals.{FeatureVector}
use nofx_cats_py.Nofx.Values.{
  looped, float_or_zero, to_ratio, normalize_timestamp, normalized, latest,
  latest_available_timestamp, price_under, extract_reference_price, ends_with_usdt,
}
use nofx_cats_py.Nofx.Maps.{ranks_from, build_query_rank_map}
use nofx_cats_py.Nofx.Keys.{IsVenueName, build_query_rank_map-IsVenueName}
use nofx_cats_py.Nofx.Snapshot.{default_score, normalize_coin_snapshot}
use nofx_cats_py.Nofx.Universe.{
  build, named_symbols, named, items_of, deduped, contains, is_unique, HasCoins, mentions,
  against_usdt, build-is_unique,
}
use nofx_cats_py.Runtime.Cache.{Cache, CachedPayload, cache_max_size, store, length-store}
use nofx_cats_py.Runtime.Fetch.{feature_of, IsLastFetch, snapshot_of, feature_of-age}
use nofx_cats_py.Tests.Samples.{value_or, whole, feature}
use nofx_cats_py.Tests.User.{sample_timing}

abbrev ranking : Json ℤ
ranking = object (
    field "data"
      (object (
        field "rankings"
          (array (
            cons (object (field "symbol" (text "BTC") (field "rank" (int (pos 1)) end))) (
              cons (object (field "symbol" (text "ETHUSDT") (field "rank" (int (pos 2)) end)))
                nil)))
          end))
      end)

abbrev ranks : Dict String ℤ
ranks = ("BTCUSDT", pos 1) ∷ ("ETHUSDT", pos 2) ∷ []

abbrev coin : CachedPayload ℤ
coin = record {
  payload = object (field "data" (object (field "price" (int (pos 5)) end)) end);
  fetched_at = 100;
}

abbrev nothing : CachedPayload ℤ
nothing = record { payload = object end; fetched_at = 200 }

abbrev fetched : FeatureVector ℤ
fetched = value_or feature (feature_of "BTCUSDT" 300 300 ranks [] coin nothing nothing)

runs :
    (build_query_rank_map ranking ≡ ok ranks)
    × (feature_of "BTCUSDT" 300 300 ranks [] coin nothing nothing ≡ ok fetched)
    × (fetched.reference_price ≡ whole 5)
    × (fetched.ai500_score ≡ whole 75)
unfolding build_query_rank_map ranks_from looped get find concat ends_with_usdt lookup insert
    feature_of normalize_coin_snapshot float_or_zero to_ratio normalize_timestamp normalized latest
    latest_available_timestamp price_under extract_reference_price default_score truth
runs = (refl, refl, refl, refl)

build_query_rank_map-IsVenueName_example : All IsVenueName (keys ranks)
build_query_rank_map-IsVenueName_example = build_query_rank_map-IsVenueName ranking runs.0

feature_of-age_example :
    IsLastFetch coin nothing nothing fetched.ts
    × (fetched.stale_seconds ≡ max (elapsed 300 fetched.ts) (num 0))
    × ((made : FeatureVector ℤ) × (snapshot_of "BTCUSDT" 300 ranks [] coin nothing nothing
          ≡ ok made)
        × (fetched.source_ts ≡ some made.ts)
        × (fetched.source_lag_seconds ≡ max (elapsed 300 made.ts) (num 0)))
    × ((fetched.stale_seconds <? num 0) ≡ false)
    × ((fetched.source_lag_seconds <? num 0) ≡ false)
feature_of-age_example =
    feature_of-age fixed-IsStrictOrder "BTCUSDT" 300 300 ranks [] coin nothing nothing runs.1

abbrev one_entry : Cache ℤ
one_entry = (("coin", "ETHUSDT"), nothing) ∷ []

one_entry-small : length one_entry ≤ cache_max_size
one_entry-small = omega arith

length-store_example :
    (length (store ("coin", "BTCUSDT") coin one_entry) ≤ cache_max_size)
    × (lookup ("coin", "BTCUSDT") (store ("coin", "BTCUSDT") coin one_entry) ≡ some coin)
length-store_example = length-store ("coin", "BTCUSDT") coin one_entry one_entry-small

abbrev coins_of : Items ℤ → Json ℤ
coins_of items = object (field "data" (object (field "coins" (array items) end)) end)

abbrev ai500_coins : Items ℤ
ai500_coins = cons (object (field "pair" (text "BTCUSDT") end)) (
    cons (object (field "pair" (int (pos 5)) end))
      (cons (object (field "pair" (text "ETHUSDT") end)) nil))

abbrev ai300_coins : Items ℤ
ai300_coins =
    cons (object (field "symbol" (text "ETH") end))
      (cons (object (field "symbol" (text "SOL") end)) nil)

abbrev inner : Items ℤ → Json ℤ
inner items = object (field "coins" (array items) end)

coins_of-HasCoins : (items : Items ℤ) → HasCoins (coins_of items) items
unfolding get find
coins_of-HasCoins items = (inner items, refl, refl)

abbrev universe : List String
universe = "BTCUSDT" ∷ "ETHUSDT" ∷ "SOLUSDT" ∷ []

built : build (coins_of ai500_coins) (coins_of ai300_coins) ≡ ok universe
unfolding build named_symbols named items_of deduped get find concat ends_with_usdt
built = refl

build-is_unique_example :
    (is_unique universe ≡ true)
    × ((symbol : String)
        → contains symbol universe ≡ (
            mentions "pair" (λ s. s) ai500_coins symbol
            || mentions "symbol" against_usdt ai300_coins symbol))
build-is_unique_example =
    build-is_unique (coins_of ai500_coins) (coins_of ai300_coins) ai500_coins ai300_coins
      (coins_of-HasCoins ai500_coins) (coins_of-HasCoins ai300_coins) built
