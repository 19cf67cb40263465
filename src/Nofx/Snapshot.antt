-- ===== src/Nofx/Snapshot.antt =====
-- `normalize_coin_snapshot`. The `raw` payload of the feature, which only the journal could show, is
-- left out.
use nofx_cats_py.Prelude.{
  ℕ, true, false, Option, none, String, [], ◌∷◌, or_else, string_eq, if◌then◌else◌,
}
use nofx_cats_py.Prelude.Int.{ℤ}
use nofx_cats_py.Result.{Result, ok}
use nofx_cats_py.Raise.{◌>>=◌}
use nofx_cats_py.Dict.{lookup}
use nofx_cats_py.Num.{Number, ◌=?◌, num}
use nofx_cats_py.Json.{Json, get}
use nofx_cats_py.Domain.Signals.{FeatureVector}
use nofx_cats_py.User.Values.{Timing}
use nofx_cats_py.Nofx.Values.{
  field_of, sub, float_or_zero, to_ratio, latest_available_timestamp, extract_reference_price,
  mainstream_ai_defaults,
}

module _ {F : Type 0} ⦃n : Number F⦄ where
  -- The score of a mainstream coin for which the source has none.
  unfoldable pub default_score : (symbol : String) → (score : F) → F
  default_score symbol score =
      if score =? num 0 then or_else (lookup symbol mainstream_ai_defaults) score else score

module _ {F : Type 0} ⦃n : Number F⦄ ⦃t : Timing F⦄ where
  unfoldable pub normalize_coin_snapshot :
      (clock : ℕ) (symbol : String) (coin funding heatmap : Json F) (query_rank : Option ℤ)
      (ai300_level_score : F)
      → Result (FeatureVector F)
  unfolding float_or_zero to_ratio latest_available_timestamp extract_reference_price default_score
  normalize_coin_snapshot clock symbol coin funding heatmap query_rank ai300_level_score = do
    body ← sub "data" coin
    price_change ← sub "price_change" body
    netflow ← sub "netflow" body
    institution ← sub "institution" netflow
    institution_future ← sub "future" institution
    personal ← sub "personal" netflow
    personal_future ← sub "future" personal
    oi ← sub "oi" body
    binance ← sub "binance" oi
    binance_delta ← sub "delta" binance
    oi_binance ← sub "1h" binance_delta
    bybit ← sub "bybit" oi
    bybit_delta ← sub "delta" bybit
    oi_bybit ← sub "1h" bybit_delta
    funding_data ← sub "data" funding
    heatmap_outer ← sub "data" heatmap
    heatmap_data ← sub "heatmap" heatmap_outer
    ai500 ← sub "ai500" body
    funding_time ← field_of "timestamp" funding_data
    heatmap_time ← field_of "timestamp" heatmap_data
    ts ← latest_available_timestamp clock (get "timestamp" body ∷ funding_time ∷ heatmap_time ∷ [])
    score_field ← field_of "score" ai500
    score ← float_or_zero score_field
    price ← extract_reference_price body
    change_15m_field ← field_of "15m" price_change
    change_15m ← to_ratio false change_15m_field
    change_1h ← to_ratio false (get "1h" price_change)
    change_4h ← to_ratio false (get "4h" price_change)
    flow_15m_field ← field_of "15m" institution_future
    flow_15m ← float_or_zero flow_15m_field
    flow_1h ← float_or_zero (get "1h" institution_future)
    flow_4h ← float_or_zero (get "4h" institution_future)
    retail_field ← field_of "1h" personal_future
    retail_1h ← float_or_zero retail_field
    oi_binance_field ← field_of "oi_delta_percent" oi_binance
    oi_binance_1h ← to_ratio true oi_binance_field
    oi_bybit_field ← field_of "oi_delta_percent" oi_bybit
    oi_bybit_1h ← to_ratio true oi_bybit_field
    funding_rate ← to_ratio true (get "funding_rate" funding_data)
    delta ← float_or_zero (get "delta" heatmap_data)
    ok (record {
      symbol = symbol;
      ts = ts;
      source_ts = none;
      reference_price = price;
      ai500_score = default_score symbol score;
      ai300_level_score = ai300_level_score;
      price_change_15m = change_15m;
      price_change_1h = change_1h;
      price_change_4h = change_4h;
      inst_future_flow_15m = flow_15m;
      inst_future_flow_1h = flow_1h;
      inst_future_flow_4h = flow_4h;
      retail_future_flow_1h = retail_1h;
      oi_binance_1h = oi_binance_1h;
      oi_bybit_1h = oi_bybit_1h;
      funding_rate = funding_rate;
      heatmap_delta = delta;
      query_rank = query_rank;
      stale_seconds = num 0;
      source_lag_seconds = num 0;
      trend_score = num 0;
      flow_score = num 0;
      oi_score = num 0;
      crowding_score = num 0;
      source_freshness = num 1;
    })
