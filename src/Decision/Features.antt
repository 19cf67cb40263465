-- ===== src/Decision/Features.antt =====
-- src/cats_py/features/engine.py and src/cats_py/regime/engine.py: what is derived from a feature
-- vector, and the regime that the market is in.
use nofx_cats_py.Prelude.{ℕ, Bool, false, ◌&&◌, Option, none, some, if◌then◌else◌}
use nofx_cats_py.Prelude.Int.{ℤ, pos, leb_ℤ, beq_ℤ}
use nofx_cats_py.Num.{Number, Float, ◌+◌, ◌-◌, ◌/◌, ◌<?◌, ◌≤?◌, num, lit, abs, min, max, elapsed}
use nofx_cats_py.Domain.Enums.{MarketRegime, trend, range, crowding, defense, unknown_regime}
use nofx_cats_py.Domain.Signals.{FeatureVector}

-- `(feature.query_rank or 999) <= 5`; a rank of 0 counts as missing.
abbrev pub is_hot : Option ℤ → Bool
is_hot none = false
is_hot (some rank) = leb_ℤ (if beq_ℤ rank (pos 0) then pos 999 else rank) (pos 5)

module _ {F : Type 0} ⦃n : Number F⦄ ⦃f : Float F⦄ where
  abbrev pub staleness : FeatureVector F → (now : ℕ) → F
  staleness feature now = max (elapsed now feature.ts) (num 0)

  -- `FeatureEngine.enrich`
  unfoldable pub enrich : (now : ℕ) → FeatureVector F → FeatureVector F
  enrich now feature =
      let heat : F = if is_hot feature.query_rank then lit (pos 1) 2 else num 0 in
      record feature {
        stale_seconds = staleness feature now;
        trend_score = feature.price_change_15m + feature.price_change_1h + feature.price_change_4h;
        flow_score =
            feature.inst_future_flow_15m + feature.inst_future_flow_1h
            + feature.inst_future_flow_4h;
        oi_score = feature.oi_binance_1h + feature.oi_bybit_1h;
        crowding_score = abs feature.funding_rate + heat;
        source_freshness = max (num 0) (num 1 - min (staleness feature now) (num 45) / num 45);
      }

module _ {F : Type 0} ⦃n : Number F⦄ where
  -- `RegimeEngine.detect`
  unfoldable pub detect : FeatureVector F → MarketRegime
  detect feature =
      if num 45 <? feature.stale_seconds
      then defense
      else if lit (pos 3) 2 <? feature.crowding_score
      then crowding
      else if (lit (pos 5) 2 <? abs feature.trend_score) && (lit (pos 5) 3 <? abs feature.oi_score)
      then trend
      else if (num 0 <? abs feature.heatmap_delta) && (abs feature.trend_score ≤? lit (pos 5) 2)
      then range
      else unknown_regime
