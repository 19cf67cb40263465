-- ===== src/Decision/Strategies.antt =====
-- src/cats_py/strategies: the interface of a strategy and the three strategies.
use nofx_cats_py.Prelude.{
  Bool, ◌&&◌, ◌||◌, Option, none, some, String, List, [], ◌∷◌, if◌then◌else◌,
}
use nofx_cats_py.Prelude.Int.{pos, negsuc}
use nofx_cats_py.Num.{Number, ◌+◌, ◌*◌, ◌/◌, ◌<?◌, ◌≤?◌, num, lit, abs, min, max}
use nofx_cats_py.Domain.Enums.{Side, buy, sell, MarketRegime, trend, range, crowding}
use nofx_cats_py.Domain.Signals.{FeatureVector, SignalCandidate}
use nofx_cats_py.Decision.Features.{is_hot}

-- `Strategy`: what the engine calls of one.
pub record Strategy (F : Type 0) : Type 0 where
  pub name : String
  pub generate : FeatureVector F → Option (SignalCandidate F)
  pub skip_reason : FeatureVector F → String

module _ {F : Type 0} ⦃n : Number F⦄ where
  -- `SignalCandidate(…)` with the defaults that the strategies leave in place.
  abbrev pub candidate :
      FeatureVector F
      → MarketRegime
      → Side
      → (conviction expected_edge_bps stop_distance_pct : F) → (rationale : List String)
      → (strategy_name : String) → SignalCandidate F
  candidate feature regime side conviction edge stop rationale name = record {
    symbol = feature.symbol;
    regime = regime;
    side = side;
    conviction = conviction;
    expected_edge_bps = edge;
    stop_distance_pct = stop;
    rationale = rationale;
    strategy_name = name;
    action_score = num 0;
    cluster = none;
    leverage_bracket_cap = none;
  }

  abbrev pub ai_gate : FeatureVector F → F
  ai_gate feature = max (feature.ai500_score / num 100) feature.ai300_level_score

  abbrev pub trend_candidate : FeatureVector F → Side → List String → SignalCandidate F
  trend_candidate feature side rationale =
      candidate feature trend side
        (min (num 1)
          (lit (pos 45) 2 + abs feature.trend_score * num 5 + ai_gate feature * lit (pos 15) 2))
        (num 18) (max (lit (pos 8) 3) (abs feature.price_change_15m * num 2)) rationale
        "trend_following"

  -- `TrendFollowingStrategy.generate`
  unfoldable pub trend_generate : FeatureVector F → Option (SignalCandidate F)
  trend_generate feature =
      if ai_gate feature <? lit (pos 70) 2
      then none
      else if lit (pos 2) 2 <? feature.crowding_score
      then none
      else if (num 0 <? feature.trend_score)
          && (num 0 <? feature.flow_score)
          && (num 0 <? feature.oi_score)
      then some (
          trend_candidate feature buy (
            "AI score gate active" ∷ "price trend aligned across 15m/1h/4h"
            ∷ "institutional futures flow positive" ∷ "Binance and Bybit OI expansion aligned"
            ∷ "crowding not yet extreme" ∷ []))
      else if (feature.trend_score <? num 0)
          && (feature.flow_score <? num 0)
          && (num 0 <? feature.oi_score)
      then some (
          trend_candidate feature sell (
            "AI score gate active" ∷ "negative trend aligned across multiple windows"
            ∷ "institutional futures flow negative"
            ∷ "OI remains elevated, downside continuation risk present" ∷ "crowding not yet extreme"
            ∷ []))
      else none

  abbrev pub crowding_candidate : FeatureVector F → Side → List String → SignalCandidate F
  crowding_candidate feature side rationale =
      candidate feature crowding side
        (min (lit (pos 95) 2) (lit (pos 45) 2 + abs feature.funding_rate * num 100 + lit (pos 1) 1))
        (num 16) (max (lit (pos 7) 3) (abs feature.price_change_15m * lit (pos 15) 1)) rationale
        "crowding_reversal"

  -- `CrowdingReversalStrategy.generate`
  unfoldable pub crowding_generate : FeatureVector F → Option (SignalCandidate F)
  crowding_generate feature =
      let hot = is_hot feature.query_rank in
      let long_crowded = (lit (pos 15) 4 ≤? feature.funding_rate) && hot in
      let short_crowded = (feature.funding_rate ≤? lit (negsuc 14) 4) && hot in
      if long_crowded && (feature.heatmap_delta ≤? num 0) && (feature.price_change_15m ≤? num 0)
      then some (
          crowding_candidate feature sell (
            "positive funding indicates crowded longs" ∷ "community heat remains elevated"
            ∷ "heatmap delta is no longer bid-dominant" ∷ "short-term price impulse has stalled"
            ∷ []))
      else if short_crowded
          && (num 0 ≤? feature.heatmap_delta)
          && (num 0 ≤? feature.price_change_15m)
      then some (
          crowding_candidate feature buy (
            "negative funding indicates crowded shorts" ∷ "community heat remains elevated"
            ∷ "heatmap delta turned bid-dominant" ∷ "short-term price impulse is recovering" ∷ []))
      else none

  abbrev pub range_candidate : FeatureVector F → Side → List String → SignalCandidate F
  range_candidate feature side rationale =
      candidate feature range side
        (min (lit (pos 9) 1) (
          lit (pos 45) 2 + abs feature.price_change_15m * num 8 + ai_gate feature * lit (pos 10) 2))
        (num 12) (max (lit (pos 6) 3) (abs feature.price_change_15m * lit (pos 125) 2)) rationale
        "range_reversion"

  -- The four early returns of `RangeReversionStrategy.generate`.
  abbrev pub range_gated : FeatureVector F → Bool
  range_gated feature =
      (ai_gate feature <? lit (pos 55) 2)
      || (abs feature.price_change_15m <? lit (pos 4) 3)
      || (lit (pos 5) 2 <? abs feature.trend_score)
      || (lit (pos 25) 4 <? abs feature.funding_rate)

  -- `RangeReversionStrategy.generate`
  unfoldable pub range_generate : FeatureVector F → Option (SignalCandidate F)
  range_generate feature =
      if range_gated feature
      then none
      else if (num 0 <? feature.price_change_15m)
          && (feature.heatmap_delta <? num 0)
          && (feature.flow_score ≤? num 0)
      then some (
          range_candidate feature sell (
            "short-term upside stretch is fading"
            ∷ "heatmap turned offer-heavy inside a range regime"
            ∷ "institutional futures flow is no longer supportive"
            ∷ "crowding remains contained for a mean-reversion setup" ∷ []))
      else if (feature.price_change_15m <? num 0)
          && (num 0 <? feature.heatmap_delta)
          && (num 0 ≤? feature.flow_score)
      then some (
          range_candidate feature buy (
            "short-term downside stretch is fading"
            ∷ "heatmap turned bid-heavy inside a range regime"
            ∷ "institutional futures flow stopped deteriorating"
            ∷ "crowding remains contained for a mean-reversion setup" ∷ []))
      else none
