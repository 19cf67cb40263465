-- ===== src/Decision/Skips.antt =====
-- src/cats_py/strategies: why a strategy has no candidate, and the three strategies as records.
use nofx_cats_py.Prelude.{not, ◌||◌, String, if◌then◌else◌}
use nofx_cats_py.Prelude.Int.{pos}
use nofx_cats_py.Num.{Number, ◌<?◌, ◌≤?◌, ◌=?◌, num, lit, abs}
use nofx_cats_py.Domain.Signals.{FeatureVector}
use nofx_cats_py.Decision.Features.{is_hot}
use nofx_cats_py.Decision.Strategies.{
  Strategy, ai_gate, trend_generate, crowding_generate, range_generate,
}

module _ {F : Type 0} ⦃n : Number F⦄ where
  -- `TrendFollowingStrategy.skip_reason`
  unfoldable pub trend_skip_reason : FeatureVector F → String
  trend_skip_reason feature =
      if ai_gate feature <? lit (pos 70) 2
      then "trend_following: ai gate below threshold"
      else if lit (pos 2) 2 <? feature.crowding_score
      then "trend_following: crowding too high"
      else if feature.oi_score ≤? num 0
      then "trend_following: open interest not expanding"
      else if (feature.trend_score =? num 0) || (feature.flow_score =? num 0)
      then "trend_following: trend or flow lacks direction"
      else "trend_following: trend and flow are not aligned"

  -- `CrowdingReversalStrategy.skip_reason`
  unfoldable pub crowding_skip_reason : FeatureVector F → String
  crowding_skip_reason feature =
      if not (is_hot feature.query_rank)
      then "crowding_reversal: symbol is not hot enough"
      else if abs feature.funding_rate <? lit (pos 15) 4
      then "crowding_reversal: funding is not extreme enough"
      else if feature.heatmap_delta =? num 0
      then "crowding_reversal: heatmap shows no reversal bias"
      else if feature.price_change_15m =? num 0
      then "crowding_reversal: short-term price impulse is flat"
      else "crowding_reversal: reversal confirmation is incomplete"

  -- `RangeReversionStrategy.skip_reason`
  unfoldable pub range_skip_reason : FeatureVector F → String
  range_skip_reason feature =
      if ai_gate feature <? lit (pos 55) 2
      then "range_reversion: ai gate below threshold"
      else if abs feature.price_change_15m <? lit (pos 4) 3
      then "range_reversion: short-term extension is too small"
      else if lit (pos 5) 2 <? abs feature.trend_score
      then "range_reversion: market is trending, not ranging"
      else if lit (pos 25) 4 <? abs feature.funding_rate
      then "range_reversion: crowding is too elevated for mean reversion"
      else if feature.heatmap_delta =? num 0
      then "range_reversion: heatmap shows no contra move"
      else "range_reversion: flow and heatmap do not confirm reversal"

  abbrev pub trend_following : Strategy F
  trend_following = record {
    name = "trend_following";
    generate = trend_generate;
    skip_reason = trend_skip_reason;
  }

  abbrev pub crowding_reversal : Strategy F
  crowding_reversal = record {
    name = "crowding_reversal";
    generate = crowding_generate;
    skip_reason = crowding_skip_reason;
  }

  abbrev pub range_reversion : Strategy F
  range_reversion = record {
    name = "range_reversion";
    generate = range_generate;
    skip_reason = range_skip_reason;
  }
