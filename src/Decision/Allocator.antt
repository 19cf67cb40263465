-- ===== src/Decision/Allocator.antt =====
-- src/cats_py/services/meta_allocator.py: the score by which candidates are ranked.
use nofx_cats_py.Prelude.{not, ◌&&◌, string_eq, ◌==◌, if◌then◌else◌}
use nofx_cats_py.Prelude.Int.{pos, negsuc}
use nofx_cats_py.Num.{
  Number, Float, ◌+◌, ◌-◌, ◌*◌, ◌<?◌, ◌=?◌, num, lit, abs, opposite, min, max, round_to,
}
use nofx_cats_py.Domain.Enums.{Side, MarketRegime, is_buy, is_trend, is_range, is_crowding}
use nofx_cats_py.Domain.Signals.{FeatureVector, SignalCandidate}
use nofx_cats_py.Decision.Features.{is_hot}

module _ {F : Type 0} ⦃n : Number F⦄ where
  abbrev pub heatmap_alignment : Side → FeatureVector F → F
  heatmap_alignment side feature =
      if is_buy side && (num 0 <? feature.heatmap_delta)
      then num 3
      else if not (is_buy side) && (feature.heatmap_delta <? num 0)
      then num 3
      else if not (feature.heatmap_delta =? num 0)
      then lit (negsuc 14) 1
      else num 0

  abbrev pub hot_bonus : FeatureVector F → F
  hot_bonus feature = if is_hot feature.query_rank then lit (pos 15) 1 else num 0

  -- `regime_bonus` and `crowding_adjustment`
  abbrev pub adjustments : SignalCandidate F → FeatureVector F → MarketRegime → F × F
  adjustments signal feature regime =
      if signal.strategy_name == "trend_following"
      then (
        if is_trend regime then num 4 else lit (negsuc 1) 0,
        opposite (abs feature.funding_rate) * num 2000,
      )
      else if signal.strategy_name == "crowding_reversal"
      then (
        if is_crowding regime then num 4 else lit (negsuc 0) 0,
        abs feature.funding_rate * num 1500 + hot_bonus feature,
      )
      else if signal.strategy_name == "range_reversion"
      then (
        if is_range regime then lit (pos 35) 1 else lit (negsuc 14) 1,
        max (num 0) (lit (pos 25) 4 - abs feature.funding_rate) * num 1200
            + hot_bonus feature * lit (pos 5) 1,
      )
      else (num 0, num 0)

module _ {F : Type 0} ⦃n : Number F⦄ ⦃f : Float F⦄ where
  -- `MetaAllocator.score`
  unfoldable pub score : SignalCandidate F → FeatureVector F → MarketRegime → F
  score signal feature regime =
      let base = signal.expected_edge_bps * max signal.conviction (lit (pos 1) 1) in
      let penalty = min feature.stale_seconds (num 45) * lit (pos 20) 2 in
      let (regime_bonus, crowding_adjustment) = adjustments signal feature regime in
      round_to 4 (
        base + heatmap_alignment signal.side feature + regime_bonus + crowding_adjustment - penalty)
