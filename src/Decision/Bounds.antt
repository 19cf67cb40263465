-- ===== src/Decision/Bounds.antt =====
-- The bounds that the three strategies put on their candidates.
use nofx_cats_py.Prelude.{◌≡◌, ◌⊎◌, true, false, some, String, List, arith, ap, sym, subst}
use nofx_cats_py.Prelude.Int.{pos, negsuc}
use nofx_cats_py.Num.{
  Number, IsStrictOrder, ◌<?◌, ◌≤?◌, num, lit, min, max, not_above_min_left, not_below_max_left,
}
use nofx_cats_py.Domain.Enums.{Side, buy, sell}
use nofx_cats_py.Domain.Signals.{FeatureVector, SignalCandidate}
use nofx_cats_py.Decision.Features.{is_hot}
use nofx_cats_py.Decision.Strategies.{
  ai_gate, trend_generate, crowding_generate, range_generate, range_gated, trend_candidate,
  crowding_candidate, range_candidate,
}

module _ {F : Type 0} ⦃n : Number F⦄ where
  -- Conviction and stop distance are inside the bounds `most` and `least`.
  abbrev IsBounded : (most least : F) → SignalCandidate F → Type 0
  IsBounded most least s =
      ((most <? s.conviction) ≡ false) × ((s.stop_distance_pct <? least) ≡ false)

  clamped-IsBounded :
      (order : IsStrictOrder F) (most least conviction stop : F)
      → ((most <? min most conviction) ≡ false) × ((max least stop <? least) ≡ false)
  clamped-IsBounded order most least conviction stop =
      (not_above_min_left order most conviction, not_below_max_left order least stop)

  trend_candidate-IsBounded :
      (order : IsStrictOrder F) (feature : FeatureVector F) (side : Side) (why : List String)
      → IsBounded (num 1) (lit (pos 8) 3) (trend_candidate feature side why)
  trend_candidate-IsBounded order feature side why = clamped-IsBounded order _ _ _ _

  crowding_candidate-IsBounded :
      (order : IsStrictOrder F) (feature : FeatureVector F) (side : Side) (why : List String)
      → IsBounded (lit (pos 95) 2) (lit (pos 7) 3) (crowding_candidate feature side why)
  crowding_candidate-IsBounded order feature side why = clamped-IsBounded order _ _ _ _

  range_candidate-IsBounded :
      (order : IsStrictOrder F) (feature : FeatureVector F) (side : Side) (why : List String)
      → IsBounded (lit (pos 9) 1) (lit (pos 6) 3) (range_candidate feature side why)
  range_candidate-IsBounded order feature side why = clamped-IsBounded order _ _ _ _

  trend_generate-eq :
      (feature : FeatureVector F) {s : SignalCandidate F}
      → trend_generate feature ≡ some s
      → (trend_candidate feature s.side s.rationale ≡ s)
        × (((ai_gate feature <? lit (pos 70) 2) ≡ false)
            × ((lit (pos 2) 2 <? feature.crowding_score) ≡ false)
            × ((num 0 <? feature.oi_score) ≡ true)
            × (((s.side ≡ buy)
                  × ((num 0 <? feature.trend_score) ≡ true)
                  × ((num 0 <? feature.flow_score) ≡ true))
                ⊎ ((s.side ≡ sell)
                    × ((feature.trend_score <? num 0) ≡ true)
                    × ((feature.flow_score <? num 0) ≡ true))))
  unfolding trend_generate
  trend_generate-eq feature {s} h = (ground arith, ground arith)

  -- A trend candidate is for the feature's symbol and follows trend and flow on an expanding open
  -- interest, behind the gates on the AI score and the crowding; its conviction is at most 1, and its
  -- stop at least 0.008 away.
  trend_generate_lem :
      (order : IsStrictOrder F) (feature : FeatureVector F) {s : SignalCandidate F}
      → trend_generate feature ≡ some s
      → (s.symbol ≡ feature.symbol)
        × IsBounded (num 1) (lit (pos 8) 3) s
        × (((ai_gate feature <? lit (pos 70) 2) ≡ false)
            × ((lit (pos 2) 2 <? feature.crowding_score) ≡ false)
            × ((num 0 <? feature.oi_score) ≡ true)
            × (((s.side ≡ buy)
                  × ((num 0 <? feature.trend_score) ≡ true)
                  × ((num 0 <? feature.flow_score) ≡ true))
                ⊎ ((s.side ≡ sell)
                    × ((feature.trend_score <? num 0) ≡ true)
                    × ((feature.flow_score <? num 0) ≡ true))))
  trend_generate_lem order feature {s} h =
      let (same, gates) = trend_generate-eq feature h in
      let bounds = trend_candidate-IsBounded order feature s.side s.rationale in
      (
        ap (λ (c : SignalCandidate F). c.symbol) (sym same),
        subst (IsBounded (num 1) (lit (pos 8) 3)) same bounds,
        gates,
      )

  crowding_generate-eq :
      (feature : FeatureVector F) {s : SignalCandidate F}
      → crowding_generate feature ≡ some s
      → (crowding_candidate feature s.side s.rationale ≡ s)
        × (((is_hot feature.query_rank) ≡ true)
            × (((s.side ≡ buy)
                  × ((feature.funding_rate ≤? lit (negsuc 14) 4) ≡ true)
                  × ((num 0 ≤? feature.heatmap_delta) ≡ true)
                  × ((num 0 ≤? feature.price_change_15m) ≡ true))
                ⊎ ((s.side ≡ sell)
                    × ((lit (pos 15) 4 ≤? feature.funding_rate) ≡ true)
                    × ((feature.heatmap_delta ≤? num 0) ≡ true)
                    × ((feature.price_change_15m ≤? num 0) ≡ true))))
  unfolding crowding_generate
  crowding_generate-eq feature {s} h = (ground arith, ground arith)

  -- A crowding candidate is for the feature's symbol, which is hot, and goes against the side that pays
  -- extreme funding, once heatmap and price no longer support it; its conviction is at most 0.95, and
  -- its stop at least 0.007 away.
  pub crowding_generate_lem :
      (order : IsStrictOrder F) (feature : FeatureVector F) {s : SignalCandidate F}
      → crowding_generate feature ≡ some s
      → (s.symbol ≡ feature.symbol)
        × IsBounded (lit (pos 95) 2) (lit (pos 7) 3) s
        × (((is_hot feature.query_rank) ≡ true)
            × (((s.side ≡ buy)
                  × ((feature.funding_rate ≤? lit (negsuc 14) 4) ≡ true)
                  × ((num 0 ≤? feature.heatmap_delta) ≡ true)
                  × ((num 0 ≤? feature.price_change_15m) ≡ true))
                ⊎ ((s.side ≡ sell)
                    × ((lit (pos 15) 4 ≤? feature.funding_rate) ≡ true)
                    × ((feature.heatmap_delta ≤? num 0) ≡ true)
                    × ((feature.price_change_15m ≤? num 0) ≡ true))))
  crowding_generate_lem order feature {s} h =
      let (same, gates) = crowding_generate-eq feature h in
      let bounds = crowding_candidate-IsBounded order feature s.side s.rationale in
      (
        ap (λ (c : SignalCandidate F). c.symbol) (sym same),
        subst (IsBounded (lit (pos 95) 2) (lit (pos 7) 3)) same bounds,
        gates,
      )

  range_generate-eq :
      (feature : FeatureVector F) {s : SignalCandidate F}
      → range_generate feature ≡ some s
      → (range_candidate feature s.side s.rationale ≡ s)
        × (((range_gated feature) ≡ false)
            × (((s.side ≡ buy)
                  × ((feature.price_change_15m <? num 0) ≡ true)
                  × ((num 0 <? feature.heatmap_delta) ≡ true)
                  × ((num 0 ≤? feature.flow_score) ≡ true))
                ⊎ ((s.side ≡ sell)
                    × ((num 0 <? feature.price_change_15m) ≡ true)
                    × ((feature.heatmap_delta <? num 0) ≡ true)
                    × ((feature.flow_score ≤? num 0) ≡ true))))
  unfolding range_generate
  range_generate-eq feature {s} h = (ground arith, ground arith)

  -- A range candidate is for the feature's symbol, passes the four gates, and goes against a short-term
  -- move that heatmap and flow no longer support; its conviction is at most 0.9, and its stop at least
  -- 0.006 away.
  pub range_generate_lem :
      (order : IsStrictOrder F) (feature : FeatureVector F) {s : SignalCandidate F}
      → range_generate feature ≡ some s
      → (s.symbol ≡ feature.symbol)
        × IsBounded (lit (pos 9) 1) (lit (pos 6) 3) s
        × (((range_gated feature) ≡ false)
            × (((s.side ≡ buy)
                  × ((feature.price_change_15m <? num 0) ≡ true)
                  × ((num 0 <? feature.heatmap_delta) ≡ true)
                  × ((num 0 ≤? feature.flow_score) ≡ true))
                ⊎ ((s.side ≡ sell)
                    × ((num 0 <? feature.price_change_15m) ≡ true)
                    × ((feature.heatmap_delta <? num 0) ≡ true)
                    × ((feature.flow_score ≤? num 0) ≡ true))))
  range_generate_lem order feature {s} h =
      let (same, gates) = range_generate-eq feature h in
      let bounds = range_candidate-IsBounded order feature s.side s.rationale in
      (
        ap (λ (c : SignalCandidate F). c.symbol) (sym same),
        subst (IsBounded (lit (pos 9) 1) (lit (pos 6) 3)) same bounds,
        gates,
      )
