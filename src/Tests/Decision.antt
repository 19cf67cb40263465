-- ===== src/Tests/Decision.antt =====
-- The decision engine and the exits on concrete features.
use nofx_cats_py.Prelude.{
  Memᴰ, ℕ, ◌≡◌, ◌⊎◌, ◌↔◌, refl, true, false, ◌||◌, none, some, String, [], ◌∷◌, All, map, select,
  string_eq, or_else,
}
use nofx_cats_py.Prelude.Int.{ℤ, pos, negsuc}
use nofx_cats_py.Result.{ok}
use nofx_cats_py.Dict.{Dict, values, lookup}
use nofx_cats_py.Num.{
  fixed, fixed_decimal, fixed_float, fixed_conversion, fixed-IsStrictOrder, lit, min_of, ◌<?◌,
}
use nofx_cats_py.Domain.Enums.{execute, unknown_regime, is_defense, tier_eq}
use nofx_cats_py.Domain.Signals.{
  FeatureVector, SignalCandidate, RiskDecision, TradeDecision, trade_execute, trade_no_trade,
}
use nofx_cats_py.Risk.Kernel.{
  evaluate, account_gates, symbol_gates, sizing, trade_risk_budget, cluster_exposure,
  cluster_exposure_from,
}
use nofx_cats_py.Decision.Features.{enrich, detect}
use nofx_cats_py.Decision.Skips.{trend_following, crowding_reversal, range_reversion}
use nofx_cats_py.Decision.Strategies.{trend_generate, crowding_generate, range_generate}
use nofx_cats_py.Decision.Allocator.{score}
use nofx_cats_py.Decision.Engine.{
  DecisionEngine, by_score, sorted_from, place_by_score, choose, generate_all, decision_for, decide,
}
use nofx_cats_py.Decision.Choice.{IsApproved, Yields}
use nofx_cats_py.Decision.Best.{candidates, decide-IsBest}
use nofx_cats_py.Exits.Evaluator.{
  PositionEntryMeta, default_exit_config, check_exit, signal_reversal, entry_notional,
  evaluate_exits,
}
use nofx_cats_py.Exits.Reasons.{
  stopped, taken, expired, trailed, check_exit-none_iff, evaluate_exits-eq, ordered, closing,
  must_exit,
}
use nofx_cats_py.Tests.Samples.{
  value_or, whole, kernel, snapshot, signal, feature, position, account,
}

abbrev pub engine : DecisionEngine ℤ
engine = record {
  strategies = trend_following ∷ crowding_reversal ∷ range_reversion ∷ [];
  risk_kernel = kernel;
}

-- One second after the feature's time, and two minutes after it.
abbrev pub soon : ℕ
soon = 1001000000

abbrev late : ℕ
late = 1120000000

abbrev undecided : TradeDecision ℤ ℤ
undecided = trade_no_trade 0 "" "" unknown_regime []

abbrev decision : TradeDecision ℤ ℤ
decision = value_or undecided (decide engine soon soon "id" feature snapshot)

decides : decide engine soon soon "id" feature snapshot ≡ ok decision
unfolding decide enrich detect generate_all trend_generate crowding_generate range_generate choose
    by_score sorted_from place_by_score decision_for evaluate account_gates symbol_gates sizing
    trade_risk_budget cluster_exposure cluster_exposure_from min_of lookup score trade_execute
decides = refl

executes : decision.status ≡ execute
unfolding decide enrich detect generate_all trend_generate crowding_generate range_generate choose
    by_score sorted_from place_by_score decision_for evaluate account_gates symbol_gates sizing
    trade_risk_budget cluster_exposure cluster_exposure_from min_of lookup score trade_execute
executes = refl

decide-IsBest_example :
    (signal : SignalCandidate ℤ) × (risk : RiskDecision ℤ) × Memᴰ signal
      (candidates engine soon feature)
    × (is_defense (detect (enrich soon feature)) ≡ false)
    × IsApproved engine.risk_kernel snapshot signal risk
    × All (Yields engine.risk_kernel snapshot signal) (candidates engine soon feature)
    × (decision.symbol ≡ signal.symbol)
    × (decision.regime ≡ signal.regime)
    × (decision.selected_strategy ≡ some signal.strategy_name)
    × (decision.side ≡ some signal.side)
    × (decision.risk ≡ some risk)
    × (decision.action_score ≡ signal.action_score)
decide-IsBest_example =
    decide-IsBest engine soon soon "id" feature snapshot fixed-IsStrictOrder decides executes

abbrev trend_signal : SignalCandidate ℤ
trend_signal = or_else (trend_generate feature) signal

trend_signals : trend_generate feature ≡ some trend_signal
unfolding trend_generate
trend_signals = refl

-- A feature of a hot symbol whose longs pay extreme funding, and one of a fading upward move.
abbrev crowded : FeatureVector ℤ
crowded = record feature {
  funding_rate = lit (pos 2) 3;
  query_rank = some (pos 1);
  heatmap_delta = whole 0;
  price_change_15m = whole 0;
}

abbrev fading : FeatureVector ℤ
fading = record feature {
  trend_score = lit (pos 1) 2;
  flow_score = whole 0;
  heatmap_delta = lit (negsuc 0) 0;
}

abbrev crowding_signal : SignalCandidate ℤ
crowding_signal = or_else (crowding_generate crowded) signal

crowding_signals : crowding_generate crowded ≡ some crowding_signal
unfolding crowding_generate
crowding_signals = refl

abbrev range_signal : SignalCandidate ℤ
range_signal = or_else (range_generate fading) signal

range_signals : range_generate fading ≡ some range_signal
unfolding range_generate
range_signals = refl

abbrev meta : PositionEntryMeta ℤ
meta = record { entry_time = 0; peak_price = whole 101; strategy_name = "trend_following" }

check_exit-none_iff_example :
    (check_exit default_exit_config position feature (some meta) soon ≡ none) ↔ (
      ((entry_notional position <? whole 1) ≡ true)
      ⊎ ((stopped {F = ℤ} default_exit_config position
            || taken {F = ℤ} default_exit_config position
            || expired {F = ℤ} default_exit_config (some meta) soon
            || trailed {F = ℤ} default_exit_config position (some meta) soon
            || signal_reversal position feature)
          ≡ false))
check_exit-none_iff_example =
    check_exit-none_iff default_exit_config position feature (some meta) soon

abbrev features : Dict String (FeatureVector ℤ)
features = ("BTCUSDT", feature) ∷ []

abbrev no_entries : Dict String (PositionEntryMeta ℤ)
no_entries = []

evaluate_exits-eq_example :
    map ordered (evaluate_exits default_exit_config features no_entries soon soon account)
    ≡ map closing
        (select (must_exit default_exit_config features no_entries soon) (values account.positions))
evaluate_exits-eq_example =
    evaluate_exits-eq default_exit_config features no_entries soon soon account
