-- ===== src/Domain/Signals.antt =====
-- src/cats_py/domain/models.py: features, signals, the account snapshot and the two decisions. The
-- `raw` payload of a feature, which the modelled code never reads, is left out.
use nofx_cats_py.Prelude.{ℕ, Bool, Option, none, some, String, List}
use nofx_cats_py.Prelude.Int.{ℤ}
use nofx_cats_py.Dict.{Dict}
use nofx_cats_py.Num.{Number, num}
use nofx_cats_py.Domain.Enums.{
  Side, MarketRegime, SymbolTier, RiskDecisionStatus, DecisionStatus, execute, no_trade,
}
use nofx_cats_py.Domain.Orders.{OrderRequest}

pub record FeatureVector (F : Type 0) : Type 0 where
  pub symbol : String
  pub ts : ℕ
  pub source_ts : Option ℕ
  pub reference_price : F
  pub ai500_score : F
  pub ai300_level_score : F
  pub price_change_15m : F
  pub price_change_1h : F
  pub price_change_4h : F
  pub inst_future_flow_15m : F
  pub inst_future_flow_1h : F
  pub inst_future_flow_4h : F
  pub retail_future_flow_1h : F
  pub oi_binance_1h : F
  pub oi_bybit_1h : F
  pub funding_rate : F
  pub heatmap_delta : F
  pub query_rank : Option ℤ
  pub stale_seconds : F
  pub source_lag_seconds : F
  pub trend_score : F
  pub flow_score : F
  pub oi_score : F
  pub crowding_score : F
  pub source_freshness : F

pub record SignalCandidate (F : Type 0) : Type 0 where
  pub symbol : String
  pub regime : MarketRegime
  pub side : Side
  pub conviction : F
  pub expected_edge_bps : F
  pub stop_distance_pct : F
  pub rationale : List String
  pub strategy_name : String
  pub action_score : F
  pub cluster : Option String
  pub leverage_bracket_cap : Option F

pub record AccountSnapshot (F : Type 0) : Type 0 where
  pub equity : F
  pub daily_drawdown_pct : F
  pub weekly_drawdown_pct : F
  pub gross_exposure : F
  pub open_positions : ℕ
  pub user_stream_stale_seconds : F
  pub state_mismatch : Bool
  pub reconcile_failures : ℕ
  pub kill_switch_active : Bool
  pub symbol_gross_exposures : Dict String F

pub record RiskDecision (F : Type 0) : Type 0 where
  pub status : RiskDecisionStatus
  pub reason : String
  pub symbol_tier : Option SymbolTier
  pub approved_notional : F
  pub approved_leverage : F
  pub risk_budget_bps : F

pub record TradeDecision (F D : Type 0) : Type 0 where
  pub decision_id : String
  pub created_at : ℕ
  pub status : DecisionStatus
  pub symbol : String
  pub regime : MarketRegime
  pub side : Option Side
  pub rationale : List String
  pub risk : Option (RiskDecision F)
  pub action_score : F
  pub selected_strategy : Option String
  pub order_request : Option (OrderRequest D)

module _ {F D : Type 0} ⦃n : Number F⦄ where
  -- `TradeDecision.execute`, at the clock's reading `now`.
  unfoldable pub trade_execute :
      (now : ℕ) (decision_id symbol : String)
      → MarketRegime
      → Side
      → (rationale : List String) → RiskDecision F
      → (action_score : F) → (selected_strategy : Option String) → TradeDecision F D
  trade_execute now decision_id symbol regime side rationale risk action_score selected = record {
    decision_id = decision_id;
    created_at = now;
    status = execute;
    symbol = symbol;
    regime = regime;
    side = some side;
    rationale = rationale;
    risk = some risk;
    action_score = action_score;
    selected_strategy = selected;
    order_request = none;
  }

  -- `TradeDecision.no_trade`, with the defaults that every caller leaves in place.
  unfoldable pub trade_no_trade :
      (now : ℕ) (decision_id symbol : String)
      → MarketRegime
      → (rationale : List String) → TradeDecision F D
  trade_no_trade now decision_id symbol regime rationale = record {
    decision_id = decision_id;
    created_at = now;
    status = no_trade;
    symbol = symbol;
    regime = regime;
    side = none;
    rationale = rationale;
    risk = none;
    action_score = num 0;
    selected_strategy = none;
    order_request = none;
  }
