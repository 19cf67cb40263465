-- ===== src/Tests/Samples.antt =====
-- The data of the tests: a policy, an account, signals, orders and a venue, in fixed-point numbers.
use nofx_cats_py.Prelude.{ℕ, true, false, none, some, String, [], ◌∷◌}
use nofx_cats_py.Prelude.Int.{ℤ, pos, negsuc}
use nofx_cats_py.Result.{Result, ok, raise}
use nofx_cats_py.Dict.{Dict}
use nofx_cats_py.Num.{fixed, num, lit}
use nofx_cats_py.Json.{Spelling, object, end, field, text}
use nofx_cats_py.Domain.Enums.{
  buy, sell, trend, core, market, stop_market, filled, OrderLifecycleStatus, long,
}
use nofx_cats_py.Domain.Orders.{OrderRequest, OrderState}
use nofx_cats_py.Domain.Positions.{BalanceState, PositionState}
use nofx_cats_py.Domain.Account.{AccountState, empty_account}
use nofx_cats_py.Domain.Signals.{FeatureVector, SignalCandidate, AccountSnapshot}
use nofx_cats_py.Risk.Constitution.{SymbolTierPolicy, default_policy}
use nofx_cats_py.Risk.Kernel.{RiskKernel}
use nofx_cats_py.Execution.Validator.{SymbolRule}
use nofx_cats_py.Execution.Router.{OrderRouter, build_disaster_stop_request}

-- The value of a result that is one.
abbrev pub value_or {ℓ} : {A : Type ℓ} → A → Result A → A
value_or default (ok a) = a
value_or default (raise e) = default

abbrev pub whole : ℕ → ℤ
whole m = num m

abbrev pub core_policy : SymbolTierPolicy ℤ
core_policy = record { max_leverage = whole 3; max_symbol_notional_pct = whole 100; enabled = true }

abbrev pub kernel : RiskKernel ℤ
kernel = record {
  policy = default_policy;
  tier_policies = (core, core_policy) ∷ [];
  symbol_tiers = ("BTCUSDT", core) ∷ [];
  symbol_clusters = [];
}

abbrev pub snapshot : AccountSnapshot ℤ
snapshot = record {
  equity = whole 1000;
  daily_drawdown_pct = whole 0;
  weekly_drawdown_pct = whole 0;
  gross_exposure = lit (pos 1) 1;
  open_positions = 1;
  user_stream_stale_seconds = whole 1;
  state_mismatch = false;
  reconcile_failures = 0;
  kill_switch_active = false;
  symbol_gross_exposures = ("BTCUSDT", lit (pos 1) 1) ∷ [];
}

abbrev pub signal : SignalCandidate ℤ
signal = record {
  symbol = "BTCUSDT";
  regime = trend;
  side = buy;
  conviction = lit (pos 8) 1;
  expected_edge_bps = whole 18;
  stop_distance_pct = lit (pos 1) 2;
  rationale = [];
  strategy_name = "trend_following";
  action_score = whole 5;
  cluster = none;
  leverage_bracket_cap = some (whole 500);
}

abbrev pub feature : FeatureVector ℤ
feature = record {
  symbol = "BTCUSDT";
  ts = 1000000000;
  source_ts = none;
  reference_price = whole 100;
  ai500_score = whole 90;
  ai300_level_score = lit (pos 5) 1;
  price_change_15m = lit (pos 2) 2;
  price_change_1h = lit (pos 2) 2;
  price_change_4h = lit (pos 2) 2;
  inst_future_flow_15m = whole 1;
  inst_future_flow_1h = whole 1;
  inst_future_flow_4h = whole 1;
  retail_future_flow_1h = whole 0;
  oi_binance_1h = lit (pos 1) 2;
  oi_bybit_1h = lit (pos 1) 2;
  funding_rate = lit (pos 1) 4;
  heatmap_delta = whole 1;
  query_rank = none;
  stale_seconds = whole 0;
  source_lag_seconds = whole 0;
  trend_score = lit (pos 6) 2;
  flow_score = whole 3;
  oi_score = lit (pos 2) 2;
  crowding_score = lit (pos 1) 4;
  source_freshness = whole 1;
}

abbrev pub position : PositionState ℤ
position = record {
  symbol = "BTCUSDT";
  position_side = "BOTH";
  direction = long;
  quantity = whole 2;
  entry_price = whole 100;
  mark_price = whole 90;
  notional = whole 180;
  unrealized_pnl = lit (negsuc 19) 0;
  leverage = pos 2;
  margin_type = "cross";
  isolated_wallet = whole 0;
  updated_at = 0;
}

abbrev pub balance : BalanceState ℤ
balance = record {
  asset = "USDT";
  wallet_balance = whole 10000;
  available_balance = whole 10000;
  cross_wallet_balance = whole 10000;
  updated_at = 0;
}

-- An account with one open position and no protective order.
abbrev pub account : AccountState ℤ
account = record empty_account {
  balances = ("USDT", balance) ∷ [];
  positions = (("BTCUSDT", "BOTH"), position) ∷ [];
}

-- The entry order that opened the position, as the venue reports its fill.
abbrev pub entry_order : OrderState ℤ
entry_order = record {
  symbol = "BTCUSDT";
  status = filled;
  side = buy;
  position_side = "BOTH";
  order_id = some "7";
  client_order_id = none;
  algo_order_id = none;
  order_type = some market;
  price = none;
  avg_price = some (whole 100);
  orig_qty = some (whole 2);
  executed_qty = whole 2;
  reduce_only = false;
  close_position = false;
  is_algo = false;
  created_at = 0;
  updated_at = 0;
}

-- A protective order in a given state.
abbrev pub stop_order : OrderLifecycleStatus → OrderState ℤ
stop_order status = record entry_order {
  status = status;
  side = sell;
  order_id = none;
  algo_order_id = some "9";
  order_type = some stop_market;
  close_position = true;
  is_algo = true;
}

abbrev pub rule : SymbolRule ℤ ℤ
rule = record {
  symbol = "BTCUSDT";
  tick_size = lit (pos 1) 1;
  step_size = lit (pos 1) 3;
  min_qty = lit (pos 1) 3;
  min_notional = whole 5;
  market_step_size = none;
  market_min_qty = none;
  market_max_qty = some (whole 100);
  min_price = none;
  max_price = none;
  percent_price_up = none;
  percent_price_down = none;
  market_take_bound = none;
  trigger_protect = none;
  max_initial_leverage = none;
  max_notional_cap = none;
  status = "TRADING";
}

abbrev pub rules : Dict String (SymbolRule ℤ ℤ)
rules = ("BTCUSDT", rule) ∷ []

-- A market order whose quantity is no multiple of the step.
abbrev pub request : OrderRequest ℤ
request = record (build_disaster_stop_request "BTCUSDT" buy (whole 0) "BOTH" (some "c-1")) {
  order_type = market;
  quantity = some (lit (pos 12345) 4);
  trigger_price = none;
  close_position = false;
}

instance abbrev pub sample_spelling : Spelling ℤ
sample_spelling = record { spell = λ v. "value" }

abbrev pub router : OrderRouter ℤ ℤ
router = record {
  venue = record {
    answer = λ sent. ok (object (field "orderId" (text "11") end));
    decimal_text = λ d. "decimal";
  };
  symbol_rules = rules;
}
