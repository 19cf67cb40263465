-- ===== src/Tests/Runtime.antt =====
-- The runtime modes and whole cycles on a paper account and on a venue's account.
use nofx_cats_py.Prelude.{
  ◌≡◌, ◌≢◌, ◌⊎◌, refl, true, false, Option, none, some, List, [], ◌∷◌, concat, lower, All,
  string_eq, pair_eq, map,
}
use nofx_cats_py.Prelude.Int.{ℤ, pos}
use nofx_cats_py.Result.{Result, ok}
use nofx_cats_py.Dict.{Dict, lookup, insert, insert_all, remove}
use nofx_cats_py.Num.{
  fixed, fixed_decimal, fixed_float, fixed_conversion, fixed-IsStrictOrder, num, lit, min, min_of,
  sum_from, ◌*◌, ◌/◌,
}
use nofx_cats_py.Json.{null}
use nofx_cats_py.Domain.Enums.{
  SymbolTier, core, liquid_alt, experimental, approved, execute, tier_eq,
}
use nofx_cats_py.Domain.Account.{
  AccountState, empty_account, upsert_position, activate_kill_switch, record_user_stream_event,
  mark_reconciled, total_equity, total_wallet_balance, total_unrealized_pnl, to_snapshot,
  symbol_gross_exposures, symbol_notionals, gross_notional, open_position_count,
  user_stream_stale_seconds,
}
use nofx_cats_py.Domain.Signals.{
  AccountSnapshot, RiskDecision, TradeDecision, trade_execute, trade_no_trade,
}
use nofx_cats_py.Risk.Constitution.{SymbolTierPolicy, default_policy}
use nofx_cats_py.Risk.Kernel.{
  RiskKernel, evaluate, account_gates, symbol_gates, sizing, trade_risk_budget, cluster_exposure,
  cluster_exposure_from, tier_of,
}
use nofx_cats_py.Risk.Gates.{must_halt}
use nofx_cats_py.Risk.Bounds.{Within}
use nofx_cats_py.Decision.Features.{enrich, detect}
use nofx_cats_py.Decision.Strategies.{trend_generate, crowding_generate, range_generate}
use nofx_cats_py.Decision.Allocator.{score}
use nofx_cats_py.Decision.Engine.{
  by_score, sorted_from, place_by_score, choose, generate_all, decision_for, decide,
}
use nofx_cats_py.Exits.Evaluator.{default_exit_config, evaluate_exits, exits_of, exit_reason}
use nofx_cats_py.Paper.State.{
  PaperState, account_state, quantity_sign, direction_for_quantity, is_in_cooldown, sync_balance,
  drawdown_pct,
}
use nofx_cats_py.Paper.Prices.{apply_slippage, realized_by, entry_after, weighted_entry_price}
use nofx_cats_py.Paper.Fill.{
  fill_of, filled_position, track_entry, position_of, apply_fill, apply_decision,
}
use nofx_cats_py.Paper.Market.{
  mark_to_market, marked_state, mark_positions, mark_position, maybe_apply_funding, funding_payment,
  marked, follow_peak,
}
use nofx_cats_py.Paper.Runs.{IsConsistent}
use nofx_cats_py.Paper.Switch.{IsStopped}
use nofx_cats_py.Runtime.Settings.{
  RuntimeMode, paper, live_micro, live, RuntimeSettings, AppConfig, SymbolConfig,
}
use nofx_cats_py.Runtime.Modes.{
  RuntimeModeSummary, mode_beq, missing_credentials, comma_joined, check_live_micro,
  build_runtime_mode_summary, change_tier, apply_runtime_risk_overrides, by_group,
  build_risk_kernel,
}
use nofx_cats_py.Runtime.Symbols.{DecisionRuntime, configured_symbols, distinct}
use nofx_cats_py.Runtime.Cycle.{
  Formatting, Cycle, Standing, apply_exit, apply_exits, run_exits, open_cycle, open_symbols,
  decide_symbol, follow, trade_symbols, run_cycle,
}
use nofx_cats_py.Runtime.Loop.{Holds}
use nofx_cats_py.Runtime.Safety.{run_cycle-IsConsistent}
use nofx_cats_py.Runtime.Trades.{
  KeepsSymbol, AreKeyed, Trades, trend_following-KeepsSymbol, crowding_reversal-KeepsSymbol,
  range_reversion-KeepsSymbol, run_cycle-Trades,
}
use nofx_cats_py.Runtime.Halt.{run_cycle-IsStopped, run_cycle-halted}
use nofx_cats_py.Runtime.Micro.{IsGiven, build_runtime_mode_summary_lem, live_micro-Within_caps}
use nofx_cats_py.Tests.Samples.{value_or, whole, core_policy, snapshot, signal, feature, account}
use nofx_cats_py.Tests.Decision.{engine, soon}
use nofx_cats_py.Tests.Paper.{fresh, fresh-IsConsistent, halted_account}

abbrev settings : RuntimeMode → RuntimeSettings
settings mode = record {
  env = "dev";
  mode = mode;
  nofx_api_key = "k1";
  binance_api_key = "k2";
  binance_api_secret = "k3";
}

abbrev app : RuntimeMode → AppConfig ℤ
app mode = record {
  mode = mode;
  core_loop_interval_seconds = 60;
  user_stream_stale_kill_seconds = 90;
  nofx_stale_kill_seconds = 45;
  paper_starting_balance = whole 10000;
  paper_fill_slippage_bps = whole 1;
  paper_taker_fee_bps = whole 4;
  paper_funding_interval_hours = whole 8;
  exit_stop_loss_pct = lit (pos 15) 3;
  exit_take_profit_pct = lit (pos 2) 2;
  exit_max_hold_hours = whole 12;
  exit_trailing_stop_pct = lit (pos 25) 3;
  exit_cooldown_minutes = whole 60;
  nofx = null;
  binance = null;
}

abbrev symbols : SymbolConfig
symbols = record { core = "BTCUSDT" ∷ []; liquid_alt = "XRPUSDT" ∷ []; experimental = [] }

abbrev blank : RuntimeModeSummary ℤ
blank = record {
  env = "";
  mode = paper;
  decision_loop_enabled = true;
  live_order_submission = false;
  paper_execution = false;
  allowed_symbol_tiers = [];
  configured_symbol_counts = [];
  core_loop_interval_seconds = 60;
  max_runtime_open_positions = none;
  max_runtime_symbol_notional_pct = none;
}

abbrev summary : RuntimeMode → RuntimeModeSummary ℤ
summary mode = value_or blank (build_runtime_mode_summary (settings mode) (app mode) symbols)

micro_starts :
    build_runtime_mode_summary (settings live_micro) (app live_micro) symbols
    ≡ ok (summary live_micro)
unfolding build_runtime_mode_summary check_live_micro missing_credentials comma_joined
micro_starts = refl

build_runtime_mode_summary_lem_example :
    (live_micro ≢ live)
    × (live_micro ≡ live_micro)
    × ((summary live_micro).mode ≡ live_micro)
    × ((summary live_micro).paper_execution ≡ mode_beq live_micro paper)
    × ((summary live_micro).live_order_submission ≡ mode_beq live_micro live_micro)
    × (((summary live_micro).live_order_submission ≡ false)
        ⊎ (IsGiven (settings live_micro).nofx_api_key
            × IsGiven (settings live_micro).binance_api_key
            × IsGiven (settings live_micro).binance_api_secret
            × (symbols.core ≢ [])))
build_runtime_mode_summary_lem_example =
    build_runtime_mode_summary_lem (settings live_micro) (app live_micro) symbols micro_starts

abbrev tiers : Dict SymbolTier (SymbolTierPolicy ℤ)
tiers = (core, core_policy) ∷ (liquid_alt, core_policy) ∷ (experimental, core_policy) ∷ []

abbrev micro_kernel : RiskKernel ℤ
micro_kernel =
    value_or engine.risk_kernel (build_risk_kernel default_policy tiers live_micro symbols)

micro_builds : build_risk_kernel default_policy tiers live_micro symbols ≡ ok micro_kernel
unfolding build_risk_kernel apply_runtime_risk_overrides change_tier by_group lookup insert
    insert_all
micro_builds = refl

abbrev flat_snapshot : AccountSnapshot ℤ
flat_snapshot = record snapshot {
  open_positions = 0;
  gross_exposure = whole 0;
  symbol_gross_exposures = [];
}

abbrev refused : RiskDecision ℤ
refused = record {
  status = approved;
  reason = "";
  symbol_tier = none;
  approved_notional = whole 0;
  approved_leverage = whole 0;
  risk_budget_bps = whole 0;
}

abbrev micro_verdict : RiskDecision ℤ
micro_verdict = value_or refused (evaluate micro_kernel signal flat_snapshot)

micro_evaluates : evaluate micro_kernel signal flat_snapshot ≡ ok micro_verdict
unfolding build_risk_kernel apply_runtime_risk_overrides change_tier by_group lookup insert
    insert_all evaluate account_gates symbol_gates sizing trade_risk_budget cluster_exposure
    cluster_exposure_from min_of
micro_evaluates = refl

micro_approves : micro_verdict.status ≡ approved
unfolding build_risk_kernel apply_runtime_risk_overrides change_tier by_group lookup insert
    insert_all evaluate account_gates symbol_gates sizing trade_risk_budget cluster_exposure
    cluster_exposure_from min_of
micro_approves = refl

live_micro-Within_caps_example :
    (tp : SymbolTierPolicy ℤ) × (lookup core tiers ≡ some tp)
    × (tier_of micro_kernel signal.symbol ≡ core)
    × (flat_snapshot.open_positions ≡ 0)
    × Within (min tp.max_leverage (num 2)) micro_verdict.approved_leverage
    × Within
        (flat_snapshot.equity * (min tp.max_symbol_notional_pct (num 5) / num 100))
        micro_verdict.approved_notional
live_micro-Within_caps_example =
    live_micro-Within_caps fixed-IsStrictOrder default_policy tiers symbols signal flat_snapshot
      micro_builds micro_evaluates micro_approves

instance abbrev sample_formatting : Formatting ℤ
sample_formatting = record { fixed_places = λ places x. "number"; spell_count = λ n. "count" }

abbrev runtime : RuntimeMode → Option (PaperState ℤ ℤ) → DecisionRuntime ℤ ℤ
runtime mode book = record {
  decision_engine = engine;
  app_config = app mode;
  symbol_config = symbols;
  mode_summary = summary mode;
  paper_execution = book;
  exit_evaluator = some default_exit_config;
}

abbrev cycle : Cycle ℤ
cycle = record {
  short_id = "0a1b2c3d";
  started_at = soon;
  exits_at = soon;
  features = ("BTCUSDT", feature) ∷ [];
  readings = λ i. record { enriched_at = soon; created_at = soon; decision_id = "id" };
}

abbrev nothing_reconciled : Result (AccountState ℤ)
nothing_reconciled = ok empty_account

abbrev nowhere : List (TradeDecision ℤ ℤ) × Standing ℤ ℤ
nowhere = ([], record { book = none; account = empty_account; snapshot = snapshot })

abbrev traded : List (TradeDecision ℤ ℤ) × Standing ℤ ℤ
traded = value_or nowhere (run_cycle (runtime paper (some fresh)) cycle nothing_reconciled)

abbrev waiting : List (TradeDecision ℤ ℤ) × Standing ℤ ℤ
waiting =
    value_or nowhere (run_cycle (runtime paper (some halted_account)) cycle nothing_reconciled)

abbrev stopped_account : AccountState ℤ
stopped_account = record account { kill_switch_active = true }

abbrev idle : List (TradeDecision ℤ ℤ) × Standing ℤ ℤ
idle = value_or nowhere (run_cycle (runtime live_micro none) cycle (ok stopped_account))

runs :
    (run_cycle (runtime paper (some fresh)) cycle nothing_reconciled ≡ ok traded)
    × (map (λ d. d.status) traded.0 ≡ execute ∷ [])
    × (run_cycle (runtime paper (some halted_account)) cycle nothing_reconciled ≡ ok waiting)
    × (run_cycle (runtime live_micro none) cycle (ok stopped_account) ≡ ok idle)
    × (must_halt engine.risk_kernel.policy (to_snapshot (whole 0) (whole 0) soon stopped_account)
        ≡ true)
unfolding run_cycle open_cycle run_exits apply_exits apply_exit trade_symbols decide_symbol follow
    configured_symbols distinct build_runtime_mode_summary is_in_cooldown drawdown_pct to_snapshot
    symbol_gross_exposures symbol_notionals gross_notional open_position_count
    user_stream_stale_seconds evaluate_exits exits_of exit_reason concat lower check_live_micro
    missing_credentials comma_joined fill_of apply_slippage apply_fill position_of filled_position
    entry_after weighted_entry_price direction_for_quantity quantity_sign realized_by track_entry
    upsert_position activate_kill_switch record_user_stream_event mark_reconciled total_equity
    total_wallet_balance total_unrealized_pnl sum_from account_state sync_balance lookup insert
    insert_all remove trade_execute trade_no_trade apply_decision mark_to_market marked_state
    mark_positions mark_position maybe_apply_funding funding_payment marked follow_peak decide
    enrich detect generate_all trend_generate crowding_generate range_generate choose by_score
    sorted_from place_by_score decision_for evaluate account_gates symbol_gates sizing
    trade_risk_budget cluster_exposure cluster_exposure_from min_of score
runs = (refl, refl, refl, refl, refl)

run_cycle-IsConsistent_example : Holds IsConsistent traded.1.book
unfolding build_runtime_mode_summary
run_cycle-IsConsistent_example =
    run_cycle-IsConsistent (runtime paper (some fresh)) cycle nothing_reconciled runs.0
      fresh-IsConsistent

strategies-KeepsSymbol : All KeepsSymbol engine.strategies
strategies-KeepsSymbol = (
  trend_following-KeepsSymbol,
  (crowding_reversal-KeepsSymbol, (range_reversion-KeepsSymbol, tt)),
)

features-AreKeyed : AreKeyed cycle.features
features-AreKeyed = (refl, tt)

run_cycle-Trades_example :
    (s : Standing ℤ ℤ) × (open_cycle (runtime paper (some fresh)) cycle nothing_reconciled ≡ ok s)
    × Trades
        (runtime paper (some fresh))
        cycle
        (open_symbols s)
        s.snapshot.daily_drawdown_pct
        0
        (configured_symbols (runtime paper (some fresh)))
        s
        traded.0
        traded.1
unfolding build_runtime_mode_summary
run_cycle-Trades_example =
    run_cycle-Trades (runtime paper (some fresh)) cycle strategies-KeepsSymbol features-AreKeyed
      nothing_reconciled runs.0

run_cycle-IsStopped_example :
    All (λ d. d.status ≢ execute) waiting.0
    × (waiting.1.snapshot.kill_switch_active ≡ true)
    × ((p : PaperState ℤ ℤ) × (waiting.1.book ≡ some p) × IsStopped p)
unfolding build_runtime_mode_summary
run_cycle-IsStopped_example =
    run_cycle-IsStopped (runtime paper (some halted_account)) cycle nothing_reconciled
      halted_account runs.2 refl refl

run_cycle-halted_example : All (λ d. d.status ≢ execute) idle.0 × (idle.1.account ≡ stopped_account)
unfolding build_runtime_mode_summary check_live_micro missing_credentials
run_cycle-halted_example =
    run_cycle-halted (runtime live_micro none) cycle (ok stopped_account) stopped_account runs.3
      refl refl runs.4
