-- ===== src/Tests/Paper.antt =====
-- The paper account: a position opened, marked and closed.
use nofx_cats_py.Prelude.{
  ◌≡◌, refl, true, ◌&&◌, Option, none, some, String, List, [], ◌∷◌, string_eq, pair_eq, ◌==◌,
  if◌then◌else◌,
}
use nofx_cats_py.Prelude.Int.{ℤ, neg}
use nofx_cats_py.Result.{ok}
use nofx_cats_py.Dict.{Dict, lookup, insert, remove}
use nofx_cats_py.Num.{fixed, fixed_decimal, fixed_float, fixed_conversion, sum_from, ◌+◌}
use nofx_cats_py.Domain.Enums.{buy, sell, Side, approved, core, unknown_regime}
use nofx_cats_py.Domain.Account.{
  empty_account, upsert_position, activate_kill_switch, record_user_stream_event, mark_reconciled,
  total_equity, total_wallet_balance, total_unrealized_pnl,
}
use nofx_cats_py.Domain.Signals.{FeatureVector, RiskDecision, TradeDecision, trade_execute}
use nofx_cats_py.Paper.State.{
  PaperState, PaperFillResult, account_state, quantity_sign, direction_for_quantity, sync_balance,
}
use nofx_cats_py.Paper.Prices.{apply_slippage, realized_by, entry_after, weighted_entry_price}
use nofx_cats_py.Paper.Fill.{
  Fill, fill_of, filled_position, track_entry, position_of, apply_fill, apply_decision,
}
use nofx_cats_py.Paper.Market.{
  mark_to_market, marked_state, mark_positions, mark_position, maybe_apply_funding, funding_payment,
  marked, follow_peak,
}
use nofx_cats_py.Paper.Positions.{AreSound, resulting, apply_fill-positions}
use nofx_cats_py.Paper.Memory.{closes, opens, entry, apply_fill-memory}
use nofx_cats_py.Paper.Switch.{IsStopped, serve_all-IsStopped}
use nofx_cats_py.Paper.Runs.{
  Call, decided, marked_at, serve_all, IsConsistent, serve_all-IsConsistent,
}
use nofx_cats_py.Tests.Samples.{value_or, whole, balance, feature}

-- `PaperExecutionService(journal=…)`
abbrev pub fresh : PaperState ℤ ℤ
fresh = record {
  slippage_bps = whole 1;
  taker_fee_bps = whole 4;
  funding_interval_hours = whole 8;
  realized_pnl = whole 0;
  fees_paid = whole 0;
  funding_pnl = whole 0;
  turnover_notional = whole 0;
  initial_balance = whole 10000;
  last_funding_applied_at = [];
  position_metadata = [];
  last_exit_time = [];
  session_high_equity = whole 10000;
  state = record empty_account { balances = ("USDT", balance) ∷ [] };
}

abbrev verdict : RiskDecision ℤ
verdict = record {
  status = approved;
  reason = "approved";
  symbol_tier = some core;
  approved_notional = whole 200;
  approved_leverage = whole 2;
  risk_budget_bps = whole 35;
}

abbrev order_to : Side → TradeDecision ℤ ℤ
order_to side =
    trade_execute 0 "id" "BTCUSDT" unknown_regime side [] verdict (whole 1) (some "trend_following")

abbrev no_fill : Fill ℤ
no_fill = record {
  price = whole 0;
  quantity = whole 0;
  signed = whole 0;
  turnover = whole 0;
  fee = whole 0;
}

abbrev bought : Fill ℤ
bought = value_or no_fill (fill_of fresh buy feature.reference_price verdict.approved_notional)

-- The fill that sells what was bought, at a price of 110.
abbrev sold : Fill ℤ
sold = record bought { price = whole 110; signed = neg bought.quantity }

abbrev opened : PaperState ℤ ℤ
opened = (value_or (none, fresh) (apply_fill (order_to buy) verdict 1000 bought fresh)).1

abbrev closed : PaperState ℤ ℤ
closed = (value_or (none, opened) (apply_fill (order_to sell) verdict 2000 sold opened)).1

abbrev features : Dict String (FeatureVector ℤ)
features = ("BTCUSDT", feature) ∷ []

abbrev opening : Option (PaperFillResult ℤ)
opening = (value_or (none, fresh) (apply_fill (order_to buy) verdict 1000 bought fresh)).0

opens_account : apply_fill (order_to buy) verdict 1000 bought fresh ≡ ok (opening, opened)
unfolding fill_of apply_slippage apply_fill position_of filled_position entry_after
    weighted_entry_price direction_for_quantity quantity_sign realized_by track_entry
    upsert_position activate_kill_switch record_user_stream_event mark_reconciled total_equity
    total_wallet_balance total_unrealized_pnl sum_from account_state sync_balance lookup insert
    remove trade_execute
opens_account = refl

fresh-AreSound : AreSound fresh.state.positions
fresh-AreSound = tt

pub fresh-IsConsistent : IsConsistent fresh
unfolding lookup
fresh-IsConsistent = ((refl, refl), tt)

abbrev btc : String × String
btc = ("BTCUSDT", "BOTH")

apply_fill-positions_example :
    (lookup btc opened.state.positions ≡ (
      if btc == btc
      then some (resulting (order_to buy) verdict 1000 bought fresh)
      else lookup btc fresh.state.positions))
    × ((resulting (order_to buy) verdict 1000 bought fresh).quantity
        ≡ (position_of (order_to buy).symbol 1000 fresh).quantity + bought.signed)
    × ((resulting (order_to buy) verdict 1000 bought fresh).direction
        ≡ direction_for_quantity (resulting (order_to buy) verdict 1000 bought fresh).quantity)
unfolding filled_position trade_execute
apply_fill-positions_example =
    apply_fill-positions (order_to buy) verdict 1000 bought fresh btc opens_account fresh-AreSound

abbrev closed_fill : Option (PaperFillResult ℤ)
closed_fill = (value_or (none, opened) (apply_fill (order_to sell) verdict 2000 sold opened)).0

closes_account : apply_fill (order_to sell) verdict 2000 sold opened ≡ ok (closed_fill, closed)
unfolding fill_of apply_slippage apply_fill position_of filled_position entry_after
    weighted_entry_price direction_for_quantity quantity_sign realized_by track_entry
    upsert_position activate_kill_switch record_user_stream_event mark_reconciled total_equity
    total_wallet_balance total_unrealized_pnl sum_from account_state sync_balance lookup insert
    remove trade_execute
closes_account = refl

apply_fill-memory_example :
    (lookup "BTCUSDT" closed.position_metadata ≡ (
      if (order_to sell).symbol == "BTCUSDT"
      then (if closes (order_to sell) verdict 2000 sold opened
          then none
          else if opens (order_to sell) verdict 2000 sold opened
          then some (entry (order_to sell) verdict 2000 sold opened)
          else lookup "BTCUSDT" opened.position_metadata)
      else lookup "BTCUSDT" opened.position_metadata))
    × (lookup "BTCUSDT" closed.last_exit_time ≡ (
        if closes (order_to sell) verdict 2000 sold opened && ((order_to sell).symbol == "BTCUSDT")
        then some 2000
        else lookup "BTCUSDT" opened.last_exit_time))
apply_fill-memory_example =
    apply_fill-memory (order_to sell) verdict 2000 sold opened "BTCUSDT" closes_account

closing_sale : closes (order_to sell) verdict 2000 sold opened ≡ true
unfolding fill_of apply_slippage apply_fill position_of filled_position entry_after
    weighted_entry_price direction_for_quantity quantity_sign realized_by track_entry
    upsert_position activate_kill_switch record_user_stream_event mark_reconciled total_equity
    total_wallet_balance total_unrealized_pnl sum_from account_state sync_balance lookup insert
    remove trade_execute
closing_sale = refl

abbrev decided_state : PaperState ℤ ℤ
decided_state = (value_or (none, fresh) (apply_decision (order_to buy) feature 1000 fresh)).1

abbrev decided_fill : Option (PaperFillResult ℤ)
decided_fill = (value_or (none, fresh) (apply_decision (order_to buy) feature 1000 fresh)).0

decides : apply_decision (order_to buy) feature 1000 fresh ≡ ok (decided_fill, decided_state)
unfolding fill_of apply_slippage apply_fill position_of filled_position entry_after
    weighted_entry_price direction_for_quantity quantity_sign realized_by track_entry
    upsert_position activate_kill_switch record_user_stream_event mark_reconciled total_equity
    total_wallet_balance total_unrealized_pnl sum_from account_state sync_balance lookup insert
    remove trade_execute apply_decision
decides = refl

abbrev calls : List (Call ℤ ℤ)
calls = decided (order_to buy) feature 1000 ∷ marked_at features 2000 ∷ []

abbrev served : PaperState ℤ ℤ
served = value_or fresh (serve_all calls fresh)

serves : serve_all calls fresh ≡ ok served
unfolding fill_of apply_slippage apply_fill position_of filled_position entry_after
    weighted_entry_price direction_for_quantity quantity_sign realized_by track_entry
    upsert_position activate_kill_switch record_user_stream_event mark_reconciled total_equity
    total_wallet_balance total_unrealized_pnl sum_from account_state sync_balance lookup insert
    remove trade_execute apply_decision mark_to_market marked_state mark_positions mark_position
    maybe_apply_funding funding_payment marked follow_peak
serves = refl

serve_all-IsConsistent_example : IsConsistent served
serve_all-IsConsistent_example = serve_all-IsConsistent calls fresh serves fresh-IsConsistent

-- The same account with its kill switch on.
abbrev pub halted_account : PaperState ℤ ℤ
halted_account = record fresh { state = record fresh.state { kill_switch_active = true } }

abbrev served_halted : PaperState ℤ ℤ
served_halted = value_or fresh (serve_all calls halted_account)

serves_halted : serve_all calls halted_account ≡ ok served_halted
unfolding fill_of apply_slippage apply_fill position_of filled_position entry_after
    weighted_entry_price direction_for_quantity quantity_sign realized_by track_entry
    upsert_position activate_kill_switch record_user_stream_event mark_reconciled total_equity
    total_wallet_balance total_unrealized_pnl sum_from account_state sync_balance lookup insert
    remove trade_execute apply_decision mark_to_market marked_state mark_positions mark_position
    maybe_apply_funding funding_payment marked follow_peak
serves_halted = refl

serve_all-IsStopped_example : IsStopped served_halted
serve_all-IsStopped_example = serve_all-IsStopped calls halted_account serves_halted refl
