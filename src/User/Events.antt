-- ===== src/User/Events.antt =====
-- `BinanceUserEventHandler`. An exception in the middle of an event leaves what was written before it,
-- so each part returns the account beside its result.
use nofx_cats_py.Prelude.{
  ℕ, Bool, true, false, Option, none, some, String, ◌==◌, string_eq, or_else, if◌then◌else◌,
}
use nofx_cats_py.Result.{Result, ok, raise, other_error}
use nofx_cats_py.Raise.{◌>>=◌}
use nofx_cats_py.Num.{Number}
use nofx_cats_py.Json.{
  Json, Items, Spelling, object, end, nil, cons, get, is_object, truth, or_json, str_or,
}
use nofx_cats_py.Domain.Orders.{OrderState}
use nofx_cats_py.Domain.Positions.{BalanceState, PositionState}
use nofx_cats_py.Domain.Account.{
  AccountState, record_user_stream_event, upsert_balance, upsert_position, upsert_order,
}
use nofx_cats_py.User.Values.{
  Parsing, IntParsing, Timing, as_text, parse_order_type, parse_order_status, parse_side, to_bool,
  iterated, to_decimal, to_datetime, parse_position_direction, first_of, text_or, client_id,
  leverage_of,
}

-- The account, and how the statements ended.
abbrev pub Outcome : Type 0 → Type 0
Outcome D = AccountState D × Result (Unit {0})

module _ {F : Type 0} ⦃n : Number F⦄ where
  -- `v or {}`, which is read as a dict afterwards.
  unfoldable pub dict_of : Option (Json F) → Result (Json F)
  dict_of none = ok (object end)
  dict_of (some v) =
      if truth v
      then if is_object v then ok v else raise (other_error "AttributeError")
      else ok (object end)

module _ {F : Type 0} ⦃n : Number F⦄ ⦃s : Spelling F⦄ where
  unfoldable pub event_type : Json F → String
  event_type payload = or_else (str_or (first_of "e" "eventType" payload) none) "UNKNOWN"

module _ {D F : Type 0} ⦃n : Number F⦄ ⦃d : Number D⦄ ⦃s : Spelling F⦄ ⦃p : Parsing D⦄
    ⦃i : IntParsing⦄ where
  -- The balance of an item; nothing for an item that is passed over.
  unfoldable pub balance_of : (event_time : ℕ) → Json F → Result (Option (BalanceState D))
  unfolding to_decimal
  balance_of event_time item = elim (as_text (first_of "a" "asset" item)) [
    | none ↦ ok none
    | some asset ↦ do
      wallet ← to_decimal (first_of "wb" "walletBalance" item)
      available ← to_decimal (
          or_json (get "ab" item)
            (or_json (get "availableBalance" item) (first_of "cw" "crossWalletBalance" item)))
      cross ← to_decimal (first_of "cw" "crossWalletBalance" item)
      ok (
          some (record {
            asset = asset;
            wallet_balance = wallet;
            available_balance = available;
            cross_wallet_balance = cross;
            updated_at = event_time;
          }))
  ]

  unfoldable pub position_of : (event_time : ℕ) → Json F → Result (Option (PositionState D))
  unfolding to_decimal parse_position_direction
  position_of event_time item = elim (as_text (first_of "s" "symbol" item)) [
    | none ↦ ok none
    | some symbol ↦ do
      quantity ← to_decimal (first_of "pa" "positionAmt" item)
      entry ← to_decimal (first_of "ep" "entryPrice" item)
      mark ← to_decimal (first_of "mp" "markPrice" item)
      notional ← to_decimal (get "notional" item)
      pnl ← to_decimal (first_of "up" "unRealizedProfit" item)
      leverage ← leverage_of (first_of "l" "leverage" item)
      isolated ← to_decimal (first_of "iw" "isolatedWallet" item)
      ok (
          some (record {
            symbol = symbol;
            position_side = text_or (first_of "ps" "positionSide" item) "BOTH";
            direction = parse_position_direction quantity;
            quantity = quantity;
            entry_price = entry;
            mark_price = mark;
            notional = notional;
            unrealized_pnl = pnl;
            leverage = leverage;
            margin_type = text_or (first_of "mt" "marginType" item) "cross";
            isolated_wallet = isolated;
            updated_at = event_time;
          }))
  ]

  unfoldable pub apply_balances : (event_time : ℕ) → Items F → AccountState D → Outcome D
  unfolding balance_of
  apply_balances event_time nil s = (s, ok tt)
  apply_balances event_time (cons item rest) s = elim (balance_of event_time item) [
    | raise e ↦ (s, raise e)
    | ok none ↦ apply_balances event_time rest s
    | ok (some balance) ↦ apply_balances event_time rest (upsert_balance balance s)
  ]

  unfoldable pub apply_positions : (event_time : ℕ) → Items F → AccountState D → Outcome D
  unfolding position_of
  apply_positions event_time nil s = (s, ok tt)
  apply_positions event_time (cons item rest) s = elim (position_of event_time item) [
    | raise e ↦ (s, raise e)
    | ok none ↦ apply_positions event_time rest s
    | ok (some position) ↦ apply_positions event_time rest (upsert_position position s)
  ]

  -- `_apply_account_update`: the balances, then the positions.
  unfoldable pub apply_account_update : (event_time : ℕ) → Json F → AccountState D → Outcome D
  unfolding dict_of iterated apply_balances apply_positions
  apply_account_update event_time payload s = elim (dict_of (first_of "a" "account" payload)) [
    | raise e ↦ (s, raise e)
    | ok account ↦ elim (iterated (first_of "B" "balances" account)) [
      | raise e ↦ (s, raise e)
      | ok balances ↦
          let (s', done) = apply_balances event_time balances s in
          elim done [
            | raise e ↦ (s', raise e)
            | ok _ ↦ elim (iterated (first_of "P" "positions" account)) [
              | raise e ↦ (s', raise e)
              | ok positions ↦ apply_positions event_time positions s'
            ]
          ]
    ]
  ]

  -- The keys under which the two kinds of order messages keep their fields.
  unfoldable pub order_of :
      (event_time : ℕ) (symbol : String) (is_algo : Bool) → Json F → Result (OrderState D)
  unfolding to_decimal to_bool parse_order_type parse_order_status parse_side
  order_of event_time symbol is_algo order = do
    price ← to_decimal (first_of "p" "price" order)
    average ← to_decimal (first_of "ap" "avgPrice" order)
    original ← to_decimal (first_of "q" "origQty" order)
    executed ← to_decimal (first_of "z" "executedQty" order)
    ok (record {
      symbol = symbol;
      status = parse_order_status (
          if is_algo
          then or_json (get "X" order) (first_of "status" "algoStatus" order)
          else first_of "X" "status" order);
      side = parse_side (first_of "S" "side" order);
      position_side = text_or (first_of "ps" "positionSide" order) "BOTH";
      order_id = if is_algo then none else str_or (first_of "i" "orderId" order) none;
      client_order_id =
          client_id (first_of "c" (if is_algo then "clientAlgoId" else "clientOrderId") order);
      algo_order_id =
          if is_algo
          then str_or (or_json (get "ai" order) (first_of "algoId" "algoOrderId" order)) none
          else none;
      order_type = parse_order_type (first_of (if is_algo then "ot" else "o") "type" order);
      price = some price;
      avg_price = some average;
      orig_qty = some original;
      executed_qty = executed;
      reduce_only = to_bool (first_of "R" "reduceOnly" order);
      close_position = to_bool (first_of "cp" "closePosition" order);
      is_algo = is_algo;
      created_at = event_time;
      updated_at = event_time;
    })

  -- A message about one order; one that is no dict, or names no symbol, is passed over.
  unfoldable pub apply_order :
      (event_time : ℕ) (is_algo : Bool) → Option (Json F) → AccountState D → Outcome D
  unfolding order_of
  apply_order event_time is_algo order s = elim order [
    | none ↦ (s, ok tt)
    | some o ↦ elim (as_text (first_of "s" "symbol" o)) [
      | none ↦ (s, ok tt)
      | some symbol ↦
          elim (order_of event_time symbol is_algo o >>= λ order. upsert_order order s) [
            | raise e ↦ (s, raise e)
            | ok s' ↦ (s', ok tt)
          ]
    ]
  ]

  unfoldable pub apply_order_trade_update : (event_time : ℕ) → Json F → AccountState D → Outcome D
  unfolding apply_order
  apply_order_trade_update event_time payload s =
      apply_order event_time false (first_of "o" "order" payload) s

  unfoldable pub apply_algo_update : (event_time : ℕ) → Json F → AccountState D → Outcome D
  unfolding apply_order
  apply_algo_update event_time payload s =
      apply_order event_time true (or_json (get "ao" payload) (first_of "o" "algoOrder" payload)) s

  -- `apply`; `clock` is the time now, for a message without a time.
  unfoldable pub apply : ⦃t : Timing F⦄ → (clock : ℕ) → Json F → AccountState D → Outcome D
  unfolding to_datetime event_type apply_account_update apply_order_trade_update apply_algo_update
  apply clock payload s =
      elim (to_datetime clock (or_json (get "E" payload) (first_of "eventTime" "T" payload))) [
        | raise e ↦ (s, raise e)
        | ok event_time ↦
            let heard = record_user_stream_event (some event_time) clock s in
            let kind = event_type payload in
            if kind == "ACCOUNT_UPDATE"
            then apply_account_update event_time payload heard
            else if kind == "ORDER_TRADE_UPDATE"
            then apply_order_trade_update event_time payload heard
            else if kind == "ALGO_UPDATE"
            then apply_algo_update event_time payload heard
            else (heard, ok tt)
      ]
