-- ===== src/Reconcile/Parse.antt =====
-- `_parse_balances`, `_parse_positions` and `_parse_orders`.
use nofx_cats_py.Prelude.{
  ℕ, false, Option, none, some, String, List, [], ◌∷◌, or_else, string_eq, pair_eq, if◌then◌else◌,
}
use nofx_cats_py.Result.{Result, ok, raise, other_error}
use nofx_cats_py.Raise.{◌>>=◌}
use nofx_cats_py.Dict.{Dict, lookup, insert}
use nofx_cats_py.Num.{Number}
use nofx_cats_py.Json.{
  Json, Items, Spelling, array, object, end, nil, cons, get, is_object, unwrapped, truth, str_or,
}
use nofx_cats_py.Domain.Orders.{OrderState}
use nofx_cats_py.Domain.Positions.{BalanceState, PositionState}
use nofx_cats_py.User.Values.{
  Parsing, IntParsing, Timing, as_text, parse_order_type, parse_order_status, parse_side, to_bool,
  to_decimal, to_datetime, parse_position_direction, text_or, client_id, leverage_of,
}

module _ {F : Type 0} where
  -- What a value that should be a list holds.
  abbrev pub items_of : Option (Json F) → Items F
  items_of (some (array items)) = items
  items_of _ = nil

  -- `info.get("data", info).get(key, [])`
  unfoldable pub listed : (key : String) → Json F → Result (Items F)
  listed key info =
      if is_object (unwrapped info)
      then ok (items_of (get key (unwrapped info)))
      else raise (other_error "AttributeError")

module _ {F : Type 0} ⦃n : Number F⦄ ⦃s : Spelling F⦄ where
  -- The key under which the positions of a message are kept.
  abbrev pub side_of : Json F → String
  side_of item = text_or (get "positionSide" item) "BOTH"

  unfoldable pub risk_map_of :
      Items F → Dict (String × String) (Json F) → Dict (String × String) (Json F)
  risk_map_of nil map = map
  risk_map_of (cons item rest) map = risk_map_of rest (elim (as_text (get "symbol" item)) [
    | none ↦ map
    | some symbol ↦ insert (symbol, side_of item) item map
  ])

module _ {D F : Type 0} ⦃n : Number F⦄ ⦃d : Number D⦄ ⦃s : Spelling F⦄ ⦃p : Parsing D⦄ where
  unfoldable pub parse_balances : (reconciled_at : ℕ) → Items F → Result (List (BalanceState D))
  unfolding to_decimal
  parse_balances at nil = ok []
  parse_balances at (cons item rest) = elim (as_text (get "asset" item)) [
    | none ↦ parse_balances at rest
    | some asset ↦ do
      wallet ← to_decimal (get "walletBalance" item)
      available ← to_decimal (get "availableBalance" item)
      cross ← to_decimal (get "crossWalletBalance" item)
      balances ← parse_balances at rest
      ok (
          record {
            asset = asset;
            wallet_balance = wallet;
            available_balance = available;
            cross_wallet_balance = cross;
            updated_at = at;
          }
          ∷ balances)
  ]

  -- One position, with the venue's risk row for it.
  unfoldable pub parse_position :
      ⦃i : IntParsing⦄
      → (reconciled_at : ℕ) → (risk : Json F) → (symbol : String) → Json F
      → Result (PositionState D)
  unfolding to_decimal parse_position_direction
  parse_position at risk symbol item = do
    quantity ← to_decimal (get "positionAmt" item)
    entry ← to_decimal (get "entryPrice" item)
    mark ← to_decimal (get "markPrice" risk)
    notional ← to_decimal (get "notional" risk)
    pnl ← to_decimal (get "unrealizedProfit" item)
    leverage ← leverage_of (get "leverage" item)
    isolated ← to_decimal (get "isolatedWallet" item)
    ok (record {
      symbol = symbol;
      position_side = side_of item;
      direction = parse_position_direction quantity;
      quantity = quantity;
      entry_price = entry;
      mark_price = mark;
      notional = notional;
      unrealized_pnl = pnl;
      leverage = leverage;
      margin_type = text_or (get "marginType" item) "cross";
      isolated_wallet = isolated;
      updated_at = at;
    })

  unfoldable pub parse_positions :
      ⦃i : IntParsing⦄
      → (reconciled_at : ℕ) → Dict (String × String) (Json F)
      → Items F
      → Result (List (PositionState D))
  unfolding parse_position
  parse_positions at risks nil = ok []
  parse_positions at risks (cons item rest) = elim (as_text (get "symbol" item)) [
    | none ↦ parse_positions at risks rest
    | some symbol ↦ do
      position ←
          parse_position at (or_else (lookup (symbol, side_of item) risks) (object end)) symbol item
      positions ← parse_positions at risks rest
      ok (position ∷ positions)
  ]

module _ {F : Type 0} ⦃n : Number F⦄ ⦃t : Timing F⦄ where
  -- `_to_datetime(v or reconciled_at)`
  abbrev time_or : (reconciled_at : ℕ) → Option (Json F) → Result ℕ
  time_or at none = ok at
  time_or at (some v) = if truth v then to_datetime at (some v) else ok at

module _ {D F : Type 0} ⦃n : Number F⦄ ⦃d : Number D⦄ ⦃s : Spelling F⦄ ⦃p : Parsing D⦄
    ⦃t : Timing F⦄ where
  unfoldable pub parse_order :
      (reconciled_at : ℕ) → (symbol : String) → Json F → Result (OrderState D)
  unfolding to_decimal to_bool to_datetime parse_order_type parse_order_status parse_side
  parse_order at symbol item = do
    price ← to_decimal (get "price" item)
    average ← to_decimal (get "avgPrice" item)
    original ← to_decimal (get "origQty" item)
    executed ← to_decimal (get "executedQty" item)
    created ← time_or at (get "time" item)
    updated ← time_or at (get "updateTime" item)
    ok (record {
      symbol = symbol;
      status = parse_order_status (get "status" item);
      side = parse_side (get "side" item);
      position_side = side_of item;
      order_id = str_or (get "orderId" item) none;
      client_order_id = client_id (get "clientOrderId" item);
      algo_order_id = none;
      order_type = parse_order_type (get "type" item);
      price = some price;
      avg_price = some average;
      orig_qty = some original;
      executed_qty = executed;
      reduce_only = to_bool (get "reduceOnly" item);
      close_position = to_bool (get "closePosition" item);
      is_algo = false;
      created_at = created;
      updated_at = updated;
    })

  unfoldable pub parse_orders : (reconciled_at : ℕ) → Items F → Result (List (OrderState D))
  unfolding parse_order
  parse_orders at nil = ok []
  parse_orders at (cons item rest) = elim (as_text (get "symbol" item)) [
    | none ↦ parse_orders at rest
    | some symbol ↦ do
      order ← parse_order at symbol item
      orders ← parse_orders at rest
      ok (order ∷ orders)
  ]
