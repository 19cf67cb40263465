-- ===== src/Paper/Fill.antt =====
-- src/cats_py/services/paper_execution.py: `apply_decision`, in the parts that its lines fall into.
use nofx_cats_py.Prelude.{
  ℕ, not, ◌&&◌, Option, none, some, String, string_eq, pair_eq, or_else, if◌then◌else◌,
}
use nofx_cats_py.Prelude.Int.{ℤ, pos, leb_ℤ}
use nofx_cats_py.Result.{Result, ok, zero_division}
use nofx_cats_py.Raise.{◌>>=◌, ◌>>◌, raise_if}
use nofx_cats_py.Dict.{lookup, insert, remove}
use nofx_cats_py.Num.{
  Number, Float, Decimal, Conversion, half_even, half_up, quantize, ◌+◌, ◌-◌, ◌*◌, ◌/◌, ◌≤?◌, ◌=?◌,
  abs, opposite, num, float_of, decimal_of, round_int,
}
use nofx_cats_py.Domain.Enums.{Side, is_buy, is_execute, flat}
use nofx_cats_py.Domain.Orders.{present}
use nofx_cats_py.Domain.Positions.{PositionState}
use nofx_cats_py.Domain.Signals.{FeatureVector, RiskDecision, TradeDecision}
use nofx_cats_py.Domain.Account.{upsert_position}
use nofx_cats_py.Paper.Prices.{realized_by, entry_after, apply_slippage}
use nofx_cats_py.Paper.State.{
  PaperFillResult, PaperState, usdt_balance, compared, account_state, direction_for_quantity,
  sync_balance,
}

module _ {F D : Type 0} where
  -- What the first guard asks of a decision.
  abbrev pub executable : TradeDecision F D → Option (Side × RiskDecision F)
  executable d =
      if is_execute d.status
      then elim d.side [
        | none ↦ none
        | some side ↦ elim d.risk [ none ↦ none | some risk ↦ some (side, risk) ]
      ]
      else none

module _ {D : Type 0} ⦃n : Number D⦄ where
  -- `PositionState(symbol=symbol, position_side="BOTH")`, created at `now`
  abbrev pub flat_position : String → (now : ℕ) → PositionState D
  flat_position symbol now = record {
    symbol = symbol;
    position_side = "BOTH";
    direction = flat;
    quantity = num 0;
    entry_price = num 0;
    mark_price = num 0;
    notional = num 0;
    unrealized_pnl = num 0;
    leverage = pos 1;
    margin_type = "cross";
    isolated_wallet = num 0;
    updated_at = now;
  }

-- One fill, as lines 125-142 compute it.
pub record Fill (D : Type 0) : Type 0 where
  pub price : D
  pub quantity : D
  pub signed : D
  pub turnover : D
  pub fee : D

module _ {D F : Type 0} ⦃n : Number D⦄ ⦃q : Decimal D⦄ ⦃c : Conversion D F⦄ where
  -- `Decimal(…) / fill_price` raises on a price of zero, which the rounding of a tiny price makes. A
  -- quantity that is NaN raises at the next comparison, in line 144 or in `_direction_for_quantity`.
  unfoldable pub fill_of :
      PaperState D F → Side → (reference_price approved_notional : F) → Result (Fill D)
  unfolding apply_slippage
  fill_of p side reference_price approved_notional =
      let price = apply_slippage p.slippage_bps (decimal_of reference_price) side in
      let quantity = quantize half_even 8 (decimal_of approved_notional / price) in
      let turnover = abs (quantity * price) in
      do
        raise_if (price =? num 0) zero_division
        compared quantity
        ok (record {
          price = price;
          quantity = quantity;
          signed = if is_buy side then quantity else opposite quantity;
          turnover = turnover;
          fee = quantize half_up 8 (turnover * p.taker_fee_bps / num 10000);
        })

module _ {F : Type 0} ⦃f : Float F⦄ where
  -- `max(int(round(leverage)), 1)`
  abbrev pub whole_leverage : F → ℤ
  whole_leverage leverage = if leb_ℤ (pos 1) (round_int leverage) then round_int leverage else pos 1

module _ {D F : Type 0} ⦃n : Number D⦄ ⦃q : Decimal D⦄ ⦃f : Float F⦄ where
  -- lines 142-163
  unfoldable pub filled_position :
      Fill D → (leverage : F) → (ts : ℕ) → PositionState D → PositionState D
  unfolding entry_after direction_for_quantity
  filled_position fill leverage ts p =
      let quantity = p.quantity + fill.signed in
      let entry = entry_after p.quantity p.entry_price fill.signed fill.price in
      record p {
        quantity = quantity;
        entry_price = entry;
        mark_price = fill.price;
        notional = quantity * fill.price;
        unrealized_pnl = if quantity =? num 0 then num 0 else (fill.price - entry) * quantity;
        direction = direction_for_quantity quantity;
        leverage = whole_leverage leverage;
        updated_at = ts;
      }

module _ {D F : Type 0} ⦃n : Number D⦄ ⦃c : Conversion D F⦄ where
  -- lines 167-175
  unfoldable pub track_entry :
      String
      → (strategy : Option String) → (ts : ℕ) → (old_quantity new_quantity fill_price : D)
      → PaperState D F
      → PaperState D F
  track_entry symbol strategy ts old new fill_price p =
      if not (new =? num 0) && (old =? num 0)
      then record p {
        position_metadata =
            insert symbol
              (record {
                entry_time = ts;
                peak_price = float_of fill_price;
                strategy_name = or_else (present strategy) "unknown";
              })
              p.position_metadata;
      }
      else if new =? num 0
      then record p {
        position_metadata = remove symbol p.position_metadata;
        last_exit_time = insert symbol ts p.last_exit_time;
      }
      else p

module _ {D F : Type 0} ⦃n : Number D⦄ where
  -- The position that a symbol has, or the flat one that `get` puts in its place; its time of creation
  -- is overwritten by the fill.
  unfoldable pub position_of : String → (ts : ℕ) → PaperState D F → PositionState D
  position_of symbol ts p =
      or_else (lookup (symbol, "BOTH") p.state.positions) (flat_position symbol ts)

module _ {D F : Type 0} where
  -- lines 177-179
  abbrev pub book : (realized : D) → ⦃n : Number D⦄ → Fill D → PaperState D F → PaperState D F
  book realized fill p = record p {
    realized_pnl = p.realized_pnl + realized;
    fees_paid = p.fees_paid + fill.fee;
    turnover_notional = p.turnover_notional + fill.turnover;
  }

module _ {D F : Type 0} ⦃n : Number D⦄ ⦃q : Decimal D⦄ ⦃m : Number F⦄ ⦃f : Float F⦄
    ⦃c : Conversion D F⦄ where
  -- The rest of `apply_decision` once there is a fill. The snapshot for the journal reads the balance.
  unfoldable pub apply_fill :
      TradeDecision F D
      → RiskDecision F
      → (ts : ℕ) → Fill D
      → PaperState D F
      → Result (Option (PaperFillResult D) × PaperState D F)
  unfolding position_of
  apply_fill d risk ts fill p =
      let old = position_of d.symbol ts p in
      let position = filled_position fill risk.approved_leverage ts old in
      let realized = realized_by old.quantity old.entry_price fill.signed fill.price in
      let entered = record p { state = upsert_position position p.state } in
      let tracked =
        track_entry d.symbol d.selected_strategy ts old.quantity position.quantity fill.price
          entered in
      do
        synced ← sync_balance (book realized fill tracked)
        let p' = account_state ts synced
        balance ← usdt_balance p'
        ok (
          some (record {
            symbol = d.symbol;
            fill_price = fill.price;
            fill_quantity = fill.quantity;
            realized_pnl_delta = realized;
            resulting_quantity = position.quantity;
          }),
          p',
        )

  unfoldable pub apply_decision :
      TradeDecision F D
      → FeatureVector F
      → (ts : ℕ) → PaperState D F
      → Result (Option (PaperFillResult D) × PaperState D F)
  apply_decision d feature ts p = elim (executable d) [
    | none ↦ ok (none, p)
    | some (side, risk) ↦ if feature.reference_price ≤? num 0 then ok (none, p) else do
      fill ← fill_of p side feature.reference_price risk.approved_notional
      apply_fill d risk ts fill p
  ]
