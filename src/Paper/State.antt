-- ===== src/Paper/State.antt =====
-- src/cats_py/services/paper_execution.py: the service's fields, and the methods that read and settle
-- them. What the service writes to its journal is only read by people, and is left out.
use nofx_cats_py.Prelude.{
  ℕ, Bool, false, not, ◌&&◌, none, some, String, string_eq, pair_eq, if◌then◌else◌,
}
use nofx_cats_py.Prelude.Int.{negsuc}
use nofx_cats_py.Result.{Result, ok, raise, key_error, other_error}
use nofx_cats_py.Raise.{◌>>=◌}
use nofx_cats_py.Dict.{Dict, lookup, insert}
use nofx_cats_py.Num.{
  Number, Float, Decimal, Conversion, half_up, quantize, ◌+◌, ◌-◌, ◌*◌, ◌/◌, ◌<?◌, ◌≤?◌, ◌=?◌, num,
  lit, float_of, elapsed,
}
use nofx_cats_py.Domain.Enums.{PositionDirection, long, short, flat}
use nofx_cats_py.Domain.Positions.{BalanceState}
use nofx_cats_py.Domain.Account.{
  AccountState, record_user_stream_event, mark_reconciled, total_equity, activate_kill_switch,
}
use nofx_cats_py.Exits.Evaluator.{PositionEntryMeta}

pub record PaperFillResult (D : Type 0) : Type 0 where
  pub symbol : String
  pub fill_price : D
  pub fill_quantity : D
  pub realized_pnl_delta : D
  pub resulting_quantity : D

pub record PaperState (D F : Type 0) : Type 0 where
  pub slippage_bps : D
  pub taker_fee_bps : D
  pub funding_interval_hours : D
  pub realized_pnl : D
  pub fees_paid : D
  pub funding_pnl : D
  pub turnover_notional : D
  pub initial_balance : D
  pub last_funding_applied_at : Dict String ℕ
  pub position_metadata : Dict String (PositionEntryMeta F)
  pub last_exit_time : Dict String ℕ
  pub session_high_equity : D
  pub state : AccountState D

module _ {D : Type 0} ⦃n : Number D⦄ where
  -- An ordering comparison of a `Decimal` that may be NaN, which is not equal to itself: it raises.
  abbrev pub compared : D → Result (Unit {0})
  compared x = if x =? x then ok tt else raise (other_error "InvalidOperation")

module _ {D F : Type 0} where
  -- `self.state.balances[USDT]`
  abbrev pub usdt_balance : PaperState D F → Result (BalanceState D)
  usdt_balance p = elim (lookup "USDT" p.state.balances) [
    | none ↦ raise (key_error "USDT")
    | some b ↦ ok b
  ]

module _ {D F : Type 0} ⦃n : Number D⦄ where
  -- `account_state(now=now)`
  unfoldable pub account_state : (now : ℕ) → PaperState D F → PaperState D F
  account_state now p =
      let s = mark_reconciled (some now) now (record_user_stream_event (some now) now p.state) in
      let equity = total_equity s in
      record p {
        state = s;
        session_high_equity =
            if p.session_high_equity <? equity then equity else p.session_high_equity;
      }

module _ {D : Type 0} ⦃n : Number D⦄ where
  unfoldable pub quantity_sign : D → D
  quantity_sign q = if num 0 <? q then num 1 else if q <? num 0 then lit (negsuc 0) 0 else num 0

  unfoldable pub direction_for_quantity : D → PositionDirection
  direction_for_quantity q = if num 0 <? q then long else if q <? num 0 then short else flat

  -- The kill switch at the end of `_sync_balance`.
  abbrev pub deplete : D → AccountState D → AccountState D
  deplete wallet s =
      if (wallet ≤? num 0) && not s.kill_switch_active
      then activate_kill_switch "paper equity depleted" s
      else s

module _ {D F : Type 0} ⦃n : Number D⦄ ⦃m : Number F⦄ ⦃c : Conversion D F⦄ where
  -- `drawdown_pct`
  unfoldable pub drawdown_pct : PaperState D F → F
  drawdown_pct p =
      if p.session_high_equity ≤? num 0
      then num 0
      else float_of ((total_equity p.state - p.session_high_equity) / p.session_high_equity)
        * num 100

module _ {D F : Type 0} ⦃m : Number F⦄ ⦃f : Float F⦄ where
  -- `is_in_cooldown`
  unfoldable pub is_in_cooldown :
      String → (now : ℕ) → (cooldown_minutes : F) → PaperState D F → Bool
  is_in_cooldown symbol now minutes p = elim (lookup symbol p.last_exit_time) [
    | none ↦ false
    | some exit_time ↦ elapsed now exit_time / num 60 <? minutes
  ]

module _ {D F : Type 0} ⦃n : Number D⦄ ⦃q : Decimal D⦄ where
  -- What the wallet holds by the books.
  abbrev pub book_balance : PaperState D F → D
  book_balance p =
      quantize half_up 8 (p.initial_balance + p.realized_pnl + p.funding_pnl - p.fees_paid)

  -- `_sync_balance` with the balance that it finds.
  abbrev pub settle : BalanceState D → PaperState D F → PaperState D F
  settle balance p =
      let wallet = book_balance p in
      let settled = record balance {
        wallet_balance = wallet;
        available_balance = wallet;
        cross_wallet_balance = wallet;
      } in
      record p {
        state =
            deplete wallet (record p.state { balances = insert "USDT" settled p.state.balances });
      }

  -- `_sync_balance`
  unfoldable pub sync_balance : PaperState D F → Result (PaperState D F)
  sync_balance p = do balance ← usdt_balance p; ok (settle balance p)
