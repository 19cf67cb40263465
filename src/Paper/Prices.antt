-- ===== src/Paper/Prices.antt =====
-- src/cats_py/services/paper_execution.py: the prices and the profit of a fill.
use nofx_cats_py.Prelude.{Bool, ◌||◌, if◌then◌else◌}
use nofx_cats_py.Num.{
  Number, Decimal, half_up, quantize, ◌+◌, ◌-◌, ◌*◌, ◌/◌, ◌<?◌, ◌=?◌, abs, num, min,
}
use nofx_cats_py.Domain.Enums.{Side, is_buy}
use nofx_cats_py.Paper.State.{quantity_sign}

module _ {D : Type 0} ⦃n : Number D⦄ where
  -- The fill opens a position or adds to one.
  abbrev pub adds : (old signed : D) → Bool
  adds old signed = (old =? num 0) || (num 0 <? old * signed)

  -- `realized_delta` of lines 136-148.
  unfoldable pub realized_by : (old old_entry signed fill_price : D) → D
  unfolding quantity_sign
  realized_by old old_entry signed fill_price =
      if adds old signed
      then num 0
      else (fill_price - old_entry) * min (abs old) (abs signed) * quantity_sign old

module _ {D : Type 0} ⦃n : Number D⦄ ⦃q : Decimal D⦄ where
  unfoldable pub weighted_entry_price : (old old_entry fill fill_price : D) → D
  weighted_entry_price old old_entry fill fill_price =
      let total = abs old + abs fill in
      if total =? num 0
      then num 0
      else quantize half_up 8 ((abs old * old_entry + abs fill * fill_price) / total)

  -- `new_entry_price` of lines 144-154.
  unfoldable pub entry_after : (old old_entry signed fill_price : D) → D
  unfolding weighted_entry_price
  entry_after old old_entry signed fill_price =
      if adds old signed
      then weighted_entry_price old old_entry signed fill_price
      else if abs signed <? abs old
      then old_entry
      else if abs signed =? abs old
      then num 0
      else fill_price

  -- `_apply_slippage`
  unfoldable pub apply_slippage : (slippage_bps price : D) → Side → D
  apply_slippage slippage_bps price side = quantize half_up 8 (
      price
      * (if is_buy side
          then num 1 + slippage_bps / num 10000
          else num 1 - slippage_bps / num 10000))
