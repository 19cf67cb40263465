-- ===== src/Domain/Positions.antt =====
-- src/cats_py/domain/models.py: balances and positions.
use nofx_cats_py.Prelude.{ℕ, Bool, not, String, if◌then◌else◌}
use nofx_cats_py.Prelude.Int.{ℤ}
use nofx_cats_py.Num.{Number, ◌*◌, ◌=?◌, abs, num}
use nofx_cats_py.Domain.Enums.{PositionDirection}

pub record BalanceState (D : Type 0) : Type 0 where
  pub asset : String
  pub wallet_balance : D
  pub available_balance : D
  pub cross_wallet_balance : D
  pub updated_at : ℕ

pub record PositionState (D : Type 0) : Type 0 where
  pub symbol : String
  pub position_side : String
  pub direction : PositionDirection
  pub quantity : D
  pub entry_price : D
  pub mark_price : D
  pub notional : D
  pub unrealized_pnl : D
  pub leverage : ℤ
  pub margin_type : String
  pub isolated_wallet : D
  pub updated_at : ℕ

-- `PositionState.key`
abbrev pub position_key : {D : Type 0} → PositionState D → String × String
position_key p = (p.symbol, p.position_side)

module _ {D : Type 0} ⦃n : Number D⦄ where
  -- `PositionState.is_open`
  abbrev pub is_open : PositionState D → Bool
  is_open p = not (p.quantity =? num 0)

  -- `a or b` on decimals: zero is false.
  abbrev pub nonzero_or : D → D → D
  nonzero_or a b = if a =? num 0 then b else a

  -- `PositionState.gross_notional`
  unfoldable pub position_gross_notional : PositionState D → D
  position_gross_notional p =
      if not (p.notional =? num 0)
      then abs p.notional
      else abs (p.quantity * nonzero_or p.mark_price p.entry_price)
