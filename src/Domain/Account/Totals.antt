-- ===== src/Domain/Account/Totals.antt =====
-- The sums over an account, and the snapshot that the risk kernel reads.
use nofx_cats_py.Prelude.{
  ℕ, none, some, String, List, [], ◌∷◌, ltb, string_eq, select, length, map, or_else, if◌then◌else◌,
}
use nofx_cats_py.Dict.{Dict, values, lookup, insert}
use nofx_cats_py.Num.{
  Number, Float, Conversion, ◌+◌, ◌/◌, ◌<?◌, ◌≤?◌, num, max, sum_from, float_of, elapsed,
}
use nofx_cats_py.Domain.Positions.{PositionState, is_open, position_gross_notional}
use nofx_cats_py.Domain.Signals.{AccountSnapshot}
use nofx_cats_py.Domain.Account.State.{AccountState}

module _ {D : Type 0} ⦃n : Number D⦄ where
  -- `[p for p in positions.values() if p.is_open]`
  abbrev pub open_positions_of : AccountState D → List (PositionState D)
  open_positions_of s = select is_open (values s.positions)

  unfoldable pub total_wallet_balance : AccountState D → D
  total_wallet_balance s = sum_from (num 0) (map (λ b. b.wallet_balance) (values s.balances))

  unfoldable pub total_unrealized_pnl : AccountState D → D
  total_unrealized_pnl s = sum_from (num 0) (map (λ p. p.unrealized_pnl) (open_positions_of s))

  unfoldable pub total_equity : AccountState D → D
  total_equity s = total_wallet_balance s + total_unrealized_pnl s

  unfoldable pub gross_notional : AccountState D → D
  gross_notional s = sum_from (num 0) (map position_gross_notional (open_positions_of s))

  unfoldable pub open_position_count : AccountState D → ℕ
  open_position_count s = length (open_positions_of s)

  -- The loop that adds up each symbol's notional.
  unfoldable pub symbol_notionals : List (PositionState D) → Dict String D → Dict String D
  symbol_notionals [] acc = acc
  symbol_notionals (p ∷ ps) acc = symbol_notionals ps (
      if is_open p
      then insert p.symbol (or_else (lookup p.symbol acc) (num 0) + position_gross_notional p) acc
      else acc)

module _ {D F : Type 0} ⦃n : Number D⦄ ⦃m : Number F⦄ ⦃c : Conversion D F⦄ where
  abbrev shares : D → Dict String D → Dict String F
  shares equity [] = []
  shares equity ((symbol, notional) ∷ rest) =
      (symbol, float_of (notional / equity)) ∷ shares equity rest

  unfoldable pub symbol_gross_exposures : AccountState D → Dict String F
  symbol_gross_exposures s =
      let equity = total_equity s in
      if equity ≤? num 0 then [] else shares equity (symbol_notionals (values s.positions) [])

module _ {D F : Type 0} ⦃n : Number D⦄ ⦃m : Number F⦄ ⦃f : Float F⦄ where
  unfoldable pub user_stream_stale_seconds : AccountState D → (now : ℕ) → F
  user_stream_stale_seconds s now = elim s.last_user_stream_event_at [
    | none ↦ num 0
    | some at ↦ max (elapsed now at) (num 0)
  ]

module _ {D F : Type 0} ⦃n : Number D⦄ ⦃m : Number F⦄ ⦃f : Float F⦄ ⦃c : Conversion D F⦄ where
  unfoldable pub to_snapshot :
      (daily_drawdown_pct weekly_drawdown_pct : F) (now : ℕ) → AccountState D → AccountSnapshot F
  to_snapshot daily weekly now s =
      let equity = total_equity s in
      record {
        equity = float_of equity;
        daily_drawdown_pct = daily;
        weekly_drawdown_pct = weekly;
        gross_exposure = if num 0 <? equity then float_of (gross_notional s / equity) else num 0;
        open_positions = open_position_count s;
        user_stream_stale_seconds = user_stream_stale_seconds s now;
        state_mismatch = ltb 0 s.state_mismatch_count;
        reconcile_failures = s.reconcile_failure_count;
        kill_switch_active = s.kill_switch_active;
        symbol_gross_exposures = symbol_gross_exposures s;
      }
