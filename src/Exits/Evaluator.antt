-- ===== src/Exits/Evaluator.antt =====
-- src/cats_py/exits/evaluator.py. No statement of the `try` block raises on the values that the types
-- admit: the divisors are at least 1 and positive. So `last_errors` stays empty and is left out.
use nofx_cats_py.Prelude.{
  ℕ, Bool, false, ◌&&◌, Option, none, some, String, List, [], ◌∷◌, concat, lower, string_eq,
  if◌then◌else◌,
}
use nofx_cats_py.Prelude.Int.{negsuc, pos}
use nofx_cats_py.Dict.{Dict, lookup, values}
use nofx_cats_py.Num.{
  Number, Float, Conversion, ◌-◌, ◌*◌, ◌/◌, ◌<?◌, ◌≤?◌, abs, opposite, num, lit, float_of, elapsed,
  of_int,
}
use nofx_cats_py.Domain.Enums.{
  Side, buy, sell, unknown_regime, core, approved, long, short, flat, is_long, direction_value,
}
use nofx_cats_py.Domain.Positions.{PositionState, is_open}
use nofx_cats_py.Domain.Signals.{FeatureVector, TradeDecision, trade_execute}
use nofx_cats_py.Domain.Account.{AccountState}

pub record PositionEntryMeta (F : Type 0) : Type 0 where
  pub entry_time : ℕ
  pub peak_price : F
  pub strategy_name : String

pub record ExitConfig (F : Type 0) : Type 0 where
  pub stop_loss_pct : F
  pub take_profit_pct : F
  pub max_hold_hours : F
  pub trailing_stop_pct : F

-- `ExitConfig()`
abbrev pub default_exit_config : {F : Type 0} ⦃n : Number F⦄ → ExitConfig F
default_exit_config = record {
  stop_loss_pct = lit (pos 15) 3;
  take_profit_pct = lit (pos 2) 2;
  max_hold_hours = num 12;
  trailing_stop_pct = lit (pos 25) 3;
}

module _ {D : Type 0} where
  abbrev pub close_side : PositionState D → Side
  close_side p = if is_long p.direction then sell else buy

module _ {F : Type 0} ⦃n : Number F⦄ ⦃f : Float F⦄ where
  abbrev pub held_hours : PositionEntryMeta F → (now : ℕ) → F
  held_hours meta now = elapsed now meta.entry_time / num 3600

module _ {D F : Type 0} ⦃n : Number F⦄ where
  unfoldable pub signal_reversal : PositionState D → FeatureVector F → Bool
  signal_reversal position feature = elim position.direction [
    | long ↦ (feature.trend_score <? lit (negsuc 2) 2) && (feature.flow_score <? num 0)
    | short ↦ (lit (pos 3) 2 <? feature.trend_score) && (num 0 <? feature.flow_score)
    | flat ↦ false
  ]

module _ {D F : Type 0} ⦃n : Number F⦄ ⦃f : Float F⦄ ⦃c : Conversion D F⦄ where
  -- `abs(float(position.entry_price) * float(position.quantity))`
  abbrev pub entry_notional : PositionState D → F
  entry_notional p = abs (float_of p.entry_price * float_of p.quantity)

  abbrev pub pnl_ratio : PositionState D → F
  pnl_ratio p = float_of p.unrealized_pnl / entry_notional p

  -- The retracement from the best price since the entry.
  abbrev pub retrace : PositionState D → PositionEntryMeta F → F
  retrace p meta =
      if is_long p.direction
      then (meta.peak_price - float_of p.mark_price) / meta.peak_price
      else (float_of p.mark_price - meta.peak_price) / meta.peak_price

  -- The tests of the `if meta is not None` block.
  unfoldable pub check_held :
      ExitConfig F → PositionState D → Option (PositionEntryMeta F) → (now : ℕ) → Option String
  check_held config p none now = none
  check_held config p (some meta) now =
      if config.max_hold_hours ≤? held_hours meta now
      then some "exit_max_hold_time"
      else if (num 0 <? meta.peak_price) && (config.trailing_stop_pct ≤? retrace p meta)
      then some "exit_trailing_stop"
      else none

  unfoldable pub check_exit :
      ExitConfig F
      → PositionState D
      → FeatureVector F
      → Option (PositionEntryMeta F)
      → (now : ℕ) → Option String
  check_exit config p feature meta now =
      if entry_notional p <? num 1
      then none
      else if pnl_ratio p ≤? opposite config.stop_loss_pct
      then some "exit_stop_loss"
      else if config.take_profit_pct ≤? pnl_ratio p
      then some "exit_take_profit"
      else elim (check_held config p meta now) [
        | some reason ↦ some reason
        | none ↦ if signal_reversal p feature then some "exit_signal_reversal" else none
      ]

  unfoldable pub build_exit_decision : (clock : ℕ) → PositionState D → String → TradeDecision F D
  build_exit_decision clock p reason =
      trade_execute clock (concat (reason ∷ "-" ∷ lower p.symbol ∷ [])) p.symbol unknown_regime
        (close_side p)
        (reason ∷ concat ("closing " ∷ direction_value p.direction ∷ " position" ∷ []) ∷ [])
        (record {
          status = approved;
          reason = "exit approved (no risk gate for exits)";
          symbol_tier = some core;
          approved_notional = abs (float_of p.mark_price * float_of p.quantity);
          approved_leverage = of_int p.leverage;
          risk_budget_bps = num 0;
        })
        (num 0) (some reason)

module _ {D F : Type 0} ⦃m : Number D⦄ ⦃n : Number F⦄ ⦃f : Float F⦄ ⦃c : Conversion D F⦄
    (config : ExitConfig F) (features : Dict String (FeatureVector F))
    (metadata : Dict String (PositionEntryMeta F)) (now : ℕ) where
  -- The body of the loop: the reason to close this position, if any.
  unfoldable pub exit_reason : PositionState D → Option String
  exit_reason p =
      if is_open p
      then elim (lookup p.symbol features) [
        | none ↦ none
        | some feature ↦ check_exit config p feature (lookup p.symbol metadata) now
      ]
      else none

  unfoldable pub exits_of : (clock : ℕ) → List (PositionState D) → List (TradeDecision F D)
  exits_of clock [] = []
  exits_of clock (p ∷ ps) =
      let rest = exits_of clock ps in
      elim (exit_reason p) [ none ↦ rest | some reason ↦ build_exit_decision clock p reason ∷ rest ]

  -- `PositionExitEvaluator.evaluate`; `clock` is read for the decisions' creation time.
  unfoldable pub evaluate_exits : (clock : ℕ) → AccountState D → List (TradeDecision F D)
  evaluate_exits clock account = exits_of clock (values account.positions)
