-- ===== src/Exits/Reasons.antt =====
-- Which exits `PositionExitEvaluator.evaluate` orders, and when `_check_exit` finds no reason for one.
use nofx_cats_py.Prelude.{
  ℕ, ◌≡◌, refl, ◌⊎◌, ◌↔◌, Bool, true, false, not, ◌&&◌, ◌||◌, Option, none, some, String, List, [],
  ◌∷◌, arith, string_eq, Option-cases, inl, inr, is_some, select, map,
}
use nofx_cats_py.Dict.{Dict, lookup, values}
use nofx_cats_py.Num.{Number, Float, Conversion, ◌<?◌, ◌≤?◌, num, opposite}
use nofx_cats_py.Domain.Enums.{Side, buy, sell, PositionDirection, long, short, flat, is_execute}
use nofx_cats_py.Domain.Positions.{PositionState, is_open}
use nofx_cats_py.Domain.Signals.{FeatureVector, TradeDecision, trade_execute}
use nofx_cats_py.Domain.Account.{AccountState}
use nofx_cats_py.Exits.Evaluator.{
  PositionEntryMeta, ExitConfig, signal_reversal, entry_notional, pnl_ratio, held_hours, retrace,
  check_held, check_exit, build_exit_decision, exit_reason, exits_of, evaluate_exits,
}

module _ {F : Type 0} ⦃n : Number F⦄ ⦃f : Float F⦄ where
  abbrev pub expired : ExitConfig F → Option (PositionEntryMeta F) → ℕ → Bool
  expired config none now = false
  expired config (some meta) now = config.max_hold_hours ≤? held_hours meta now

module _ {D F : Type 0} ⦃n : Number F⦄ ⦃f : Float F⦄ ⦃c : Conversion D F⦄ where
  abbrev pub stopped : ExitConfig F → PositionState D → Bool
  stopped config p = pnl_ratio p ≤? opposite config.stop_loss_pct

  abbrev pub taken : ExitConfig F → PositionState D → Bool
  taken config p = config.take_profit_pct ≤? pnl_ratio p

  abbrev pub trailed : ExitConfig F → PositionState D → Option (PositionEntryMeta F) → ℕ → Bool
  trailed config p none now = false
  trailed config p (some meta) now =
      (num 0 <? meta.peak_price) && (config.trailing_stop_pct ≤? retrace p meta)

  -- A position worth at least 1 at its entry is kept exactly when none of the five conditions holds;
  -- a smaller one is always kept.
  pub check_exit-none_iff :
      (config : ExitConfig F) (p : PositionState D) (feature : FeatureVector F)
      (meta : Option (PositionEntryMeta F)) (now : ℕ)
      → (check_exit config p feature meta now ≡ none) ↔ (
          (n.lt (entry_notional p) (num 1) ≡ true)
          ⊎ ((stopped config p
                || taken config p
                || expired config meta now
                || trailed config p meta now
                || signal_reversal p feature)
              ≡ false))
  unfolding check_exit check_held
  check_exit-none_iff config p feature none now = ground arith
  check_exit-none_iff config p feature (some meta) now = ground arith

-- The side that takes a position back.
abbrev pub opposite_side : PositionDirection → Side
opposite_side long = sell
opposite_side short = buy
opposite_side flat = buy

-- What closes a position: its symbol, the side that takes it back, and an execution.
abbrev pub closing : {D : Type 0} → PositionState D → String × Option Side × Bool
closing p = (p.symbol, some (opposite_side p.direction), true)

abbrev pub ordered : {F D : Type 0} → TradeDecision F D → String × Option Side × Bool
ordered d = (d.symbol, d.side, is_execute d.status)

module _ {D F : Type 0} ⦃m : Number D⦄ ⦃n : Number F⦄ ⦃f : Float F⦄ ⦃c : Conversion D F⦄
    (config : ExitConfig F) (features : Dict String (FeatureVector F))
    (metadata : Dict String (PositionEntryMeta F)) (now : ℕ) where
  -- An open position with a feature, worth at least 1 at its entry, that meets an exit condition.
  abbrev pub must_exit : PositionState D → Bool
  must_exit p = is_open p && elim (lookup p.symbol features) [
    | none ↦ false
    | some feature ↦
        let meta = lookup p.symbol metadata in
        not (n.lt (entry_notional p) (num 1))
        && (stopped config p
            || taken config p
            || expired config meta now
            || trailed config p meta now
            || signal_reversal p feature)
  ]

  is_some-check_exit :
      (p : PositionState D) (feature : FeatureVector F) (meta : Option (PositionEntryMeta F))
      → is_some (check_exit config p feature meta now) ≡ (
          not (n.lt (entry_notional p) (num 1))
          && (stopped config p
              || taken config p
              || expired config meta now
              || trailed config p meta now
              || signal_reversal p feature))
  unfolding check_exit check_held
  is_some-check_exit p feature none = ground arith
  is_some-check_exit p feature (some meta) = ground arith

  is_some-exit_reason :
      (p : PositionState D) → is_some (exit_reason config features metadata now p) ≡ must_exit p
  unfolding exit_reason
  is_some-exit_reason p = elim (Option-cases (lookup p.symbol features)) [
    | inl missing ↦ ground arith
    | inr (feature, found) ↦ ground (arith, is_some-check_exit p feature (lookup p.symbol metadata))
  ]

  closing-exit :
      (clock : ℕ) (p : PositionState D) (reason : String)
      → ordered {F = F} (build_exit_decision clock p reason) ≡ closing p
  unfolding build_exit_decision trade_execute
  closing-exit clock p reason = ground arith

  exits_of-eq :
      (clock : ℕ) (ps : List (PositionState D))
      → map ordered (exits_of config features metadata now clock ps)
        ≡ map closing (select must_exit ps)
  unfolding exits_of
  exits_of-eq clock [] = refl
  exits_of-eq clock (p ∷ ps) =
      let known = is_some-exit_reason p in
      elim (Option-cases (exit_reason config features metadata now p)) [
        | inl kept ↦ ground (arith, known, exits_of-eq clock ps)
        | inr (reason, found) ↦
            ground (arith, known, closing-exit clock p reason, exits_of-eq clock ps)
      ]

  -- The evaluator orders one exit, an execution, for each position that is open, has a feature, was
  -- worth at least 1 at its entry and meets one of the five exit conditions, in the account's order: on
  -- the position's symbol, sells a long one and buys back a short one.
  pub evaluate_exits-eq :
      (clock : ℕ) (account : AccountState D)
      → map ordered (evaluate_exits config features metadata now clock account)
        ≡ map closing (select must_exit (values account.positions))
  unfolding evaluate_exits
  evaluate_exits-eq clock account = exits_of-eq clock (values account.positions)
