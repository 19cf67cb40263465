-- ===== src/Runtime/Guards.antt =====
-- What the loop over the symbols lets through to the engine.
use nofx_cats_py.Prelude.{◌≡◌, ◌≢◌, ℕ, true, false, String, List, any, string_eq, ◌==◌, arith}
use nofx_cats_py.Result.{ok}
use nofx_cats_py.Num.{Number, Float, Decimal, Conversion, ◌<?◌, num}
use nofx_cats_py.Domain.Enums.{execute}
use nofx_cats_py.Domain.Signals.{FeatureVector, AccountSnapshot, TradeDecision, trade_no_trade}
use nofx_cats_py.Risk.Gates.{must_halt, evaluate-halted_iff}
use nofx_cats_py.Decision.Engine.{DecisionEngine, decide}
use nofx_cats_py.Decision.Best.{decide-IsApproved}
use nofx_cats_py.Runtime.Symbols.{DecisionRuntime}
use nofx_cats_py.Runtime.Cycle.{
  Formatting, Reading, Cycle, Standing, cooling, drawn_down, decide_symbol,
}

module _ {D F : Type 0} ⦃n : Number D⦄ ⦃q : Decimal D⦄ ⦃m : Number F⦄ ⦃f : Float F⦄
    ⦃c : Conversion D F⦄ ⦃spelled : Formatting F⦄ (r : DecisionRuntime D F) (cycle : Cycle F)
    (opened : List String) (paper_dd : F) where
  -- A decision to execute is the engine's, for a feature that is not stale and a symbol that neither
  -- cools down nor has a position, on an account that is not past its soft drawdown limit with a
  -- position open.
  pub decide_symbol-execute :
      (reading : Reading) (symbol : String) (feature : FeatureVector F) (s : Standing D F)
      {d : TradeDecision F D}
      → decide_symbol r cycle opened paper_dd reading symbol feature s ≡ ok d
      → d.status ≡ execute
      → ((num r.app_config.nofx_stale_kill_seconds <? feature.stale_seconds) ≡ false)
        × (cooling r cycle s symbol ≡ false)
        × (any (λ other. other == symbol) opened ≡ false)
        × (drawn_down s opened paper_dd ≡ false)
        × (decide r.decision_engine reading.enriched_at reading.created_at reading.decision_id
              feature s.snapshot
            ≡ ok d)
  unfolding decide_symbol trade_no_trade
  decide_symbol-execute reading symbol feature s h e = ground arith

module _ {F D : Type 0} ⦃n : Number F⦄ ⦃f : Float F⦄ where
  -- On an account that meets a halting condition the engine executes nothing.
  pub decide-halted :
      (engine : DecisionEngine F) (now clock : ℕ) (decision_id : String) (feature : FeatureVector F)
      (account : AccountSnapshot F) {d : TradeDecision F D}
      → must_halt engine.risk_kernel.policy account ≡ true
      → decide engine now clock decision_id feature account ≡ ok d
      → d.status ≢ execute
  decide-halted engine now clock decision_id feature account halt h e =
      let (signal, risk, member, (positive, verdict, granted), symbol, side, carried) =
        decide-IsApproved engine now clock decision_id feature account h e in
      let stopped = (evaluate-halted_iff engine.risk_kernel signal account verdict).1 halt in
      ground arith
