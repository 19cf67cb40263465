-- ===== src/Runtime/Symbols.antt =====
-- src/cats_py/services/decision_runtime.py: the service's fields, its symbols, and the preview of an
-- order. The journal, which only people read, is left out.
use nofx_cats_py.Prelude.{
  Bool, true, not, Option, none, some, String, List, [], ◌∷◌, ◌++◌, string_eq, if◌then◌else◌,
}
use nofx_cats_py.Dict.{Dict, keys, insert_all, lookup, insert}
use nofx_cats_py.Domain.Enums.{side_value}
use nofx_cats_py.Domain.Signals.{TradeDecision}
use nofx_cats_py.Decision.Engine.{DecisionEngine}
use nofx_cats_py.Exits.Evaluator.{ExitConfig}
use nofx_cats_py.Paper.State.{PaperState}
use nofx_cats_py.Paper.Fill.{executable}
use nofx_cats_py.Runtime.Settings.{
  RuntimeMode, shadow, paper, live_micro, mode_value, AppConfig, SymbolConfig,
}
use nofx_cats_py.Runtime.Modes.{RuntimeModeSummary, mode_beq, assign}

pub record DecisionRuntime (D F : Type 0) : Type 0 where
  pub decision_engine : DecisionEngine F
  pub app_config : AppConfig F
  pub symbol_config : SymbolConfig
  pub mode_summary : RuntimeModeSummary F
  pub paper_execution : Option (PaperState D F)
  pub exit_evaluator : Option (ExitConfig F)

-- `list(dict.fromkeys(symbols))`
unfoldable pub distinct : List String → List String
distinct symbols = keys (insert_all (assign true symbols) [])

-- `setdefault(symbol, source)` for each symbol.
unfoldable pub set_defaults : String → List String → Dict String String → Dict String String
set_defaults source [] sources = sources
set_defaults source (symbol ∷ symbols) sources =
    set_defaults source symbols
      (elim (lookup symbol sources) [ none ↦ insert symbol source sources | some old ↦ sources ])

unfoldable pub symbol_sources : SymbolConfig → Dict String String
unfolding set_defaults
symbol_sources c =
    set_defaults "experimental" c.experimental
      (set_defaults "liquid_alt" c.liquid_alt (insert_all (assign "core" c.core) []))

abbrev pub decision_stream : RuntimeMode → String
decision_stream shadow = "shadow_decision_log"
decision_stream paper = "paper_decision_log"
decision_stream _ = "decision_log"

module _ {D F : Type 0} where
  unfoldable pub configured_symbols : DecisionRuntime D F → List String
  unfolding distinct
  configured_symbols r =
      let c = r.symbol_config in
      if mode_beq r.mode_summary.mode live_micro
      then c.core
      else distinct (c.core ++ (c.liquid_alt ++ c.experimental))

  -- The paper account, where `mode_summary.paper_execution and self.paper_execution is not None`.
  abbrev pub active_paper : DecisionRuntime D F → Option (PaperState D F)
  active_paper r = if r.mode_summary.paper_execution then r.paper_execution else none

-- The preview's keys with a constant value, the order type and the position side, are left out.
pub record OrderPreview (F : Type 0) : Type 0 where
  pub symbol : String
  pub side : String
  pub target_notional : F
  pub approved_leverage : F
  pub live_submission_enabled : Bool
  pub submission_blocked_by_mode : Option String

module _ {D F : Type 0} where
  unfoldable pub build_order_request_preview :
      RuntimeModeSummary F → TradeDecision F D → Option (OrderPreview F)
  build_order_request_preview summary decision = elim (executable decision) [
    | none ↦ none
    | some (side, risk) ↦ some (record {
      symbol = decision.symbol;
      side = side_value side;
      target_notional = risk.approved_notional;
      approved_leverage = risk.approved_leverage;
      live_submission_enabled = summary.live_order_submission;
      submission_blocked_by_mode =
          if not summary.live_order_submission then some (mode_value summary.mode) else none;
    })
  ]
