-- ===== src/Risk/Constitution.antt =====
-- src/cats_py/risk/constitution.py: the limits that the kernel enforces.
use nofx_cats_py.Prelude.{ℕ, Bool, String, [], ◌∷◌}
use nofx_cats_py.Prelude.Int.{pos, negsuc}
use nofx_cats_py.Dict.{Dict}
use nofx_cats_py.Num.{Number, num, lit}

pub record SymbolTierPolicy (F : Type 0) : Type 0 where
  pub max_leverage : F
  pub max_symbol_notional_pct : F
  pub enabled : Bool

pub record RiskPolicy (F : Type 0) : Type 0 where
  pub trade_risk_bps_default : F
  pub trade_risk_bps_max : F
  pub daily_drawdown_soft_pct : F
  pub daily_drawdown_hard_pct : F
  pub weekly_drawdown_hard_pct : F
  pub gross_exposure_soft : F
  pub gross_exposure_hard : F
  pub max_open_positions : ℕ
  pub min_liq_buffer_pct : F
  pub max_slippage_bps_over_model : F
  pub symbol_concentration_cap : F
  pub leverage_bracket_buffer : F
  pub cluster_caps : Dict String F

-- `RiskPolicy()`
abbrev pub default_policy : {F : Type 0} ⦃n : Number F⦄ → RiskPolicy F
default_policy = record {
  trade_risk_bps_default = num 35;
  trade_risk_bps_max = num 75;
  daily_drawdown_soft_pct = lit (negsuc 14) 1;
  daily_drawdown_hard_pct = lit (negsuc 2) 0;
  weekly_drawdown_hard_pct = lit (negsuc 5) 0;
  gross_exposure_soft = lit (pos 125) 2;
  gross_exposure_hard = num 3;
  max_open_positions = 4;
  min_liq_buffer_pct = num 18;
  max_slippage_bps_over_model = num 12;
  symbol_concentration_cap = lit (pos 35) 2;
  leverage_bracket_buffer = lit (pos 8) 1;
  cluster_caps =
      ("core", lit (pos 80) 2)
      ∷ ("liquid_alt", lit (pos 45) 2)
      ∷ ("experimental", lit (pos 15) 2)
      ∷ [];
}
