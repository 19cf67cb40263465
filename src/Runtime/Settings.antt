-- ===== src/Runtime/Settings.antt =====
-- src/cats_py/config/settings.py: the settings that the program runs under. Reading them from the
-- environment and from YAML files is the configuration library's work.
use nofx_cats_py.Prelude.{ℕ, String, List}
use nofx_cats_py.Json.{Json}

pub data RuntimeMode : Type 0 where
  shadow paper live_micro live : RuntimeMode

abbrev pub mode_value : RuntimeMode → String
mode_value shadow = "shadow"
mode_value paper = "paper"
mode_value live_micro = "live_micro"
mode_value live = "live"

-- The fields that the bootstrap reads.
pub record RuntimeSettings : Type 0 where
  pub env : String
  pub mode : RuntimeMode
  pub nofx_api_key : String
  pub binance_api_key : String
  pub binance_api_secret : String

pub record AppConfig (F : Type 0) : Type 0 where
  pub mode : RuntimeMode
  pub core_loop_interval_seconds : ℕ
  pub user_stream_stale_kill_seconds : ℕ
  pub nofx_stale_kill_seconds : ℕ
  pub paper_starting_balance : F
  pub paper_fill_slippage_bps : F
  pub paper_taker_fee_bps : F
  pub paper_funding_interval_hours : F
  pub exit_stop_loss_pct : F
  pub exit_take_profit_pct : F
  pub exit_max_hold_hours : F
  pub exit_trailing_stop_pct : F
  pub exit_cooldown_minutes : F
  pub nofx : Json F
  pub binance : Json F

pub record SymbolConfig : Type 0 where
  pub core : List String
  pub liquid_alt : List String
  pub experimental : List String
