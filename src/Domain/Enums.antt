-- ===== src/Domain/Enums.antt =====
-- src/cats_py/domain/enums.py: the enumerations, their `.value` texts, and the membership tests that
-- the code makes on them.
use nofx_cats_py.Prelude.{◌≡◌, ◌↔◌, Bool, true, false, String, arith, Eq}

pub data Side : Type 0 where
  buy sell : Side

pub data OrderType : Type 0 where
  limit market stop stop_market take_profit take_profit_market trailing_stop_market : OrderType

pub data TimeInForce : Type 0 where
  gtc ioc fok gtx : TimeInForce

pub data MarketRegime : Type 0 where
  trend range crowding defense unknown_regime : MarketRegime

pub data SymbolTier : Type 0 where
  core liquid_alt experimental : SymbolTier

pub data RiskDecisionStatus : Type 0 where
  approved rejected halted : RiskDecisionStatus

pub data DecisionStatus : Type 0 where
  execute no_trade : DecisionStatus

pub data OrderLifecycleStatus : Type 0 where
  new partially_filled filled canceled expired refused triggered unknown : OrderLifecycleStatus

pub data PositionDirection : Type 0 where
  long short flat : PositionDirection

abbrev pub side_value : Side → String
side_value buy = "BUY"
side_value sell = "SELL"

abbrev pub order_type_value : OrderType → String
order_type_value limit = "LIMIT"
order_type_value market = "MARKET"
order_type_value stop = "STOP"
order_type_value stop_market = "STOP_MARKET"
order_type_value take_profit = "TAKE_PROFIT"
order_type_value take_profit_market = "TAKE_PROFIT_MARKET"
order_type_value trailing_stop_market = "TRAILING_STOP_MARKET"

abbrev pub time_in_force_value : TimeInForce → String
time_in_force_value gtc = "GTC"
time_in_force_value ioc = "IOC"
time_in_force_value fok = "FOK"
time_in_force_value gtx = "GTX"

abbrev pub tier_value : SymbolTier → String
tier_value core = "core"
tier_value liquid_alt = "liquid_alt"
tier_value experimental = "experimental"

abbrev pub lifecycle_value : OrderLifecycleStatus → String
lifecycle_value new = "NEW"
lifecycle_value partially_filled = "PARTIALLY_FILLED"
lifecycle_value filled = "FILLED"
lifecycle_value canceled = "CANCELED"
lifecycle_value expired = "EXPIRED"
lifecycle_value refused = "REJECTED"
lifecycle_value triggered = "TRIGGERED"
lifecycle_value unknown = "UNKNOWN"

abbrev pub direction_value : PositionDirection → String
direction_value long = "LONG"
direction_value short = "SHORT"
direction_value flat = "FLAT"

abbrev pub is_buy : Side → Bool
is_buy buy = true
is_buy sell = false

abbrev pub is_market : OrderType → Bool
is_market market = true
is_market _ = false

abbrev pub is_filled : OrderLifecycleStatus → Bool
is_filled filled = true
is_filled _ = false

abbrev pub is_long : PositionDirection → Bool
is_long long = true
is_long _ = false

abbrev pub is_short : PositionDirection → Bool
is_short short = true
is_short _ = false

abbrev pub is_trend : MarketRegime → Bool
is_trend trend = true
is_trend _ = false

abbrev pub is_range : MarketRegime → Bool
is_range range = true
is_range _ = false

abbrev pub is_crowding : MarketRegime → Bool
is_crowding crowding = true
is_crowding _ = false

abbrev pub is_defense : MarketRegime → Bool
is_defense defense = true
is_defense _ = false

abbrev pub is_approved : RiskDecisionStatus → Bool
is_approved approved = true
is_approved _ = false

abbrev pub is_execute : DecisionStatus → Bool
is_execute execute = true
is_execute no_trade = false

-- Tiers are the keys of the policy table.
abbrev pub tier_beq : SymbolTier → SymbolTier → Bool
tier_beq core core = true
tier_beq liquid_alt liquid_alt = true
tier_beq experimental experimental = true
tier_beq _ _ = false

pub tier_beq_iff : (a b : SymbolTier) → (tier_beq a b ≡ true) ↔ (a ≡ b)
tier_beq_iff a b = ground arith

instance abbrev pub tier_eq : Eq SymbolTier
tier_eq = record { beq = tier_beq; beq_iff = tier_beq_iff }
