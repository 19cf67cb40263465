-- ===== src/Risk/Kernel.antt =====
-- src/cats_py/risk/kernel.py: `RiskKernel.evaluate`, an early return being a `leave`. The function is
-- in three parts: the gates on the account, those on the symbol and its cluster, and the sizing.
use nofx_cats_py.Prelude.{
  Bool, false, not, Option, none, some, String, List, [], ◌∷◌, ◌++◌, ltb, leb, string_eq, ◌==◌,
  or_else, if◌then◌else◌,
}
use nofx_cats_py.Prelude.Int.{pos}
use nofx_cats_py.Result.{
  Result, ok, raise, key_error, Flow, leave, next, ◌>>=◌, ◌>>◌, leave_if, returned,
}
use nofx_cats_py.Dict.{Dict, lookup}
use nofx_cats_py.Num.{Number, ◌+◌, ◌-◌, ◌*◌, ◌/◌, ◌<?◌, ◌≤?◌, num, lit, min, max, min_of}
use nofx_cats_py.Domain.Enums.{
  RiskDecisionStatus, approved, rejected, halted, SymbolTier, experimental, tier_value, tier_eq,
}
use nofx_cats_py.Domain.Orders.{present}
use nofx_cats_py.Domain.Signals.{SignalCandidate, AccountSnapshot, RiskDecision}
use nofx_cats_py.Risk.Constitution.{RiskPolicy, SymbolTierPolicy}

pub record RiskKernel (F : Type 0) : Type 0 where
  pub policy : RiskPolicy F
  pub tier_policies : Dict SymbolTier (SymbolTierPolicy F)
  pub symbol_tiers : Dict String SymbolTier
  pub symbol_clusters : Dict String String

-- What the gates on the symbol hand to the sizing.
pub record SymbolLimits (F : Type 0) : Type 0 where
  pub tier : SymbolTier
  pub tier_policy : SymbolTierPolicy F
  pub symbol_exposure : F
  pub cluster_cap : Option F
  pub cluster_exposure : F

abbrev pub Verdict : Type 0 → Type 0
Verdict F = Result (RiskDecision F)

module _ {F : Type 0} ⦃n : Number F⦄ where
  -- `RiskDecision(status=…, reason=…)`, the sizes at their defaults.
  abbrev pub refusal : RiskDecisionStatus → String → Verdict F
  refusal status reason = ok (record {
    status = status;
    reason = reason;
    symbol_tier = none;
    approved_notional = num 0;
    approved_leverage = num 0;
    risk_budget_bps = num 0;
  })

  -- lines 22-44
  unfoldable pub account_gates : RiskPolicy F → AccountSnapshot F → Flow (Verdict F) (Unit {0})
  account_gates p a = do
    leave_if a.kill_switch_active (refusal halted "state kill switch active")
    leave_if a.state_mismatch (refusal halted "account state mismatch")
    leave_if (ltb 0 a.reconcile_failures) (refusal halted "account reconciliation failed")
    leave_if (num 90 <? a.user_stream_stale_seconds) (refusal halted "user stream stale")
    leave_if (a.daily_drawdown_pct ≤? p.daily_drawdown_hard_pct)
        (refusal halted "daily hard drawdown reached")
    leave_if (a.weekly_drawdown_pct ≤? p.weekly_drawdown_hard_pct)
        (refusal halted "weekly hard drawdown reached")
    leave_if (p.gross_exposure_hard ≤? a.gross_exposure)
        (refusal rejected "gross exposure hard cap")
    leave_if (leb p.max_open_positions a.open_positions)
        (refusal rejected "max open positions reached")

  -- `symbol_tiers.get(symbol, SymbolTier.EXPERIMENTAL)`
  abbrev pub tier_of : RiskKernel F → String → SymbolTier
  tier_of k symbol = or_else (lookup symbol k.symbol_tiers) experimental

  -- `symbol_clusters.get(symbol, tier.value)`
  abbrev pub cluster_of : RiskKernel F → String → String
  cluster_of k symbol = or_else (lookup symbol k.symbol_clusters) (tier_value (tier_of k symbol))

  -- The loop of `_cluster_exposure`.
  unfoldable pub cluster_exposure_from : RiskKernel F → String → F → Dict String F → F
  cluster_exposure_from k cluster total [] = total
  cluster_exposure_from k cluster total ((symbol, exposure) ∷ rest) =
      cluster_exposure_from k cluster
        (if cluster_of k symbol == cluster then total + exposure else total) rest

  unfoldable pub cluster_exposure : RiskKernel F → AccountSnapshot F → String → F
  unfolding cluster_exposure_from
  cluster_exposure k a cluster = cluster_exposure_from k cluster (num 0) a.symbol_gross_exposures

  -- `cap is not None and exposure >= cap`
  abbrev pub cap_reached : Option F → F → Bool
  cap_reached none exposure = false
  cap_reached (some cap) exposure = cap ≤? exposure

  -- lines 46-59
  unfoldable pub symbol_gates :
      RiskKernel F → SignalCandidate F → AccountSnapshot F → Flow (Verdict F) (SymbolLimits F)
  symbol_gates k s a =
      let tier = tier_of k s.symbol in
      let exposure = or_else (lookup s.symbol a.symbol_gross_exposures) (num 0) in
      let cluster = or_else (present s.cluster) (cluster_of k s.symbol) in
      let cap = lookup cluster k.policy.cluster_caps in
      elim (lookup tier k.tier_policies) [
        | none ↦ leave (raise (key_error (tier_value tier)))
        | some tp ↦ do
          leave_if (not tp.enabled) (refusal rejected "symbol tier disabled")
          leave_if (k.policy.symbol_concentration_cap ≤? exposure)
              (refusal rejected "symbol concentration cap reached")
          leave_if (cap_reached cap (cluster_exposure k a cluster))
              (refusal rejected "cluster cap reached")
          next (record {
            tier = tier;
            tier_policy = tp;
            symbol_exposure = exposure;
            cluster_cap = cap;
            cluster_exposure = cluster_exposure k a cluster;
          })
      ]

  -- lines 61-67
  unfoldable pub trade_risk_budget : RiskPolicy F → SignalCandidate F → AccountSnapshot F → F
  trade_risk_budget p s a =
      let budget = min (p.trade_risk_bps_default * s.conviction) p.trade_risk_bps_max in
      if a.daily_drawdown_pct ≤? p.daily_drawdown_soft_pct then budget * lit (pos 5) 1 else budget

  -- A headroom that must be positive, if there is a cap at all (lines 77-81 and 83-87).
  abbrev pub positive_if_capped : Option F → String → Flow (Verdict F) (Option F)
  positive_if_capped none reason = next none
  positive_if_capped (some room) reason = do
    leave_if (room ≤? num 0) (refusal rejected reason)
    next (some room)

  abbrev pub cluster_room : SymbolLimits F → Option F
  cluster_room l = elim l.cluster_cap [
    | none ↦ none
    | some cap ↦ some (max (cap - l.cluster_exposure) (num 0))
  ]

  abbrev pub bracket_room : RiskPolicy F → SignalCandidate F → Option F
  bracket_room p s = elim s.leverage_bracket_cap [
    | none ↦ none
    | some cap ↦ some (cap * p.leverage_bracket_buffer)
  ]

  abbrev pub append_if : Option F → (F → F) → List F
  append_if none f = []
  append_if (some x) f = f x ∷ []

  -- `notional_caps` behind its first element (lines 91-98).
  abbrev pub further_caps :
      AccountSnapshot F
      → SignalCandidate F
      → SymbolLimits F
      → (budget remaining_symbol : F) → (remaining_cluster bracket : Option F) → List F
  further_caps a s l budget remaining_symbol remaining_cluster bracket =
      a.equity * (budget / num 10000) / max s.stop_distance_pct (lit (pos 1) 6)
      ∷ a.equity * (l.tier_policy.max_symbol_notional_pct / num 100)
      ∷ a.equity * remaining_symbol
      ∷ (append_if remaining_cluster (λ room. a.equity * room) ++ append_if bracket (λ cap. cap))

  abbrev pub approval : SymbolLimits F → (equity notional budget : F) → Verdict F
  approval l equity notional budget = ok (record {
    status = approved;
    reason = "approved";
    symbol_tier = some l.tier;
    approved_notional = notional;
    approved_leverage =
        min (max (notional / max equity (lit (pos 1) 6)) (num 1)) l.tier_policy.max_leverage;
    risk_budget_bps = budget;
  })

  -- lines 69-113
  unfoldable pub sizing :
      RiskPolicy F
      → SignalCandidate F
      → AccountSnapshot F
      → SymbolLimits F
      → Flow (Verdict F) (Verdict F)
  sizing p s a l =
      let budget = trade_risk_budget p s a in
      let remaining_gross = max (p.gross_exposure_soft - a.gross_exposure) (num 0) in
      let remaining_symbol = max (p.symbol_concentration_cap - l.symbol_exposure) (num 0) in
      do
        leave_if (remaining_gross ≤? num 0)
            (refusal rejected "gross exposure soft headroom exhausted")
        leave_if (remaining_symbol ≤? num 0) (refusal rejected "symbol concentration cap reached")
        remaining_cluster ← positive_if_capped (cluster_room l) "cluster cap reached"
        bracket ← positive_if_capped (bracket_room p s) "leverage bracket cap unavailable"
        let notional =
            min_of (a.equity * remaining_gross)
              (further_caps a s l budget remaining_symbol remaining_cluster bracket)
        leave_if (notional ≤? num 0) (refusal rejected "approved notional <= 0")
        next (approval l a.equity notional budget)

  unfoldable pub evaluate : RiskKernel F → SignalCandidate F → AccountSnapshot F → Verdict F
  evaluate k s a =
      returned
        (do account_gates k.policy a; limits ← symbol_gates k s a; sizing k.policy s a limits)
