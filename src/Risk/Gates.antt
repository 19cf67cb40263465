-- ===== src/Risk/Gates.antt =====
-- What the gates of `RiskKernel.evaluate` guarantee, on every path.
use nofx_cats_py.Prelude.{
  ◌≡◌, ◌↔◌, ◌≢◌, ◌⊎◌, Bool, true, false, none, some, String, ltb, ◌||◌, ◌<◌, arith, string_eq,
  or_else,
}
use nofx_cats_py.Result.{ok, is_ok, next}
use nofx_cats_py.Dict.{lookup}
use nofx_cats_py.Num.{Number, ◌<?◌, ◌≤?◌, num}
use nofx_cats_py.Domain.Enums.{approved, halted, tier_eq}
use nofx_cats_py.Domain.Orders.{present}
use nofx_cats_py.Domain.Signals.{SignalCandidate, AccountSnapshot, RiskDecision}
use nofx_cats_py.Risk.Constitution.{RiskPolicy}
use nofx_cats_py.Risk.Kernel.{
  RiskKernel, account_gates, symbol_gates, sizing, evaluate, tier_of, cluster_of, cluster_exposure,
  trade_risk_budget,
}

module _ {F : Type 0} ⦃n : Number F⦄ where
  -- The conditions of the risk constitution under which trading stops altogether.
  abbrev pub must_halt : RiskPolicy F → AccountSnapshot F → Bool
  must_halt p a =
      a.kill_switch_active
      || a.state_mismatch
      || ltb 0 a.reconcile_failures
      || (num 90 <? a.user_stream_stale_seconds)
      || (a.daily_drawdown_pct ≤? p.daily_drawdown_hard_pct)
      || (a.weekly_drawdown_pct ≤? p.weekly_drawdown_hard_pct)

  -- A verdict is HALTED exactly when one of the halting conditions holds, whatever the signal.
  pub evaluate-halted_iff :
      (k : RiskKernel F) (s : SignalCandidate F) (a : AccountSnapshot F) {d : RiskDecision F}
      → evaluate k s a ≡ ok d
      → (d.status ≡ halted) ↔ (must_halt k.policy a ≡ true)
  unfolding evaluate account_gates symbol_gates sizing
  evaluate-halted_iff k s a h = ground arith

  -- The cluster that a signal counts towards.
  abbrev pub cluster_name : RiskKernel F → SignalCandidate F → String
  cluster_name k s = or_else (present s.cluster) (cluster_of k s.symbol)

  abbrev pub symbol_exposure : AccountSnapshot F → String → F
  symbol_exposure a symbol = or_else (lookup symbol a.symbol_gross_exposures) (num 0)

  -- The symbol's tier has a policy, and that policy is enabled.
  abbrev pub tier_enabled : RiskKernel F → String → Bool
  tier_enabled k symbol = elim (lookup (tier_of k symbol) k.tier_policies) [
    | none ↦ false
    | some tp ↦ tp.enabled
  ]

  -- An approved signal met no halting condition, left room under the hard cap on gross exposure, the
  -- number of positions and the symbol's concentration cap, and belongs to a tier that is enabled.
  pub approved_passed_gates :
      (k : RiskKernel F) (s : SignalCandidate F) (a : AccountSnapshot F) {d : RiskDecision F}
      → evaluate k s a ≡ ok d
      → d.status ≡ approved
      → (must_halt k.policy a ≡ false)
        × ((k.policy.gross_exposure_hard ≤? a.gross_exposure) ≡ false)
        × (a.open_positions < k.policy.max_open_positions)
        × ((k.policy.symbol_concentration_cap ≤? symbol_exposure a s.symbol) ≡ false)
        × (tier_enabled k s.symbol ≡ true)
  unfolding evaluate account_gates symbol_gates sizing
  approved_passed_gates k s a h e = ground arith

  -- An approved signal's cluster, where it has a cap, is below it.
  pub approved_cluster_below_cap :
      (k : RiskKernel F) (s : SignalCandidate F) (a : AccountSnapshot F) {d : RiskDecision F}
      (cap : F)
      → evaluate k s a ≡ ok d
      → d.status ≡ approved
      → lookup (cluster_name k s) k.policy.cluster_caps ≡ some cap
      → (cap ≤? cluster_exposure k a (cluster_name k s)) ≡ false
  unfolding evaluate account_gates symbol_gates sizing
  approved_cluster_below_cap k s a cap h e c = ground arith

  -- A verdict that is no approval grants nothing, and one that is has a positive notional and names its tier.
  pub evaluate_grants :
      (k : RiskKernel F) (s : SignalCandidate F) (a : AccountSnapshot F) {d : RiskDecision F}
      → evaluate k s a ≡ ok d
      → ((d.status ≢ approved)
          × (d.approved_notional ≡ num 0)
          × (d.approved_leverage ≡ num 0)
          × (d.risk_budget_bps ≡ num 0)
          × (d.symbol_tier ≡ none))
        ⊎ ((d.status ≡ approved)
            × ((d.approved_notional ≤? num 0) ≡ false)
            × (d.symbol_tier ≡ some (tier_of k s.symbol))
            × (d.risk_budget_bps ≡ trade_risk_budget k.policy s a))
  unfolding evaluate account_gates symbol_gates sizing
  evaluate_grants k s a h = ground arith

  -- A kernel with a policy for the symbol's tier never raises; without one, a signal that passes the
  -- gates on the account raises `KeyError`.
  pub evaluate-is_ok_iff :
      (k : RiskKernel F) (s : SignalCandidate F) (a : AccountSnapshot F)
      → (is_ok (evaluate k s a) ≡ false) ↔ (
          (account_gates k.policy a ≡ next tt)
          × (lookup (tier_of k s.symbol) k.tier_policies ≡ none))
  unfolding evaluate account_gates symbol_gates sizing
  evaluate-is_ok_iff k s a = ground arith
