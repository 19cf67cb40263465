-- ===== src/Risk/Bounds.antt =====
-- The size of an approved position: no cap of the constitution is exceeded.
use mathlib.Core.List.{append-nil}
use mathlib.Core.Option.{some-injective}
use nofx_cats_py.Prelude.{
  ◌≡◌, string_eq, String, false, Option, none, some, List, [], ◌++◌, subst, arith, All,
}
use nofx_cats_py.Prelude.Int.{pos}
use nofx_cats_py.Result.{ok}
use nofx_cats_py.Num.{
  Number, IsStrictOrder, ◌-◌, ◌*◌, ◌/◌, ◌<?◌, num, lit, min, max, min_of, min_of-All,
  not_above_min_right,
}
use nofx_cats_py.Domain.Enums.{approved, tier_eq}
use nofx_cats_py.Domain.Signals.{SignalCandidate, AccountSnapshot, RiskDecision}
use nofx_cats_py.Risk.Constitution.{RiskPolicy, SymbolTierPolicy}
use nofx_cats_py.Risk.Kernel.{
  RiskKernel, SymbolLimits, account_gates, symbol_gates, sizing, evaluate, further_caps,
  cluster_room, bracket_room, trade_risk_budget, append_if, tier_of, cluster_exposure,
}
use nofx_cats_py.Risk.Gates.{symbol_exposure, cluster_name}
use nofx_cats_py.Dict.{lookup}

module _ {F : Type 0} ⦃n : Number F⦄ where
  All-append_if :
      (P : F → Type 0) (o : Option F) (f : F → F) (rest : List F)
      → All P (append_if o f ++ rest)
      → {x : F} → o ≡ some x
      → P (f x)
  All-append_if P none f rest h e = cc
  All-append_if P (some y) f rest h e = subst (λ z. P (f z)) (some-injective _ _ e) h.0

  All-append_rest :
      (P : F → Type 0) (o : Option F) (f : F → F) (rest : List F)
      → All P (append_if o f ++ rest)
      → All P rest
  All-append_rest P none f rest h = h
  All-append_rest P (some y) f rest h = h.1

  -- The limits that the gates compute for a tier's policy.
  abbrev limits_of :
      RiskKernel F → SignalCandidate F → AccountSnapshot F → SymbolTierPolicy F → SymbolLimits F
  limits_of k s a tp = record {
    tier = tier_of k s.symbol;
    tier_policy = tp;
    symbol_exposure = symbol_exposure a s.symbol;
    cluster_cap = lookup (cluster_name k s) k.policy.cluster_caps;
    cluster_exposure = cluster_exposure k a (cluster_name k s);
  }

  abbrev pub gross_room : RiskPolicy F → AccountSnapshot F → F
  gross_room p a = max (p.gross_exposure_soft - a.gross_exposure) (num 0)

  abbrev pub symbol_room : RiskPolicy F → AccountSnapshot F → String → F
  symbol_room p a symbol = max (p.symbol_concentration_cap - symbol_exposure a symbol) (num 0)

  abbrev all_further_caps :
      RiskKernel F → SignalCandidate F → AccountSnapshot F → SymbolTierPolicy F → List F
  all_further_caps k s a tp =
      let l = limits_of k s a tp in
      further_caps a s l (trade_risk_budget k.policy s a) (symbol_room k.policy a s.symbol)
        (cluster_room l) (bracket_room k.policy s)

  -- `x` does not exceed `bound`. With NaN on either side nothing is exceeded, as in the source's tests.
  abbrev pub Within : F → F → Type 0
  Within bound x = (bound <? x) ≡ false

  module _ (k : RiskKernel F) (s : SignalCandidate F) (a : AccountSnapshot F)
      {d : RiskDecision F} where
    approved_notional_eq :
        (tp : SymbolTierPolicy F)
        → evaluate k s a ≡ ok d
        → d.status ≡ approved
        → lookup (tier_of k s.symbol) k.tier_policies ≡ some tp
        → (d.approved_notional
            ≡ min_of (a.equity * gross_room k.policy a) (all_further_caps k s a tp))
          × (d.approved_leverage
              ≡ min
                  (max (d.approved_notional / max a.equity (lit (pos 1) 6)) (num 1))
                  tp.max_leverage)
    unfolding evaluate account_gates symbol_gates sizing
    approved_notional_eq tp h e t = ground arith

  module _ (order : IsStrictOrder F) (k : RiskKernel F) (s : SignalCandidate F)
      (a : AccountSnapshot F) {d : RiskDecision F} (verdict : evaluate k s a ≡ ok d)
      (accepted : d.status ≡ approved) where
    -- The notional that is approved exceeds neither the room that is left under the soft cap on gross
    -- exposure, nor what the risk budget allows at the stop distance, nor the tier's share of the
    -- equity, nor the symbol's room; and the leverage does not exceed the tier's.
    pub approved-Within_caps :
        (tp : SymbolTierPolicy F)
        → lookup (tier_of k s.symbol) k.tier_policies ≡ some tp
        → Within (a.equity * gross_room k.policy a) d.approved_notional
          × Within
              (a.equity
                * (trade_risk_budget k.policy s a / num 10000)
                / max s.stop_distance_pct (lit (pos 1) 6))
              d.approved_notional
          × Within (a.equity * (tp.max_symbol_notional_pct / num 100)) d.approved_notional
          × Within (a.equity * symbol_room k.policy a s.symbol) d.approved_notional
          × Within tp.max_leverage d.approved_leverage
    approved-Within_caps tp t =
        let (notional, leverage) = approved_notional_eq k s a tp verdict accepted t in
        let caps =
          min_of-All order (all_further_caps k s a tp) (a.equity * gross_room k.policy a) in
        rw (leverage, notional)
          (caps.0, caps.1.0, caps.1.1.0, caps.1.1.1.0, not_above_min_right order _ tp.max_leverage)

    optional_caps_hold :
        (tp : SymbolTierPolicy F)
        → lookup (tier_of k s.symbol) k.tier_policies ≡ some tp
        → let l = limits_of k s a tp in
          All
            (λ cap. Within cap d.approved_notional)
            (append_if (cluster_room l) (λ room. a.equity * room)
              ++ append_if (bracket_room k.policy s) (λ cap. cap))
    optional_caps_hold tp t =
        let caps =
          min_of-All order (all_further_caps k s a tp) (a.equity * gross_room k.policy a) in
        rw ((approved_notional_eq k s a tp verdict accepted t).0) (caps.1.1.1.1)

    -- Where the signal's cluster has a cap, the notional does not exceed the room that is left under it.
    pub approved-Within_cluster_cap :
        (tp : SymbolTierPolicy F) (cap : F)
        → lookup (tier_of k s.symbol) k.tier_policies ≡ some tp
        → lookup (cluster_name k s) k.policy.cluster_caps ≡ some cap
        → Within
            (a.equity * max (cap - cluster_exposure k a (cluster_name k s)) (num 0))
            d.approved_notional
    approved-Within_cluster_cap tp cap t e =
        let l = limits_of k s a tp in
        All-append_if (λ (cap : F). Within cap d.approved_notional) (cluster_room l)
          (λ room. a.equity * room) _ (optional_caps_hold tp t) (rw e)

    -- Where the signal names the cap of its leverage bracket, the notional does not exceed that cap
    -- with the policy's buffer.
    pub approved-Within_bracket_cap :
        (tp : SymbolTierPolicy F) (cap : F)
        → lookup (tier_of k s.symbol) k.tier_policies ≡ some tp
        → s.leverage_bracket_cap ≡ some cap
        → Within (cap * k.policy.leverage_bracket_buffer) d.approved_notional
    approved-Within_bracket_cap tp cap t e =
        let l = limits_of k s a tp in
        let P = λ (cap : F). Within cap d.approved_notional in
        let caps =
          All-append_rest P (cluster_room l) (λ room. a.equity * room) _
            (optional_caps_hold tp t) in
        All-append_if P (bracket_room k.policy s) (λ c. c) [] (rw append-nil caps) (rw e)
