-- ===== src/Tests/Risk.antt =====
-- The risk kernel on a concrete signal.
use nofx_cats_py.Prelude.{◌≡◌, ◌↔◌, refl, true, false, none, some, ◌<◌, string_eq}
use nofx_cats_py.Prelude.Int.{ℤ, pos}
use nofx_cats_py.Result.{ok, is_ok, next}
use nofx_cats_py.Dict.{lookup}
use nofx_cats_py.Num.{fixed, fixed-IsStrictOrder, ◌≤?◌, ◌*◌, ◌/◌, min_of, lit, max}
use nofx_cats_py.Domain.Enums.{approved, halted, tier_eq}
use nofx_cats_py.Domain.Signals.{RiskDecision}
use nofx_cats_py.Risk.Kernel.{
  evaluate, account_gates, symbol_gates, sizing, trade_risk_budget, tier_of, cluster_exposure,
  cluster_exposure_from,
}
use nofx_cats_py.Risk.Gates.{
  must_halt, evaluate-halted_iff, approved_passed_gates, evaluate-is_ok_iff, tier_enabled,
  symbol_exposure, cluster_name,
}
use nofx_cats_py.Risk.Bounds.{Within, approved-Within_caps, gross_room, symbol_room}
use nofx_cats_py.Tests.Samples.{kernel, snapshot, signal, core_policy, value_or, whole}

abbrev no_verdict : RiskDecision ℤ
no_verdict = record {
  status = halted;
  reason = "";
  symbol_tier = none;
  approved_notional = whole 0;
  approved_leverage = whole 0;
  risk_budget_bps = whole 0;
}

abbrev verdict : RiskDecision ℤ
unfolding evaluate
verdict = value_or no_verdict (evaluate kernel signal snapshot)

approves : evaluate kernel signal snapshot ≡ ok verdict
unfolding evaluate account_gates symbol_gates sizing lookup cluster_exposure cluster_exposure_from
    min_of trade_risk_budget
approves = refl

is_approval : verdict.status ≡ approved
unfolding evaluate account_gates symbol_gates sizing lookup cluster_exposure cluster_exposure_from
    min_of trade_risk_budget
is_approval = refl

has_policy : lookup (tier_of kernel signal.symbol) kernel.tier_policies ≡ some core_policy
unfolding lookup
has_policy = refl

core_cap : lookup (cluster_name kernel signal) kernel.policy.cluster_caps ≡ some (lit (pos 80) 2)
unfolding lookup
core_cap = refl

evaluate-halted_iff_example : (verdict.status ≡ halted) ↔ (must_halt kernel.policy snapshot ≡ true)
evaluate-halted_iff_example = evaluate-halted_iff kernel signal snapshot approves

approved_passed_gates_example :
    (must_halt kernel.policy snapshot ≡ false)
    × ((kernel.policy.gross_exposure_hard ≤? snapshot.gross_exposure) ≡ false)
    × (snapshot.open_positions < kernel.policy.max_open_positions)
    × ((kernel.policy.symbol_concentration_cap ≤? symbol_exposure snapshot signal.symbol) ≡ false)
    × (tier_enabled kernel signal.symbol ≡ true)
approved_passed_gates_example = approved_passed_gates kernel signal snapshot approves is_approval

evaluate-is_ok_iff_example : (is_ok (evaluate kernel signal snapshot) ≡ false) ↔ (
    (account_gates kernel.policy snapshot ≡ next tt)
    × (lookup (tier_of kernel signal.symbol) kernel.tier_policies ≡ none))
evaluate-is_ok_iff_example = evaluate-is_ok_iff kernel signal snapshot

approved-Within_caps_example :
    Within (snapshot.equity * gross_room kernel.policy snapshot) verdict.approved_notional
    × Within
        (snapshot.equity
          * (trade_risk_budget kernel.policy signal snapshot / whole 10000)
          / max signal.stop_distance_pct (lit (pos 1) 6))
        verdict.approved_notional
    × Within
        (snapshot.equity * (core_policy.max_symbol_notional_pct / whole 100))
        verdict.approved_notional
    × Within
        (snapshot.equity * symbol_room kernel.policy snapshot signal.symbol)
        verdict.approved_notional
    × Within core_policy.max_leverage verdict.approved_leverage
approved-Within_caps_example =
    approved-Within_caps fixed-IsStrictOrder kernel signal snapshot approves is_approval core_policy
      has_policy
